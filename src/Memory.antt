-- ===== src/Memory.antt =====
-- include/mem.h and lib/mem.c: pools of memory blocks, each with a descriptor before it and a mark
-- behind it. Sizes and addresses are 64-bit. The descriptors of a pool are linked in the order of
-- their list; `desc` is the pointer to one of them that the pool holds, 0 for null.
pub mod Aligned
pub mod Resize
pub mod Sums
pub mod Accounts
pub mod Sound
pub mod Freeing
pub mod RoundTrip
pub mod Moving
pub mod Services
pub mod ServiceLaws
use efi_wrapper.Prelude.{
  ℕ, zero, suc, ◌+◌, ◌-◌, ◌*◌, ◌%◌, ◌^◌, bit_and, Bool, true, false, not, ◌&&◌, ◌||◌, ◌==◌, ltb,
  leb, Option, none, some, List, [], ◌∷◌, if◌then◌else◌,
}

-- mem_desc without its links, its checksum and its pool. A descriptor stands right before its
-- buffer, so `buff` is `addr + desc_size`.
pub record Desc : Type 0 where
  pub addr : ℕ
  pub start : ℕ
  pub offset : ℕ
  pub align : ℕ
  pub size : ℕ
  pub real_size : ℕ

-- A descriptor in memory: its checksum, and whether its mark and the one behind the buffer are
-- whole, which the user of the buffer may have overwritten.
pub record Block : Type 0 where
  pub desc : Desc
  pub crc : ℕ
  pub magic : Bool
  pub foot : Bool

pub record Pool : Type 0 where
  pub magic : Bool
  pub count : ℕ
  pub used_size : ℕ
  pub alloc_size : ℕ
  pub desc : ℕ
  pub blocks : List Block

-- sizeof(mem_desc) and sizeof(mem_head)
abbrev pub desc_size : ℕ
desc_size = 80

abbrev pub head_size : ℕ
head_size = 8

abbrev pub word : ℕ
word = 2 ^ 64

-- What a function gives for a buffer: a null pointer with the pool as before, or the buffer and the
-- pool. `aborted` is a call of `abort`, `dangling` a read through a pointer to a freed descriptor.
pub data Buffer : Type 0 where
  null : Buffer
  at : ℕ → Pool → Buffer
  aborted : Buffer
  dangling : Buffer

-- What freeing gives.
pub data Freed : Type 0 where
  freed : Pool → Freed
  aborts : Freed
  reads_freed : Freed

abbrev pub is_freed : Freed → Bool
is_freed (freed pool) = true
is_freed aborts = false
is_freed reads_freed = false

abbrev pub first_addr : List Block → ℕ
first_addr [] = 0
first_addr (b ∷ blocks) = b.desc.addr

abbrev pub find_block : ℕ → List Block → Option Block
find_block a [] = none
find_block a (b ∷ blocks) = if b.desc.addr == a then some b else find_block a blocks

abbrev pub has : ℕ → List Block → Bool
has a [] = false
has a (b ∷ blocks) = (b.desc.addr == a) || has a blocks

-- The pool's pointer is null or at one of its descriptors.
abbrev pub is_held : Pool → Bool
is_held pool = pool.desc == 0 || has pool.desc pool.blocks

-- The address of the node before a block; 0 for the first.
abbrev pub prev_addr : ℕ → ℕ → List Block → ℕ
prev_addr prev a [] = 0
prev_addr prev a (b ∷ blocks) = if b.desc.addr == a then prev else prev_addr b.desc.addr a blocks

abbrev pub next_addr : ℕ → List Block → ℕ
next_addr a [] = 0
next_addr a (b ∷ blocks) = if b.desc.addr == a then first_addr blocks else next_addr a blocks

-- `s_crc32` over a descriptor with a checksum of 0, whose bytes hold the links too.
module _ (s_crc32 : Desc → ℕ → ℕ → ℕ) where
  -- update_sum
  abbrev pub update_sum : ℕ → Block → ℕ → Block
  update_sum prev b next = record {
    desc = b.desc;
    crc = s_crc32 b.desc prev next;
    magic = b.magic;
    foot = b.foot;
  }

  -- check_buffer on the block at a descriptor's address.
  unfoldable pub check_buffer : Pool → Block → Bool
  check_buffer pool b =
      b.magic
      && (b.crc
          == s_crc32 b.desc (prev_addr 0 b.desc.addr pool.blocks)
              (next_addr b.desc.addr pool.blocks))
      && pool.magic
      && leb b.desc.real_size pool.used_size
      && leb b.desc.size pool.alloc_size
      && (b.desc.start + b.desc.offset == b.desc.addr + desc_size)

  -- list_obj_add, with the checksums of the new last block and of the one before it.
  unfoldable pub push_block : ℕ → List Block → Block → List Block
  push_block prev [] new = update_sum prev new 0 ∷ []
  push_block prev (b ∷ []) new = update_sum prev b new.desc.addr ∷ update_sum b.desc.addr new 0 ∷ []
  push_block prev (b ∷ c ∷ blocks) new = b ∷ push_block b.desc.addr (c ∷ blocks) new

  abbrev pub sum_first : ℕ → List Block → List Block
  sum_first prev [] = []
  sum_first prev (b ∷ blocks) = update_sum prev b (first_addr blocks) ∷ blocks

  -- list_obj_strip, with the checksums of both neighbours.
  unfoldable pub strip_block : ℕ → ℕ → List Block → List Block
  strip_block prev a [] = []
  strip_block prev a (b ∷ []) = if b.desc.addr == a then [] else b ∷ []
  strip_block prev a (b ∷ c ∷ blocks) =
      let rest = b ∷ strip_block b.desc.addr a (c ∷ blocks) in
      if b.desc.addr == a
      then sum_first prev (c ∷ blocks)
      else if c.desc.addr == a
      then update_sum prev b (first_addr blocks) ∷ sum_first b.desc.addr blocks
      else rest

  -- The pool with one more block at its end.
  abbrev pub with_block : Pool → Desc → Pool
  with_block pool d = record {
    magic = pool.magic;
    count = (pool.count + 1) % word;
    used_size = (pool.used_size + d.real_size) % word;
    alloc_size = (pool.alloc_size + d.size) % word;
    desc = if pool.desc == 0 then d.addr else pool.desc;
    blocks = push_block 0 pool.blocks (record { desc = d; crc = 0; magic = true; foot = true });
  }

  -- What the pool's allocator gives for a number of bytes: the address of the block.
  module _ (allocate : ℕ → Option ℕ) where
    abbrev pub allocated : Pool → ℕ → ℕ → Option ℕ → Buffer
    allocated pool size ms none = null
    allocated pool size ms (some start) =
        let d : Desc = record {
          addr = start;
          start = start;
          offset = desc_size;
          align = 0;
          size = size;
          real_size = ms;
        } in
        if is_held pool then at (start + desc_size) (with_block pool d) else dangling

    unfoldable pub mem_allocate : Pool → ℕ → Buffer
    unfolding push_block
    mem_allocate pool size =
        if size == 0 || not pool.magic
        then null
        else let ms = (desc_size + size + head_size) % word in allocated pool size ms (allocate ms)

  abbrev pub moved_desc : Pool → ℕ → ℕ
  moved_desc pool a =
      if not (pool.desc == a)
      then pool.desc
      else let next = next_addr a pool.blocks in
        if next == 0 then prev_addr 0 a pool.blocks else next

  abbrev pub without_block : Pool → Block → Pool
  without_block pool b = record {
    magic = pool.magic;
    count = (pool.count + word - 1) % word;
    used_size = (pool.used_size + word - b.desc.real_size) % word;
    alloc_size = (pool.alloc_size + word - b.desc.size) % word;
    desc = moved_desc pool b.desc.addr;
    blocks = strip_block 0 b.desc.addr pool.blocks;
  }

  abbrev pub free_found : Pool → Option Block → Freed
  free_found pool none = aborts
  free_found pool (some b) =
      if not (check_buffer pool b && b.foot)
      then aborts
      else if pool.desc == 0
      then aborts
      else if has pool.desc pool.blocks
      then freed (without_block pool b)
      else reads_freed

  -- A null pointer fails the checks. The descriptor is looked for right before the buffer; what is
  -- not one of the pool's fails its checks too.
  unfoldable pub mem_free : Pool → ℕ → Freed
  unfolding check_buffer strip_block
  mem_free pool buff =
      if buff == 0 then aborts else free_found pool (find_block (buff - desc_size) pool.blocks)

  -- check_buffer also writes the right checksum into the descriptor, whatever stood there.
  abbrev pub corrected : ℕ → ℕ → List Block → List Block
  corrected prev a [] = []
  corrected prev a (b ∷ blocks) =
      if b.desc.addr == a
      then (if b.magic then update_sum prev b (first_addr blocks) else b) ∷ blocks
      else b ∷ corrected b.desc.addr a blocks

  abbrev pub with_blocks : List Block → Pool → Pool
  with_blocks blocks pool = record {
    magic = pool.magic;
    count = pool.count;
    used_size = pool.used_size;
    alloc_size = pool.alloc_size;
    desc = pool.desc;
    blocks = blocks;
  }

  abbrev pub checked : Pool → Option Block → Option Block
  checked pool none = none
  checked pool (some b) = if check_buffer pool b then some b else none

  -- The descriptor of a buffer, and the pool after the check. A null pointer has none.
  unfoldable pub mem_get_desc : Pool → ℕ → Option Block × Pool
  unfolding check_buffer
  mem_get_desc pool buff =
      let a = buff - desc_size in
      if buff == 0
      then (none, pool)
      else (checked pool (find_block a pool.blocks), with_blocks (corrected 0 a pool.blocks) pool)
