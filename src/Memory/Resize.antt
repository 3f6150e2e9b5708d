-- ===== src/Memory/Resize.antt =====
-- lib/mem.c: giving a buffer another size.
use efi_wrapper.Prelude.{
  ℕ, ◌+◌, ◌-◌, ◌%◌, true, not, ◌&&◌, ◌||◌, ◌==◌, Option, none, some, List, [], ◌∷◌, if◌then◌else◌,
}
use efi_wrapper.Memory.{
  Desc, Block, Pool, Buffer, null, at, aborted, dangling, desc_size, head_size, word, first_addr,
  has, find_block, update_sum, check_buffer,
}

module _ (s_crc32 : Desc → ℕ → ℕ → ℕ) where
  -- The descriptor is copied to its new place; the neighbours point there and get new checksums.
  unfoldable pub move_block : ℕ → ℕ → Desc → List Block → List Block
  move_block prev a d [] = []
  move_block prev a d (b ∷ []) =
      if b.desc.addr == a
      then update_sum s_crc32 prev (record { desc = d; crc = 0; magic = true; foot = true }) 0 ∷ []
      else b ∷ []
  move_block prev a d (b ∷ c ∷ blocks) =
      let rest = b ∷ move_block b.desc.addr a d (c ∷ blocks) in
      let here =
        update_sum s_crc32 prev (record { desc = d; crc = 0; magic = true; foot = true })
          c.desc.addr
        ∷ update_sum s_crc32 d.addr c (first_addr blocks)
        ∷ blocks in
      let before = update_sum s_crc32 prev b d.addr ∷ move_block b.desc.addr a d (c ∷ blocks) in
      if b.desc.addr == a then here else if c.desc.addr == a then before else rest

  -- The pool's own pointer stays where it was.
  abbrev pub resized : Pool → Block → ℕ → ℕ → ℕ → Pool
  resized pool b start size ms =
      let d : Desc = record {
        addr = start;
        start = start;
        offset = b.desc.offset;
        align = 0;
        size = size;
        real_size = ms;
      } in
      record {
        magic = pool.magic;
        count = pool.count;
        used_size = (pool.used_size + word - b.desc.real_size + ms) % word;
        alloc_size = (pool.alloc_size + word - b.desc.size + size) % word;
        desc = pool.desc;
        blocks = move_block 0 b.desc.addr d pool.blocks;
      }

  -- `reallocate` gives the new address of the pool's block for a number of bytes.
  module _ (reallocate : ℕ → ℕ → Option ℕ) where
    abbrev pub reallocated : Pool → Block → ℕ → ℕ → Option ℕ → Buffer
    reallocated pool b size ms none = aborted
    reallocated pool b size ms (some start) = at (start + desc_size) (resized pool b start size ms)

    abbrev pub reallocate_found : Pool → ℕ → ℕ → Option Block → Buffer
    reallocate_found pool ptr size none = aborted
    reallocate_found pool ptr size (some b) =
        if not (check_buffer s_crc32 pool b && b.foot)
        then aborted
        else if not (b.desc.align == 0)
        then null
        else if b.desc.size == size
        then at ptr pool
        else if pool.desc == 0
        then aborted
        else if not (has pool.desc pool.blocks)
        then dangling
        else let ms = (desc_size + size + head_size) % word in
          reallocated pool b size ms (reallocate b.desc.start ms)

    unfoldable pub mem_reallocate : Pool → ℕ → ℕ → Buffer
    unfolding move_block
    mem_reallocate pool ptr size =
        if ptr == 0 || size == 0
        then null
        else reallocate_found pool ptr size (find_block (ptr - desc_size) pool.blocks)
