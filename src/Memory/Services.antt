-- ===== src/Memory/Services.antt =====
-- efi-wrapper/efi/tables/memory.c: the services for pages and pool memory, over all the pools there
-- are: those of the context, one or none for each type of memory, and others, such as the global
-- pool of lib/mem.c. A descriptor is in the list of the pool that its `pool` points to.
use efi_wrapper.Prelude.{
  ℕ, zero, suc, ◌-◌, ◌*◌, ◌/◌, ◌%◌, ◌^◌, Bool, true, false, not, ◌||◌, ◌==◌, leb, Option, none,
  some, List, [], ◌∷◌, if◌then◌else◌,
}
use efi_wrapper.Status.{
  EfiStatus, success, not_ready, invalid_parameter, not_found, unsupported, out_of_resources,
}
use efi_wrapper.Memory.{
  Desc, Block, Pool, Buffer, null, at, aborted, dangling, Freed, freed, aborts, reads_freed,
  desc_size, word, has, mem_allocate, mem_free, mem_get_desc,
}
use efi_wrapper.Memory.Aligned.{mem_aligned_allocate}

-- efi_max_memory_type
abbrev pub efi_max_memory_type : ℕ
efi_max_memory_type = 15

abbrev pub page_size : ℕ
page_size = 4096

-- A mem_pool with its address, and what its user keeps in `userdata[0]` and `userdata[2]`.
pub record PoolAt : Type 0 where
  pub addr : ℕ
  pub userdata0 : ℕ
  pub userdata2 : ℕ
  pub pool : Pool

-- The pointers `mem[type].pool` of a context, 0 for null, and the pools in memory.
pub record Pools : Type 0 where
  pub mem : List ℕ
  pub pools : List PoolAt

abbrev pub mem_pool : List ℕ → ℕ → ℕ
mem_pool [] type = 0
mem_pool (p ∷ mem) zero = p
mem_pool (p ∷ mem) (suc type) = mem_pool mem type

unfoldable pub find_pool : ℕ → List PoolAt → Option PoolAt
find_pool a [] = none
find_pool a (p ∷ pools) = if p.addr == a then some p else find_pool a pools

abbrev pub with_pool : Pool → PoolAt → PoolAt
with_pool pool p = record {
  addr = p.addr;
  userdata0 = p.userdata0;
  userdata2 = p.userdata2;
  pool = pool;
}

unfoldable pub set_pool : ℕ → Pool → List PoolAt → List PoolAt
set_pool a pool [] = []
set_pool a pool (p ∷ pools) =
    if p.addr == a then with_pool pool p ∷ pools else p ∷ set_pool a pool pools

abbrev pub stored : Pools → ℕ → Pool → Pools
stored c a pool = record { mem = c.mem; pools = set_pool a pool c.pools }

-- `desc->pool` of the descriptor at an address. check_buffer refuses a descriptor without a pool, so
-- the test for a null `desc->pool` behind it never holds.
unfoldable pub owner : ℕ → List PoolAt → Option PoolAt
owner a [] = none
owner a (p ∷ pools) = if has a p.pool.blocks then some p else owner a pools

module _ (s_crc32 : Desc → ℕ → ℕ → ℕ) where
  -- The status, what is written to the caller's pointer, and the pools. `none` stands for a call of
  -- `abort` and for a step to a descriptor or a pool that is gone.
  abbrev pub allocated_in : EfiStatus → Pools → ℕ → Buffer → Option (EfiStatus × ℕ × Pools)
  allocated_in failed c a null = some (failed, 0, c)
  allocated_in failed c a (at buff pool) = some (success, buff, stored c a pool)
  allocated_in failed c a aborted = none
  allocated_in failed c a dangling = none

  module _ (allocate : ℕ → Option ℕ) where
    abbrev pub pages_from : Pools → ℕ → Option PoolAt → Option (EfiStatus × ℕ × Pools)
    pages_from c size none = none
    pages_from c size (some p) =
        allocated_in out_of_resources c p.addr
          (mem_aligned_allocate s_crc32 allocate p.pool page_size size)

    -- `has_memory` says whether `memory` is a pointer.
    unfoldable pub efi_allocate_pages_impl :
        Bool → Pools → ℕ → ℕ → Bool → Option (EfiStatus × ℕ × Pools)
    unfolding find_pool set_pool
    efi_allocate_pages_impl ready c type pages has_memory =
        if not has_memory || pages == 0 || leb efi_max_memory_type type
        then some (invalid_parameter, 0, c)
        else if not ready
        then some (not_ready, 0, c)
        else if mem_pool c.mem type == 0
        then some (unsupported, 0, c)
        else pages_from c (pages * page_size % word) (find_pool (mem_pool c.mem type) c.pools)

    abbrev pub pool_from : Pools → ℕ → Option PoolAt → Option (EfiStatus × ℕ × Pools)
    pool_from c size none = none
    pool_from c size (some p) =
        allocated_in success c p.addr (mem_allocate s_crc32 allocate p.pool size)

    unfoldable pub efi_allocate_pool_impl :
        Bool → Pools → ℕ → ℕ → Bool → Option (EfiStatus × ℕ × Pools)
    unfolding find_pool set_pool
    efi_allocate_pool_impl ready c type size has_buffer =
        if size == 0 || not has_buffer || leb efi_max_memory_type type
        then some (invalid_parameter, 0, c)
        else if not ready
        then some (not_ready, 0, c)
        else if mem_pool c.mem type == 0
        then some (unsupported, 0, c)
        else pool_from c size (find_pool (mem_pool c.mem type) c.pools)

  abbrev pub released : Pools → ℕ → Freed → Option (EfiStatus × Pools)
  released c a (freed pool) = some (success, stored c a pool)
  released c a aborts = none
  released c a reads_freed = none

  -- mem_get_desc, what is asked of the descriptor and of its pool, and mem_free. A memory type has
  -- 32 bits.
  abbrev pub release_checked :
      (Desc → Bool) → Pools → ℕ → PoolAt → Option Block × Pool → Option (EfiStatus × Pools)
  release_checked fits c buff p (none, pool) = some (not_found, stored c p.addr pool)
  release_checked fits c buff p (some b, pool) =
      let type = p.userdata0 % 2 ^ 32 in
      if not (fits b.desc)
      then some (invalid_parameter, stored c p.addr pool)
      else if not (p.userdata2 == p.addr)
      then some (invalid_parameter, stored c p.addr pool)
      else if leb efi_max_memory_type type
      then some (invalid_parameter, stored c p.addr pool)
      else if not (mem_pool c.mem type == p.addr)
      then some (invalid_parameter, stored c p.addr pool)
      else released c p.addr (mem_free s_crc32 pool buff)

  abbrev pub release_owned : (Desc → Bool) → Pools → ℕ → Option PoolAt → Option (EfiStatus × Pools)
  release_owned fits c buff none = some (not_found, c)
  release_owned fits c buff (some p) =
      release_checked fits c buff p (mem_get_desc s_crc32 p.pool buff)

  unfoldable pub efi_free_pool_impl : Bool → Pools → ℕ → Option (EfiStatus × Pools)
  unfolding owner set_pool
  efi_free_pool_impl ready c buff =
      if buff == 0
      then some (invalid_parameter, c)
      else if not ready
      then some (not_ready, c)
      else release_owned (λ d. true) c buff (owner (buff - desc_size) c.pools)

  abbrev pub is_pages : ℕ → Desc → Bool
  is_pages pages d = if d.align == page_size then d.size / page_size == pages else false

  unfoldable pub efi_free_pages_impl : Bool → Pools → ℕ → ℕ → Option (EfiStatus × Pools)
  unfolding owner set_pool
  efi_free_pages_impl ready c memory pages =
      if memory == 0
      then some (invalid_parameter, c)
      else if not ready
      then some (not_ready, c)
      else release_owned (is_pages pages) c memory (owner (memory - desc_size) c.pools)
