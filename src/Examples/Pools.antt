-- ===== src/Examples/Pools.antt =====
-- A memory pool (lib/mem.c) at concrete blocks.
use efi_wrapper.Prelude.{ℕ, ◌+◌, ◌≡◌, refl, true, false, some, [], ◌∷◌, arith}
use efi_wrapper.Memory.{
  Desc, Block, Pool, is_held, without_block, with_block, at, dangling, freed, mem_allocate,
  mem_free,
}
use efi_wrapper.Memory.Resize.{resized, mem_reallocate}
use efi_wrapper.Status.{success, invalid_parameter}
use efi_wrapper.Memory.Services.{
  PoolAt, Pools, owner, find_pool, set_pool, efi_allocate_pool_impl, efi_free_pool_impl,
}
use efi_wrapper.Memory.ServiceLaws.{efi_free_pool_impl-efi_allocate_pool_impl}
use efi_wrapper.Memory.Sound.{IsSound}
use efi_wrapper.Memory.Freeing.{mem_free-IsSound}
use efi_wrapper.Memory.RoundTrip.{plain_desc, mem_free-mem_allocate}
use efi_wrapper.Memory.Moving.{mem_reallocate-dangles}

abbrev crc : Desc → ℕ → ℕ → ℕ
crc d prev next = d.addr + prev + next

abbrev block : Block
block = record { desc = plain_desc 1000 16; crc = 1000; magic = true; foot = true }

abbrev pool : Pool
pool = record {
  magic = true;
  count = 1;
  used_size = 104;
  alloc_size = 16;
  desc = 1000;
  blocks = block ∷ [];
}

pool-IsSound : IsSound crc pool
pool-IsSound = record {
  magic = refl;
  sums = (refl, tt);
  placed = (refl, omega arith, refl, tt);
  counted = refl;
  used = refl;
  taken = refl;
  held = refl;
}

mem_free-mem_allocate_example :
    (mem_allocate crc (λ n. some 5000) pool 24 ≡ at 5080 (with_block crc pool (plain_desc 5000 24)))
    × IsSound crc (with_block crc pool (plain_desc 5000 24))
    × (mem_free crc (with_block crc pool (plain_desc 5000 24)) 5080 ≡ freed pool)
mem_free-mem_allocate_example =
    mem_free-mem_allocate crc (λ n. some 5000) pool 24 5000 pool-IsSound (omega arith)
      (record { count = omega arith; used = omega arith; taken = omega arith }) refl (omega arith)
      refl

mem_free-IsSound_example :
    (mem_free crc pool 1080 ≡ freed (without_block crc pool block))
    × IsSound crc (without_block crc pool block)
mem_free-IsSound_example =
    mem_free-IsSound crc pool 1080 block pool-IsSound refl refl refl (omega arith) (omega arith)
      (omega arith)

mem_reallocate-dangles_example :
    (mem_reallocate crc (λ a n. some 5000) pool 1080 24
      ≡ at 5080 (resized crc pool block 5000 24 112))
    × (is_held (resized crc pool block 5000 24 112) ≡ false)
    × (mem_allocate crc (λ n. some 9000) (resized crc pool block 5000 24 112) 8 ≡ dangling)
mem_reallocate-dangles_example =
    mem_reallocate-dangles crc (λ a n. some 5000) (λ n. some 9000) pool 1080 24 5000 block 8 9000
      pool-IsSound refl refl refl refl refl (omega arith) (omega arith) (omega arith) refl
      (omega arith) (omega arith) refl

-- A context with a pool for the second type, and one with another pool there.
abbrev pool_at : PoolAt
pool_at = record { addr = 7000; userdata0 = 1; userdata2 = 7000; pool = pool }

abbrev pools : Pools
pools = record { mem = 0 ∷ 7000 ∷ []; pools = pool_at ∷ [] }

abbrev after : Pools
after = record {
  mem = 0 ∷ 7000 ∷ [];
  pools =
      record {
        addr = 7000;
        userdata0 = 1;
        userdata2 = 7000;
        pool = with_block crc pool (plain_desc 5000 24);
      }
      ∷ [];
}

abbrev moved : Pools
moved = record { mem = 0 ∷ 8000 ∷ []; pools = after.pools }

efi_free_pool_impl-efi_allocate_pool_impl_example :
    (efi_allocate_pool_impl crc (λ n. some 5000) true pools 1 24 true ≡ some (success, 5080, after))
    × (efi_free_pool_impl crc true after 5080 ≡ some (success, pools))
    × (efi_free_pool_impl crc true moved 5080 ≡ some (invalid_parameter, moved))
unfolding owner find_pool set_pool
efi_free_pool_impl-efi_allocate_pool_impl_example =
    efi_free_pool_impl-efi_allocate_pool_impl crc (λ n. some 5000) pools pool_at 24 5000
      (0 ∷ 8000 ∷ []) (omega arith) refl (omega arith) refl refl pool-IsSound (omega arith)
      (record { count = omega arith; used = omega arith; taken = omega arith }) refl (omega arith)
      refl refl (omega arith)
