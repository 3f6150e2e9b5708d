-- ===== src/Memory/Moving.antt =====
-- What resizing a block leaves behind when the allocator moves it (mem_reallocate of lib/mem.c).
use mathlib.Core.Path.{subst}
use efi_wrapper.Prelude.{
  ℕ, ◌+◌, ◌-◌, ◌%◌, ◌≡◌, ◌≢◌, refl, sym, true, false, ◌==◌, Option, some, List, [], ◌∷◌, arith,
  Bool-cases, inl, inr,
}
use efi_wrapper.Memory.{
  Desc, Block, Pool, desc_size, head_size, word, has, is_held, find_block, at, dangling,
  mem_allocate,
}
use efi_wrapper.Memory.Resize.{move_block, resized, mem_reallocate}
use efi_wrapper.Memory.Sums.{Placed}
use efi_wrapper.Memory.Sound.{IsSound, found-sum, found-Placed, check_buffer-IsSound}
use efi_wrapper.Memory.Freeing.{desc-nonzero}

module _ (s_crc32 : Desc → ℕ → ℕ → ℕ) where
  -- No block is left at the old address of a block that moved.
  has-move :
      (prev a : ℕ) (d : Desc) (blocks : List Block)
      → Placed blocks
      → d.addr ≢ a
      → has a (move_block s_crc32 prev a d blocks) ≡ false
  unfolding move_block
  has-move prev a d [] p n = refl
  has-move prev a d (b ∷ []) p n = elim (Bool-cases (b.desc.addr == a)) [
    | inl e ↦ rw e (ground (arith, n))
    | inr e ↦ rw e (ground (arith, e))
  ]
  has-move prev a d (b ∷ c ∷ blocks) (o, _, _, q) n = elim (Bool-cases (b.desc.addr == a)) [
    | inl e ↦
        let same : b.desc.addr ≡ a = ground (arith, e) in
        let gone : has a (c ∷ blocks) ≡ false = subst (λ x. has x (c ∷ blocks) ≡ false) same o in
        rw e (ground (arith, n, gone))
    | inr e ↦ let rest = has-move b.desc.addr a d (c ∷ blocks) q n in ground (arith, e, rest)
  ]

  -- A sound pool whose pointer is at the block of `ptr`, a whole and unaligned block, a new size and
  -- an allocator that gives it another address: mem_reallocate succeeds, but the pool's pointer is
  -- still the old address, where no descriptor is any more, and the next allocation, of
  -- any size other than 0 for which the allocator gives memory, reads there.
  pub mem_reallocate-dangles :
      (reallocate : ℕ → ℕ → Option ℕ) (allocate : ℕ → Option ℕ) (pool : Pool) (ptr size start : ℕ)
      (b : Block) (next where_next : ℕ)
      → IsSound s_crc32 pool
      → find_block (ptr - desc_size) pool.blocks ≡ some b
      → b.magic ≡ true
      → b.foot ≡ true
      → pool.desc ≡ b.desc.addr
      → b.desc.align ≡ 0
      → ptr ≢ 0
      → size ≢ 0
      → b.desc.size ≢ size
      → reallocate b.desc.start ((desc_size + size + head_size) % word) ≡ some start
      → start ≢ b.desc.addr
      → next ≢ 0
      → allocate ((desc_size + next + head_size) % word) ≡ some where_next
      → let after = resized s_crc32 pool b start size ((desc_size + size + head_size) % word) in
        (mem_reallocate s_crc32 reallocate pool ptr size ≡ at (start + desc_size) after)
        × (is_held after ≡ false)
        × (mem_allocate s_crc32 allocate after next ≡ dangling)
  unfolding mem_reallocate mem_allocate
  mem_reallocate-dangles reallocate allocate pool ptr size start b next where_next s f m foot held
        al pn sn dn re moved nn a =
      let (_, same) = found-sum s_crc32 0 (ptr - desc_size) pool.blocks b s.sums f in
      let p = found-Placed s_crc32 (ptr - desc_size) pool.blocks b s.placed f in
      let here : has b.desc.addr pool.blocks ≡ true =
        subst (λ x. has x pool.blocks ≡ true) (sym same) p.3 in
      let one : (pool.desc == 0) ≡ false =
        desc-nonzero s_crc32 pool.desc b.desc.addr pool.blocks here s.held in
      let in_pool : has pool.desc pool.blocks ≡ true =
        subst (λ x. has x pool.blocks ≡ true) (sym held) here in
      let d : Desc = record {
        addr = start;
        start = start;
        offset = b.desc.offset;
        align = 0;
        size = size;
        real_size = (desc_size + size + head_size) % word;
      } in
      let gone : has pool.desc (move_block s_crc32 0 b.desc.addr d pool.blocks) ≡ false =
        subst (λ x. has x (move_block s_crc32 0 b.desc.addr d pool.blocks) ≡ false) (sym held)
          (has-move 0 b.desc.addr d pool.blocks s.placed moved) in
      let e1 : (ptr == 0) ≡ false = ground (arith, pn) in
      let e2 : (size == 0) ≡ false = ground (arith, sn) in
      let e3 : (b.desc.align == 0) ≡ true = ground (arith, al) in
      let e4 : (b.desc.size == size) ≡ false = ground (arith, dn) in
      let e5 : (next == 0) ≡ false = ground (arith, nn) in
      let ok = check_buffer-IsSound s_crc32 pool (ptr - desc_size) b s f m in
      (
        rw (e1, e2, f, ok, foot, e3, e4, one, in_pool, re) refl,
        rw (one, gone) refl,
        rw (e5, s.magic, a, one, gone) refl,
      )
