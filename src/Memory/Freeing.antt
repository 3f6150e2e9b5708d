-- ===== src/Memory/Freeing.antt =====
-- Freeing a block of a pool (lib/mem.c): the pointer of the pool, and the pool that is left.
use mathlib.Core.Path.{subst}
use mathlib.Core.Bool.{or-true}
use efi_wrapper.Prelude.{
  ℕ, ◌-◌, ◌<◌, ◌≡◌, ◌≢◌, ◌⊎◌, refl, sym, true, false, ◌==◌, some, List, [], ◌∷◌, length,
  if◌then◌else◌, arith, Bool-cases, inl, inr,
}
use efi_wrapper.Memory.{
  Desc, Block, Pool, desc_size, word, has, find_block, prev_addr, next_addr, strip_block,
  without_block, moved_desc, freed, aborts, mem_free,
}
use efi_wrapper.Memory.Sums.{Placed, Sums-strip}
use efi_wrapper.Memory.Accounts.{totals-strip, has-strip, Placed-strip}
use efi_wrapper.Memory.Sound.{IsSound, held-has, found-sum, found-Placed, check_buffer-IsSound}

module _ (s_crc32 : Desc → ℕ → ℕ → ℕ) where
  -- The neighbours of a block are other blocks of the list.
  next-has :
      (a : ℕ) (blocks : List Block)
      → Placed blocks
      → (next_addr a blocks == 0) ≡ false
      → (has (next_addr a blocks) blocks ≡ true) × ((a == next_addr a blocks) ≡ false)
  next-has a [] p n = cc
  next-has a (b ∷ []) p n = elim (Bool-cases (b.desc.addr == a)) [
    | inl e ↦ ground (arith, e)
    | inr e ↦ ground (arith, e)
  ]
  next-has a (b ∷ c ∷ blocks) (o, _, _, q) n = elim (Bool-cases (b.desc.addr == a)) [
    | inl e ↦ rw e (ground arith, ground (arith, e, o))
    | inr e ↦
        let skip : next_addr a (b ∷ c ∷ blocks) ≡ next_addr a (c ∷ blocks) = rw e in
        let r = next-has a (c ∷ blocks) q (rw (← skip) n) in
        subst (λ m. (has m (b ∷ c ∷ blocks) ≡ true) × ((a == m) ≡ false)) (sym skip)
          (rw r.0 (or-true _), r.1)
  ]

  prev-has :
      (prev a : ℕ) (blocks : List Block)
      → Placed blocks
      → has prev blocks ≡ false
      → has a blocks ≡ true
      → ((a == prev_addr prev a blocks) ≡ false)
        × ((prev_addr prev a blocks ≡ prev) ⊎ (has (prev_addr prev a blocks) blocks ≡ true))
  prev-has prev a [] p out i = cc
  prev-has prev a (b ∷ blocks) (o, _, _, q) out i = elim (Bool-cases (b.desc.addr == a)) [
    | inl e ↦ rw e (ground (arith, e, out), inl refl)
    | inr e ↦
        let (ne, at) = prev-has b.desc.addr a blocks q o (ground (arith, e, i)) in
        let skip : prev_addr prev a (b ∷ blocks) ≡ prev_addr b.desc.addr a blocks = rw e in
        subst (λ m. ((a == m) ≡ false) × ((m ≡ prev) ⊎ (has m (b ∷ blocks) ≡ true))) (sym skip)
          (ne, elim at [ inl same ↦ inr (ground (arith, same)) | inr h ↦ inr (rw h (or-true _)) ])
  ]

  has-zero : (blocks : List Block) → Placed blocks → has 0 blocks ≡ false
  has-zero [] p = refl
  has-zero (b ∷ blocks) (_, n, _, q) = ground (arith, n, has-zero blocks q)

  prev-nonzero :
      (prev a : ℕ) (blocks : List Block)
      → Placed blocks
      → prev ≢ 0
      → has a blocks ≡ true
      → (prev_addr prev a blocks == 0) ≡ false
  prev-nonzero prev a [] p n i = cc
  prev-nonzero prev a (b ∷ blocks) (o, bn, _, q) n i = elim (Bool-cases (b.desc.addr == a)) [
    | inl e ↦ rw e (ground (arith, n))
    | inr e ↦ rw e (prev-nonzero b.desc.addr a blocks q bn (ground (arith, e, i)))
  ]

  -- A block with no neighbour is the only one.
  lonely :
      (prev a : ℕ) (blocks : List Block)
      → Placed blocks
      → has a blocks ≡ true
      → (next_addr a blocks == 0) ≡ true
      → (prev_addr prev a blocks == 0) ≡ true
      → length blocks ≡ 1
  lonely prev a [] p i n m = cc
  lonely prev a (b ∷ []) p i n m = refl
  lonely prev a (b ∷ c ∷ blocks) (o, bn, _, q) i n m = elim (Bool-cases (b.desc.addr == a)) [
    | inl e ↦ absurd (ground (arith, e, n, q.1))
    | inr e ↦
        let more = prev-nonzero b.desc.addr a (c ∷ blocks) q bn (ground (arith, e, i)) in
        absurd (ground (arith, e, m, more))
  ]

  -- The pool's pointer after a block is taken out.
  module _ (pool : Pool) (a : ℕ) (placed : Placed pool.blocks) (i : has a pool.blocks ≡ true) where
    moved-has :
        (pool.desc == a) ≡ true
        → ((moved_desc s_crc32 pool a == 0) ≡ false)
        → has (moved_desc s_crc32 pool a) (strip_block s_crc32 0 a pool.blocks) ≡ true
    moved-has e n = elim (Bool-cases (next_addr a pool.blocks == 0)) [
      | inr more ↦
          let (h, ne) = next-has a pool.blocks placed more in
          rw (e, more, has-strip s_crc32 0 a (next_addr a pool.blocks) pool.blocks placed, ne, h)
      | inl last ↦
          let (ne, at) = prev-has 0 a pool.blocks placed (has-zero pool.blocks placed) i in
          rw (e, last, has-strip s_crc32 0 a (prev_addr 0 a pool.blocks) pool.blocks placed, ne)
            (elim at [ inl zero_prev ↦ absurd (ground (arith, e, last, n, zero_prev)) | inr h ↦ h ])
    ]

  pub desc-nonzero :
      (desc a : ℕ) (blocks : List Block)
      → has a blocks ≡ true
      → (if desc == 0 then length blocks == 0 else has desc blocks) ≡ true
      → (desc == 0) ≡ false
  desc-nonzero desc a [] i h = cc
  desc-nonzero desc a (b ∷ blocks) i h = elim (Bool-cases (desc == 0)) [
    | inl e ↦ absurd (ground (arith, e, h))
    | inr e ↦ e
  ]

  -- The pointer becomes null only if the block has no neighbour.
  moved-zero :
      (pool : Pool) (a : ℕ)
      → (pool.desc == a) ≡ true
      → (moved_desc s_crc32 pool a == 0) ≡ true
      → ((next_addr a pool.blocks == 0) ≡ true) × ((prev_addr 0 a pool.blocks == 0) ≡ true)
  moved-zero pool a e z = elim (Bool-cases (next_addr a pool.blocks == 0)) [
    | inl last ↦ (last, ground (arith, e, z, last))
    | inr more ↦ absurd (ground (arith, e, z, more))
  ]

  empty :
      (blocks : List Block) (a : ℕ) (b : Block)
      → has a blocks ≡ true
      → Placed blocks
      → find_block a blocks ≡ some b
      → ((next_addr a blocks == 0) ≡ true) × ((prev_addr 0 a blocks == 0) ≡ true)
      → (length (strip_block s_crc32 0 a blocks) == 0) ≡ true
  empty blocks a b i placed f (n, m) =
      ground (arith, lonely 0 a blocks placed i n m, totals-strip s_crc32 0 a blocks b f)

  held-strip :
      (pool : Pool) (a : ℕ) (b : Block)
      → IsSound s_crc32 pool
      → has a pool.blocks ≡ true
      → find_block a pool.blocks ≡ some b
      → let desc = moved_desc s_crc32 pool a in
        let rest = strip_block s_crc32 0 a pool.blocks in
        (if desc == 0 then length rest == 0 else has desc rest) ≡ true
  held-strip pool a b s i f = elim (Bool-cases (pool.desc == a)) [
    | inr e ↦
        let one = desc-nonzero pool.desc a pool.blocks i s.held in
        let h : has pool.desc pool.blocks ≡ true =
          rw (← held-has pool.desc pool.blocks one) s.held in
        let ne : (a == pool.desc) ≡ false = ground (arith, e) in
        rw (e, one, has-strip s_crc32 0 a pool.desc pool.blocks s.placed, ne, h)
    | inl e ↦ elim (Bool-cases (moved_desc s_crc32 pool a == 0)) [
      | inr n ↦ rw n (moved-has pool a s.placed i e n)
      | inl z ↦ rw z (empty pool.blocks a b i s.placed f (moved-zero pool a e z))
    ]
  ]

  -- Freeing a null pointer aborts, whatever pool there is.
  pub mem_free-null : (pool : Pool) → mem_free s_crc32 pool 0 ≡ aborts
  unfolding mem_free
  mem_free-null pool = refl

  -- No descriptor of a pool stands where that of a null pointer would.
  found-nonzero :
      (buff : ℕ) (blocks : List Block)
      → Placed blocks
      → has (buff - desc_size) blocks ≡ true
      → (buff == 0) ≡ false
  found-nonzero buff blocks p i = elim (Bool-cases (buff == 0)) [
    | inr e ↦ e
    | inl e ↦
        let z : buff - desc_size ≡ 0 = ground (arith, e) in
        let h : has 0 blocks ≡ true = subst (λ x. has x blocks ≡ true) z i in
        absurd (ground (arith, h, has-zero blocks p))
  ]

  -- Freeing a block of a sound pool whose accounts fit in 64 bits, where the marks of the block are
  -- whole, succeeds, and leaves the pool sound.
  pub mem_free-IsSound :
      (pool : Pool) (buff : ℕ) (b : Block)
      → IsSound s_crc32 pool
      → find_block (buff - desc_size) pool.blocks ≡ some b
      → b.magic ≡ true
      → b.foot ≡ true
      → pool.count < word
      → pool.used_size < word
      → pool.alloc_size < word
      → (mem_free s_crc32 pool buff ≡ freed (without_block s_crc32 pool b))
        × IsSound s_crc32 (without_block s_crc32 pool b)
  unfolding mem_free
  mem_free-IsSound pool buff b s f m foot count_small used_small taken_small =
      let a = b.desc.addr in
      let (_, at) = found-sum s_crc32 0 (buff - desc_size) pool.blocks b s.sums f in
      let (_, le, le', i) = found-Placed s_crc32 (buff - desc_size) pool.blocks b s.placed f in
      let here : has a pool.blocks ≡ true = subst (λ x. has x pool.blocks ≡ true) (sym at) i in
      let t =
        totals-strip s_crc32 0 a pool.blocks b
          (subst (λ x. find_block x pool.blocks ≡ some b) (sym at) f) in
      let one : (pool.desc == 0) ≡ false = desc-nonzero pool.desc a pool.blocks here s.held in
      let has_desc : has pool.desc pool.blocks ≡ true =
        rw (← held-has pool.desc pool.blocks one) s.held in
      (
        rw (
          found-nonzero buff pool.blocks s.placed i,
          f,
          check_buffer-IsSound s_crc32 pool (buff - desc_size) b s f m,
          foot,
          one,
          has_desc,
        ),
        record {
          magic = s.magic;
          sums = Sums-strip s_crc32 0 a pool.blocks s.sums;
          placed = Placed-strip s_crc32 0 a pool.blocks s.placed;
          counted = omega (arith, s.counted, t, count_small);
          used = omega (arith, s.used, t, used_small);
          taken = omega (arith, s.taken, t, taken_small);
          held =
              held-strip pool a b s here
                (subst (λ x. find_block x pool.blocks ≡ some b) (sym at) f);
        },
      )
