-- ===== src/Memory/Accounts.antt =====
-- What taking a block out of a pool (lib/mem.c) does to the accounts of its list.
use mathlib.Core.Path.{subst, ◌∙◌}
use efi_wrapper.Prelude.{
  ℕ, suc, ◌+◌, ◌≡◌, refl, true, false, ◌==◌, some, List, [], ◌∷◌, length, if◌then◌else◌, arith,
  Bool-cases, inl, inr,
}
use efi_wrapper.Memory.{Desc, Block, has, find_block, sum_first, strip_block}
use efi_wrapper.Memory.Sums.{total_real, total_size, Placed}

module _ (s_crc32 : Desc → ℕ → ℕ → ℕ) where
  sum_first_lem :
      (prev a : ℕ) (blocks : List Block)
      → (has a (sum_first s_crc32 prev blocks) ≡ has a blocks)
        × (length (sum_first s_crc32 prev blocks) ≡ length blocks)
        × (total_real (sum_first s_crc32 prev blocks) ≡ total_real blocks)
        × (total_size (sum_first s_crc32 prev blocks) ≡ total_size blocks)
  sum_first_lem prev a [] = (refl, refl, refl, refl)
  sum_first_lem prev a (b ∷ blocks) = (refl, refl, refl, refl)

  Placed-sum_first :
      (prev : ℕ) (blocks : List Block) → Placed blocks → Placed (sum_first s_crc32 prev blocks)
  Placed-sum_first prev [] p = tt
  Placed-sum_first prev (b ∷ blocks) p = p

  pub totals-strip :
      (prev a : ℕ) (blocks : List Block) (x : Block)
      → find_block a blocks ≡ some x
      → let rest = strip_block s_crc32 prev a blocks in
        (suc (length rest) ≡ length blocks)
        × (total_real rest + x.desc.real_size ≡ total_real blocks)
        × (total_size rest + x.desc.size ≡ total_size blocks)
  unfolding strip_block
  totals-strip prev a [] x f = cc
  totals-strip prev a (b ∷ []) x f = ground arith
  totals-strip prev a (b ∷ c ∷ blocks) x f = elim (Bool-cases (b.desc.addr == a)) [
    | inl e ↦ let s = sum_first_lem b.desc.addr a blocks in ground (arith, e)
    | inr e ↦ elim (Bool-cases (c.desc.addr == a)) [
      | inl e' ↦
          let s = sum_first_lem b.desc.addr a blocks in
          let same : c ≡ x = ground (arith, e, e') in
          rw (e, e', ← same) (omega (arith, s), omega (arith, s), omega (arith, s))
      | inr e' ↦
          let t = totals-strip b.desc.addr a (c ∷ blocks) x (ground (arith, e)) in
          rw (e, e') (omega (arith, t), omega (arith, t), omega (arith, t))
    ]
  ]

  eq_of : (a b : ℕ) → (a == b) ≡ true → a ≡ b
  eq_of a b e = ground arith

  -- Only the block at `a` goes.
  pub has-strip :
      (prev a x : ℕ) (blocks : List Block)
      → Placed blocks
      → has x (strip_block s_crc32 prev a blocks) ≡ (if a == x then false else has x blocks)
  unfolding strip_block
  has-strip prev a x [] p = ground arith
  has-strip prev a x (b ∷ []) p = ground arith
  has-strip prev a x (b ∷ c ∷ blocks) (o, _, _, (o', n', p', q)) =
      elim (Bool-cases (b.desc.addr == a)) [
        | inl e ↦ elim (Bool-cases (a == x)) [
          | inl e' ↦
              let gone : has x (c ∷ blocks) ≡ false =
                subst (λ y. has y (c ∷ blocks) ≡ false) (eq_of b.desc.addr a e ∙ eq_of a x e') o in
              rw (e, e') gone
          | inr e' ↦ ground (arith, e, e')
        ]
        | inr e ↦ elim (Bool-cases (c.desc.addr == a)) [
          | inl e' ↦ elim (Bool-cases (a == x)) [
            | inl e'' ↦
                let gone : has x blocks ≡ false =
                  subst (λ y. has y blocks ≡ false) (eq_of c.desc.addr a e' ∙ eq_of a x e'') o' in
                rw (e, e', e'', (sum_first_lem b.desc.addr x blocks).0, gone)
                  (ground (arith, e, e''))
            | inr e'' ↦
                rw (e, e', e'', (sum_first_lem b.desc.addr x blocks).0) (ground (arith, e', e''))
          ]
          | inr e' ↦
              rw (e, e', has-strip b.desc.addr a x (c ∷ blocks) (o', n', p', q)) (ground (arith, e))
        ]
      ]

  pub Placed-strip :
      (prev a : ℕ) (blocks : List Block)
      → Placed blocks
      → Placed (strip_block s_crc32 prev a blocks)
  unfolding strip_block
  Placed-strip prev a [] p = tt
  Placed-strip prev a (b ∷ []) p = elim (Bool-cases (b.desc.addr == a)) [
    | inl e ↦ rw e tt
    | inr e ↦ rw e p
  ]
  Placed-strip prev a (b ∷ c ∷ blocks) (o, n, p, q) = elim (Bool-cases (b.desc.addr == a)) [
    | inl e ↦ rw e (Placed-sum_first prev (c ∷ blocks) q)
    | inr e ↦ elim (Bool-cases (c.desc.addr == a)) [
      | inl e' ↦
          rw (e, e')
            (
              rw (sum_first_lem b.desc.addr b.desc.addr blocks).0 (ground (arith, o)),
              n,
              p,
              Placed-sum_first b.desc.addr blocks q.3,
            )
      | inr e' ↦
          rw (e, e')
            (
              rw (has-strip b.desc.addr a b.desc.addr (c ∷ blocks) q) (ground (arith, o)),
              n,
              p,
              Placed-strip b.desc.addr a (c ∷ blocks) q,
            )
    ]
  ]
