-- ===== src/Memory/Sums.antt =====
-- The checksums and the accounts of a pool (lib/mem.c), over its list of blocks.
use efi_wrapper.Prelude.{
  ℕ, suc, ◌+◌, ◌≡◌, ◌≢◌, refl, false, ◌||◌, ◌==◌, List, [], ◌∷◌, length, arith, Bool-cases, inl,
  inr,
}
use efi_wrapper.Memory.{Desc, Block, desc_size, first_addr, has, push_block, sum_first, strip_block}

abbrev pub total_real : List Block → ℕ
total_real [] = 0
total_real (b ∷ blocks) = b.desc.real_size + total_real blocks

abbrev pub total_size : List Block → ℕ
total_size [] = 0
total_size (b ∷ blocks) = b.desc.size + total_size blocks

-- No block twice, none at null, and each buffer where its descriptor says.
abbrev pub Placed : List Block → Type 0
Placed [] = Unit
Placed (b ∷ blocks) =
    (has b.desc.addr blocks ≡ false)
    × (b.desc.addr ≢ 0)
    × (b.desc.start + b.desc.offset ≡ b.desc.addr + desc_size)
    × Placed blocks

module _ (s_crc32 : Desc → ℕ → ℕ → ℕ) where
  -- Every checksum is right for the links of its block.
  abbrev pub Sums : ℕ → List Block → Type 0
  Sums prev [] = Unit
  Sums prev (b ∷ blocks) =
      (b.crc ≡ s_crc32 b.desc prev (first_addr blocks)) × Sums b.desc.addr blocks

  first-push :
      (prev : ℕ) (b : Block) (blocks : List Block) (new : Block)
      → first_addr (push_block s_crc32 prev (b ∷ blocks) new) ≡ b.desc.addr
  unfolding push_block
  first-push prev b [] new = refl
  first-push prev b (c ∷ blocks) new = refl

  pub Sums-push :
      (prev : ℕ) (blocks : List Block) (new : Block)
      → Sums prev blocks
      → Sums prev (push_block s_crc32 prev blocks new)
  unfolding push_block
  Sums-push prev [] new s = (refl, tt)
  Sums-push prev (b ∷ []) new s = (refl, (refl, tt))
  Sums-push prev (b ∷ c ∷ blocks) new (s, r) =
      (rw (first-push b.desc.addr c blocks new) s, Sums-push b.desc.addr (c ∷ blocks) new r)

  Sums-sum_first :
      (prev old : ℕ) (blocks : List Block)
      → Sums old blocks
      → Sums prev (sum_first s_crc32 prev blocks)
  Sums-sum_first prev old [] s = tt
  Sums-sum_first prev old (b ∷ blocks) (s, r) = (refl, r)

  first-sum_first :
      (prev : ℕ) (blocks : List Block)
      → first_addr (sum_first s_crc32 prev blocks) ≡ first_addr blocks
  first-sum_first prev [] = refl
  first-sum_first prev (b ∷ blocks) = refl

  first-strip :
      (prev a : ℕ) (c : Block) (blocks : List Block)
      → (c.desc.addr == a) ≡ false
      → first_addr (strip_block s_crc32 prev a (c ∷ blocks)) ≡ c.desc.addr
  unfolding strip_block
  first-strip prev a c [] e = rw e
  first-strip prev a c (d ∷ blocks) e = elim (Bool-cases (d.desc.addr == a)) [
    | inl e' ↦ rw (e, e')
    | inr e' ↦ rw (e, e')
  ]

  pub Sums-strip :
      (prev a : ℕ) (blocks : List Block)
      → Sums prev blocks
      → Sums prev (strip_block s_crc32 prev a blocks)
  unfolding strip_block
  Sums-strip prev a [] s = tt
  Sums-strip prev a (b ∷ []) s = elim (Bool-cases (b.desc.addr == a)) [
    | inl e ↦ rw e tt
    | inr e ↦ rw e s
  ]
  Sums-strip prev a (b ∷ c ∷ blocks) (s, (t, r)) = elim (Bool-cases (b.desc.addr == a)) [
    | inl e ↦ rw e (Sums-sum_first prev b.desc.addr (c ∷ blocks) (t, r))
    | inr e ↦ elim (Bool-cases (c.desc.addr == a)) [
      | inl e' ↦
          rw (e, e')
            (
              rw (first-sum_first b.desc.addr blocks) refl,
              Sums-sum_first b.desc.addr c.desc.addr blocks r,
            )
      | inr e' ↦
          rw (e, e', first-strip b.desc.addr a c blocks e')
            (s, Sums-strip b.desc.addr a (c ∷ blocks) (t, r))
    ]
  ]

  pub has-push :
      (prev a : ℕ) (blocks : List Block) (new : Block)
      → has a (push_block s_crc32 prev blocks new) ≡ (has a blocks || (new.desc.addr == a))
  unfolding push_block
  has-push prev a [] new = ground arith
  has-push prev a (b ∷ []) new = ground arith
  has-push prev a (b ∷ c ∷ blocks) new = ground (arith, has-push b.desc.addr a (c ∷ blocks) new)

  pub totals-push :
      (prev : ℕ) (blocks : List Block) (new : Block)
      → (length (push_block s_crc32 prev blocks new) ≡ suc (length blocks))
        × (total_real (push_block s_crc32 prev blocks new) ≡ total_real blocks + new.desc.real_size)
        × (total_size (push_block s_crc32 prev blocks new) ≡ total_size blocks + new.desc.size)
  unfolding push_block
  totals-push prev [] new = (refl, omega arith, omega arith)
  totals-push prev (b ∷ []) new = (refl, omega arith, omega arith)
  totals-push prev (b ∷ c ∷ blocks) new =
      let t = totals-push b.desc.addr (c ∷ blocks) new in
      (omega (arith, t), omega (arith, t), omega (arith, t))

  pub Placed-push :
      (prev : ℕ) (blocks : List Block) (new : Block)
      → Placed blocks
      → has new.desc.addr blocks ≡ false
      → new.desc.addr ≢ 0
      → new.desc.start + new.desc.offset ≡ new.desc.addr + desc_size
      → Placed (push_block s_crc32 prev blocks new)
  unfolding push_block
  Placed-push prev [] new p out ne at = (refl, ne, at, tt)
  Placed-push prev (b ∷ []) new (_, bne, bat, _) out ne at =
      (ground arith, bne, bat, (refl, ne, at, tt))
  Placed-push prev (b ∷ c ∷ blocks) new (o, bne, bat, p) out ne at = (
    rw (has-push b.desc.addr b.desc.addr (c ∷ blocks) new, o) (ground arith),
    bne,
    bat,
    Placed-push b.desc.addr (c ∷ blocks) new p (ground arith) ne at,
  )
