-- ===== src/Memory/ServiceLaws.antt =====
-- Allocating pool memory and giving it back through the services (efi-wrapper/efi/tables/memory.c).
use mathlib.Core.Path.{subst}
use efi_wrapper.Prelude.{
  ℕ, ◌+◌, ◌-◌, ◌<◌, ◌^◌, ◌%◌, ◌≡◌, ◌≢◌, refl, sym, ap, ◌∙◌, Bool, true, false, not, ◌&&◌, ◌==◌, leb,
  Option, none, some, List, [], ◌∷◌, if◌then◌else◌, arith, Bool-cases, inl, inr,
}
use efi_wrapper.Status.{success, invalid_parameter}
use efi_wrapper.Memory.{
  Desc, Block, Pool, desc_size, head_size, has, find_block, with_block, corrected, mem_free,
  mem_get_desc,
}
use efi_wrapper.Memory.Sums.{Sums, has-push}
use efi_wrapper.Memory.Sound.{IsSound, HasRoom, check_buffer-IsSound}
use efi_wrapper.Memory.RoundTrip.{plain_desc, find-push, mem_free-mem_allocate}
use efi_wrapper.Memory.Services.{
  efi_max_memory_type, PoolAt, Pools, mem_pool, find_pool, with_pool, set_pool, stored, owner,
  released, efi_allocate_pool_impl, efi_free_pool_impl,
}

-- Writing a pool's new state over another, and writing back the state it has.
set-set :
    (a : ℕ) (x y : Pool) (pools : List PoolAt)
    → set_pool a y (set_pool a x pools) ≡ set_pool a y pools
unfolding set_pool
set-set a x y [] = refl
set-set a x y (p ∷ pools) = elim (Bool-cases (p.addr == a)) [
  | inl e ↦ rw (e, e) refl
  | inr e ↦ rw (e, e) (ap (λ l. p ∷ l) (set-set a x y pools))
]

set_self :
    (a : ℕ) (pools : List PoolAt) (p : PoolAt)
    → find_pool a pools ≡ some p
    → set_pool a p.pool pools ≡ pools
unfolding set_pool find_pool
set_self a [] p f = refl
set_self a (q ∷ pools) p f = elim (Bool-cases (q.addr == a)) [
  | inl e ↦
      let same : q ≡ p = ground (arith, e, f) in
      rw e (ap (λ r. with_pool r.pool q ∷ pools) (sym same))
  | inr e ↦ rw e (ap (λ l. q ∷ l) (set_self a pools p (ground (arith, e, f))))
]

-- Only the pool that has the descriptor owns it.
owner-set :
    (d a : ℕ) (pools : List PoolAt) (p : PoolAt) (pool : Pool)
    → owner d pools ≡ none
    → find_pool a pools ≡ some p
    → has d pool.blocks ≡ true
    → owner d (set_pool a pool pools) ≡ some (with_pool pool p)
unfolding owner set_pool find_pool
owner-set d a [] p pool n f h = cc
owner-set d a (q ∷ pools) p pool n f h = elim (Bool-cases (has d q.pool.blocks)) [
  | inl t ↦ absurd (ground (arith, n, t))
  | inr t ↦
      let later : owner d pools ≡ none = ground (arith, n, t) in
      elim (Bool-cases (q.addr == a)) [
        | inl e ↦
            let same : q ≡ p = ground (arith, e, f) in
            rw (e, h) (ap (λ r. some (with_pool pool r)) same)
        | inr e ↦ rw (e, t) (owner-set d a pools p pool later (ground (arith, e, f)) h)
      ]
]

-- The pool is one that the context has for the type that the pool names.
abbrev pub is_own : List ℕ → PoolAt → Bool
is_own mem p =
    p.userdata2 == p.addr
    && not (leb efi_max_memory_type (p.userdata0 % 2 ^ 32))
    && mem_pool mem (p.userdata0 % 2 ^ 32) == p.addr

three_guards {ℓ} :
    {A : Type ℓ} (a b c : Bool) (refused given : A)
    → (if not a then refused else if b then refused else if not c then refused else given)
      ≡ (if a && not b && c then given else refused)
three_guards true true c refused given = refl
three_guards true false true refused given = refl
three_guards true false false refused given = refl
three_guards false b c refused given = refl

module _ (s_crc32 : Desc → ℕ → ℕ → ℕ) where
  -- The check writes nothing new where the checksums are right.
  corrected-Sums :
      (prev a : ℕ) (blocks : List Block)
      → Sums s_crc32 prev blocks
      → corrected s_crc32 prev a blocks ≡ blocks
  corrected-Sums prev a [] s = refl
  corrected-Sums prev a (b ∷ blocks) (s, r) = elim (Bool-cases (b.desc.addr == a)) [
    | inr e ↦ rw e (ap (λ l. b ∷ l) (corrected-Sums b.desc.addr a blocks r))
    | inl e ↦ elim (Bool-cases b.magic) [ inr m ↦ rw (e, m) refl | inl m ↦ rw (e, m, ← s) refl ]
  ]

  get_desc-found :
      (pool : Pool) (buff : ℕ) (b : Block)
      → IsSound s_crc32 pool
      → buff ≢ 0
      → find_block (buff - desc_size) pool.blocks ≡ some b
      → b.magic ≡ true
      → mem_get_desc s_crc32 pool buff ≡ (some b, pool)
  unfolding mem_get_desc
  get_desc-found pool buff b s n f m =
      let some_buff : (buff == 0) ≡ false = ground (arith, n) in
      rw
        (
          some_buff,
          f,
          check_buffer-IsSound s_crc32 pool (buff - desc_size) b s f m,
          corrected-Sums 0 (buff - desc_size) pool.blocks s.sums,
        )
        refl

  -- Giving back a whole block of a sound pool frees it in a pool of the context, and is refused
  -- in any other pool, which stays as it is.
  free_pool-owned :
      (c : Pools) (p : PoolAt) (buff : ℕ) (b : Block)
      → owner (buff - desc_size) c.pools ≡ some p
      → IsSound s_crc32 p.pool
      → buff ≢ 0
      → find_block (buff - desc_size) p.pool.blocks ≡ some b
      → b.magic ≡ true
      → efi_free_pool_impl s_crc32 true c buff ≡ (
          if is_own c.mem p
          then released s_crc32 c p.addr (mem_free s_crc32 p.pool buff)
          else some (invalid_parameter, stored c p.addr p.pool))
  unfolding efi_free_pool_impl
  free_pool-owned c p buff b o s n f m =
      let some_buff : (buff == 0) ≡ false = ground (arith, n) in
      rw (some_buff, o, get_desc-found p.pool buff b s n f m)
        (three_guards (p.userdata2 == p.addr) (leb efi_max_memory_type (p.userdata0 % 2 ^ 32))
          (mem_pool c.mem (p.userdata0 % 2 ^ 32) == p.addr)
          (some (invalid_parameter, stored c p.addr p.pool))
          (released s_crc32 c p.addr (mem_free s_crc32 p.pool buff)))

  -- Pool memory of a size that is not 0 for a type, whose pool stands in the context with its own
  -- address and type as its user data, is sound and has room, at a new place of the allocator's
  -- that no pool knows: the service gives the buffer behind the descriptor there, giving it back
  -- succeeds and restores all pools, and in a context with another pool, or none, for the type,
  -- giving it back is refused and changes nothing.
  pub efi_free_pool_impl-efi_allocate_pool_impl :
      (allocate : ℕ → Option ℕ) (c : Pools) (p : PoolAt) (size start : ℕ) (other : List ℕ)
      → p.userdata0 < efi_max_memory_type
      → p.userdata2 ≡ p.addr
      → p.addr ≢ 0
      → mem_pool c.mem p.userdata0 ≡ p.addr
      → find_pool p.addr c.pools ≡ some p
      → IsSound s_crc32 p.pool
      → size ≢ 0
      → HasRoom p.pool (plain_desc start size)
      → allocate (desc_size + size + head_size) ≡ some start
      → start ≢ 0
      → has start p.pool.blocks ≡ false
      → owner start c.pools ≡ none
      → mem_pool other p.userdata0 ≢ p.addr
      → let after = stored c p.addr (with_block s_crc32 p.pool (plain_desc start size)) in
        let moved : Pools = record { mem = other; pools = after.pools } in
        (efi_allocate_pool_impl s_crc32 allocate true c p.userdata0 size true
          ≡ some (success, start + desc_size, after))
        × (efi_free_pool_impl s_crc32 true after (start + desc_size) ≡ some (success, c))
        × (efi_free_pool_impl s_crc32 true moved (start + desc_size)
            ≡ some (invalid_parameter, moved))
  unfolding efi_allocate_pool_impl
  efi_free_pool_impl-efi_allocate_pool_impl allocate c p size start other small self nonnull there
        known s n room a z out own elsewhere =
      let (given, sound, freed) =
        mem_free-mem_allocate s_crc32 allocate p.pool size start s n room a z out in
      let pool : Pool = with_block s_crc32 p.pool (plain_desc start size) in
      let q : PoolAt = with_pool pool p in
      let (b, f, same, m, foot) = find-push s_crc32 0 p.pool.blocks (plain_desc start size) out in
      let back : start ≡ start + desc_size - desc_size = omega arith in
      let found : find_block (start + desc_size - desc_size) pool.blocks ≡ some b =
        subst (λ x. find_block x pool.blocks ≡ some b) back f in
      let inside : has start pool.blocks ≡ true =
        has-push s_crc32 0 start p.pool.blocks
          (record { desc = plain_desc start size; crc = 0; magic = true; foot = true })
        ∙ ground arith in
      let holds : owner (start + desc_size - desc_size) (set_pool p.addr pool c.pools) ≡ some q =
        subst (λ x. owner x (set_pool p.addr pool c.pools) ≡ some q) back
          (owner-set start p.addr c.pools p pool own known inside) in
      let after : Pools = stored c p.addr pool in
      let moved : Pools = record { mem = other; pools = after.pools } in
      let end : start + desc_size ≢ 0 = λ e. omega (arith, e) in
      let type : p.userdata0 % 2 ^ 32 ≡ p.userdata0 = omega (arith, small) in
      let e0 : (size == 0) ≡ false = ground (arith, n) in
      let e1 : leb efi_max_memory_type p.userdata0 ≡ false = ground (arith, small) in
      let e2 : (p.addr == 0) ≡ false = ground (arith, nonnull) in
      let e3 : (p.userdata2 == p.addr) ≡ true = ground (arith, self) in
      let e4 : (p.addr == p.addr) ≡ true = ground arith in
      let e5 : (mem_pool other p.userdata0 == p.addr) ≡ false = ground (arith, elsewhere) in
      (
        rw (e0, e1, there, e2, known, given) refl,
        free_pool-owned after q (start + desc_size) b holds sound end found m
            ∙ rw (type, e3, e1, there, e4, freed)
                (ap (λ l. some (success, record { mem = c.mem; pools = l }))
                  (set-set p.addr pool p.pool c.pools ∙ set_self p.addr c.pools p known)),
        free_pool-owned moved q (start + desc_size) b holds sound end found m
            ∙ rw (type, e3, e1, e5)
                (ap (λ l. some (invalid_parameter, record { mem = other; pools = l }))
                  (set-set p.addr pool pool c.pools)),
      )
