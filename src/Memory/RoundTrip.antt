-- ===== src/Memory/RoundTrip.antt =====
-- Allocating a block and freeing it again (lib/mem.c).
use mathlib.Core.Path.{subst}
use efi_wrapper.Prelude.{
  ℕ, ◌+◌, ◌-◌, ◌%◌, ◌≡◌, ◌≢◌, refl, ap, ◌∙◌, sym, true, false, ◌==◌, Option, some, List, [], ◌∷◌,
  length, if◌then◌else◌, arith, Bool-cases, inl, inr,
}
use efi_wrapper.Memory.{
  Desc, Block, Pool, desc_size, head_size, word, has, is_held, find_block, prev_addr, next_addr,
  update_sum, push_block, strip_block, with_block, without_block, moved_desc, at, freed,
  mem_allocate, mem_free,
}
use efi_wrapper.Memory.Sums.{Sums}
use efi_wrapper.Memory.Sound.{IsSound, HasRoom, IsNew, with_block-IsSound}
use efi_wrapper.Memory.Freeing.{mem_free-IsSound}

-- The descriptor of a buffer of `size` bytes in a block of the allocator at `start`.
abbrev pub plain_desc : ℕ → ℕ → Desc
plain_desc start size = record {
  addr = start;
  start = start;
  offset = desc_size;
  align = 0;
  size = size;
  real_size = desc_size + size + head_size;
}

module _ (s_crc32 : Desc → ℕ → ℕ → ℕ) where
  pub find-push :
      (prev : ℕ) (blocks : List Block) (d : Desc)
      → has d.addr blocks ≡ false
      → (b : Block) × (find_block d.addr (
            push_block s_crc32 prev blocks
              (record { desc = d; crc = 0; magic = true; foot = true }))
          ≡ some b)
        × (b.desc ≡ d)
        × (b.magic ≡ true)
        × (b.foot ≡ true)
  unfolding push_block
  find-push prev [] d out =
      let self : (d.addr == d.addr) ≡ true = ground arith in
      (
        update_sum s_crc32 prev (record { desc = d; crc = 0; magic = true; foot = true }) 0,
        rw self refl,
        refl,
        refl,
        refl,
      )
  find-push prev (b ∷ []) d out =
      let self : (d.addr == d.addr) ≡ true = ground arith in
      let e : (b.desc.addr == d.addr) ≡ false = ground (arith, out) in
      (
        update_sum s_crc32 b.desc.addr (record { desc = d; crc = 0; magic = true; foot = true }) 0,
        rw (e, self) refl,
        refl,
        refl,
        refl,
      )
  find-push prev (b ∷ c ∷ blocks) d out =
      let e : (b.desc.addr == d.addr) ≡ false = ground (arith, out) in
      let (x, f, same, m, foot) = find-push b.desc.addr (c ∷ blocks) d (ground (arith, out)) in
      (x, rw (e, f) refl, same, m, foot)

  -- Taking the last block out again gives the list as it was.
  strip-push :
      (prev : ℕ) (blocks : List Block) (new : Block)
      → Sums s_crc32 prev blocks
      → has new.desc.addr blocks ≡ false
      → strip_block s_crc32 prev new.desc.addr (push_block s_crc32 prev blocks new) ≡ blocks
  unfolding push_block strip_block
  strip-push prev [] new s out =
      let self : (new.desc.addr == new.desc.addr) ≡ true = ground arith in rw self refl
  strip-push prev (b ∷ []) new (s, _) out =
      let self : (new.desc.addr == new.desc.addr) ≡ true = ground arith in
      let e : (b.desc.addr == new.desc.addr) ≡ false = ground (arith, out) in rw (e, self, ← s) refl
  strip-push prev (b ∷ c ∷ []) new (s, (t, _)) out =
      let self : (new.desc.addr == new.desc.addr) ≡ true = ground arith in
      let e : (b.desc.addr == new.desc.addr) ≡ false = ground (arith, out) in
      let e' : (c.desc.addr == new.desc.addr) ≡ false = ground (arith, out) in
      rw (e, e', self, ← t) refl
  strip-push prev (b ∷ c ∷ d ∷ blocks) new (s, t) out =
      let e : (b.desc.addr == new.desc.addr) ≡ false = ground (arith, out) in
      let e' : (c.desc.addr == new.desc.addr) ≡ false = ground (arith, out) in
      let rest = strip-push b.desc.addr (c ∷ d ∷ blocks) new t (ground (arith, out)) in
      rw (e, e') (ap (λ l. b ∷ l) rest)

  next-push :
      (prev : ℕ) (blocks : List Block) (new : Block)
      → has new.desc.addr blocks ≡ false
      → (next_addr new.desc.addr (push_block s_crc32 prev blocks new) ≡ 0)
  unfolding push_block
  next-push prev [] new out = ground arith
  next-push prev (b ∷ []) new out = ground (arith, out)
  next-push prev (b ∷ c ∷ blocks) new out =
      ground (arith, out, next-push b.desc.addr (c ∷ blocks) new (ground (arith, out)))

  prev-push :
      (blocks : List Block) (new : Block)
      → (length blocks == 0) ≡ true
      → (prev_addr 0 new.desc.addr (push_block s_crc32 0 blocks new) ≡ 0)
  unfolding push_block
  prev-push [] new e = ground arith
  prev-push (b ∷ blocks) new e = ground (arith, e)

  held-zero :
      (desc : ℕ) (blocks : List Block)
      → (desc == 0) ≡ true
      → (if desc == 0 then length blocks == 0 else has desc blocks) ≡ (length blocks == 0)
  held-zero desc blocks e = rw e

  held-has :
      (desc : ℕ) (blocks : List Block)
      → (desc == 0) ≡ false
      → (if desc == 0 then length blocks == 0 else has desc blocks) ≡ has desc blocks
  held-has desc blocks e = rw e

  absent-ne :
      (a x : ℕ) (blocks : List Block)
      → has x blocks ≡ true
      → has a blocks ≡ false
      → (x == a) ≡ false
  absent-ne a x blocks h out = elim (Bool-cases (x == a)) [
    | inr e ↦ e
    | inl e ↦
        let same : x ≡ a = ground (arith, e) in
        absurd (ground (arith, out, subst (λ y. has y blocks ≡ true) same h))
  ]

  desc-back :
      (pool : Pool) (d : Desc)
      → IsSound s_crc32 pool
      → IsNew pool d
      → moved_desc s_crc32 (with_block s_crc32 pool d) d.addr ≡ pool.desc
  desc-back pool d s new =
      let b : Block = record { desc = d; crc = 0; magic = true; foot = true } in
      let next = next-push 0 pool.blocks b new.absent in
      elim (Bool-cases (pool.desc == 0)) [
        | inl e ↦
            let prev = prev-push pool.blocks b (rw (← held-zero pool.desc pool.blocks e) s.held) in
            ground (arith, e, next, prev)
        | inr e ↦
            let h : has pool.desc pool.blocks ≡ true =
              rw (← held-has pool.desc pool.blocks e) s.held in
            ground (arith, e, absent-ne d.addr pool.desc pool.blocks h new.absent)
      ]

  is_held-IsSound : (pool : Pool) → IsSound s_crc32 pool → is_held pool ≡ true
  is_held-IsSound pool s = elim (Bool-cases (pool.desc == 0)) [
    | inl e ↦ rw e
    | inr e ↦
        let h : has pool.desc pool.blocks ≡ true = rw (← held-has pool.desc pool.blocks e) s.held in
        rw (e, h)
  ]

  without-with :
      (pool : Pool) (d : Desc) (b : Block)
      → IsSound s_crc32 pool
      → HasRoom pool d
      → IsNew pool d
      → b.desc ≡ d
      → without_block s_crc32 (with_block s_crc32 pool d) b ≡ pool
  without-with pool d b s room new e =
      let new_block : Block = record { desc = d; crc = 0; magic = true; foot = true } in
      let c : ((pool.count + 1) % word + word - 1) % word ≡ pool.count =
        omega (arith, room.count) in
      let u : ((pool.used_size + d.real_size) % word + word - d.real_size) % word ≡ pool.used_size =
        omega (arith, room.used) in
      let t : ((pool.alloc_size + d.size) % word + word - d.size) % word ≡ pool.alloc_size =
        omega (arith, room.taken) in
      let p = desc-back pool d s new in
      let l = strip-push 0 pool.blocks new_block s.sums new.absent in
      rw e (λ i. record {
        magic = pool.magic;
        count = c i;
        used_size = u i;
        alloc_size = t i;
        desc = p i;
        blocks = l i;
      })

  -- In a sound pool with room, a size that is not 0 and a new place of the allocator's: the buffer
  -- stands right behind a descriptor there, the pool is sound again, and freeing the buffer gives
  -- back exactly the pool from before, its accounts, pointer and checksums included.
  pub mem_free-mem_allocate :
      (allocate : ℕ → Option ℕ) (pool : Pool) (size start : ℕ)
      → IsSound s_crc32 pool
      → size ≢ 0
      → HasRoom pool (plain_desc start size)
      → allocate (desc_size + size + head_size) ≡ some start
      → start ≢ 0
      → has start pool.blocks ≡ false
      → let after = with_block s_crc32 pool (plain_desc start size) in
        (mem_allocate s_crc32 allocate pool size ≡ at (start + desc_size) after)
        × IsSound s_crc32 after
        × (mem_free s_crc32 after (start + desc_size) ≡ freed pool)
  unfolding mem_allocate
  mem_free-mem_allocate allocate pool size start s n room a z out =
      let d = plain_desc start size in
      let new : IsNew pool d = record { nonzero = z; absent = out; before_buffer = refl } in
      let after = with_block-IsSound s_crc32 pool d s room new in
      let (b, f, same, m, foot) = find-push 0 pool.blocks d out in
      let back : start + desc_size - desc_size ≡ start = omega arith in
      let found =
        subst (λ x. find_block x (with_block s_crc32 pool d).blocks ≡ some b) (sym back) f in
      let free =
        mem_free-IsSound s_crc32 (with_block s_crc32 pool d) (start + desc_size) b after found m
          foot (omega (arith, room.count)) (omega (arith, room.used)) (omega (arith, room.taken)) in
      let bytes : (desc_size + size + head_size) % word ≡ desc_size + size + head_size =
        omega (arith, room.used) in
      let some_size : (size == 0) ≡ false = ground (arith, n) in
      (
        rw (some_size, s.magic, bytes, a, is_held-IsSound pool s),
        after,
        free.0 ∙ ap freed (without-with pool d b s room new same),
      )
