-- ===== src/Memory/Sound.antt =====
-- A pool whose descriptors, checksums and accounts are right (lib/mem.c), and the checks on it.
use mathlib.Core.Path.{subst}
use efi_wrapper.Prelude.{
  ℕ, ◌+◌, ◌<◌, ◌≤◌, ◌≡◌, ◌≢◌, sym, true, false, ◌==◌, leb, some, List, [], ◌∷◌, length,
  if◌then◌else◌, arith, Bool-cases, ==_iff, inl, inr,
}
use efi_wrapper.Memory.{
  Desc, Block, Pool, desc_size, word, has, find_block, prev_addr, next_addr, check_buffer,
  with_block,
}
use efi_wrapper.Memory.Sums.{
  total_real, total_size, Placed, Sums, Sums-push, totals-push, Placed-push, has-push,
}

pub record IsSound (s_crc32 : Desc → ℕ → ℕ → ℕ) (pool : Pool) : Type 0 where
  pub magic : pool.magic ≡ true
  pub sums : Sums s_crc32 0 pool.blocks
  pub placed : Placed pool.blocks
  pub counted : pool.count ≡ length pool.blocks
  pub used : pool.used_size ≡ total_real pool.blocks
  pub taken : pool.alloc_size ≡ total_size pool.blocks
  pub held : (if pool.desc == 0 then length pool.blocks == 0 else has pool.desc pool.blocks) ≡ true

-- The accounts of the pool have room for one more block.
pub record HasRoom (pool : Pool) (d : Desc) : Type 0 where
  pub count : pool.count + 1 < word
  pub used : pool.used_size + d.real_size < word
  pub taken : pool.alloc_size + d.size < word

-- A new descriptor: at a place of its own, and right before its buffer.
pub record IsNew (pool : Pool) (d : Desc) : Type 0 where
  pub nonzero : d.addr ≢ 0
  pub absent : has d.addr pool.blocks ≡ false
  pub before_buffer : d.start + d.offset ≡ d.addr + desc_size

pub held-has :
    (a : ℕ) (blocks : List Block)
    → (a == 0) ≡ false
    → (if a == 0 then length blocks == 0 else has a blocks) ≡ has a blocks
held-has a blocks e = rw e

module _ (s_crc32 : Desc → ℕ → ℕ → ℕ) where
  pub with_block-IsSound :
      (pool : Pool) (d : Desc)
      → IsSound s_crc32 pool
      → HasRoom pool d
      → IsNew pool d
      → IsSound s_crc32 (with_block s_crc32 pool d)
  with_block-IsSound pool d s room new =
      let b : Block = record { desc = d; crc = 0; magic = true; foot = true } in
      let t = totals-push s_crc32 0 pool.blocks b in
      record {
        magic = s.magic;
        sums = Sums-push s_crc32 0 pool.blocks b s.sums;
        placed =
            Placed-push s_crc32 0 pool.blocks b s.placed new.absent new.nonzero new.before_buffer;
        counted = omega (arith, s.counted, t, room.count);
        used = omega (arith, s.used, t, room.used);
        taken = omega (arith, s.taken, t, room.taken);
        held = elim (Bool-cases (pool.desc == 0)) [
          | inl e ↦
              let nz : (d.addr == 0) ≡ false = ground (arith, new.nonzero) in
              rw (e, nz, has-push s_crc32 0 d.addr pool.blocks b) (ground arith)
          | inr e ↦
              let h : has pool.desc pool.blocks ≡ true =
                rw (← held-has pool.desc pool.blocks e) s.held in
              rw (e, e, has-push s_crc32 0 pool.desc pool.blocks b, h)
        ];
      }

  pub found-sum :
      (prev a : ℕ) (blocks : List Block) (b : Block)
      → Sums s_crc32 prev blocks
      → find_block a blocks ≡ some b
      → (b.crc ≡ s_crc32 b.desc (prev_addr prev b.desc.addr blocks) (next_addr b.desc.addr blocks))
        × (b.desc.addr ≡ a)
  found-sum prev a [] b s f = cc
  found-sum prev a (c ∷ blocks) b (s, r) f = elim (Bool-cases (c.desc.addr == a)) [
    | inl e ↦
        let same : c ≡ b = ground (arith, e) in
        let self : (c.desc.addr == c.desc.addr) ≡ true = ground arith in
        rw (← same) (rw self s, ground (arith, e))
    | inr e ↦
        let (sum, at) = found-sum c.desc.addr a blocks b r (ground (arith, e)) in
        let other : (c.desc.addr == b.desc.addr) ≡ false =
          subst (λ y. (c.desc.addr == y) ≡ false) (sym at) e in
        (rw other sum, at)
  ]

  pub found-Placed :
      (a : ℕ) (blocks : List Block) (b : Block)
      → Placed blocks
      → find_block a blocks ≡ some b
      → (b.desc.start + b.desc.offset ≡ b.desc.addr + desc_size)
        × (b.desc.real_size ≤ total_real blocks)
        × (b.desc.size ≤ total_size blocks)
        × (has a blocks ≡ true)
  found-Placed a [] b p f = cc
  found-Placed a (c ∷ blocks) b (o, n, p, q) f = elim (Bool-cases (c.desc.addr == a)) [
    | inl e ↦
        let same : c ≡ b = ground (arith, e) in rw (← same) (p, omega arith, omega arith, rw e)
    | inr e ↦
        let r = found-Placed a blocks b q (ground (arith, e)) in
        (r.0, omega (arith, r.1), omega (arith, r.2), rw (e, r.3))
  ]

  -- Every block of a sound pool passes check_buffer, if its own mark is whole.
  pub check_buffer-IsSound :
      (pool : Pool) (a : ℕ) (b : Block)
      → IsSound s_crc32 pool
      → find_block a pool.blocks ≡ some b
      → b.magic ≡ true
      → check_buffer s_crc32 pool b ≡ true
  unfolding check_buffer
  check_buffer-IsSound pool a b s f m =
      let (crc, at) = found-sum 0 a pool.blocks b s.sums f in
      let p = found-Placed a pool.blocks b s.placed f in
      let c1 : (b.crc
            == s_crc32 b.desc (prev_addr 0 b.desc.addr pool.blocks)
                (next_addr b.desc.addr pool.blocks))
          ≡ true =
        (==_iff b.crc _).1 crc in
      let c2 : leb b.desc.real_size pool.used_size ≡ true = ground (arith, p.1, s.used) in
      let c3 : leb b.desc.size pool.alloc_size ≡ true = ground (arith, p.2, s.taken) in
      let c4 : (b.desc.start + b.desc.offset == b.desc.addr + desc_size) ≡ true =
        ground (arith, p.0) in
      rw (m, c1, s.magic, c2, c3, c4)
