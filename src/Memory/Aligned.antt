-- ===== src/Memory/Aligned.antt =====
-- lib/mem.c: buffers at multiples of an alignment.
use efi_wrapper.Prelude.{
  ℕ, zero, suc, ◌+◌, ◌-◌, ◌*◌, ◌%◌, ◌^◌, bit_and, not, ◌||◌, ◌==◌, ltb, Option, none, some,
  if◌then◌else◌,
}
use efi_wrapper.Memory.{
  Desc, Pool, Buffer, null, at, dangling, desc_size, head_size, word, is_held, with_block,
  mem_allocate,
}

-- ((v+align-1)&~(align-1)) for an alignment that is not 0.
unfoldable pub round_up : ℕ → ℕ → ℕ
round_up v align = bit_and ((v + align - 1) % word) (word - align)

module _ (s_crc32 : Desc → ℕ → ℕ → ℕ) (allocate : ℕ → Option ℕ) where
  -- The aligned buffer in a block: the first multiple of the alignment with room for a
  -- descriptor before it. The loop adds the alignment while there is no room.
  unfoldable pub find_buff : ℕ → ℕ → ℕ → ℕ → ℕ
  find_buff zero align start buff = buff
  find_buff (suc fuel) align start buff =
      let more = find_buff fuel align start (buff + align) in
      if ltb (buff - start) desc_size then more else buff

  abbrev pub aligned_in : Pool → ℕ → ℕ → ℕ → Option ℕ → Buffer
  aligned_in pool align rs ms none = null
  aligned_in pool align rs ms (some start) =
      let buff = find_buff desc_size align start (round_up start align) in
      let d : Desc = record {
        addr = buff - desc_size;
        start = start;
        offset = (buff - start) % 2 ^ 16;
        align = align % 2 ^ 16;
        size = rs;
        real_size = ms;
      } in
      if is_held pool then at buff (with_block s_crc32 pool d) else dangling

  unfoldable pub mem_aligned_allocate : Pool → ℕ → ℕ → Buffer
  unfolding find_buff round_up
  mem_aligned_allocate pool align size =
      if align == 0
      then mem_allocate s_crc32 allocate pool size
      else if size == 0 || not (align % 8 == 0) || not pool.magic
      then null
      else let ext = align * 2 + desc_size + head_size in
        let rs = round_up size align % word in
        let ms = round_up (rs + ext) align % word in aligned_in pool align rs ms (allocate ms)
