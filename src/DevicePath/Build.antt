-- ===== src/DevicePath/Build.antt =====
-- lib/efi/device_path.c: the operations that make a path, and those on instances.
use efi_wrapper.Prelude.{
  ℕ, zero, suc, ◌+◌, ◌-◌, ◌/◌, ◌%◌, Bool, true, false, not, ◌&&◌, ◌||◌, ◌==◌, ltb, Option, none,
  some, [], ◌∷◌, ◌++◌, length, set, take, drop, replicate, if◌then◌else◌,
}
use efi_wrapper.Ustr.{Ustr, ustrsize}
use efi_wrapper.DevicePath.{
  Bytes, end_entire, end_instance, media_type, media_filepath, efi_device_path_end, overwrite,
  efi_device_path_get_node_length, efi_device_path_set_node_length, efi_device_path_is_end,
  efi_device_path_is_end_type, efi_device_path_is_end_instance, efi_device_path_node_next,
}
use efi_wrapper.DevicePath.Walk.{efi_device_path_valid, to_end, efi_device_path_get_size}

-- memcpy to an offset in a block
abbrev pub copy_at : ℕ → Bytes → Bytes → Bytes
copy_at offset block bytes = take offset block ++ overwrite (drop offset block) bytes

-- `do{size+=efi_device_path_get_node_length(dp);}while((dp=efi_device_path_node_next(dp))&&...)`,
-- which never ends on a node of length 0.
unfoldable pub instance_loop : ℕ → Bytes → ℕ → Option ℕ
instance_loop zero p size = none
instance_loop (suc fuel) p size =
    let node = efi_device_path_get_node_length (some p) in
    let next = drop node p in
    let rest = instance_loop fuel next (size + node) in
    if efi_device_path_is_end (some p)
    then some (size + node)
    else if efi_device_path_is_end (some next)
    then some (size + node)
    else rest

unfoldable pub efi_device_path_get_instance_size : ℕ → Option Bytes → Option ℕ
efi_device_path_get_instance_size fuel none = some 0
efi_device_path_get_instance_size fuel (some p) =
    if efi_device_path_is_end (some p) then some 0 else instance_loop fuel p 0

-- `for(p=*dp;!efi_device_path_is_end_type(p);p=efi_device_path_node_next(p));`
unfoldable pub to_end_type : ℕ → Bytes → ℕ × Bytes
to_end_type zero p = (0, p)
to_end_type (suc fuel) p =
    let node = efi_device_path_get_node_length (some p) in
    let (passed, last) = to_end_type fuel (drop node p) in
    if efi_device_path_is_end_type (some p) then (0, p) else (node + passed, last)

unfoldable pub multi_loop : ℕ → Bytes → Bool
multi_loop zero p = false
multi_loop (suc fuel) p =
    let rest = multi_loop fuel (drop (efi_device_path_get_node_length (some p)) p) in
    if efi_device_path_is_end (some p)
    then false
    else if efi_device_path_is_end_instance (some p)
    then true
    else rest

unfoldable pub efi_device_path_is_multi_instance : Option Bytes → Bool
efi_device_path_is_multi_instance none = false
efi_device_path_is_multi_instance (some p) =
    efi_device_path_valid (some p) 0 && multi_loop (suc (length p)) p

-- The bytes of the units of a string and of its terminator.
abbrev pub units_bytes : Ustr → Bytes
units_bytes [] = 0 ∷ 0 ∷ []
units_bytes (c ∷ s) = (c % 256) ∷ (c / 256) ∷ units_bytes s

-- The sizes of `path` and of the whole structure in efi_device_path_from_file_str16.
unfoldable pub path_room : ℕ
path_room = 8184

-- The structure on the stack when the file name of so many bytes is in it.
abbrev pub file_block : Ustr → ℕ → Option Bytes
file_block file size =
    let zeros = replicate (4 + path_room + 4) 0 in
    let text = copy_at 4 zeros (units_bytes file) in
    (efi_device_path_set_node_length (some (copy_at 0 text (media_type ∷ media_filepath ∷ [])))
      (4 + size)).0

abbrev pub file_path : Option Bytes → Option Bytes
file_path none = none
file_path (some block) =
    let node = efi_device_path_get_node_length (some block) in
    if efi_device_path_is_end (some block)
    then some block
    else some (copy_at node block efi_device_path_end)

-- A new block of the pool, with what stands in it, or `none`.
module _ (mem_allocate : ℕ → Option Bytes) where
  abbrev copied : Option Bytes → Bytes → Option Bytes
  copied none bytes = none
  copied (some block) bytes = some (overwrite block bytes)

  unfoldable pub efi_device_path_dup : Option Bytes → Option Bytes
  efi_device_path_dup none = none
  efi_device_path_dup (some p) =
      let size = efi_device_path_get_size (some p) in
      if size == 0 then none else copied (mem_allocate size) (take size p)

  abbrev pub append_to : Option Bytes → ℕ → Bytes → ℕ → Bytes → Option Bytes
  append_to none size1 p size2 q = none
  append_to (some block) size1 p size2 q =
      some (copy_at (size1 - 4) (overwrite block (take size1 p)) (take size2 q))

  unfoldable pub efi_device_path_append : Option Bytes → Option Bytes → Option Bytes
  unfolding efi_device_path_dup
  efi_device_path_append none none = efi_device_path_dup (some efi_device_path_end)
  efi_device_path_append none (some q) = efi_device_path_dup (some q)
  efi_device_path_append (some p) none = efi_device_path_dup (some p)
  efi_device_path_append (some p) (some q) =
      let size1 = efi_device_path_get_size (some p) in
      let size2 = efi_device_path_get_size (some q) in
      if not (efi_device_path_valid (some p) 0) || not (efi_device_path_valid (some q) 0)
      then none
      else append_to (mem_allocate (size1 + size2 - 4)) size1 p size2 q

  -- The block that holds the node and, unless the node is an end already, an end behind it.
  abbrev pub node_block : Option Bytes → ℕ → Bytes → Option Bytes
  node_block none size node = none
  node_block (some block) size node =
      let buf = overwrite block (take size node) in
      if efi_device_path_is_end (some buf)
      then some buf
      else some (copy_at (efi_device_path_get_node_length (some buf)) buf efi_device_path_end)

  abbrev pub append_block : Option Bytes → Option Bytes → Option Bytes
  append_block dp none = none
  append_block dp (some buf) = efi_device_path_append dp (some buf)

  unfoldable pub efi_device_path_node_append : Option Bytes → Option Bytes → Option Bytes
  efi_device_path_node_append none none = efi_device_path_dup (some efi_device_path_end)
  efi_device_path_node_append (some dp) none = efi_device_path_dup (some dp)
  efi_device_path_node_append dp (some node) =
      let size = efi_device_path_get_node_length (some node) in
      append_block dp (node_block (mem_allocate (size + 4)) size node)

  abbrev pub instance_to : Option Bytes → ℕ → Bytes → ℕ → Bytes → Option Bytes
  instance_to none src p ins q = none
  instance_to (some block) src p ins q =
      let ret = overwrite block (take src p) in
      let (passed, last) = to_end (suc (length ret)) ret in
      let marked = set ret (passed + 1) end_instance in
      some (copy_at (passed + efi_device_path_get_node_length (some last)) marked (take ins q))

  unfoldable pub efi_device_path_instance_append : Option Bytes → Option Bytes → Option Bytes
  efi_device_path_instance_append none ins = efi_device_path_dup ins
  efi_device_path_instance_append (some p) none = none
  efi_device_path_instance_append (some p) (some q) =
      let src = efi_device_path_get_size (some p) in
      let ins = efi_device_path_get_size (some q) in
      if not (efi_device_path_valid (some p) 0) || not (efi_device_path_valid (some q) 0)
      then none
      else instance_to (mem_allocate (src + ins)) src p ins q

  -- The result, `*size` and `*dp` afterwards. The arguments are `*dp` and whether `size` is a
  -- pointer; the subtype that the search changes is put back.
  unfoldable pub efi_device_path_instance_next :
      Option Bytes → Bool → Option Bytes × Option ℕ × Option Bytes
  efi_device_path_instance_next none has_size = (none, if has_size then some 0 else none, none)
  efi_device_path_instance_next (some p) has_size =
      let (passed, last) = to_end_type (suc (length p)) p in
      if not has_size
      then (none, none, some p)
      else if not (efi_device_path_valid (some p) 0)
      then (none, some 0, some p)
      else (
        efi_device_path_dup (some (set p (passed + 1) end_entire)),
        some (passed + 4),
        efi_device_path_node_next (some last),
      )

  abbrev pub created : Option Bytes → ℕ → ℕ → ℕ → Option Bytes
  created none type sub size = none
  created (some block) type sub size =
      (efi_device_path_set_node_length
        (some (copy_at 0 (overwrite block (replicate size 0)) (type ∷ sub ∷ []))) size).0

  unfoldable pub efi_device_path_create_node : ℕ → ℕ → ℕ → Option Bytes
  efi_device_path_create_node type sub size =
      if ltb size 4 then none else created (mem_allocate size) type sub size

  -- The second argument: `none` for no handle, else what efi_device_path_from_handle returns.
  abbrev pub file_parent : Option (Option Bytes) → Bytes → Option Bytes
  file_parent none dp = efi_device_path_append none (some dp)
  file_parent (some none) dp = none
  file_parent (some (some parent)) dp = efi_device_path_append (some parent) (some dp)

  abbrev pub file_appended : Option (Option Bytes) → Option Bytes → Option Bytes
  file_appended parent none = none
  file_appended parent (some dp) = file_parent parent dp

  unfoldable pub efi_device_path_from_file_str16 :
      Option (Option Bytes) → Option Ustr → Option Bytes
  efi_device_path_from_file_str16 parent none = none
  efi_device_path_from_file_str16 parent (some []) = none
  efi_device_path_from_file_str16 parent (some (c ∷ file)) =
      let size = ustrsize (some (c ∷ file)) in
      if ltb path_room size
      then none
      else file_appended parent (file_path (file_block (c ∷ file) size))
