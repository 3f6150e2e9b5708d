-- ===== src/Pathname.antt =====
-- lib/general/path.c: the functions on path names. A string in memory is the list of its bytes with
-- the null byte and whatever follows it; reading behind the end of the list is `none`.
pub mod Resolving
pub mod Resolved
pub mod Naming
pub mod Merging
use efi_wrapper.Prelude.{
  ℕ, zero, suc, ◌+◌, ◌-◌, min, Bool, true, false, not, ◌&&◌, ◌||◌, ◌==◌, ltb, Option, none, some,
  List, [], ◌∷◌, ◌++◌, length, take, replicate, if◌then◌else◌,
}

abbrev pub slash : ℕ
slash = 47

abbrev pub backslash : ℕ
backslash = 92

abbrev pub dot : ℕ
dot = 46

unfoldable pub is_sep : ℕ → Bool
is_sep c = c == slash || c == backslash

-- What has been written, the last byte first, and the room left in the buffer.
pub record Output : Type 0 where
  pub written : List ℕ
  pub size : ℕ

-- buff[-1]!=sep and is_sep(buff[-1]), with len>0
abbrev pub ends_without : ℕ → List ℕ → Bool
ends_without sep [] = false
ends_without sep (c ∷ written) = not (c == sep)

abbrev pub at_start : List ℕ → Bool
at_start [] = true
at_start (c ∷ written) = c == slash || c == backslash

abbrev pub put : ℕ → Output → Output
put c out = record { written = c ∷ out.written; size = out.size - 1 }

-- The inner loop: back to the separator before the last name.
unfoldable pub erase_name : ℕ → List ℕ → List ℕ
erase_name sep [] = []
erase_name sep (c ∷ written) =
    let rest = erase_name sep written in if c == sep then c ∷ written else rest

unfoldable pub erase : ℕ → List ℕ → List ℕ
unfolding erase_name
erase sep [] = []
erase sep (c ∷ written) = if c == sep then erase_name sep written else erase_name sep (c ∷ written)

abbrev pub leave : ℕ → Output → Output
leave sep out =
    let left = erase sep out.written in
    record { written = left; size = out.size + (length out.written - length left) }

-- What one round does with the byte at `path`: it stops at the end, or goes on with that byte and
-- some after it passed over.
pub data Round : Type 0 where
  ends : Round
  outside : Round
  passes : ℕ → Output → Round

-- A name that starts with two dots.
abbrev pub after_dots : ℕ → Output → List ℕ → Round
after_dots sep out [] = outside
after_dots sep out (e ∷ path) =
    if is_sep e || e == 0 then passes 2 (leave sep out) else passes 0 (put dot out)

-- A name that starts with a dot.
abbrev pub after_dot : ℕ → Output → List ℕ → Round
after_dot sep out [] = outside
after_dot sep out (d ∷ path) =
    if is_sep d || d == 0
    then passes 1 out
    else if d == dot
    then after_dots sep out path
    else passes 0 (put dot out)

unfoldable pub resolve_round : ℕ → Output → List ℕ → Round
unfolding is_sep erase
resolve_round sep out [] = if out.size == 0 then ends else outside
resolve_round sep out (c ∷ path) =
    if out.size == 0 || c == 0
    then ends
    else if is_sep c
    then passes 0 (if ends_without sep out.written then put slash out else out)
    else if c == dot && at_start out.written
    then after_dot sep out path
    else passes 0 (put c out)

-- The loop, with the number of bytes that are still to be passed over.
unfoldable pub resolve_loop : ℕ → ℕ → Output → List ℕ → Option (List ℕ)
unfolding resolve_round
resolve_loop sep skip out [] = if out.size == 0 then some out.written else none
resolve_loop sep (suc skip) out (c ∷ path) = resolve_loop sep skip out path
resolve_loop sep zero out (c ∷ path) = elim (resolve_round sep out (c ∷ path)) [
  | ends ↦ some out.written
  | outside ↦ none
  | passes skip more ↦ resolve_loop sep skip more path
]

-- The text in the buffer, the last byte first; the buffer's other bytes are 0 and the result is the
-- length of the text. A null path is `none`.
abbrev pub path_resolve : ℕ → ℕ → Option (List ℕ) → Option (List ℕ)
path_resolve size sep none = some []
path_resolve size sep (some path) =
    if size == 0
    then some []
    else resolve_loop (if sep == 0 then slash else sep) 0 (record { written = []; size = size })
        path

-- The string at the start of some bytes.
unfoldable pub text_of : List ℕ → List ℕ
text_of [] = []
text_of (c ∷ path) = let rest = text_of path in if c == 0 then [] else c ∷ rest

-- strlcat into a buffer that holds a string.
abbrev pub strlcat : ℕ → List ℕ → List ℕ → List ℕ
strlcat size dst src = if ltb (length dst) size then take (size - 1) (dst ++ src) else dst

abbrev pub joined_size : ℕ
joined_size = 8192

-- The local buffer of path_merge, whose other bytes are 0.
unfoldable pub joined : List ℕ → List ℕ → List ℕ
unfolding text_of
joined path1 path2 =
    let text =
      strlcat (joined_size - 1)
        (strlcat (joined_size - 1) (strlcat (joined_size - 1) [] (text_of path1)) (slash ∷ []))
        (text_of path2) in
    text ++ replicate (joined_size - length text) 0

abbrev pub path_merge : ℕ → ℕ → Option (List ℕ) → Option (List ℕ) → Option (List ℕ)
path_merge size sep none path2 = path_resolve size sep path2
path_merge size sep (some path1) none = path_resolve size sep (some path1)
path_merge size sep (some path1) (some path2) = path_resolve size sep (some (joined path1 path2))

-- The loops that move `end` back; the bytes before it, the last one first.
unfoldable pub drop_seps : List ℕ → List ℕ
unfolding is_sep
drop_seps [] = []
drop_seps (c ∷ path) = let rest = drop_seps path in if is_sep c then rest else c ∷ path

unfoldable pub drop_name : List ℕ → List ℕ
unfolding is_sep
drop_name [] = []
drop_name (c ∷ path) = let rest = drop_name path in if not (is_sep c) then rest else c ∷ path

-- The loop that moves `start` behind the last separator.
unfoldable pub name_loop : List ℕ → List ℕ → List ℕ
unfolding is_sep
name_loop start [] = start
name_loop start (c ∷ path) = name_loop (if is_sep c then path else start) path

unfoldable pub reversed : List ℕ → List ℕ → List ℕ
reversed done [] = done
reversed done (c ∷ path) = reversed (c ∷ done) path

-- The text left in the buffer; a null buffer or path is not looked at.
unfoldable pub path_basename : ℕ → List ℕ → List ℕ
unfolding text_of drop_seps name_loop reversed
path_basename size path =
    let trimmed = reversed [] (drop_seps (reversed [] (text_of path))) in
    let start = name_loop trimmed trimmed in take (min (length start) size) start

unfoldable pub path_dirname : ℕ → List ℕ → List ℕ
unfolding text_of drop_seps drop_name reversed
path_dirname size path =
    let start = reversed [] (drop_name (drop_seps (reversed [] (text_of path)))) in
    take (min (length start) size) start
