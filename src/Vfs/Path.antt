-- ===== src/Vfs/Path.antt =====
-- The path parsing of drivers/filesystem/vfs.c. A string is the list of its bytes before the NUL, and a
-- cursor into it the rest of the list.
use nyxis_os.Base.{
  ℕ, zero, suc, ◌+◌, Bool, false, Option, none, some, List, [], ◌∷◌, ◌++◌, leb, ◌==◌, if◌then◌else◌,
  length, drop,
}
use nyxis_os.Base.Status.{Result, ok, err, path_too_long}

-- `VFS_NAME_MAX`
abbrev pub name_max : ℕ
name_max = 255

abbrev pub is_slash : ℕ → Bool
is_slash c = c == b'/'

-- `while (*source == '/') source++;`
unfoldable pub skip_slashes : List ℕ → List ℕ
skip_slashes [] = []
skip_slashes (c ∷ cs) = if is_slash c then skip_slashes cs else c ∷ cs

-- The loop that copies a name, with what is in the buffer.
unfoldable pub copy_name : ℕ → List ℕ → List ℕ → Result (List ℕ × List ℕ)
copy_name max_len name [] = ok (name, [])
copy_name max_len name (c ∷ cs) =
    let rest = copy_name max_len (name ++ c ∷ []) cs in
    if is_slash c
    then ok (name, c ∷ cs)
    else if leb max_len (length name + 1)
    then err path_too_long
    else rest

-- The name, empty at the end of the path, and the cursor.
unfoldable pub parse_segment : ℕ → List ℕ → Result (List ℕ × List ℕ)
unfolding skip_slashes copy_name
parse_segment max_len cursor = elim (copy_name max_len [] (skip_slashes cursor)) [
  | err e ↦ err e
  | ok r ↦ ok (r.0, skip_slashes r.1)
]

-- `strchr(cursor, ':')`: what stands before and behind the first colon.
unfoldable pub at_colon : List ℕ → Option (List ℕ × List ℕ)
at_colon [] = none
at_colon (c ∷ cs) =
    if c == b':'
    then some ([], cs)
    else elim (at_colon cs) [ none ↦ none | some r ↦ some (c ∷ r.0, r.1) ]

-- The string in the buffer `out_ns`, of which `name` has been written over `stack`.
unfoldable pub before_nul : List ℕ → List ℕ
before_nul [] = []
before_nul (c ∷ cs) = if c == 0 then [] else c ∷ before_nul cs

abbrev pub read_back : List ℕ → List ℕ → List ℕ
read_back [] stack = []
read_back (c ∷ cs) stack = before_nul ((c ∷ cs) ++ drop (length (c ∷ cs)) stack)

-- A part of a name is put behind the others, with a colon between them.
unfoldable pub add_part : List ℕ → List ℕ → List ℕ
add_part [] part = part
add_part (c ∷ cs) part = (c ∷ cs) ++ b':' ∷ part

-- Whether the part does not fit the buffer.
unfoldable pub too_long : ℕ → List ℕ → List ℕ → Bool
too_long max_ns [] part = leb max_ns (length part)
too_long max_ns (c ∷ cs) part = leb max_ns (length (c ∷ cs) + 1 + length part)

-- The local path behind `colon`, where a slash follows.
abbrev pub starts_local : List ℕ → Bool
starts_local [] = false
starts_local (c ∷ cs) = is_slash c

-- The loop of `parse_namespace_path`, with fuel: the name and the local path.
unfoldable pub namespace_loop : ℕ → ℕ → List ℕ → List ℕ → List ℕ → List ℕ → Result (List ℕ × List ℕ)
unfolding at_colon add_part too_long before_nul
namespace_loop zero max_ns stack path name cursor = ok (read_back name stack, path)
namespace_loop (suc fuel) max_ns stack path name cursor = elim (at_colon cursor) [
  | none ↦ ok (read_back name stack, path)
  | some r ↦
      let next = namespace_loop fuel max_ns stack path (add_part name r.0) r.1 in
      if too_long max_ns name r.0
      then err path_too_long
      else if starts_local r.1
      then ok (add_part name r.0, r.1)
      else next
]

-- `stack` is what stands in the buffer before the call.
unfoldable pub parse_namespace_path : ℕ → List ℕ → List ℕ → Result (List ℕ × List ℕ)
unfolding namespace_loop
parse_namespace_path max_ns stack path =
    if starts_local path
    then ok ([], path)
    else namespace_loop (length path) max_ns stack path [] path
