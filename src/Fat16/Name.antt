-- ===== src/Fat16/Name.antt =====
-- `fat16_name_matches`: a requested name against the 8.3 name of a directory entry. A C string is
-- the list of its bytes before the NUL.
use nyxis_os.Base.{
  ℕ, ◌+◌, ◌-◌, Bool, true, false, ◌&&◌, ◌||◌, Option, none, some, List, [], ◌∷◌, set, replicate,
  leb, ◌==◌, if◌then◌else◌,
}

unfoldable pub fat16_toupper : ℕ → ℕ
fat16_toupper c = if leb b'a' c && leb c b'z' then c - 32 else c

abbrev pub space : ℕ
space = 0x20

abbrev pub dot : ℕ
dot = 0x2e

-- The first loop: what is left of the request, the length of the name, and the normalized name.
unfoldable pub scan_name : List ℕ → ℕ → List ℕ → Option (List ℕ × ℕ × List ℕ)
scan_name [] len norm = some ([], len, norm)
scan_name (c ∷ cs) len norm =
    if c == dot
    then some (c ∷ cs, len, norm)
    else if leb 8 len
    then none
    else scan_name cs (len + 1) (set norm len (fat16_toupper c))

-- The second loop, behind the dot.
unfoldable pub scan_extension : List ℕ → ℕ → List ℕ → Option (List ℕ)
scan_extension [] len norm = some norm
scan_extension (c ∷ cs) len norm =
    if c == dot || leb 3 len
    then none
    else scan_extension cs (len + 1) (set norm (8 + len) (fat16_toupper c))

-- `if (*cursor == '.')`
unfoldable pub after_name : List ℕ → List ℕ → Option (List ℕ)
unfolding scan_extension
after_name [] norm = some norm
after_name (c ∷ cs) norm = scan_extension cs 0 norm

-- The last loop, over the eleven bytes.
unfoldable pub same_name : List ℕ → List ℕ → Bool
same_name [] [] = true
same_name (c ∷ cs) (a ∷ as') = (c == fat16_toupper a) && same_name cs as'
same_name _ _ = false

unfoldable pub fat16_name_matches : List ℕ → List ℕ → Bool
fat16_name_matches entry request = elim (scan_name request 0 (replicate 11 space)) [
  | none ↦ false
  | some s ↦
      if s.1 == 0
      then false
      else elim (after_name s.0 s.2) [ none ↦ false | some norm ↦ same_name norm entry ]
]
