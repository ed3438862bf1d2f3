-- ===== src/Strings.antt =====
-- nxkernel/lib/string.c. A string is the list of its bytes before the NUL, a pointer into it the rest
-- of the list from there on, and a buffer the list of its bytes.
use nyxis_os.Base.{
  ℕ, zero, suc, ◌+◌, ◌-◌, Bool, true, false, ◌&&◌, Option, none, some, List, [], ◌∷◌, ◌++◌,
  replicate, length, ltb, leb, ◌==◌, if◌then◌else◌,
}
pub mod Comparing
pub mod Copying
pub mod Finding
mod Tests

pub strlen : List ℕ → ℕ
strlen [] = 0
strlen (c ∷ s) = suc (strlen s)

-- `maxlen` counts down from `maxlen - len`.
pub strnlen : List ℕ → ℕ → ℕ
strnlen s zero = 0
strnlen [] (suc n) = 0
strnlen (c ∷ s) (suc n) = suc (strnlen s n)

-- The sign of `(i32)(u8)*a - (i32)(u8)*b`: what the callers of the comparisons look at.
pub data Sign : Type 0 where
  below same above : Sign

unfoldable pub sign_of : ℕ → ℕ → Sign
sign_of a b = if ltb a b then below else if a == b then same else above

-- `*s`
abbrev pub first : List ℕ → ℕ
first [] = 0
first (c ∷ s) = c

unfoldable pub strcmp : List ℕ → List ℕ → Sign
unfolding sign_of
strcmp (a ∷ s) (b ∷ t) = let rest = strcmp s t in if a == b then rest else sign_of a b
strcmp s t = sign_of (first s) (first t)

pub strncmp : List ℕ → List ℕ → ℕ → Sign
unfolding sign_of
strncmp s t zero = same
strncmp (a ∷ s) (b ∷ t) (suc n) = let rest = strncmp s t n in if a == b then rest else sign_of a b
strncmp s t (suc n) = sign_of (first s) (first t)

-- The `n` bytes that are written.
pub strncpy : List ℕ → ℕ → List ℕ
strncpy s zero = []
strncpy [] (suc n) = 0 ∷ strncpy [] n
strncpy (c ∷ s) (suc n) = c ∷ strncpy s n

-- The bytes that are written, with the NUL.
pub strcpy : List ℕ → List ℕ
strcpy [] = 0 ∷ []
strcpy (c ∷ s) = c ∷ strcpy s

-- `dest` is the string that stood there; the result is what stands there then, with the NUL.
pub strcat : List ℕ → List ℕ → List ℕ
unfolding strcpy
strcat [] s = strcpy s
strcat (d ∷ dest) s = d ∷ strcat dest s

-- The loop of `strncat` and the NUL.
pub append_up_to : List ℕ → ℕ → List ℕ
append_up_to s zero = 0 ∷ []
append_up_to [] (suc n) = 0 ∷ []
append_up_to (c ∷ s) (suc n) = c ∷ append_up_to s n

pub strncat : List ℕ → List ℕ → ℕ → List ℕ
unfolding append_up_to
strncat [] s n = append_up_to s n
strncat (d ∷ dest) s n = d ∷ strncat dest s n

-- A pointer into the string, or none; `c` is `(u8)c`.
pub strchr : List ℕ → ℕ → Option (List ℕ)
strchr [] c = if c == 0 then some [] else none
strchr (d ∷ s) c = if d == c then some (d ∷ s) else strchr s c

-- The loop of `strrchr` with `last`.
pub last_byte : List ℕ → ℕ → Option (List ℕ) → Option (List ℕ)
last_byte [] c last = if c == 0 then some [] else last
last_byte (d ∷ s) c last = last_byte s c (if d == c then some (d ∷ s) else last)

pub strrchr : List ℕ → ℕ → Option (List ℕ)
unfolding last_byte
strrchr s c = last_byte s c none

-- The inner loop of `strpbrk`.
pub accepts : List ℕ → ℕ → Bool
accepts [] c = false
accepts (a ∷ accept) c = if c == a then true else accepts accept c

pub strpbrk : List ℕ → List ℕ → Option (List ℕ)
unfolding accepts
strpbrk [] accept = none
strpbrk (c ∷ s) accept = if accepts accept c then some (c ∷ s) else strpbrk s accept

-- `memcmp(haystack, needle, needle_len) == 0`, where the haystack has as many bytes.
pub starts_with : List ℕ → List ℕ → Bool
starts_with hay [] = true
starts_with [] (c ∷ needle) = false
starts_with (h ∷ hay) (c ∷ needle) = (h == c) && starts_with hay needle

-- The loop of `strstr`.
pub find_needle : List ℕ → List ℕ → Option (List ℕ)
unfolding strlen starts_with
find_needle [] needle = if leb (strlen needle) 0 && starts_with [] needle then some [] else none
find_needle (h ∷ hay) needle =
    let rest = find_needle hay needle in
    if leb (strlen needle) (strlen (h ∷ hay))
    then (if starts_with (h ∷ hay) needle then some (h ∷ hay) else rest)
    else none

pub strstr : List ℕ → List ℕ → Option (List ℕ)
unfolding find_needle
strstr hay [] = some hay
strstr hay (c ∷ needle) = find_needle hay (c ∷ needle)
