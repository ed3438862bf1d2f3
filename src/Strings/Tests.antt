-- ===== src/Strings/Tests.antt =====
-- The string functions at concrete strings.
use nyxis_os.Base.{
  ℕ, ◌≡◌, ◌↔◌, refl, some, List, [], ◌∷◌, ◌++◌, ◌-◌, replicate, length, take, arith,
}
use nyxis_os.Strings.{same, strcmp, strncmp, strchr, strrchr, last_byte, strncpy, strcat, strncat}
use nyxis_os.Strings.Comparing.{strcmp_iff, strncmp_iff}
use nyxis_os.Strings.Copying.{strncpy_lem, strncat-strcat}
use nyxis_os.Strings.Finding.{FirstAt, LastAt, strchr_lem, strrchr_lem}

-- "/a/b"
abbrev path : List ℕ
path = 47 ∷ 97 ∷ 47 ∷ 98 ∷ []

abbrev slash : List ℕ
slash = 47 ∷ []

abbrev slash_a : List ℕ
slash_a = 47 ∷ 97 ∷ []

strcmp_iff_example : (strcmp slash slash ≡ same) ↔ (slash ≡ slash)
strcmp_iff_example =
    strcmp_iff slash slash ((λ e. absurd (omega (arith, e))), tt)
      ((λ e. absurd (omega (arith, e))), tt)

strncmp_iff_example : (strncmp slash_a slash 1 ≡ same) ↔ (take 1 slash_a ≡ take 1 slash)
strncmp_iff_example =
    strncmp_iff slash_a slash 1
      ((λ e. absurd (omega (arith, e))), ((λ e. absurd (omega (arith, e))), tt))
      ((λ e. absurd (omega (arith, e))), tt)

strncpy_lem_example :
    (strncpy slash_a 4 ≡ take 4 slash_a ++ replicate (4 - 2) 0) × (length (strncpy slash_a 4) ≡ 4)
strncpy_lem_example = strncpy_lem slash_a 4

strncat-strcat_example :
    (strcat slash path ≡ slash ++ (path ++ 0 ∷ []))
    × (strncat slash path 2 ≡ slash ++ (take 2 path ++ 0 ∷ []))
strncat-strcat_example = strncat-strcat slash path 2

strchr_lem_example : FirstAt path 47 (strchr path 47)
strchr_lem_example = strchr_lem path 47 (λ e. absurd (omega (arith, e)))

strrchr_lem_example : LastAt path 47 (strrchr path 47)
strrchr_lem_example = strrchr_lem path 47 (λ e. absurd (omega (arith, e)))

last_slash : strrchr path 47 ≡ some (47 ∷ 98 ∷ [])
unfolding strrchr last_byte
last_slash = refl
