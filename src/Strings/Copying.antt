-- ===== src/Strings/Copying.antt =====
-- What the copies of string.c write, and how much.
use nyxis_os.Base.{
  ℕ, zero, suc, ◌-◌, ◌≡◌, refl, ap, List, [], ◌∷◌, ◌++◌, take, replicate, length, arith, min,
}
use nyxis_os.Strings.{strlen, strnlen, strncpy, strcpy, strcat, append_up_to, strncat}

strncpy_nil : (n : ℕ) → strncpy [] n ≡ replicate n 0
unfolding strncpy
strncpy_nil zero = refl
strncpy_nil (suc n) = ap (λ s. 0 ∷ s) (strncpy_nil n)

-- `strncpy` writes exactly `n` bytes: the first bytes of the string and then zeros, so no NUL if
-- the string has `n` bytes or more.
pub strncpy_lem :
    (s : List ℕ) (n : ℕ)
    → (strncpy s n ≡ take n s ++ replicate (n - length s) 0) × (length (strncpy s n) ≡ n)
unfolding strncpy
strncpy_lem s zero = (none_left s, refl)
  where
    none_left : (s : List ℕ) → ◌≡◌ {A = List ℕ} [] (replicate (0 - length s) 0)
    none_left s = let e : 0 - length s ≡ 0 = omega arith in rw e refl
strncpy_lem [] (suc n) =
    let e : suc n - 0 ≡ suc n = omega arith in
    (rw e (ap (λ s. 0 ∷ s) (strncpy_nil n)), ap suc (strncpy_lem [] n).1)
strncpy_lem (c ∷ s) (suc n) =
    let (copied, size) = strncpy_lem s n in
    let e : suc n - suc (length s) ≡ n - length s = omega arith in
    (rw e (ap (λ t. c ∷ t) copied), ap suc size)

append_up_to_lem : (s : List ℕ) (n : ℕ) → append_up_to s n ≡ take n s ++ 0 ∷ []
unfolding append_up_to
append_up_to_lem s zero = refl
append_up_to_lem [] (suc n) = refl
append_up_to_lem (c ∷ s) (suc n) = ap (λ t. c ∷ t) (append_up_to_lem s n)

strcpy-append : (s : List ℕ) → strcpy s ≡ s ++ 0 ∷ []
unfolding strcpy
strcpy-append [] = refl
strcpy-append (c ∷ s) = ap (λ t. c ∷ t) (strcpy-append s)

-- `strcat` and `strncat` leave the string that stood there, put all or the first `n` bytes of the
-- other behind it, and end with a NUL.
pub strncat-strcat :
    (dest s : List ℕ) (n : ℕ)
    → (strcat dest s ≡ dest ++ (s ++ 0 ∷ [])) × (strncat dest s n ≡ dest ++ (take n s ++ 0 ∷ []))
unfolding strcat strncat
strncat-strcat [] s n = (strcpy-append s, append_up_to_lem s n)
strncat-strcat (d ∷ dest) s n =
    let (a, b) = strncat-strcat dest s n in (ap (λ t. d ∷ t) a, ap (λ t. d ∷ t) b)

-- `strnlen` is the length, up to the maximum, and `strlen` the length.
pub strnlen-strlen : (s : List ℕ) (n : ℕ) → (strnlen s n ≡ min (strlen s) n) × (strlen s ≡ length s)
unfolding strnlen strlen
strnlen-strlen s zero = (omega arith, len s)
  where
    len : (s : List ℕ) → strlen s ≡ length s
    len [] = refl
    len (c ∷ s) = ap suc (len s)
strnlen-strlen [] (suc n) = (omega arith, refl)
strnlen-strlen (c ∷ s) (suc n) = let (a, b) = strnlen-strlen s n in (omega (arith, a), ap suc b)
