-- ===== src/Syscall/Slices.antt =====
-- A part of the bytes of a file.
use nyxis_os.Base.{
  ℕ, zero, suc, ◌+◌, ◌-◌, ◌<◌, ◌≡◌, refl, ap, ◌∙◌, List, [], ◌∷◌, min, length, take, drop, get_or,
  arith,
}

pub length-take-drop : (n o : ℕ) (xs : List ℕ) → length (take n (drop o xs)) ≡ min n (length xs - o)
length-take-drop zero o xs = omega arith
length-take-drop (suc n) zero [] = omega arith
length-take-drop (suc n) (suc o) [] = omega arith
length-take-drop (suc n) zero (x ∷ xs) = omega (arith, length-take-drop n zero xs)
length-take-drop (suc n) (suc o) (x ∷ xs) = omega (arith, length-take-drop (suc n) o xs)

pub get_or-take-drop :
    (n o : ℕ) (xs : List ℕ) (j : ℕ) → j < n → get_or (take n (drop o xs)) j 0 ≡ get_or xs (o + j) 0
get_or-take-drop zero o xs j h = absurd (omega arith)
get_or-take-drop (suc n) zero [] j h = refl
get_or-take-drop (suc n) (suc o) [] j h = refl
get_or-take-drop (suc n) zero (x ∷ xs) zero h = refl
get_or-take-drop (suc n) zero (x ∷ xs) (suc j) h =
    let e : suc (0 + j) ≡ 0 + suc j = omega arith in
    get_or-take-drop n zero xs j (omega arith) ∙ ap (λ t. get_or (x ∷ xs) t 0) e
get_or-take-drop (suc n) (suc o) (x ∷ xs) j h =
    let e : suc (o + j) ≡ suc o + j = omega arith in
    get_or-take-drop (suc n) o xs j h ∙ ap (λ t. get_or (x ∷ xs) t 0) e
