-- ===== src/Strings/Comparing.antt =====
-- When the comparisons of string.c say that two strings are the same.
use nyxis_os.Base.{
  ℕ, zero, suc, ◌≡◌, ◌≢◌, ◌↔◌, refl, ap, sym, ◌∙◌, List, [], ◌∷◌, take, drop, get_or, ==_self,
  not-==-of-ne, arith,
}
use native.Mathlib.Decide.{ℕ_discrete}
use nyxis_os.Base.Members.{All}
use nyxis_os.Strings.{same, sign_of, strcmp, strncmp}

-- A string has no NUL before its end.
abbrev pub IsText : List ℕ → Type 0
IsText = All (λ c. c ≢ 0)

sign_of_iff : (a b : ℕ) → (sign_of a b ≡ same) ↔ (a ≡ b)
unfolding sign_of
sign_of_iff a b = (λ h. ground arith, λ h. ground arith)

cons-eq : {a b : ℕ} {s t : List ℕ} → a ∷ s ≡ b ∷ t → (a ≡ b) × (s ≡ t)
cons-eq e = (ap (λ l. get_or l 0 0) e, ap (drop 1) e)

cons_same : {a b : ℕ} {s t : List ℕ} → a ≡ b → s ≡ t → a ∷ s ≡ b ∷ t
cons_same {b = b} {s = s} e f = ap (λ c. c ∷ s) e ∙ ap (λ l. b ∷ l) f

strcmp_go : (a b : ℕ) (s t : List ℕ) → a ≡ b → strcmp (a ∷ s) (b ∷ t) ≡ strcmp s t
unfolding strcmp
strcmp_go a b s t e = rw (e, ==_self b) refl

strcmp_stop : (a b : ℕ) (s t : List ℕ) → a ≢ b → strcmp (a ∷ s) (b ∷ t) ≡ sign_of a b
unfolding strcmp
strcmp_stop a b s t ne = rw (not-==-of-ne a b ne) refl

strncmp_go : (a b n : ℕ) (s t : List ℕ) → a ≡ b → strncmp (a ∷ s) (b ∷ t) (suc n) ≡ strncmp s t n
unfolding strncmp
strncmp_go a b n s t e = rw (e, ==_self b) refl

strncmp_stop : (a b n : ℕ) (s t : List ℕ) → a ≢ b → strncmp (a ∷ s) (b ∷ t) (suc n) ≡ sign_of a b
unfolding strncmp
strncmp_stop a b n s t ne = rw (not-==-of-ne a b ne) refl

-- `strcmp` is 0 exactly for equal strings.
pub strcmp_iff : (s t : List ℕ) → IsText s → IsText t → (strcmp s t ≡ same) ↔ (s ≡ t)
strcmp_iff [] [] hs ht = (λ h. refl, λ h. unfold strcmp in (sign_of_iff 0 0).1 refl)
strcmp_iff [] (b ∷ t) hs ht =
    (λ h. absurd (ht.0 (sym ((sign_of_iff 0 b).0 (unfold strcmp in h)))), λ h. cc)
strcmp_iff (a ∷ s) [] hs ht =
    (λ h. absurd (hs.0 ((sign_of_iff a 0).0 (unfold strcmp in h))), λ h. cc)
strcmp_iff (a ∷ s) (b ∷ t) hs ht =
    let (forth, back) = strcmp_iff s t hs.1 ht.1 in
    elim (ℕ_discrete a b) [
      | yes e ↦
          let step = strcmp_go a b s t e in
          (λ h. cons_same e (forth (sym step ∙ h)), λ h. step ∙ back (cons-eq h).1)
      | no ne ↦ (
        λ h. absurd (ne ((sign_of_iff a b).0 (sym (strcmp_stop a b s t ne) ∙ h))),
        λ h. absurd (ne (cons-eq h).0),
      )
    ]

-- `strncmp` is 0 exactly for strings that agree up to `n` bytes or their end.
pub strncmp_iff :
    (s t : List ℕ) (n : ℕ) → IsText s → IsText t → (strncmp s t n ≡ same) ↔ (take n s ≡ take n t)
strncmp_iff s t zero hs ht = (λ h. refl, λ h. unfold strncmp in refl)
strncmp_iff [] [] (suc n) hs ht = (λ h. refl, λ h. unfold strncmp in (sign_of_iff 0 0).1 refl)
strncmp_iff [] (b ∷ t) (suc n) hs ht =
    (λ h. absurd (ht.0 (sym ((sign_of_iff 0 b).0 (unfold strncmp in h)))), λ h. cc)
strncmp_iff (a ∷ s) [] (suc n) hs ht =
    (λ h. absurd (hs.0 ((sign_of_iff a 0).0 (unfold strncmp in h))), λ h. cc)
strncmp_iff (a ∷ s) (b ∷ t) (suc n) hs ht =
    let (forth, back) = strncmp_iff s t n hs.1 ht.1 in
    elim (ℕ_discrete a b) [
      | yes e ↦
          let step = strncmp_go a b n s t e in
          (λ h. cons_same e (forth (sym step ∙ h)), λ h. step ∙ back (cons-eq h).1)
      | no ne ↦ (
        λ h. absurd (ne ((sign_of_iff a b).0 (sym (strncmp_stop a b n s t ne) ∙ h))),
        λ h. absurd (ne (cons-eq h).0),
      )
    ]
