-- ===== src/Strings/Finding.antt =====
-- What the searches of string.c find.
use nyxis_os.Base.{
  ℕ, ◌≡◌, ◌≢◌, ◌⊎◌, refl, ap, sym, Option, none, some, List, [], ◌∷◌, ◌++◌, ==_self, not-==-of-ne,
  inl, inr,
}
use native.Mathlib.Decide.{ℕ_discrete}
use nyxis_os.Base.Members.{NotIn}
use nyxis_os.Strings.{strchr, last_byte, strrchr}

-- The pointer stands at the first `c`, or there is none.
abbrev pub FirstAt : List ℕ → ℕ → Option (List ℕ) → Type 0
FirstAt s c o =
    ((before : List ℕ) × (rest : List ℕ) × (s ≡ before ++ c ∷ rest)
      × NotIn c before
      × (o ≡ some (c ∷ rest)))
    ⊎ (NotIn c s × (o ≡ none))

-- The pointer stands at the last `c`, or there is none.
abbrev pub LastAt : List ℕ → ℕ → Option (List ℕ) → Type 0
LastAt s c o =
    ((before : List ℕ) × (rest : List ℕ) × (s ≡ before ++ c ∷ rest)
      × NotIn c rest
      × (o ≡ some (c ∷ rest)))
    ⊎ (NotIn c s × (o ≡ none))

-- `strchr` finds the first place of a byte that is not NUL, or none if the string has none.
pub strchr_lem : (s : List ℕ) (c : ℕ) → c ≢ 0 → FirstAt s c (strchr s c)
unfolding strchr
strchr_lem [] c nz = inr (tt, rw (not-==-of-ne c 0 nz) refl)
strchr_lem (d ∷ s) c nz = elim (ℕ_discrete d c) [
  | yes e ↦ inl ([], s, ap (λ k. k ∷ s) e, tt, rw (e, ==_self c) refl)
  | no ne ↦ rw (not-==-of-ne d c ne) (elim (strchr_lem s c nz) [
    | inl (before, rest, shape, out, o) ↦
        inl (d ∷ before, rest, ap (λ t. d ∷ t) shape, ((λ e. ne (sym e)), out), o)
    | inr (out, o) ↦ inr (((λ e. ne (sym e)), out), o)
  ])
]

last_byte_lem :
    (s : List ℕ) (c : ℕ) (last : Option (List ℕ))
    → c ≢ 0
    → ((before : List ℕ) × (rest : List ℕ) × (s ≡ before ++ c ∷ rest)
        × NotIn c rest
        × (last_byte s c last ≡ some (c ∷ rest)))
      ⊎ (NotIn c s × (last_byte s c last ≡ last))
unfolding last_byte
last_byte_lem [] c last nz = inr (tt, rw (not-==-of-ne c 0 nz) refl)
last_byte_lem (d ∷ s) c last nz = elim (ℕ_discrete d c) [
  | yes e ↦
      rw (e, ==_self c)
        (elim (last_byte_lem s c (some (c ∷ s)) nz) [
          | inl (before, rest, shape, out, o) ↦
              inl (c ∷ before, rest, ap (λ t. c ∷ t) shape, out, o)
          | inr (out, o) ↦ inl ([], s, refl, out, o)
        ])
  | no ne ↦ rw (not-==-of-ne d c ne) (elim (last_byte_lem s c last nz) [
    | inl (before, rest, shape, out, o) ↦ inl (d ∷ before, rest, ap (λ t. d ∷ t) shape, out, o)
    | inr (out, o) ↦ inr (((λ e. ne (sym e)), out), o)
  ])
]

-- `strrchr` finds the last place of a byte that is not NUL, or none if the string has none.
pub strrchr_lem : (s : List ℕ) (c : ℕ) → c ≢ 0 → LastAt s c (strrchr s c)
unfolding strrchr
strrchr_lem s c nz = last_byte_lem s c none nz
