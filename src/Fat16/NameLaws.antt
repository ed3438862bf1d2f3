-- ===== src/Fat16/NameLaws.antt =====
-- Which requests match an entry: those that spell its 8.3 name, in upper or lower case.
use mathlib.Core.List.{append-nil}
use nyxis_os.Base.{
  ℕ, ◌≤◌, ◌≡◌, ◌↔◌, refl, true, false, ◌&&◌, List, [], ◌∷◌, ◌++◌, map, replicate, leb, arith,
  length, Bool-cases, inl, inr,
}
use nyxis_os.Fat16.Name.{fat16_toupper, space, dot, after_name, same_name, fat16_name_matches}
use nyxis_os.Fat16.NameScan.{NoDot, short_name, padded, scanned, extended, scan_dot}

same_name_iff : (xs ys : List ℕ) → (same_name xs ys ≡ true) ↔ (xs ≡ map fat16_toupper ys)
unfolding same_name
same_name_iff [] [] = (λ h. refl, λ h. refl)
same_name_iff [] (y ∷ ys) = (λ h. cc, λ h. cc)
same_name_iff (x ∷ xs) [] = (λ h. cc, λ h. cc)
same_name_iff (x ∷ xs) (y ∷ ys) =
    let (forth, back) = same_name_iff xs ys in
    (λ h. ground (arith, forth), λ h. ground (arith, back))

module _ (entry base : List ℕ) (plain : NoDot base) where
  match_extension :
      (ext : List ℕ)
      → NoDot ext
      → fat16_name_matches entry (base ++ dot ∷ ext) ≡ (
          leb 1 (length base)
          && leb (length base) 8
          && leb (length ext) 3
          && same_name (short_name base ext) entry)
  unfolding fat16_name_matches after_name
  match_extension ext nd = elim (Bool-cases (leb (length base) 8)) [
    | inl fits ↦
        ground (arith, scanned base (dot ∷ ext) plain refl, extended base ext (ground arith) nd)
    | inr long ↦ ground (arith, scanned base (dot ∷ ext) plain refl)
  ]

  match_plain :
      fat16_name_matches entry base
      ≡ (leb 1 (length base) && leb (length base) 8 && same_name (short_name base []) entry)
  unfolding fat16_name_matches after_name
  match_plain = ground (arith, append-nil base, scanned base [] plain tt)

  match_two_dots : (a b : List ℕ) → fat16_name_matches entry (base ++ dot ∷ (a ++ dot ∷ b)) ≡ false
  unfolding fat16_name_matches after_name
  match_two_dots a b = ground (
    arith,
    scanned base (dot ∷ (a ++ dot ∷ b)) plain refl,
    scan_dot a b 0 (padded 8 (map fat16_toupper base) ++ replicate 3 space),
  )

  -- A request `base.ext` matches exactly the entry of that 8.3 name, in upper or lower case, where
  -- the two parts have 1 to 8 and at most 3 bytes; a request with no dot, the entry with no
  -- extension; and one with a second dot matches nothing.
  pub name_matches_iff :
      (ext : List ℕ)
      → NoDot ext
      → ((fat16_name_matches entry (base ++ dot ∷ ext) ≡ true) ↔ (
          (1 ≤ length base)
          × (length base ≤ 8)
          × (length ext ≤ 3)
          × (short_name base ext ≡ map fat16_toupper entry)))
        × ((fat16_name_matches entry base ≡ true) ↔ (
            (1 ≤ length base) × (length base ≤ 8) × (short_name base [] ≡ map fat16_toupper entry)))
        × ((more : List ℕ) → fat16_name_matches entry (base ++ dot ∷ (ext ++ dot ∷ more)) ≡ false)
  name_matches_iff ext nd =
      let (forth, back) = same_name_iff (short_name base ext) entry in
      let (forth', back') = same_name_iff (short_name base []) entry in
      (
        (
          λ h. ground (arith, match_extension ext nd, forth),
          λ h. ground (arith, match_extension ext nd, back h.3),
        ),
        (λ h. ground (arith, match_plain, forth'), λ h. ground (arith, match_plain, back' h.2)),
        λ more. match_two_dots ext more,
      )
