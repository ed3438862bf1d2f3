-- ===== src/Fat16/Search.antt =====
-- What the scan of a sector finds: the first entry in use that has the name.
use nyxis_os.Base.{
  ℕ, zero, suc, ◌+◌, ◌≤◌, ◌<◌, ◌≡◌, ◌≢◌, ◌⊎◌, refl, subst, true, false, List, arith, Bool-cases,
  inl, inr,
}
use native.Mathlib.Decide.{ℕ_discrete}
use nyxis_os.Fat16.Device.{byte_at}
use nyxis_os.Fat16.Name.{fat16_name_matches}
use nyxis_os.Fat16.Directory.{
  DirEntry, entry_at, Scan, found, at_end, not_here, is_hidden, scan_from,
}

-- The entry is in use and has the name.
abbrev pub IsHit : List ℕ → DirEntry → Type 0
IsHit name e =
    (byte_at e.name 0 ≢ 0) × (is_hidden e ≡ false) × (fat16_name_matches e.name name ≡ true)

-- The search goes on behind the entry: it is no end, and hidden or of another name.
abbrev pub IsPassed : List ℕ → DirEntry → Type 0
IsPassed name e =
    (byte_at e.name 0 ≢ 0) × ((is_hidden e ≡ true) ⊎ (fat16_name_matches e.name name ≡ false))

-- `r` is right for the entries from `j` to `end` of the sector.
abbrev pub Scans : List ℕ → List ℕ → ℕ → ℕ → Scan → Type 0
Scans sector name j end (found e k) =
    (j ≤ k)
    × (k < end)
    × (e ≡ entry_at sector k)
    × IsHit name e
    × ((i : ℕ) → j ≤ i → i < k → IsPassed name (entry_at sector i))
Scans sector name j end at_end =
    (k : ℕ) × (j ≤ k)
    × (k < end)
    × (byte_at (entry_at sector k).name 0 ≡ 0)
    × ((i : ℕ) → j ≤ i → i < k → IsPassed name (entry_at sector i))
Scans sector name j end not_here = (i : ℕ) → j ≤ i → i < end → IsPassed name (entry_at sector i)

step_Scans :
    (sector name : List ℕ) (j end : ℕ) (r : Scan)
    → IsPassed name (entry_at sector j)
    → Scans sector name (j + 1) end r
    → Scans sector name j end r
step_Scans sector name j end (found e k) p (a, b, c, d, f) =
    (omega arith, b, c, d, λ i lo hi. first i lo hi)
  where
    first : (i : ℕ) → j ≤ i → i < k → IsPassed name (entry_at sector i)
    first i lo hi = elim (ℕ_discrete j i) [
      | yes e ↦ subst (λ n. IsPassed name (entry_at sector n)) e p
      | no ne ↦ f i (omega arith) hi
    ]
step_Scans sector name j end at_end p (k, a, b, c, f) =
    (k, omega arith, b, c, λ i lo hi. first i lo hi)
  where
    first : (i : ℕ) → j ≤ i → i < k → IsPassed name (entry_at sector i)
    first i lo hi = elim (ℕ_discrete j i) [
      | yes e ↦ subst (λ n. IsPassed name (entry_at sector n)) e p
      | no ne ↦ f i (omega arith) hi
    ]
step_Scans sector name j end not_here p f = λ i lo hi. first i lo hi
  where
    first : (i : ℕ) → j ≤ i → i < end → IsPassed name (entry_at sector i)
    first i lo hi = elim (ℕ_discrete j i) [
      | yes e ↦ subst (λ n. IsPassed name (entry_at sector n)) e p
      | no ne ↦ f i (omega arith) hi
    ]

scan_ends :
    (n j : ℕ) (sector name : List ℕ)
    → byte_at (entry_at sector j).name 0 ≡ 0
    → scan_from (suc n) j sector name ≡ at_end
unfolding scan_from
scan_ends n j sector name z = ground arith

scan_hits :
    (n j : ℕ) (sector name : List ℕ)
    → IsHit name (entry_at sector j)
    → scan_from (suc n) j sector name ≡ found (entry_at sector j) j
unfolding scan_from
scan_hits n j sector name h = ground arith

scan_passes :
    (n j : ℕ) (sector name : List ℕ)
    → IsPassed name (entry_at sector j)
    → scan_from (suc n) j sector name ≡ scan_from n (j + 1) sector name
unfolding scan_from
scan_passes n j sector name h = ground arith

entry_cases :
    (name : List ℕ) (e : DirEntry) → (byte_at e.name 0 ≡ 0) ⊎ IsHit name e ⊎ IsPassed name e
entry_cases name e = elim (ℕ_discrete (byte_at e.name 0) 0) [
  | yes z ↦ inl z
  | no nz ↦ elim (Bool-cases (is_hidden e)) [
    | inl h ↦ inr (inr (nz, inl h))
    | inr h ↦ elim (Bool-cases (fat16_name_matches e.name name)) [
      | inl m ↦ inr (inl (nz, h, m))
      | inr m ↦ inr (inr (nz, inr m))
    ]
  ]
]

-- The scan of `n` entries from `j` on is right for them.
pub scan_from-Scans :
    (n j end : ℕ) (sector name : List ℕ)
    → j + n ≡ end
    → Scans sector name j end (scan_from n j sector name)
scan_from-Scans zero j end sector name e = unfold scan_from in λ i lo hi. absurd (omega arith)
scan_from-Scans (suc n) j end sector name e = elim (entry_cases name (entry_at sector j)) [
  | inl z ↦
      rw (scan_ends n j sector name z)
        (j, omega arith, omega arith, z, λ i lo hi. absurd (omega arith))
  | inr (inl h) ↦
      rw (scan_hits n j sector name h)
        (omega arith, omega arith, refl, h, λ i lo hi. absurd (omega arith))
  | inr (inr p) ↦
      rw (scan_passes n j sector name p)
        (step_Scans sector name j end _ p (scan_from-Scans n (j + 1) end sector name (omega arith)))
]
