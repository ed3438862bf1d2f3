-- ===== src/Fat16/RootSearch.antt =====
-- The search of the fixed root directory, read as one run of entries; and its inode numbers.
use nyxis_os.Base.{
  ℕ, zero, suc, ◌+◌, ◌*◌, ◌/◌, ◌%◌, ◌^◌, ◌≤◌, ◌<◌, ◌≡◌, ◌⊎◌, refl, ap, subst, sym, ◌∙◌, List, arith,
  inl, inr,
}
use native.Mathlib.Decide.{ℕ_discrete}
use Prim.Native.Nat.{bit_or}
use nyxis_os.Base.Bits.{bit_or-shifted}
use nyxis_os.Base.Words.{u32_mod}
use nyxis_os.Base.Status.{Result, ok, err, file_not_found}
use nyxis_os.Fat16.Device.{Device, byte_at, fat16_read_sector}
use nyxis_os.Fat16.Directory.{
  DirEntry, entry_at, Scan, found, at_end, not_here, fat16_scan_sector, search_sectors, search_root,
  inode_of,
}
use nyxis_os.Fat16.Search.{IsHit, IsPassed, Scans, scan_from-Scans}

-- Entry `q` of a run of sectors, sixteen in each.
abbrev pub entry_no : (ℕ → List ℕ) → ℕ → DirEntry
entry_no sectors q = entry_at (sectors (q / 16)) (q % 16)

-- The search reaches entry `q`: it passes all before.
abbrev pub Reaches : (ℕ → List ℕ) → List ℕ → ℕ → Type 0
Reaches sectors name q = (p : ℕ) → p < q → IsPassed name (entry_no sectors p)

Reaches-more :
    (sectors : ℕ → List ℕ) (name : List ℕ) (i k : ℕ)
    → k ≤ 16
    → Reaches sectors name (16 * i)
    → ((j : ℕ) → 0 ≤ j → j < k → IsPassed name (entry_at (sectors i) j))
    → Reaches sectors name (16 * i + k)
Reaches-more sectors name i k le before here p lt = elim (ℕ_discrete (p / 16) i) [
  | yes e ↦
      subst (λ n. IsPassed name (entry_at (sectors n) (p % 16))) (sym e)
        (here (p % 16) (omega arith) (omega arith))
  | no ne ↦ before p (omega arith)
]

entry_no-at :
    (sectors : ℕ → List ℕ) (i k : ℕ)
    → k < 16
    → entry_no sectors (16 * i + k) ≡ entry_at (sectors i) k
entry_no-at sectors i k lt =
    let row : (16 * i + k) / 16 ≡ i = omega arith in
    let column : (16 * i + k) % 16 ≡ k = omega arith in rw (row, column)

module _ (dev : Device) (first : ℕ) (sectors : ℕ → List ℕ) (name : List ℕ) where
  -- What a run of `total` sectors answers.
  data Answer (total : ℕ) : Result (Scan × ℕ) → Type 0 where
    hit :
        (q : ℕ)
        → q < 16 * total
        → IsHit name (entry_no sectors q)
        → Reaches sectors name q
        → Answer total (ok (found (entry_no sectors q) (q % 16), q / 16))
    end :
        (q i : ℕ)
        → q < 16 * total
        → byte_at (entry_no sectors q).name 0 ≡ 0
        → Reaches sectors name q
        → Answer total (ok (at_end, i))
    none_left : (i : ℕ) → Reaches sectors name (16 * total) → Answer total (ok (not_here, i))

  one_sector :
      (n i : ℕ)
      → fat16_read_sector dev ((first + i) % u32_mod) ≡ ok (sectors i)
      → search_sectors (suc n) i dev first name ≡ elim (fat16_scan_sector (sectors i) name) [
        | found e j ↦ ok (found e j, i)
        | at_end ↦ ok (at_end, i)
        | not_here ↦ search_sectors n (i + 1) dev first name
      ]
  unfolding search_sectors
  one_sector n i reads = rw reads refl

  after_scan :
      (n i total : ℕ) (r : Scan)
      → i + suc n ≡ total
      → Reaches sectors name (16 * i)
      → Scans (sectors i) name 0 16 r
      → (Reaches sectors name (16 * (i + 1))
          → Answer total (search_sectors n (i + 1) dev first name))
      → Answer total (elim r [
        | found e j ↦ ok (found e j, i)
        | at_end ↦ ok (at_end, i)
        | not_here ↦ search_sectors n (i + 1) dev first name
      ])
  after_scan n i total (found e k) room before (lo, hi, same, good, passed) rest =
      let row : (16 * i + k) / 16 ≡ i = omega arith in
      let column : (16 * i + k) % 16 ≡ k = omega arith in
      let there = entry_no-at sectors i k hi in
      subst (λ e. Answer total (ok (found e k, i))) (there ∙ sym same)
        (subst (λ j. Answer total (ok (found (entry_no sectors (16 * i + k)) j, i))) column
          (subst
            (λ j. Answer total (ok (found (entry_no sectors (16 * i + k)) ((16 * i + k) % 16), j)))
            row
            (hit (16 * i + k) (omega arith) (subst (IsHit name) (same ∙ sym there) good)
              (Reaches-more sectors name i k (omega arith) before passed))))
  after_scan n i total at_end room before (k, lo, hi, zero_byte, passed) rest =
      end (16 * i + k) i (omega arith)
        (ap (λ e. byte_at e.name 0) (entry_no-at sectors i k hi) ∙ zero_byte)
        (Reaches-more sectors name i k (omega arith) before passed)
  after_scan n i total not_here room before passed rest =
      let next : 16 * i + 16 ≡ 16 * (i + 1) = omega arith in
      rest (
        subst (Reaches sectors name) next
          (Reaches-more sectors name i 16 (omega arith) before passed))

  search_sectors-Answer :
      (n i total : ℕ)
      → i + n ≡ total
      → ((j : ℕ) → j < total → fat16_read_sector dev ((first + j) % u32_mod) ≡ ok (sectors j))
      → Reaches sectors name (16 * i)
      → Answer total (search_sectors n i dev first name)
  search_sectors-Answer zero i total room reads before =
      let same : i ≡ total = omega arith in
      unfold search_sectors in none_left i (subst (λ t. Reaches sectors name (16 * t)) same before)
  search_sectors-Answer (suc n) i total room reads before =
      let scan = fat16_scan_sector (sectors i) name in
      let right : Scans (sectors i) name 0 16 scan =
        unfold fat16_scan_sector in scan_from-Scans 16 0 16 (sectors i) name refl in
      subst (Answer total) (sym (one_sector n i (reads i (omega arith)))) (
        after_scan n i total scan room before right
          (search_sectors-Answer n (i + 1) total (omega arith) reads))

-- The first entry in use with the name is returned, with its inode number; or the search comes to an
-- end mark or to the end of the directory, and the file is not found.
abbrev pub RootOutcome : Device → (ℕ → List ℕ) → List ℕ → Type 0
RootOutcome dev sectors name =
    ((q : ℕ) × (q < 16 * dev.root_dir_sectors)
      × Reaches sectors name q
      × IsHit name (entry_no sectors q)
      × (search_root dev name ≡ ok (entry_no sectors q, inode_of dev (q / 16) (q % 16))))
    ⊎ ((q : ℕ) × (q ≤ 16 * dev.root_dir_sectors)
        × Reaches sectors name q
        × (q < 16 * dev.root_dir_sectors → byte_at (entry_no sectors q).name 0 ≡ 0)
        × (search_root dev name ≡ err file_not_found))

-- What `search_root` returns under the two outcomes.
root_outcome :
    (dev : Device) (sectors : ℕ → List ℕ) (name : List ℕ) (r : Result (Scan × ℕ))
    → search_sectors dev.root_dir_sectors 0 dev dev.first_root_dir_sector name ≡ r
    → Answer dev dev.first_root_dir_sector sectors name dev.root_dir_sectors r
    → RootOutcome dev sectors name
unfolding search_root
root_outcome dev sectors name _ same (hit q lt good before) =
    inl (q, lt, before, good, rw same refl)
root_outcome dev sectors name _ same (end q i lt zero_byte before) =
    inr (q, omega arith, before, (λ _. zero_byte), rw same refl)
root_outcome dev sectors name _ same (none_left i before) =
    inr (16 * dev.root_dir_sectors, omega arith, before, (λ lt. absurd (omega arith)), rw same refl)

-- The search of the root directory, whose sectors can be read, goes through its entries in order
-- and stops at the first that ends the directory or is in use under the name: it returns that entry
-- with its inode number, and otherwise `file_not_found`.
pub search_root_lem :
    (dev : Device) (sectors : ℕ → List ℕ) (name : List ℕ)
    → ((j : ℕ)
        → j < dev.root_dir_sectors
        → fat16_read_sector dev ((dev.first_root_dir_sector + j) % u32_mod) ≡ ok (sectors j))
    → RootOutcome dev sectors name
search_root_lem dev sectors name reads =
    root_outcome dev sectors name
      (search_sectors dev.root_dir_sectors 0 dev dev.first_root_dir_sector name) refl
      (search_sectors-Answer dev dev.first_root_dir_sector sectors name dev.root_dir_sectors 0
        dev.root_dir_sectors (omega arith) reads (λ p lt. absurd (omega arith)))

inode_of-sum :
    (dev : Device) (p k : ℕ)
    → p < 2 ^ 16
    → k < 2 ^ 16
    → inode_of dev p k ≡ dev.diskno * 2 ^ 32 + p * 2 ^ 16 + k
unfolding inode_of
inode_of-sum dev p k hp hk =
    let regroup : dev.diskno * 2 ^ 32 + p * 2 ^ 16 ≡ (dev.diskno * 2 ^ 16 + p) * 2 ^ 16 =
      omega arith in
    ap (λ n. bit_or n k) (bit_or-shifted 32 dev.diskno (p * 2 ^ 16) (omega arith) ∙ regroup)
    ∙ bit_or-shifted 16 (dev.diskno * 2 ^ 16 + p) k hk
    ∙ ap (λ n. n + k) (sym regroup)

-- The inode numbers of two entries are the same only for the same disk number, place (a sector of
-- the root directory or a cluster) and index, where places and indices are below 2^16.
pub inode_of-injective :
    (dev other : Device) (p k q l : ℕ)
    → p < 2 ^ 16
    → k < 2 ^ 16
    → q < 2 ^ 16
    → l < 2 ^ 16
    → inode_of dev p k ≡ inode_of other q l
    → (dev.diskno ≡ other.diskno) × (p ≡ q) × (k ≡ l)
inode_of-injective dev other p k q l hp hk hq hl same =
    let sums : dev.diskno * 2 ^ 32 + p * 2 ^ 16 + k ≡ other.diskno * 2 ^ 32 + q * 2 ^ 16 + l =
      sym (inode_of-sum dev p k hp hk) ∙ same ∙ inode_of-sum other q l hq hl in
    (omega arith, omega arith, omega arith)
