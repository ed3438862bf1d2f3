-- ===== src/Ramdisk/Registry.antt =====
-- The table of the disks: disk numbers stay unique, and every disk lies in the address space.
use native.Mathlib.Decide.{ℕ_discrete}
use nyxis_os.Base.{
  ℕ, zero, suc, ◌+◌, ◌<◌, ◌≡◌, ◌≢◌, ◌⊎◌, refl, ap, subst, sym, ◌∙◌, true, false, ◌&&◌, none, some,
  [], ◌∷◌, set, ◌==◌, arith, inl, inr, length, Bool-cases,
}
use nyxis_os.Base.Members.{unsome}
use nyxis_os.Ramdisk.{Ramdisk, Disks, find_disk, ramdisk_find, free_disk, disk_at}
use nyxis_os.Ramdisk.Access.{InSpace}

-- Slot `k` holds the disk with this number.
abbrev pub Holds : Disks → ℕ → ℕ → Type 0
Holds ds diskno k = ((disk_at ds k).is_used ≡ true) × ((disk_at ds k).diskno ≡ diskno)

pub record IsValid (ds : Disks) : Type 0 where
  pub unique : (diskno k l : ℕ) → Holds ds diskno k → Holds ds diskno l → k ≡ l
  pub placed : (k : ℕ) → (disk_at ds k).is_used ≡ true → InSpace (disk_at ds k)

pub find_disk_lem :
    (i diskno : ℕ) (ds : Disks)
    → ((find_disk i diskno ds ≡ none) × ((k : ℕ) → Holds ds diskno k → ⊥))
      ⊎ ((k : ℕ) × (find_disk i diskno ds ≡ some (i + k)) × (k < length ds) × Holds ds diskno k)
unfolding find_disk
find_disk_lem i diskno [] = inl (refl, λ k h. cc)
find_disk_lem i diskno (d ∷ ds) = elim (Bool-cases (d.is_used && d.diskno == diskno)) [
  | inl e ↦ inr (0, rw e (ap some (omega arith)), omega arith, ground arith)
  | inr e ↦ elim (find_disk_lem (i + 1) diskno ds) [
    | inl (n, all) ↦ inl (rw e n, λ k h. skip d ds e all k h)
    | inr (k, s, lt, h) ↦ inr (suc k, rw e (s ∙ ap some (omega arith)), omega arith, h)
  ]
]
  where
    skip :
        (d : Ramdisk) (ds : Disks)
        → d.is_used && d.diskno == diskno ≡ false
        → ((k : ℕ) → Holds ds diskno k → ⊥)
        → (k : ℕ) → Holds (d ∷ ds) diskno k
        → ⊥
    skip d ds e all zero h = ground arith
    skip d ds e all (suc k) h = all k h

pub free_disk_lem :
    (i : ℕ) (ds : Disks) (s : ℕ)
    → free_disk i ds ≡ some s
    → (k : ℕ) × (s ≡ i + k) × (k < length ds) × ((disk_at ds k).is_used ≡ false)
unfolding free_disk
free_disk_lem i [] s e = absurd (cc)
free_disk_lem i (d ∷ ds) s e = elim (Bool-cases d.is_used) [
  | inr h ↦ (0, sym (unsome (rw h at e)) ∙ omega arith, omega arith, h)
  | inl h ↦
      let (k, p, lt, f) = free_disk_lem (i + 1) ds s (rw h at e) in
      (suc k, omega (arith, p), omega arith, f)
]

pub disk_at-set_self :
    (ds : Disks) (i : ℕ) (d : Ramdisk) → i < length ds → disk_at (set ds i d) i ≡ d
disk_at-set_self [] i d lt = absurd (omega arith)
disk_at-set_self (x ∷ ds) zero d lt = refl
disk_at-set_self (x ∷ ds) (suc i) d lt = disk_at-set_self ds i d (omega arith)

pub disk_at-set_ne :
    (ds : Disks) (i j : ℕ) (d : Ramdisk) → j ≢ i → disk_at (set ds i d) j ≡ disk_at ds j
disk_at-set_ne [] i j d ne = refl
disk_at-set_ne (x ∷ ds) zero zero d ne = absurd (ne refl)
disk_at-set_ne (x ∷ ds) zero (suc j) d ne = refl
disk_at-set_ne (x ∷ ds) (suc i) zero d ne = refl
disk_at-set_ne (x ∷ ds) (suc i) (suc j) d ne = disk_at-set_ne ds i j d (λ e. ne (ap suc e))

-- A valid table finds a disk where it is.
pub found_at :
    (ds : Disks) (diskno k : ℕ) → IsValid ds → Holds ds diskno k → ramdisk_find diskno ds ≡ some k
unfolding ramdisk_find
found_at ds diskno k v h = elim (find_disk_lem 0 diskno ds) [
  | inl (n, all) ↦ absurd (all k h)
  | inr (l, e, lt, h') ↦ e ∙ ap some (omega (arith, v.unique diskno l k h' h))
]

-- A table in which only slot `i` changes is valid, if its disk is new and lies in the address space.
pub IsValid-set :
    (ds : Disks) (i : ℕ) (d : Ramdisk)
    → IsValid ds
    → i < length ds
    → (d.is_used ≡ true → InSpace d × ((k : ℕ) → Holds ds d.diskno k → k ≡ i))
    → IsValid (set ds i d)
IsValid-set ds i d v lt new = record { unique = unique; placed = placed }
  where
    self : disk_at (set ds i d) i ≡ d
    self = disk_at-set_self ds i d lt

    old : (diskno k : ℕ) → k ≢ i → Holds (set ds i d) diskno k → Holds ds diskno k
    old diskno k ne h =
        subst (λ (x : Ramdisk). (x.is_used ≡ true) × (x.diskno ≡ diskno))
          (disk_at-set_ne ds i k d ne) h

    here :
        (diskno k : ℕ)
        → k ≡ i
        → Holds (set ds i d) diskno k
        → (d.is_used ≡ true) × (d.diskno ≡ diskno)
    here diskno k e h =
        subst (λ (x : Ramdisk). (x.is_used ≡ true) × (x.diskno ≡ diskno))
          (ap (disk_at (set ds i d)) e ∙ self) h

    unique : (diskno k l : ℕ) → Holds (set ds i d) diskno k → Holds (set ds i d) diskno l → k ≡ l
    unique diskno k l hk hl = elim (ℕ_discrete k i) [
      | yes e ↦ elim (ℕ_discrete l i) [
        | yes e' ↦ e ∙ sym e'
        | no ne ↦
            let (u, n) = here diskno k e hk in
            absurd (ne ((new u).1 l (subst (λ m. Holds ds m l) (sym n) (old diskno l ne hl))))
      ]
      | no ne ↦ elim (ℕ_discrete l i) [
        | yes e' ↦
            let (u, n) = here diskno l e' hl in
            absurd (ne ((new u).1 k (subst (λ m. Holds ds m k) (sym n) (old diskno k ne hk))))
        | no ne' ↦ v.unique diskno k l (old diskno k ne hk) (old diskno l ne' hl)
      ]
    ]

    placed : (k : ℕ) → (disk_at (set ds i d) k).is_used ≡ true → InSpace (disk_at (set ds i d) k)
    placed k u = elim (ℕ_discrete k i) [
      | yes e ↦
          let same = ap (disk_at (set ds i d)) e ∙ self in
          subst InSpace (sym same) (new (subst (λ (x : Ramdisk). x.is_used ≡ true) same u)).0
      | no ne ↦
          let same = disk_at-set_ne ds i k d ne in
          subst InSpace (sym same) (v.placed k (subst (λ (x : Ramdisk). x.is_used ≡ true) same u))
    ]
