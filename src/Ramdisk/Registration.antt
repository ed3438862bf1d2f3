-- ===== src/Ramdisk/Registration.antt =====
-- What registering a disk and removing it do to the table.
use native.Mathlib.Decide.{ℕ_discrete}
use nyxis_os.Base.{
  ℕ, ◌+◌, ◌≤◌, ◌<◌, ◌≡◌, ◌≢◌, ◌⊎◌, refl, ap, subst, sym, ◌∙◌, true, false, Option, none, some, set,
  arith, inl, inr, length,
}
use nyxis_os.Base.Members.{unsome}
use nyxis_os.Base.Status.{ok, err, not_found}
use nyxis_os.Ramdisk.{
  Ramdisk, Disks, blank_disk, u64_max, ramdisk_find, range_within, free_disk, take_slot, is_some,
  ramdisk_init, disk_at, ramdisk_deinit, remove_found,
}
use nyxis_os.Ramdisk.Access.{Has, InSpace}
use nyxis_os.Ramdisk.Registry.{
  Holds, IsValid, find_disk_lem, free_disk_lem, disk_at-set_self, disk_at-set_ne, found_at,
  IsValid-set,
}

take_slot_lem :
    (ds : Disks) (d : Ramdisk) (o : Option ℕ) {ds' : Disks}
    → take_slot ds d o ≡ ok ds'
    → (s : ℕ) × (o ≡ some s) × (ds' ≡ set ds s d)
unfolding take_slot
take_slot_lem ds d none e = absurd (cc)
take_slot_lem ds d (some s) e = (s, refl, cc)

init_ok :
    (diskno start size : ℕ) (ds : Disks) {ds' : Disks}
    → ramdisk_init diskno start size ds ≡ ok ds'
    → (start + size ≤ u64_max)
      × (is_some (ramdisk_find diskno ds) ≡ false)
      × (take_slot ds
            (record { is_used = true; diskno = diskno; offset = start; size = size })
            (free_disk 0 ds)
          ≡ ok ds')
unfolding ramdisk_init range_within
init_ok diskno start size ds e = ground arith

none-Holds :
    (ds : Disks) (diskno : ℕ)
    → is_some (ramdisk_find diskno ds) ≡ false
    → (k : ℕ) → Holds ds diskno k
    → ⊥
unfolding ramdisk_find
none-Holds ds diskno e k h = elim (find_disk_lem 0 diskno ds) [
  | inl (n, all) ↦ all k h
  | inr (l, found, lt, h') ↦ true_false (sym (ap is_some found) ∙ e)
]
  where
    true_false : true ≢ false
    true_false e = cc

found-Holds : (ds : Disks) (diskno i : ℕ) → ramdisk_find diskno ds ≡ some i → Holds ds diskno i
unfolding ramdisk_find
found-Holds ds diskno i e = elim (find_disk_lem 0 diskno ds) [
  | inl (n, all) ↦ absurd (none_some (sym n ∙ e))
  | inr (l, found, lt, h) ↦
      let same : l ≡ i = omega (arith, unsome (sym found ∙ e)) in subst (Holds ds diskno) same h
]
  where
    none_some : {k : ℕ} → ◌≢◌ {A = Option ℕ} none (some k)
    none_some e = cc

-- A new disk in a slot that was free.
module _ (ds : Disks) (k : ℕ) (d : Ramdisk) (v : IsValid ds) (lt : k < length ds)
    (free : (disk_at ds k).is_used ≡ false) (used : d.is_used ≡ true) (space : InSpace d)
    (new : (j : ℕ) → Holds ds d.diskno j → ⊥) where
  registered-IsValid : IsValid (set ds k d)
  registered-IsValid = IsValid-set ds k d v lt (λ u. (space, λ j h. absurd (new j h)))

  registered-Has : Has (set ds k d) d.diskno d
  registered-Has =
      let self = disk_at-set_self ds k d lt in
      (
        k,
        found_at (set ds k d) d.diskno k registered-IsValid
            (ap (λ (x : Ramdisk). x.is_used) self ∙ used, ap (λ (x : Ramdisk). x.diskno) self),
        self,
      )

  registered-Has_other : (other : ℕ) (x : Ramdisk) → Has ds other x → Has (set ds k d) other x
  registered-Has_other other x (i, found, same) =
      let h = found-Holds ds other i found in
      let ne : i ≢ k = λ e. true_false (sym h.0 ∙ ap (λ j. (disk_at ds j).is_used) e ∙ free) in
      let still = disk_at-set_ne ds k i d ne in
      (
        i,
        found_at (set ds k d) other i registered-IsValid (
          ap (λ (y : Ramdisk). y.is_used) still ∙ h.0,
          ap (λ (y : Ramdisk). y.diskno) still ∙ h.1,
        ),
        still ∙ same,
      )
    where
      true_false : true ≢ false
      true_false e = cc

-- What a registration that succeeds leaves: a valid table, in which the new disk is found, and all
-- the others where they were.
pub ramdisk_init_lem :
    (diskno start size : ℕ) (ds ds' : Disks)
    → IsValid ds
    → ramdisk_init diskno start size ds ≡ ok ds'
    → IsValid ds'
      × Has ds' diskno (record { is_used = true; diskno = diskno; offset = start; size = size })
      × ((other : ℕ) (d : Ramdisk) → other ≢ diskno → Has ds other d → Has ds' other d)
ramdisk_init_lem diskno start size ds ds' v e =
    let d : Ramdisk = record { is_used = true; diskno = diskno; offset = start; size = size } in
    let (fits, absent, took) = init_ok diskno start size ds e in
    let (s, at_slot, is) = take_slot_lem ds d (free_disk 0 ds) took in
    let (k, place, lt, free) = free_disk_lem 0 ds s at_slot in
    let same_slot : s ≡ k = omega (arith, place) in
    let same : ds' ≡ set ds k d = is ∙ ap (λ i. set ds i d) same_slot in
    let new = none-Holds ds diskno absent in
    subst
      (λ t.
        IsValid t
        × Has t diskno d
        × ((other : ℕ) (x : Ramdisk) → other ≢ diskno → Has ds other x → Has t other x))
      (sym same)
      (
        registered-IsValid ds k d v lt free refl fits new,
        registered-Has ds k d v lt free refl fits new,
        λ other x ne h. registered-Has_other ds k d v lt free refl fits new other x h,
      )

removed :
    (ds : Disks) (diskno k : ℕ)
    → ramdisk_find diskno ds ≡ some k
    → ramdisk_deinit diskno ds ≡ ok (set ds k blank_disk)
unfolding ramdisk_deinit remove_found
removed ds diskno k e = ap (remove_found ds) e

not_removed :
    (ds : Disks) (diskno : ℕ)
    → ramdisk_find diskno ds ≡ none
    → ramdisk_deinit diskno ds ≡ err not_found
unfolding ramdisk_deinit remove_found
not_removed ds diskno e = ap (remove_found ds) e

gone :
    (ds : Disks) (diskno k : ℕ)
    → IsValid ds
    → k < length ds
    → Holds ds diskno k
    → ramdisk_find diskno (set ds k blank_disk) ≡ none
unfolding ramdisk_find
gone ds diskno k v lt h = elim (find_disk_lem 0 diskno (set ds k blank_disk)) [
  | inl (n, all) ↦ n
  | inr (l, found, lt', h') ↦ elim (ℕ_discrete l k) [
    | yes e ↦ absurd (
        true_false (
          sym h'.0
          ∙ ap (λ j. (disk_at (set ds k blank_disk) j).is_used) e
          ∙ ap (λ (x : Ramdisk). x.is_used) (disk_at-set_self ds k blank_disk lt)))
    | no ne ↦
        let still = disk_at-set_ne ds k l blank_disk ne in
        absurd (
          ne (
            v.unique diskno l k
              (
                sym (ap (λ (x : Ramdisk). x.is_used) still) ∙ h'.0,
                sym (ap (λ (x : Ramdisk). x.diskno) still) ∙ h'.1,
              )
              h))
  ]
]
  where
    true_false : true ≢ false
    true_false e = cc

abbrev pub Removed : ℕ → Disks → Type 0
Removed diskno ds =
    ((ds' : Disks) × (ramdisk_deinit diskno ds ≡ ok ds')
      × IsValid ds'
      × (ramdisk_find diskno ds' ≡ none))
    ⊎ ((ramdisk_deinit diskno ds ≡ err not_found) × (ramdisk_find diskno ds ≡ none))

-- A disk that is removed is not found any more, and the table stays valid; removing fails only for a
-- disk that is not there.
pub ramdisk_deinit_lem : (diskno : ℕ) (ds : Disks) → IsValid ds → Removed diskno ds
unfolding ramdisk_find
ramdisk_deinit_lem diskno ds v = elim (find_disk_lem 0 diskno ds) [
  | inl (n, all) ↦ inr (not_removed ds diskno n, n)
  | inr (k, e, lt, h) ↦
      let found : ramdisk_find diskno ds ≡ some k = e ∙ ap some (omega arith) in
      inl (
        set ds k blank_disk,
        removed ds diskno k found,
        IsValid-set ds k blank_disk v lt (λ u. cc),
        gone ds diskno k v lt h,
      )
]
