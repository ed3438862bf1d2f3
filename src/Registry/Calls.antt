-- ===== src/Registry/Calls.antt =====
-- What filesystem_register and filesystem_unregister of core.c do to the map from names to file systems.
use nyxis_os.Base.Found.{zero_plus, false_or_true}
use nyxis_os.Base.{
  ℕ, ◌<◌, ◌≡◌, ◌≢◌, refl, ap, sym, ◌∙◌, subst, inl, inr, true, false, Option, none, some, List, set,
  leb, length, Bool-cases, Option-cases,
}
use nyxis_os.Base.Status.{Result, ok, err}
use nyxis_os.Strings.{strcmp}
use nyxis_os.Strings.Comparing.{IsText, strcmp_iff}
use nyxis_os.Vfs.Tree.{is_same}
use nyxis_os.Registry.{
  FilesystemOps, Filesystem, blank, slot, fs_find, unused_slot, filesystem_register,
  filesystem_unregister, filesystem_name_max,
}
use nyxis_os.Registry.Names.{
  hits, ops_of, IsRegistry, not_found_lem, found_lem, unused_slot_lem, set_other, none_misses,
  set_new, set-blank, slot-IsText, set-IsRegistry, used_of_hit, other_name, same_of_hit,
}

strcmp_self : (s : List ℕ) → IsText s → is_same (strcmp s s) ≡ true
strcmp_self s text = ap is_same ((strcmp_iff s s text text).1 refl)

module _ {S : Type 0} where
  -- After a success the name has just these operations, and another name what it had before; a failure
  -- changes nothing.
  unfoldable pub Maps :
      List ℕ
      → Option (FilesystemOps S)
      → List ℕ
      → List (Filesystem S)
      → Result (Unit {0}) × List (Filesystem S)
      → Type 0
  Maps name new other fs (ok u, gs) =
      IsRegistry gs × (ops_of name gs ≡ new) × (ops_of other gs ≡ ops_of other fs)
  Maps name new other fs (err e, gs) = gs ≡ fs

module _ {S : Type 0} (fs : List (Filesystem S)) (reg : IsRegistry fs) (name other : List ℕ)
    (text : IsText name) (other_text : IsText other) (ne : name ≢ other) where
  -- The entry of another name has not this one.
  apart_from :
      (j : ℕ)
      → ops_of name fs ≡ none
      → (slot fs j).is_used ≡ true
      → is_same (strcmp name (slot fs j).name) ≡ false
  apart_from j out used = other_name name (slot fs j).name text (slot-IsText fs j reg used) λ e.
      let clash : hits name (slot fs j) ≡ true =
        rw used (subst (λ n. is_same (strcmp n name) ≡ true) e (strcmp_self name text)) in
      false_or_true (sym (none_misses name fs j out) ∙ clash)

  misses_other : (i : ℕ) → hits name (slot fs i) ≡ true → hits other (slot fs i) ≡ false
  misses_other i hit =
      let used = used_of_hit name (slot fs i) hit in
      let is_text = slot-IsText fs i reg used in
      elim (Bool-cases (hits other (slot fs i))) [
        | inl both ↦ absurd (
            ne (
              sym (same_of_hit name (slot fs i) text is_text hit)
              ∙ same_of_hit other (slot fs i) other_text is_text both))
        | inr miss ↦ miss
      ]

  added_at :
      (ops : FilesystemOps S) (i : ℕ)
      → unused_slot 0 fs ≡ some i
      → ops_of name fs ≡ none
      → Maps name
          (some ops)
          other
          fs
          (ok tt, set fs i (record { name = name; ops = ops; is_used = true }))
  unfolding Maps
  added_at ops i free out =
      let r = unused_slot_lem 0 i fs free in
      let i_is : i ≡ r.0 = r.1 ∙ zero_plus r.0 in
      let unused : (slot fs i).is_used ≡ false =
        subst (λ k. (slot fs k).is_used ≡ false) (sym i_is) r.2 in
      let inside : i < length fs = subst (λ k. k < length fs) (sym i_is) r.3 in
      let new : Filesystem S = record { name = name; ops = ops; is_used = true } in
      (
        set-IsRegistry fs i new reg (λ used. (text, out)) (λ j used. apart_from j out used),
        set_new name fs i new (strcmp_self name text) out inside,
        set_other other fs i new (rw unused refl) (other_name name other text other_text ne),
      )

  removed_at :
      (i : ℕ) → fs_find 0 name fs ≡ some i → Maps name none other fs (ok tt, set fs i blank)
  unfolding Maps
  removed_at i has =
      let r = found_lem 0 i name fs has in
      let i_is : i ≡ r.0 = r.1 ∙ zero_plus r.0 in
      let hit : hits name (slot fs i) ≡ true =
        subst (λ k. hits name (slot fs k) ≡ true) (sym i_is) r.2 in
      (
        set-IsRegistry fs i blank reg (λ used. absurd (false_or_true used)) (λ j used. refl),
        set-blank name fs i reg text hit,
        set_other other fs i blank (misses_other i hit) refl,
      )

  register_outcome :
      (ops : FilesystemOps S) → Maps name (some ops) other fs (filesystem_register name ops fs)
  unfolding filesystem_register Maps
  register_outcome ops = elim (Bool-cases (leb filesystem_name_max (length name))) [
    | inl long ↦ rw (filesystem_register, long) refl
    | inr fits ↦ elim (Option-cases (fs_find 0 name fs)) [
      | inr (i, has) ↦ rw (filesystem_register, fits, has) refl
      | inl out ↦ elim (Option-cases (unused_slot 0 fs)) [
        | inl full ↦ rw (filesystem_register, fits, out, full) refl
        | inr (i, free) ↦
            rw (filesystem_register, fits, out, free)
              (added_at ops i free (not_found_lem 0 name fs out))
      ]
    ]
  ]

  unregister_outcome : Maps name none other fs (filesystem_unregister name fs)
  unfolding filesystem_unregister Maps
  unregister_outcome = elim (Option-cases (fs_find 0 name fs)) [
    | inl out ↦ rw (filesystem_unregister, out) refl
    | inr (i, has) ↦ rw (filesystem_unregister, has) (removed_at i has)
  ]

-- In a table where no two entries have the same name, each call keeps that and changes the map from
-- names to file systems at its own name only: a registration that succeeds gives the name its
-- operations, a removal that succeeds takes them from it, and a call that fails leaves the table as it
-- was. All names are strings without a NUL inside.
pub registry_lem :
    {S : Type 0} (fs : List (Filesystem S)) (name other : List ℕ) (ops : FilesystemOps S)
    → IsRegistry fs
    → IsText name
    → IsText other
    → name ≢ other
    → Maps name (some ops) other fs (filesystem_register name ops fs)
      × Maps name none other fs (filesystem_unregister name fs)
registry_lem fs name other ops reg text other_text ne = (
  register_outcome fs reg name other text other_text ne ops,
  unregister_outcome fs reg name other text other_text ne,
)
