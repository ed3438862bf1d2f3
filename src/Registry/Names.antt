-- ===== src/Registry/Names.antt =====
-- The table of core.c as a map from names to file systems.
use nyxis_os.Base.Found.{plus_zero, plus_suc, false_or_true, none_or_some}
use nyxis_os.Base.{
  ℕ, zero, suc, ◌+◌, ◌&&◌, ◌<◌, ◌≡◌, ◌≢◌, refl, sym, ◌∙◌, subst, inl, inr, Bool, true, false,
  Option, none, some, List, [], ◌∷◌, set, if◌then◌else◌, length, Bool-cases, arith,
}
use nyxis_os.Base.Members.{unsome}
use nyxis_os.Strings.{Sign, same, below, above, strcmp}
use nyxis_os.Strings.Comparing.{IsText, strcmp_iff}
use nyxis_os.Vfs.Tree.{is_same}
use nyxis_os.Registry.{FilesystemOps, Filesystem, blank, slot, fs_find, unused_slot}

is_same_sign : (s : Sign) → is_same s ≡ true → s ≡ same
is_same_sign same h = refl
is_same_sign below h = absurd (cc)
is_same_sign above h = absurd (cc)

pub same_name : (s t : List ℕ) → IsText s → IsText t → is_same (strcmp s t) ≡ true → s ≡ t
same_name s t is_s is_t h = (strcmp_iff s t is_s is_t).0 (is_same_sign (strcmp s t) h)

pub other_name : (s t : List ℕ) → IsText s → IsText t → s ≢ t → is_same (strcmp s t) ≡ false
other_name s t is_s is_t ne = elim (Bool-cases (is_same (strcmp s t))) [
  | inl e ↦ absurd (ne (same_name s t is_s is_t e))
  | inr e ↦ e
]

module _ {S : Type 0} where
  -- Whether an entry has the name.
  abbrev pub hits : List ℕ → Filesystem S → Bool
  hits name f = f.is_used && is_same (strcmp f.name name)

  -- What the table gives a name: the operations of the first entry that has it.
  unfoldable pub ops_of : List ℕ → List (Filesystem S) → Option (FilesystemOps S)
  ops_of name [] = none
  ops_of name (f ∷ fs) = let rest = ops_of name fs in if hits name f then some f.ops else rest

  -- The names in use are strings without a NUL inside, and no two entries have the same one.
  unfoldable pub IsRegistry : List (Filesystem S) → Type 0
  IsRegistry [] = Unit {0}
  IsRegistry (f ∷ fs) =
      (f.is_used ≡ true → IsText f.name × (ops_of f.name fs ≡ none)) × IsRegistry fs

  -- A step of the search at an entry with the name, and at another one.
  fs_find_hit :
      (k : ℕ) (name : List ℕ) (f : Filesystem S) (fs : List (Filesystem S))
      → hits name f ≡ true
      → fs_find k name (f ∷ fs) ≡ some k
  unfolding fs_find
  fs_find_hit k name f fs h = elim (Bool-cases f.is_used) [
    | inl used ↦ rw (used, (rw used at h)) refl
    | inr unused ↦ absurd (false_or_true (rw unused at h))
  ]

  fs_find_skip :
      (k : ℕ) (name : List ℕ) (f : Filesystem S) (fs : List (Filesystem S))
      → hits name f ≡ false
      → fs_find k name (f ∷ fs) ≡ fs_find (k + 1) name fs
  unfolding fs_find
  fs_find_skip k name f fs h = elim (Bool-cases f.is_used) [
    | inl used ↦ rw (used, (rw used at h)) refl
    | inr unused ↦ rw unused refl
  ]

  ops_of_hit :
      (name : List ℕ) (f : Filesystem S) (fs : List (Filesystem S))
      → hits name f ≡ true
      → ops_of name (f ∷ fs) ≡ some f.ops
  unfolding ops_of
  ops_of_hit name f fs h = rw h refl

  ops_of_skip :
      (name : List ℕ) (f : Filesystem S) (fs : List (Filesystem S))
      → hits name f ≡ false
      → ops_of name (f ∷ fs) ≡ ops_of name fs
  unfolding ops_of
  ops_of_skip name f fs h = rw h refl

  -- A name that is not found has no operations; one that is found is that of the entry.
  pub not_found_lem :
      (k : ℕ) (name : List ℕ) (fs : List (Filesystem S))
      → fs_find k name fs ≡ none
      → ops_of name fs ≡ none
  unfolding fs_find ops_of
  not_found_lem k name [] h = refl
  not_found_lem k name (f ∷ fs) h = elim (Bool-cases (hits name f)) [
    | inl hit ↦ absurd (none_or_some (sym h ∙ fs_find_hit k name f fs hit))
    | inr miss ↦
        ops_of_skip name f fs miss
        ∙ not_found_lem (k + 1) name fs (sym (fs_find_skip k name f fs miss) ∙ h)
  ]

  pub found_lem :
      (k j : ℕ) (name : List ℕ) (fs : List (Filesystem S))
      → fs_find k name fs ≡ some j
      → (i : ℕ) × (j ≡ k + i)
        × (hits name (slot fs i) ≡ true)
        × (ops_of name fs ≡ some (slot fs i).ops)
  unfolding fs_find
  found_lem k j name [] h = absurd (cc)
  found_lem k j name (f ∷ fs) h = elim (Bool-cases (hits name f)) [
    | inl hit ↦ (
      0,
      unsome (sym h ∙ fs_find_hit k name f fs hit) ∙ plus_zero k,
      hit,
      ops_of_hit name f fs hit,
    )
    | inr miss ↦
        let r = found_lem (k + 1) j name fs (sym (fs_find_skip k name f fs miss) ∙ h) in
        (suc r.0, r.1 ∙ plus_suc k r.0, r.2, ops_of_skip name f fs miss ∙ r.3)
  ]

  pub unused_slot_lem :
      (k j : ℕ) (fs : List (Filesystem S))
      → unused_slot k fs ≡ some j
      → (i : ℕ) × (j ≡ k + i) × ((slot fs i).is_used ≡ false) × (i < length fs)
  unfolding unused_slot
  unused_slot_lem k j [] h = absurd (cc)
  unused_slot_lem k j (f ∷ fs) h = elim (Bool-cases f.is_used) [
    | inl used ↦
        let r = unused_slot_lem (k + 1) j fs (rw (unused_slot, used) at h) in
        let less = r.3 in (suc r.0, r.1 ∙ plus_suc k r.0, r.2, omega arith)
    | inr unused ↦
        (0, unsome (sym (rw (unused_slot, unused) at h)) ∙ plus_zero k, unused, omega arith)
  ]

  -- A write to an entry changes nothing for a name that neither it nor the old entry has.
  pub set_other :
      (name : List ℕ) (fs : List (Filesystem S)) (i : ℕ) (new : Filesystem S)
      → hits name (slot fs i) ≡ false
      → hits name new ≡ false
      → ops_of name (set fs i new) ≡ ops_of name fs
  set_other name [] i new old miss = refl
  set_other name (f ∷ fs) zero new old miss =
      ops_of_skip name new fs miss ∙ sym (ops_of_skip name f fs old)
  set_other name (f ∷ fs) (suc i) new old miss = elim (Bool-cases (hits name f)) [
    | inl hit ↦ ops_of_hit name f (set fs i new) hit ∙ sym (ops_of_hit name f fs hit)
    | inr skip ↦
        ops_of_skip name f (set fs i new) skip
        ∙ set_other name fs i new old miss
        ∙ sym (ops_of_skip name f fs skip)
  ]

  head_misses :
      (name : List ℕ) (f : Filesystem S) (fs : List (Filesystem S))
      → ops_of name (f ∷ fs) ≡ none
      → (hits name f ≡ false) × (ops_of name fs ≡ none)
  head_misses name f fs h = elim (Bool-cases (hits name f)) [
    | inl hit ↦ absurd (none_or_some (sym h ∙ ops_of_hit name f fs hit))
    | inr miss ↦ (miss, sym (ops_of_skip name f fs miss) ∙ h)
  ]

  pub none_misses :
      (name : List ℕ) (fs : List (Filesystem S)) (i : ℕ)
      → ops_of name fs ≡ none
      → hits name (slot fs i) ≡ false
  none_misses name [] i h = refl
  none_misses name (f ∷ fs) zero h = (head_misses name f fs h).0
  none_misses name (f ∷ fs) (suc i) h = none_misses name fs i (head_misses name f fs h).1

  pub set_new :
      (name : List ℕ) (fs : List (Filesystem S)) (i : ℕ) (new : Filesystem S)
      → hits name new ≡ true
      → ops_of name fs ≡ none
      → i < length fs
      → ops_of name (set fs i new) ≡ some new.ops
  set_new name [] i new hit out l = absurd (omega arith)
  set_new name (f ∷ fs) zero new hit out l = ops_of_hit name new fs hit
  set_new name (f ∷ fs) (suc i) new hit out l =
      let h = head_misses name f fs out in
      ops_of_skip name f (set fs i new) h.0 ∙ set_new name fs i new hit h.1 (omega arith)

  pub used_of_hit : (name : List ℕ) (f : Filesystem S) → hits name f ≡ true → f.is_used ≡ true
  used_of_hit name f h = elim (Bool-cases f.is_used) [
    | inl used ↦ used
    | inr unused ↦ absurd (false_or_true (rw unused at h))
  ]

  pub same_of_hit :
      (name : List ℕ) (f : Filesystem S)
      → IsText name
      → IsText f.name
      → hits name f ≡ true
      → f.name ≡ name
  same_of_hit name f text f_text h =
      same_name f.name name f_text text (rw (used_of_hit name f h) at h)

  -- The only entry with the name is cleared.
  pub set-blank :
      (name : List ℕ) (fs : List (Filesystem S)) (i : ℕ)
      → IsRegistry fs
      → IsText name
      → hits name (slot fs i) ≡ true
      → ops_of name (set fs i blank) ≡ none
  unfolding IsRegistry ops_of
  set-blank name [] i reg text hit = refl
  set-blank name (f ∷ fs) zero reg text hit =
      let own = reg.0 (used_of_hit name f hit) in
      ops_of_skip name blank fs refl
      ∙ subst (λ n. ops_of n fs ≡ none) (same_of_hit name f text own.0 hit) own.1
  set-blank name (f ∷ fs) (suc i) reg text hit = elim (Bool-cases (hits name f)) [
    | inl first ↦
        let own = reg.0 (used_of_hit name f first) in
        let out = subst (λ n. ops_of n fs ≡ none) (same_of_hit name f text own.0 first) own.1 in
        absurd (false_or_true (sym (none_misses name fs i out) ∙ hit))
    | inr skip ↦ ops_of_skip name f (set fs i blank) skip ∙ set-blank name fs i reg.1 text hit
  ]

  pub slot-IsText :
      (fs : List (Filesystem S)) (i : ℕ)
      → IsRegistry fs
      → (slot fs i).is_used ≡ true
      → IsText (slot fs i).name
  unfolding IsRegistry
  slot-IsText [] i reg used = absurd (false_or_true used)
  slot-IsText (f ∷ fs) zero reg used = (reg.0 used).0
  slot-IsText (f ∷ fs) (suc i) reg used = slot-IsText fs i reg.1 used

  -- An entry may be written whose name no other entry has.
  pub set-IsRegistry :
      (fs : List (Filesystem S)) (i : ℕ) (new : Filesystem S)
      → IsRegistry fs
      → (new.is_used ≡ true → IsText new.name × (ops_of new.name fs ≡ none))
      → ((j : ℕ) → (slot fs j).is_used ≡ true → hits (slot fs j).name new ≡ false)
      → IsRegistry (set fs i new)
  unfolding IsRegistry
  set-IsRegistry [] i new reg own apart = reg
  set-IsRegistry (f ∷ fs) zero new reg own apart =
      (λ used. ((own used).0, (head_misses new.name f fs (own used).1).1), reg.1)
  set-IsRegistry (f ∷ fs) (suc i) new reg own apart = (
    λ used. (
      (reg.0 used).0,
      set_other f.name fs i new (none_misses f.name fs i (reg.0 used).1) (apart 0 used)
          ∙ (reg.0 used).1,
    ),
    set-IsRegistry fs i new reg.1
        (λ used. ((own used).0, (head_misses new.name f fs (own used).1).1))
        (λ j used. apart (suc j) used),
  )
