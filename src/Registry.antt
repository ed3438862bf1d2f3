-- ===== src/Registry.antt =====
-- drivers/filesystem/core.c and core.h: the table of the registered file systems. A pointer to an entry is
-- its index.
pub mod Names
pub mod Calls
pub mod Tests
use nyxis_os.Base.{
  ℕ, ◌+◌, Bool, true, false, not, Option, none, some, List, [], ◌∷◌, get_or, set, leb,
  if◌then◌else◌, length,
}
use nyxis_os.Base.Status.{
  Error, Result, ok, err, overflow, already_exists, too_many_file_system, not_found, unsupported,
}
use nyxis_os.Base.Effect.{Eff, lift}
use nyxis_os.Strings.{strcmp}
use nyxis_os.Vfs.Tree.{is_same}

-- `filesystem_ops_t`: functions of a disk number and of the caller's data, null if there is none. They
-- change the state `S` of the drivers.
pub record FilesystemOps (S : Type 0) : Type 0 where
  pub mount : Option (ℕ → ℕ → Eff S (Unit {0}))
  pub unmount : Option (ℕ → Eff S (Unit {0}))
  pub format : Option (ℕ → ℕ → Eff S (Unit {0}))

-- `filesystem_t`
pub record Filesystem (S : Type 0) : Type 0 where
  pub name : List ℕ
  pub ops : FilesystemOps S
  pub is_used : Bool

-- `FILESYSTEM_MAX` and `FILESYSTEM_NAME_MAX`
abbrev pub filesystem_max : ℕ
filesystem_max = 32

abbrev pub filesystem_name_max : ℕ
filesystem_name_max = 32

module _ {S : Type 0} where
  -- An entry that has been cleared.
  abbrev pub blank : Filesystem S
  blank = record {
    name = [];
    ops = record { mount = none; unmount = none; format = none };
    is_used = false;
  }

  abbrev pub slot : List (Filesystem S) → ℕ → Filesystem S
  slot fs i = get_or fs i blank

  unfoldable pub fs_find : ℕ → List ℕ → List (Filesystem S) → Option ℕ
  fs_find i name [] = none
  fs_find i name (f ∷ fs) =
      let rest = fs_find (i + 1) name fs in
      if not f.is_used then rest else if is_same (strcmp f.name name) then some i else rest

  unfoldable pub unused_slot : ℕ → List (Filesystem S) → Option ℕ
  unused_slot i [] = none
  unused_slot i (f ∷ fs) = let rest = unused_slot (i + 1) fs in if f.is_used then rest else some i

  unfoldable pub filesystem_register :
      List ℕ → FilesystemOps S → List (Filesystem S) → Result (Unit {0}) × List (Filesystem S)
  unfolding fs_find unused_slot
  filesystem_register name ops fs =
      let added : Result (Unit {0}) × List (Filesystem S) = elim (unused_slot 0 fs) [
        | none ↦ (err too_many_file_system, fs)
        | some i ↦ (ok tt, set fs i (record { name = name; ops = ops; is_used = true }))
      ] in
      if leb filesystem_name_max (length name)
      then (err overflow, fs)
      else elim (fs_find 0 name fs) [ some i ↦ (err already_exists, fs) | none ↦ added ]

  unfoldable pub filesystem_unregister :
      List ℕ → List (Filesystem S) → Result (Unit {0}) × List (Filesystem S)
  unfolding fs_find
  filesystem_unregister name fs = elim (fs_find 0 name fs) [
    | none ↦ (err not_found, fs)
    | some i ↦ (ok tt, set fs i blank)
  ]

  unfoldable pub filesystem_get : List ℕ → List (Filesystem S) → Option ℕ
  unfolding fs_find
  filesystem_get name fs = fs_find 0 name fs

  -- A call of a function of the file system with the name.
  unfoldable pub call_named :
      {A : Type 0}
      → (FilesystemOps S → Option A)
      → (A → Eff S (Unit {0}))
      → List ℕ
      → List (Filesystem S)
      → Eff S (Unit {0})
  unfolding fs_find
  call_named field call name fs = elim (fs_find 0 name fs) [
    | none ↦ lift (err not_found)
    | some i ↦ elim (field (slot fs i).ops) [ none ↦ lift (err unsupported) | some f ↦ call f ]
  ]

  unfoldable pub filesystem_mount : List ℕ → ℕ → ℕ → List (Filesystem S) → Eff S (Unit {0})
  unfolding call_named
  filesystem_mount name diskno userdata = call_named (λ o. o.mount) (λ f. f diskno userdata) name

  unfoldable pub filesystem_unmount : List ℕ → ℕ → List (Filesystem S) → Eff S (Unit {0})
  unfolding call_named
  filesystem_unmount name diskno = call_named (λ o. o.unmount) (λ f. f diskno) name

  unfoldable pub filesystem_format : List ℕ → ℕ → ℕ → List (Filesystem S) → Eff S (Unit {0})
  unfolding call_named
  filesystem_format name diskno userdata = call_named (λ o. o.format) (λ f. f diskno userdata) name
