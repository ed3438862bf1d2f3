-- ===== src/Registry/Tests.antt =====
-- A table with one file system and room for another.
use nyxis_os.Base.Found.{false_or_true}
use nyxis_os.Base.{ℕ, ◌+◌, ◌<◌, ◌≡◌, ◌≢◌, refl, arith, true, none, some, List, [], ◌∷◌, get_or, ap}
use nyxis_os.Base.Status.{ok, already_exists, err}
use nyxis_os.Strings.{strcmp}
use nyxis_os.Strings.Comparing.{IsText}
use nyxis_os.Registry.{
  FilesystemOps, Filesystem, blank, filesystem_register, filesystem_unregister, filesystem_mount,
}
use nyxis_os.Registry.Names.{ops_of, IsRegistry}
use nyxis_os.Registry.Calls.{Maps, registry_lem}

abbrev fat_ops : FilesystemOps ℕ
fat_ops = record {
  mount = some (λ diskno userdata n. (ok tt, n + diskno));
  unmount = none;
  format = none;
}

abbrev fat : List ℕ
fat = 102 ∷ 97 ∷ 116 ∷ []

abbrev ny : List ℕ
ny = 110 ∷ 121 ∷ []

abbrev table : List (Filesystem ℕ)
table = record { name = fat; ops = fat_ops; is_used = true } ∷ blank ∷ []

mounted : filesystem_mount fat 7 0 table 1 ≡ (ok tt, 8)
unfolding filesystem_mount strcmp
mounted = refl

taken : (filesystem_register fat fat_ops table).0 ≡ err already_exists
unfolding filesystem_register strcmp
taken = refl

not_nul : (c : ℕ) → 0 < c → c ≢ 0
not_nul c h e = omega arith

fat-IsText : IsText fat
fat-IsText =
    (not_nul 102 (omega arith), (not_nul 97 (omega arith), (not_nul 116 (omega arith), tt)))

ny-IsText : IsText ny
ny-IsText = (not_nul 110 (omega arith), (not_nul 121 (omega arith), tt))

table-IsRegistry : IsRegistry table
unfolding IsRegistry ops_of
table-IsRegistry = (λ used. (fat-IsText, refl), (λ used. absurd (false_or_true used), tt))

not_equal : ◌≢◌ {A = ℕ} 110 102
not_equal e = ground arith

ny_not_fat : ny ≢ fat
ny_not_fat e = not_equal (ap (λ l. get_or l 0 0) e)

registry_lem_example :
    Maps ny (some fat_ops) fat table (filesystem_register ny fat_ops table)
    × Maps ny none fat table (filesystem_unregister ny table)
registry_lem_example =
    registry_lem table ny fat fat_ops table-IsRegistry ny-IsText fat-IsText ny_not_fat
