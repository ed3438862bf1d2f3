-- ===== src/Fat16/Tests.antt =====
-- The FAT16 driver at a concrete disk.
use nyxis_os.Base.{
  map, replicate, ◌++◌, ℕ, zero, suc, ◌+◌, ◌*◌, ◌^◌, ◌≤◌, ◌<◌, ◌≡◌, ◌↔◌, refl, true, false, List,
  [], ◌∷◌, arith, ◌==◌, if◌then◌else◌,
}
use nyxis_os.Base.Status.{ok}
use nyxis_os.Fat16.Device.{
  BootSector, Device, sector_size, check_boot, boot_of_bytes, fat16_load_boot_sector,
  fat16_cluster_valid, fat16_get_fat_entry, fat_offset, fat16_read_sector,
}
use nyxis_os.Fat16.Geometry.{IsMounted, load-IsMounted, cluster_in_disk}
use nyxis_os.Fat16.Chain.{Chain, here, link, fat16_get_nth_cluster, nth_cluster_iff}
use nyxis_os.Fat16.Walk.{VnodeData, fat16_file_read}
use nyxis_os.Fat16.Content.{slice, Covers, file_byte, file_read_lem}
use nyxis_os.Fat16.Name.{
  fat16_toupper, dot, scan_name, scan_extension, after_name, same_name, fat16_name_matches,
}
use nyxis_os.Fat16.NameScan.{short_name}
use nyxis_os.Fat16.NameLaws.{name_matches_iff}
use nyxis_os.Fat16.Directory.{
  entry_at, is_hidden, scan_from, fat16_scan_sector, search_sectors, search_root, inode_of,
}
use nyxis_os.Fat16.RootSearch.{RootOutcome, search_root_lem, inode_of-injective}

-- One sector a cluster, 4085 clusters: a boot sector, one FAT of 16 sectors and a root directory of
-- one sector before them. Cluster 2 leads to cluster 5, which ends its chain.
abbrev disk : ℕ → ℕ
disk p =
    if p == 12
    then 2
    else if p == 13
    then 1
    else if p == 14
    then 1
    else if p == 16
    then 1
    else if p == 17
    then 16
    else if p == 19
    then 0x07
    else if p == 20
    then 0x10
    else if p == 22
    then 16
    else if p == 510
    then 0x55
    else if p == 511
    then 0xaa
    else if p == 516
    then 5
    else if p == 522
    then 0xff
    else if p == 523
    then 0xff
    else if p == 9216
    then 72
    else if p == 10752
    then 105
    else 0

abbrev blank_boot : BootSector
blank_boot = record {
  bytes_per_sector = 0;
  sectors_per_cluster = 0;
  reserved_sector_count = 0;
  fat_count = 0;
  root_entry_count = 0;
  total_sectors16 = 0;
  fat_size16 = 0;
  total_sectors32 = 0;
  signature = 0;
}

abbrev unmounted : Device
unmounted = record {
  read = λ offset n. ok (slice disk offset n);
  diskno = 0;
  boot = blank_boot;
  root_dir_sectors = 0;
  first_fat_sector = 0;
  first_root_dir_sector = 0;
  first_data_sector = 0;
  bytes_per_cluster = 0;
  total_sectors = 0;
  total_clusters = 0;
}

abbrev boot : BootSector
boot = record {
  bytes_per_sector = 512;
  sectors_per_cluster = 1;
  reserved_sector_count = 1;
  fat_count = 1;
  root_entry_count = 16;
  total_sectors16 = 0x1007;
  fat_size16 = 16;
  total_sectors32 = 0;
  signature = 0xaa55;
}

abbrev mounted : Device
mounted = record unmounted {
  boot = boot;
  root_dir_sectors = 1;
  first_fat_sector = 1;
  first_root_dir_sector = 17;
  first_data_sector = 18;
  bytes_per_cluster = 512;
  total_sectors = 0x1007;
  total_clusters = 4085;
}

load_runs : fat16_load_boot_sector unmounted ≡ ok mounted
unfolding fat16_load_boot_sector check_boot boot_of_bytes
load_runs = refl

mounted-IsMounted : IsMounted mounted
mounted-IsMounted = omega arith

load-IsMounted_example : IsMounted mounted
load-IsMounted_example = load-IsMounted unmounted load_runs

cluster_in_disk_example :
    (18 ≤ 18 + 3 * 1 + 0)
    × (18 + 3 * 1 + 0 < 0x1007)
    × (1 * sector_size ≤ fat_offset mounted 5)
    × (fat_offset mounted 5 + 2 ≤ 17 * sector_size)
unfolding fat16_cluster_valid
cluster_in_disk_example = cluster_in_disk mounted 5 0 mounted-IsMounted refl (omega arith)

links : Chain mounted 1 2 5
unfolding fat16_cluster_valid fat16_get_fat_entry
links = link (record { from = refl; entry = refl; to = refl; goes_on = omega arith }) (here 5)

nth_cluster_iff_example :
    (fat16_get_nth_cluster mounted 2 1 ≡ ok 5)
    ↔ ((fat16_cluster_valid mounted 2 ≡ true) × (1 < 4085) × Chain mounted 1 2 5)
nth_cluster_iff_example = nth_cluster_iff mounted 2 1 5

-- A file of 513 bytes in the clusters 2 and 5.
abbrev file : VnodeData
file = record { is_directory = false; first_cluster = 2; size = 513; inode_id = 1 }

abbrev cluster_at : ℕ → ℕ
cluster_at k = if k == 0 then 2 else 5

file-Covers : Covers mounted file cluster_at
unfolding fat16_cluster_valid
file-Covers = record {
  plain = refl;
  start = refl;
  bounded = omega arith;
  chain = λ k lt. covers k lt;
}
  where
    covers : (k : ℕ) → k * 512 < 513 → Chain mounted k 2 (cluster_at k)
    covers zero lt = here 2
    covers (suc zero) lt = links
    covers (suc (suc k)) lt = absurd (omega arith)

file_read_lem_example :
    fat16_file_read mounted file 511 600 ≡ ok (slice (file_byte mounted disk cluster_at) 511 2)
file_read_lem_example =
    file_read_lem mounted disk file cluster_at mounted-IsMounted
      (record { serves = λ offset n pos fits. refl }) file-Covers 511 600

second_cluster : slice (file_byte mounted disk cluster_at) 511 2 ≡ 0 ∷ 105 ∷ []
second_cluster = refl

-- A root directory of one sector whose first entry is a file HELLO.RUN of 7 bytes in cluster 2.
abbrev hello_name : List ℕ
hello_name = 72 ∷ 69 ∷ 76 ∷ 76 ∷ 79 ∷ 32 ∷ 32 ∷ 32 ∷ 82 ∷ 85 ∷ 78 ∷ []

abbrev hello_sector : List ℕ
hello_sector = hello_name ++ 0x20 ∷ (replicate 14 0 ++ 2 ∷ 0 ∷ 7 ∷ 0 ∷ 0 ∷ 0 ∷ replicate 480 0)

abbrev hello_disk : Device
hello_disk = record mounted { read = λ offset n. ok hello_sector; diskno = 3 }

-- "hello.run"
abbrev hello : List ℕ
hello = 104 ∷ 101 ∷ 108 ∷ 108 ∷ 111 ∷ []

abbrev run : List ℕ
run = 114 ∷ 117 ∷ 110 ∷ []

name_matches_iff_example :
    ((fat16_name_matches hello_name (hello ++ dot ∷ run) ≡ true)
      ↔ ((1 ≤ 5) × (5 ≤ 8) × (3 ≤ 3) × (short_name hello run ≡ map fat16_toupper hello_name)))
    × ((fat16_name_matches hello_name hello ≡ true)
        ↔ ((1 ≤ 5) × (5 ≤ 8) × (short_name hello [] ≡ map fat16_toupper hello_name)))
    × ((more : List ℕ) → fat16_name_matches hello_name (hello ++ dot ∷ (run ++ dot ∷ more)) ≡ false)
name_matches_iff_example =
    name_matches_iff hello_name hello
      (
        λ e. absurd (omega (arith, e)),
        (
          λ e. absurd (omega (arith, e)),
          (
            λ e. absurd (omega (arith, e)),
            (λ e. absurd (omega (arith, e)), (λ e. absurd (omega (arith, e)), tt)),
          ),
        ),
      )
      run
      (
        λ e. absurd (omega (arith, e)),
        (λ e. absurd (omega (arith, e)), (λ e. absurd (omega (arith, e)), tt)),
      )

search_root_lem_example : RootOutcome hello_disk (λ i. hello_sector) (hello ++ dot ∷ run)
unfolding fat16_read_sector
search_root_lem_example =
    search_root_lem hello_disk (λ i. hello_sector) (hello ++ dot ∷ run) (λ j lt. refl)

search_root_finds :
    search_root hello_disk (hello ++ dot ∷ run) ≡ ok (entry_at hello_sector 0, 3 * 2 ^ 32)
unfolding search_root search_sectors fat16_scan_sector scan_from is_hidden fat16_name_matches
    scan_name scan_extension after_name same_name fat16_toupper entry_at inode_of fat16_read_sector
search_root_finds = refl

inode_of-injective_example :
    (hello_disk.diskno ≡ hello_disk.diskno) × (◌≡◌ {A = ℕ} 5 5) × (◌≡◌ {A = ℕ} 7 7)
inode_of-injective_example =
    inode_of-injective hello_disk hello_disk 5 7 5 7 (omega arith) (omega arith) (omega arith)
      (omega arith) refl
