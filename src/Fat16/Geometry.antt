-- ===== src/Fat16/Geometry.antt =====
-- What the checks of the boot sector give the rest of the driver: every sum fits its u32, and
-- every cluster and every FAT entry lies inside the disk.
use nyxis_os.Base.{ℕ, ◌+◌, ◌-◌, ◌*◌, ◌%◌, ◌^◌, ◌≤◌, ◌<◌, ◌≡◌, true, List, arith, inl, inr}
use native.Mathlib.Nat.{div-mul-le_self}
use nyxis_os.Base.Status.{Result-cases, ok}
use nyxis_os.Fat16.Device.{
  BootSector, Device, sector_size, total_of, first_data_of, clusters_of, check_boot, with_geometry,
  fat16_load_boot_sector, boot_of_bytes, fat16_cluster_valid, fat_offset,
}

-- The geometry of a mounted device.
pub record IsMounted (dev : Device) : Type 0 where
  pub cluster_size : dev.bytes_per_cluster ≡ sector_size * dev.boot.sectors_per_cluster
  pub some_sectors : 0 < dev.boot.sectors_per_cluster
  pub few_sectors : dev.boot.sectors_per_cluster ≤ 128
  pub fat_first : 0 < dev.first_fat_sector
  pub root_behind_fat :
      dev.first_root_dir_sector ≡ dev.first_fat_sector + dev.boot.fat_count * dev.boot.fat_size16
  pub some_fats : 0 < dev.boot.fat_count
  pub data_behind_root : dev.first_data_sector ≡ dev.first_root_dir_sector + dev.root_dir_sectors
  pub enough : 4085 ≤ dev.total_clusters
  pub few : dev.total_clusters ≤ 65524
  pub fits :
      dev.first_data_sector + dev.total_clusters * dev.boot.sectors_per_cluster ≤ dev.total_sectors
  pub fat_fits : (dev.total_clusters + 2) * 2 ≤ dev.boot.fat_size16 * sector_size
  pub word : dev.total_sectors < 2 ^ 32

-- What a boot sector that passes has.
checked :
    (b : BootSector)
    → check_boot b ≡ ok tt
    → (0 < b.sectors_per_cluster)
      × (b.sectors_per_cluster ≤ 128)
      × (0 < b.reserved_sector_count)
      × (0 < b.fat_count)
      × (first_data_of b < total_of b)
      × (total_of b < 2 ^ 32)
      × (4085 ≤ clusters_of b)
      × (clusters_of b ≤ 65524)
      × ((clusters_of b + 2) * 2 ≤ b.fat_size16 * sector_size)
unfolding check_boot
checked b h = ground arith

loaded :
    (dev : Device) {dev' : Device}
    → fat16_load_boot_sector dev ≡ ok dev'
    → (bytes : List ℕ) × (dev.read 0 sector_size ≡ ok bytes)
      × (check_boot (boot_of_bytes bytes) ≡ ok tt)
      × (dev' ≡ with_geometry dev (boot_of_bytes bytes))
unfolding fat16_load_boot_sector
loaded dev {dev'} h = elim (Result-cases (dev.read 0 sector_size)) [
  | inl (bytes, r) ↦ elim (Result-cases (check_boot (boot_of_bytes bytes))) [
    | inl (tt, c) ↦ (bytes, r, c, ground arith)
    | inr (e, c) ↦ absurd (ground arith)
  ]
  | inr (e, r) ↦ absurd (ground arith)
]

geometry : (dev : Device) (b : BootSector) → check_boot b ≡ ok tt → IsMounted (with_geometry dev b)
geometry dev b h =
    let (spc, spc', res, fats, data_lt, total_lt, lo, hi, fat) = checked b h in
    let whole = div-mul-le_self (total_of b - first_data_of b) b.sectors_per_cluster in
    let exact : clusters_of b % 2 ^ 32 ≡ clusters_of b = omega arith in
    record {
      cluster_size = omega arith;
      some_sectors = spc;
      few_sectors = spc';
      fat_first = omega arith;
      root_behind_fat = omega arith;
      some_fats = fats;
      data_behind_root = omega arith;
      enough = omega arith;
      few = omega arith;
      fits = rw exact (omega (arith, whole));
      fat_fits = omega arith;
      word = omega arith;
    }

-- A device that loads is well formed: its clusters lie inside the disk, its FAT holds an entry for
-- each, and no number of the geometry is cut to its u32.
pub load-IsMounted :
    (dev : Device) {dev' : Device} → fat16_load_boot_sector dev ≡ ok dev' → IsMounted dev'
load-IsMounted dev h =
    let (bytes, _, c, e) = loaded dev h in rw e (geometry dev (boot_of_bytes bytes) c)

pub mul_room : (i n s : ℕ) → i < n → i * s + s ≤ n * s
mul_room i n s h = grind arith

pub valid_range :
    (dev : Device) (cluster : ℕ)
    → fat16_cluster_valid dev cluster ≡ true
    → (2 ≤ cluster) × (cluster < dev.total_clusters + 2)
unfolding fat16_cluster_valid
valid_range dev cluster h = ground arith

-- Each sector of a valid cluster lies in the data area of the disk, and its number does not wrap;
-- and the cluster's FAT entry lies in the first FAT.
pub cluster_in_disk :
    (dev : Device) (cluster k : ℕ)
    → IsMounted dev
    → fat16_cluster_valid dev cluster ≡ true
    → k < dev.boot.sectors_per_cluster
    → let sector = dev.first_data_sector + (cluster - 2) * dev.boot.sectors_per_cluster + k in
      (dev.first_data_sector ≤ sector)
      × (sector < dev.total_sectors)
      × (dev.first_fat_sector * sector_size ≤ fat_offset dev cluster)
      × (fat_offset dev cluster + 2 ≤ (dev.first_fat_sector + dev.boot.fat_size16) * sector_size)
cluster_in_disk dev cluster k v valid lt =
    let (lo, hi) = valid_range dev cluster valid in
    let room =
      mul_room (cluster - 2) dev.total_clusters dev.boot.sectors_per_cluster (omega arith) in
    (omega arith, omega (arith, room), omega arith, omega arith)
