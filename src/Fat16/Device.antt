-- ===== src/Fat16/Device.antt =====
-- The device of fat16.c: its geometry, read from the boot sector and checked.
use Prim.Native.Nat.{bit_and}
use nyxis_os.Base.{
  ℕ, ◌+◌, ◌-◌, ◌*◌, ◌/◌, ◌%◌, Bool, not, ◌&&◌, ◌||◌, List, ltb, leb, ◌==◌, if◌then◌else◌,
}
use nyxis_os.Base.Words.{u32_mod}
pub use nyxis_os.Base.Bytes.{byte_at, u16_at, u32_at}
use nyxis_os.Base.Status.{
  Result, ok, err, ◌>>=◌, ◌>>◌, fail_if, bad_filesystem, unsupported, file_corrupted,
}

abbrev pub sector_size : ℕ
sector_size = 512

abbrev pub entry_size : ℕ
entry_size = 32

-- The fields of `fat16_boot_sector_t` that the driver uses.
pub record BootSector : Type 0 where
  pub bytes_per_sector : ℕ
  pub sectors_per_cluster : ℕ
  pub reserved_sector_count : ℕ
  pub fat_count : ℕ
  pub root_entry_count : ℕ
  pub total_sectors16 : ℕ
  pub fat_size16 : ℕ
  pub total_sectors32 : ℕ
  pub signature : ℕ

-- `fat16_device_t`. `read` is the function pointer, applied to the disk number and the parameters:
-- from an offset and a size to the bytes.
pub record Device : Type 0 where
  pub read : ℕ → ℕ → Result (List ℕ)
  pub diskno : ℕ
  pub boot : BootSector
  pub root_dir_sectors : ℕ
  pub first_fat_sector : ℕ
  pub first_root_dir_sector : ℕ
  pub first_data_sector : ℕ
  pub bytes_per_cluster : ℕ
  pub total_sectors : ℕ
  pub total_clusters : ℕ

-- The layout of `fat16_boot_sector_t`.
unfoldable pub boot_of_bytes : List ℕ → BootSector
boot_of_bytes bs = record {
  bytes_per_sector = u16_at bs 11;
  sectors_per_cluster = byte_at bs 13;
  reserved_sector_count = u16_at bs 14;
  fat_count = byte_at bs 16;
  root_entry_count = u16_at bs 17;
  total_sectors16 = u16_at bs 19;
  fat_size16 = u16_at bs 22;
  total_sectors32 = u32_at bs 32;
  signature = u16_at bs 510;
}

abbrev pub total_of : BootSector → ℕ
total_of b = if not (b.total_sectors16 == 0) then b.total_sectors16 else b.total_sectors32

abbrev pub root_sectors_of : BootSector → ℕ
root_sectors_of b = (b.root_entry_count * entry_size + sector_size - 1) / sector_size

abbrev pub first_root_of : BootSector → ℕ
first_root_of b = b.reserved_sector_count + b.fat_count * b.fat_size16

abbrev pub first_data_of : BootSector → ℕ
first_data_of b = first_root_of b + root_sectors_of b

abbrev pub clusters_of : BootSector → ℕ
clusters_of b = (total_of b - first_data_of b) / b.sectors_per_cluster

-- The checks of `fat16_load_boot_sector`. The subtractions run only where they do not wrap.
unfoldable pub check_boot : BootSector → Result (Unit {0})
check_boot b = do
  fail_if (not (b.signature == 0xaa55)) bad_filesystem
  fail_if (not (b.bytes_per_sector == sector_size)) unsupported
  fail_if
      (b.sectors_per_cluster == 0
        || ltb 128 b.sectors_per_cluster
        || not (bit_and b.sectors_per_cluster (b.sectors_per_cluster - 1) == 0))
      bad_filesystem
  fail_if
      (b.reserved_sector_count == 0
        || b.fat_count == 0
        || ltb 2 b.fat_count
        || b.fat_size16 == 0
        || b.root_entry_count == 0)
      bad_filesystem
  fail_if (total_of b == 0 || ltb 0xffffffff (total_of b)) bad_filesystem
  fail_if (leb (total_of b) (first_data_of b)) bad_filesystem
  fail_if (ltb (clusters_of b) 4085 || ltb 65524 (clusters_of b)) bad_filesystem
  fail_if (ltb (b.fat_size16 * sector_size) ((clusters_of b + 2) * 2)) bad_filesystem

-- What `fat16_load_boot_sector` stores, with its casts to u32.
abbrev pub with_geometry : Device → BootSector → Device
with_geometry dev b = record dev {
  boot = b;
  root_dir_sectors = root_sectors_of b % u32_mod;
  first_fat_sector = b.reserved_sector_count % u32_mod;
  first_root_dir_sector = first_root_of b % u32_mod;
  first_data_sector = first_data_of b % u32_mod;
  bytes_per_cluster = (sector_size * b.sectors_per_cluster) % u32_mod;
  total_sectors = total_of b % u32_mod;
  total_clusters = clusters_of b % u32_mod;
}

unfoldable pub fat16_load_boot_sector : Device → Result Device
fat16_load_boot_sector dev = do
  bytes ← dev.read 0 sector_size
  check_boot (boot_of_bytes bytes)
  ok (with_geometry dev (boot_of_bytes bytes))

unfoldable pub fat16_is_eoc : ℕ → Bool
fat16_is_eoc cluster = leb 0xfff8 cluster

abbrev pub cluster_bad : ℕ
cluster_bad = 0xfff7

unfoldable pub fat16_cluster_valid : Device → ℕ → Bool
fat16_cluster_valid dev cluster = leb 2 cluster && ltb cluster (dev.total_clusters + 2)

abbrev pub fat_offset : Device → ℕ → ℕ
fat_offset dev cluster = dev.first_fat_sector * sector_size + cluster * 2

unfoldable pub fat16_get_fat_entry : Device → ℕ → Result ℕ
fat16_get_fat_entry dev cluster =
    if not (fat16_cluster_valid dev cluster)
    then err file_corrupted
    else dev.read (fat_offset dev cluster) 2 >>= λ bytes. ok (u16_at bytes 0)

unfoldable pub fat16_read_sector : Device → ℕ → Result (List ℕ)
fat16_read_sector dev sector = dev.read (sector * sector_size) sector_size
