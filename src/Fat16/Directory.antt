-- ===== src/Fat16/Directory.antt =====
-- The directory search of fat16.c: `fat16_scan_sector` and `fat16_find_entry_in_directory`.
use Prim.Native.Nat.{bit_and, bit_or}
use nyxis_os.Base.{
  ℕ, zero, suc, ◌+◌, ◌-◌, ◌*◌, ◌%◌, ◌^◌, Bool, not, ◌&&◌, ◌||◌, List, take, drop, ◌==◌,
  if◌then◌else◌,
}
use nyxis_os.Base.Words.{u32_mod}
use nyxis_os.Base.Status.{Result, ok, err, ◌>>=◌, file_not_found, file_corrupted}
use nyxis_os.Fat16.Device.{
  Device, entry_size, byte_at, u16_at, u32_at, fat16_is_eoc, cluster_bad, fat16_cluster_valid,
  fat16_get_fat_entry, fat16_read_sector,
}
use nyxis_os.Fat16.Name.{fat16_name_matches}

-- The fields of `fat16_dir_entry_t` that the driver uses.
pub record DirEntry : Type 0 where
  pub name : List ℕ
  pub attr : ℕ
  pub first_cluster_low : ℕ
  pub file_size : ℕ

-- Entry `j` of a sector, by the layout of `fat16_dir_entry_t`.
unfoldable pub entry_at : List ℕ → ℕ → DirEntry
entry_at sector j = record {
  name = take 11 (drop (j * entry_size) sector);
  attr = byte_at sector (j * entry_size + 11);
  first_cluster_low = u16_at sector (j * entry_size + 26);
  file_size = u32_at sector (j * entry_size + 28);
}

-- What `fat16_scan_sector` makes of a sector: an entry with its index, the end of the directory, or
-- neither.
pub data Scan : Type 0 where
  found : DirEntry → ℕ → Scan
  at_end : Scan
  not_here : Scan

-- The tests that skip an entry: deleted, part of a long name, or the volume label.
unfoldable pub is_hidden : DirEntry → Bool
is_hidden e =
    byte_at e.name 0 == 0xe5 || bit_and e.attr 0x0f == 0x0f || not (bit_and e.attr 0x08 == 0)

-- The loop from entry `j` on, with `n` entries left.
unfoldable pub scan_from : ℕ → ℕ → List ℕ → List ℕ → Scan
scan_from zero j sector name = not_here
scan_from (suc n) j sector name =
    let e = entry_at sector j in
    if byte_at e.name 0 == 0
    then at_end
    else if not (is_hidden e) && fat16_name_matches e.name name
    then found e j
    else scan_from n (j + 1) sector name

unfoldable pub fat16_scan_sector : List ℕ → List ℕ → Scan
fat16_scan_sector sector name = scan_from 16 0 sector name

-- The sectors from number `i` of a run on, with `n` left: the entry, its sector and its index.
unfoldable pub search_sectors : ℕ → ℕ → Device → ℕ → List ℕ → Result (Scan × ℕ)
search_sectors zero i dev first name = ok (not_here, i)
search_sectors (suc n) i dev first name =
    let rest = search_sectors n (i + 1) dev first name in
    fat16_read_sector dev ((first + i) % u32_mod) >>= λ sector.
    elim (fat16_scan_sector sector name) [
      | found e j ↦ ok (found e j, i)
      | at_end ↦ ok (at_end, i)
      | not_here ↦ rest
    ]

-- `((u64)diskno << 32) | ((u64)place << 16) | index`
unfoldable pub inode_of : Device → ℕ → ℕ → ℕ
inode_of dev place index = bit_or (bit_or (dev.diskno * 2 ^ 32) (place * 2 ^ 16)) index

unfoldable pub search_root : Device → List ℕ → Result (DirEntry × ℕ)
search_root dev name =
    search_sectors dev.root_dir_sectors 0 dev dev.first_root_dir_sector name >>= λ r. elim r.0 [
      | found e j ↦ ok (e, inode_of dev r.1 j)
      | _ ↦ err file_not_found
    ]

abbrev pub first_sector : Device → ℕ → ℕ
first_sector dev cluster = dev.first_data_sector + (cluster - 2) * dev.boot.sectors_per_cluster

-- What follows a cluster in which the name was not found.
unfoldable pub next_cluster : ℕ → Result ℕ
next_cluster next =
    if fat16_is_eoc next
    then err file_not_found
    else if next == cluster_bad
    then err file_corrupted
    else ok next

-- The loop over the chain, with the rounds left of `total_clusters`.
unfoldable pub search_chain : ℕ → Device → ℕ → List ℕ → Result (DirEntry × ℕ)
search_chain zero dev cluster name = err file_corrupted
search_chain (suc n) dev cluster name =
    let after = fat16_get_fat_entry dev cluster >>= λ next.
    next_cluster next >>= λ c. search_chain n dev c name in
    let here =
      search_sectors dev.boot.sectors_per_cluster 0 dev (first_sector dev cluster) name >>= λ r.
      elim r.0 [
        | found e j ↦ ok (e, inode_of dev cluster j)
        | at_end ↦ err file_not_found
        | not_here ↦ after
      ] in
    if not (fat16_cluster_valid dev cluster) then err file_corrupted else here

unfoldable pub fat16_find_entry_in_directory : Device → ℕ → Bool → List ℕ → Result (DirEntry × ℕ)
fat16_find_entry_in_directory dev start_cluster root_directory name =
    if root_directory
    then search_root dev name
    else search_chain dev.total_clusters dev start_cluster name
