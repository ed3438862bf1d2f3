-- ===== src/Fat16/Walk.antt =====
-- `fat16_file_read`: the loop over the clusters of a file.
use nyxis_os.Base.{
  ℕ, zero, suc, ◌+◌, ◌-◌, ◌*◌, ◌/◌, ◌%◌, Bool, List, [], ◌++◌, leb, ◌==◌, if◌then◌else◌, min,
}
use nyxis_os.Base.Status.{Result, ok, err, ◌>>=◌, file_corrupted, invalid_arg}
use nyxis_os.Fat16.Device.{Device, sector_size}
use nyxis_os.Fat16.Chain.{fat16_get_nth_cluster}

-- `fat16_vnode_data_t`, less its device.
pub record VnodeData : Type 0 where
  pub is_directory : Bool
  pub first_cluster : ℕ
  pub size : ℕ
  pub inode_id : ℕ

-- Where on the disk the byte at `within` of the cluster stands.
abbrev pub cluster_byte_offset : Device → ℕ → ℕ → ℕ
cluster_byte_offset dev cluster within =
    dev.first_data_sector * sector_size + (cluster - 2) * dev.bytes_per_cluster + within

-- One round of the loop, with `left` bytes still to be read from `offset` on.
unfoldable pub read_chunk : Device → VnodeData → ℕ → ℕ → Result (List ℕ)
read_chunk dev file offset left =
    let cluster_size = dev.bytes_per_cluster in
    if leb dev.total_clusters (offset / cluster_size)
    then err file_corrupted
    else fat16_get_nth_cluster dev file.first_cluster (offset / cluster_size) >>= λ cluster.
        dev.read (cluster_byte_offset dev cluster (offset % cluster_size))
          (min (cluster_size - offset % cluster_size) left)

-- The loop, with fuel: `left` is `to_read - total_read`, and falls in each round.
unfoldable pub read_loop : ℕ → Device → VnodeData → ℕ → ℕ → Result (List ℕ)
read_loop zero dev file offset left = ok []
read_loop (suc fuel) dev file offset left =
    let chunk = min (dev.bytes_per_cluster - offset % dev.bytes_per_cluster) left in
    let rest = read_chunk dev file offset left >>= λ bytes.
    read_loop fuel dev file (offset + chunk) (left - chunk) >>= λ more. ok (bytes ++ more) in
    if left == 0 then ok [] else rest

-- The bytes that `fat16_file_read` puts into the buffer.
unfoldable pub fat16_file_read : Device → VnodeData → ℕ → ℕ → Result (List ℕ)
fat16_file_read dev file offset size =
    let left = min size (file.size - offset) in
    if file.is_directory
    then err invalid_arg
    else if leb file.size offset
    then ok []
    else read_loop left dev file offset left
