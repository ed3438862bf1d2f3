-- ===== src/Fat16/Content.antt =====
-- The bytes of a file on a FAT16 disk, and that `fat16_file_read` returns them.
use nyxis_os.Base.{
  ℕ, zero, suc, ◌+◌, ◌-◌, ◌*◌, ◌/◌, ◌%◌, ◌≤◌, ◌<◌, ◌≡◌, refl, ap, ◌∙◌, true, false, List, [], ◌∷◌,
  ◌++◌, arith, leb, ◌==◌, Bool-cases, not-leb-of-lt, eq-of-==, inl, inr, min, length,
}
use native.Mathlib.Nat.{
  div-add-mod, mod-lt, mod-eq_of_lt, div-mul-le_self, div-eq_of_lt, add-mul-div_right,
  add-mul-mod_self_right,
}
use native.Mathlib.Decide.{dec_lt}
use nyxis_os.Base.Status.{ok}
use nyxis_os.Fat16.Device.{Device, sector_size, fat16_cluster_valid}
use nyxis_os.Fat16.Geometry.{IsMounted, valid_range, mul_room}
use nyxis_os.Fat16.Chain.{Chain, fat16_get_nth_cluster, nth_cluster_iff, Chain-valid}
use nyxis_os.Fat16.Walk.{VnodeData, cluster_byte_offset, read_chunk, read_loop, fat16_file_read}

-- The `n` values of `f` from `a` on.
abbrev pub slice : (ℕ → ℕ) → ℕ → ℕ → List ℕ
slice f a zero = []
slice f a (suc n) = f a ∷ slice f (a + 1) n

pub length-slice : (f : ℕ → ℕ) (a n : ℕ) → length (slice f a n) ≡ n
length-slice f a zero = refl
length-slice f a (suc n) = ap suc (length-slice f (a + 1) n)

slice-append : (f : ℕ → ℕ) (a m n : ℕ) → slice f a m ++ slice f (a + m) n ≡ slice f a (m + n)
slice-append f a zero n =
    let e : a + 0 ≡ a = omega arith in let e' : 0 + n ≡ n = omega arith in rw (e, e')
slice-append f a (suc m) n =
    let e : a + suc m ≡ a + 1 + m = omega arith in
    let e' : suc m + n ≡ suc (m + n) = omega arith in
    rw (e, e') (ap (λ t. f a ∷ t) (slice-append f (a + 1) m n))

slice_agree :
    (f g : ℕ → ℕ) (a b n : ℕ)
    → ((i : ℕ) → i < n → f (a + i) ≡ g (b + i))
    → slice f a n ≡ slice g b n
slice_agree f g a b zero h = refl
slice_agree f g a b (suc n) h =
    let e : a + 0 ≡ a = omega arith in
    let e' : b + 0 ≡ b = omega arith in
    let first : f a ≡ g b = rw (e, e') at (h 0 (omega arith)) in
    rw first (ap (λ t. g b ∷ t) (slice_agree f g (a + 1) (b + 1) n (λ i lt. later i lt)))
  where
    later : (i : ℕ) → i < n → f (a + 1 + i) ≡ g (b + 1 + i)
    later i lt =
        let e : a + 1 + i ≡ a + suc i = omega arith in
        let e' : b + 1 + i ≡ b + suc i = omega arith in rw (e, e') (h (suc i) (omega arith))

-- Within one cluster the cluster number stays, and the place in it moves on.
same_cluster :
    (cs offset i : ℕ)
    → 0 < cs
    → offset % cs + i < cs
    → ((offset + i) / cs ≡ offset / cs) × ((offset + i) % cs ≡ offset % cs + i)
same_cluster cs offset i h lt =
    let e : offset + i ≡ offset % cs + i + offset / cs * cs =
      omega (arith, div-add-mod offset cs) in
    let small : (offset % cs + i) / cs ≡ 0 = div-eq_of_lt lt in
    (
      ap (λ (t : ℕ). t / cs) e
          ∙ (add-mul-div_right (offset % cs + i) (offset / cs) h ∙ omega (arith, small)),
      ap (λ (t : ℕ). t % cs) e
          ∙ (add-mul-mod_self_right (offset % cs + i) (offset / cs) cs ∙ mod-eq_of_lt lt),
    )

lt_of_mul : (k t c n : ℕ) → k * c < n → n ≤ t * c → k < t
lt_of_mul k t c n h h' = elim (dec_lt k t) [ yes p ↦ p | no p ↦ absurd (above p) ]
  where
    above : ¬ (k < t) → ⊥
    above p = let le : t ≤ k = omega arith in grind arith

-- A disk that answers every read inside it with its bytes.
pub record Serves (dev : Device) (disk : ℕ → ℕ) : Type 0 where
  pub serves :
      (offset n : ℕ)
      → 0 < n
      → offset + n ≤ dev.total_sectors * sector_size
      → dev.read offset n ≡ ok (slice disk offset n)

-- A file whose chain covers its size: `at k` is its cluster number `k`.
pub record Covers (dev : Device) (file : VnodeData) (at : ℕ → ℕ) : Type 0 where
  pub plain : file.is_directory ≡ false
  pub start : fat16_cluster_valid dev file.first_cluster ≡ true
  pub bounded : file.size ≤ dev.total_clusters * dev.bytes_per_cluster
  pub chain :
      (k : ℕ) → k * dev.bytes_per_cluster < file.size → Chain dev k file.first_cluster (at k)

-- The byte of the file at position `p`.
abbrev pub file_byte : Device → (ℕ → ℕ) → (ℕ → ℕ) → ℕ → ℕ
file_byte dev disk at p =
    disk (cluster_byte_offset dev (at (p / dev.bytes_per_cluster)) (p % dev.bytes_per_cluster))

module _ (dev : Device) (disk : ℕ → ℕ) (file : VnodeData) (at : ℕ → ℕ) (mounted : IsMounted dev)
    (server : Serves dev disk) (covered : Covers dev file at) where
  nth_found :
      (k : ℕ)
      → k * dev.bytes_per_cluster < file.size
      → (k < dev.total_clusters)
        × (fat16_get_nth_cluster dev file.first_cluster k ≡ ok (at k))
        × (fat16_cluster_valid dev (at k) ≡ true)
  nth_found k lt =
      let few : k < dev.total_clusters =
        lt_of_mul k dev.total_clusters dev.bytes_per_cluster file.size lt covered.bounded in
      let chain = covered.chain k lt in
      (
        few,
        (nth_cluster_iff dev file.first_cluster k (at k)).1 (covered.start, few, chain),
        Chain-valid dev chain covered.start,
      )

  -- A chunk within a cluster is read from inside the disk.
  chunk_in_disk :
      (cluster within n : ℕ)
      → fat16_cluster_valid dev cluster ≡ true
      → within + n ≤ dev.bytes_per_cluster
      → cluster_byte_offset dev cluster within + n ≤ dev.total_sectors * sector_size
  chunk_in_disk cluster within n valid fits =
      let (lo, hi) = valid_range dev cluster valid in
      let room =
        mul_room (cluster - 2) dev.total_clusters dev.boot.sectors_per_cluster (omega arith) in
      omega (
        arith,
        room,
        mounted.fits,
        ap (λ (t : ℕ). (cluster - 2) * t) mounted.cluster_size,
        mounted.cluster_size,
      )

  chunk_bytes :
      (offset n : ℕ)
      → 0 < dev.bytes_per_cluster
      → offset % dev.bytes_per_cluster + n ≤ dev.bytes_per_cluster
      → slice disk
          (cluster_byte_offset dev
            (at (offset / dev.bytes_per_cluster))
            (offset % dev.bytes_per_cluster))
          n
        ≡ slice (file_byte dev disk at) offset n
  chunk_bytes offset n pos fits =
      slice_agree disk (file_byte dev disk at) _ offset n (λ i lt. one i lt)
    where
      one :
          (i : ℕ)
          → i < n
          → disk (
              cluster_byte_offset dev
                (at (offset / dev.bytes_per_cluster))
                (offset % dev.bytes_per_cluster)
              + i)
            ≡ file_byte dev disk at (offset + i)
      one i lt =
          let (d, m) = same_cluster dev.bytes_per_cluster offset i pos (omega arith) in
          rw (d, m) (ap disk (omega arith))

  chunk_read :
      (offset left : ℕ)
      → 0 < left
      → offset + left ≤ file.size
      → read_chunk dev file offset left
        ≡ ok (
            slice
              (file_byte dev disk at)
              offset
              (min (dev.bytes_per_cluster - offset % dev.bytes_per_cluster) left))
  unfolding read_chunk
  chunk_read offset left some fits =
      let pos : 0 < dev.bytes_per_cluster =
        omega (arith, mounted.cluster_size, mounted.some_sectors) in
      let small = mod-lt offset pos in
      let (few, found, valid) =
        nth_found (offset / dev.bytes_per_cluster)
          (omega (arith, div-mul-le_self offset dev.bytes_per_cluster)) in
      let n = min (dev.bytes_per_cluster - offset % dev.bytes_per_cluster) left in
      rw (not-leb-of-lt dev.total_clusters (offset / dev.bytes_per_cluster) few, found)
        (server.serves _ n (omega (arith, small)) (
            chunk_in_disk (at (offset / dev.bytes_per_cluster)) (offset % dev.bytes_per_cluster) n
              valid (omega (arith, small)))
          ∙ ap ok (chunk_bytes offset n pos (omega (arith, small))))

  loop_reads :
      (fuel offset left : ℕ)
      → left ≤ fuel
      → offset + left ≤ file.size
      → read_loop fuel dev file offset left ≡ ok (slice (file_byte dev disk at) offset left)
  unfolding read_loop
  loop_reads zero offset left enough fits = let e : left ≡ 0 = omega arith in rw e
  loop_reads (suc fuel) offset left enough fits = elim (Bool-cases (left == 0)) [
    | inl done ↦ let e : left ≡ 0 = eq-of-== left 0 done in rw e
    | inr more ↦
        let n = min (dev.bytes_per_cluster - offset % dev.bytes_per_cluster) left in
        let pos : 0 < left = ground arith in
        let cs : 0 < dev.bytes_per_cluster =
          omega (arith, mounted.cluster_size, mounted.some_sectors) in
        let moves : 0 < n = omega (arith, mod-lt offset cs) in
        let whole : n + (left - n) ≡ left = omega arith in
        rw
          (
            more,
            chunk_read offset left pos fits,
            loop_reads fuel (offset + n) (left - n) (omega arith) (omega arith),
          )
          (ap ok (
            slice-append (file_byte dev disk at) offset n (left - n)
            ∙ ap (slice (file_byte dev disk at) offset) whole))
  ]

  -- On a disk that serves its reads, `fat16_file_read` returns the bytes of the file from the
  -- offset on: as many as were asked for, or as there are to the end of the file.
  pub file_read_lem :
      (offset size : ℕ)
      → fat16_file_read dev file offset size
        ≡ ok (slice (file_byte dev disk at) offset (min size (file.size - offset)))
  unfolding fat16_file_read
  file_read_lem offset size = elim (Bool-cases (leb file.size offset)) [
    | inl past ↦
        let none_left : min size (file.size - offset) ≡ 0 = ground arith in
        rw none_left (ground (arith, covered.plain))
    | inr inside ↦ ground (
      arith,
      covered.plain,
      loop_reads (min size (file.size - offset)) offset (min size (file.size - offset)),
    )
  ]
