-- ===== src/Fat16/Chain.antt =====
-- The cluster chain of a file: `fat16_get_nth_cluster`, and the chain as a relation.
use nyxis_os.Base.{
  ℕ, zero, suc, ◌<◌, ◌≡◌, ◌↔◌, refl, subst, ◌∙◌, sym, true, not, ◌||◌, arith, leb, ◌==◌,
  if◌then◌else◌, inl, inr,
}
use nyxis_os.Base.Status.{Result, Result-cases, ok, err, ◌>>=◌, not_found, file_corrupted}
use nyxis_os.Fat16.Device.{
  Device, fat16_is_eoc, fat16_cluster_valid, fat16_get_fat_entry, cluster_bad,
}

-- What the loop does with the entry that it has read.
unfoldable pub check_next : Device → ℕ → Result ℕ
check_next dev next =
    if fat16_is_eoc next
    then err not_found
    else if next == cluster_bad || not (fat16_cluster_valid dev next)
    then err file_corrupted
    else ok next

-- The loop of `fat16_get_nth_cluster`, with the rounds that are left.
unfoldable pub walk : ℕ → Device → ℕ → Result ℕ
walk zero dev cluster = ok cluster
walk (suc n) dev cluster =
    fat16_get_fat_entry dev cluster >>= λ next. check_next dev next >>= λ c. walk n dev c

unfoldable pub fat16_get_nth_cluster : Device → ℕ → ℕ → Result ℕ
fat16_get_nth_cluster dev start index =
    if not (fat16_cluster_valid dev start) || leb dev.total_clusters index
    then err file_corrupted
    else walk index dev start

-- The FAT leads from cluster `a` to cluster `b`, and both hold data.
pub record Follows (dev : Device) (a b : ℕ) : Type 0 where
  pub from : fat16_cluster_valid dev a ≡ true
  pub entry : fat16_get_fat_entry dev a ≡ ok b
  pub to : fat16_cluster_valid dev b ≡ true
  pub goes_on : b < cluster_bad

-- `b` is `n` links behind `a`.
pub data Chain (dev : Device) : ℕ → ℕ → ℕ → Type 0 where
  here : (a : ℕ) → Chain dev zero a a
  link : {n a b c : ℕ} → Follows dev a b → Chain dev n b c → Chain dev (suc n) a c

check_next_ok :
    (dev : Device) (next c : ℕ)
    → check_next dev next ≡ ok c
    → (next ≡ c) × (fat16_cluster_valid dev c ≡ true) × (c < cluster_bad)
unfolding check_next fat16_is_eoc
check_next_ok dev next c h = ground arith

next_checks :
    (dev : Device) (b : ℕ)
    → fat16_cluster_valid dev b ≡ true
    → b < cluster_bad
    → check_next dev b ≡ ok b
unfolding check_next fat16_is_eoc
next_checks dev b v h = ground arith

walk-Chain :
    (n : ℕ) (dev : Device) (a c : ℕ)
    → fat16_cluster_valid dev a ≡ true
    → walk n dev a ≡ ok c
    → Chain dev n a c
unfolding walk
walk-Chain zero dev a c v h =
    let same : a ≡ c = ground arith in subst (λ k. Chain dev zero a k) same (here a)
walk-Chain (suc n) dev a c v h = elim (Result-cases (fat16_get_fat_entry dev a)) [
  | inr (e, q) ↦ absurd (ground arith)
  | inl (b, q) ↦ elim (Result-cases (check_next dev b)) [
    | inr (e, r) ↦ absurd (ground arith)
    | inl (b', r) ↦
        let (same, valid, on) = check_next_ok dev b b' r in
        link {b = b'} (record { from = v; entry = ground arith; to = valid; goes_on = on })
          (walk-Chain n dev b' c valid (ground arith))
  ]
]

Chain-walk : (dev : Device) {n a c : ℕ} → Chain dev n a c → walk n dev a ≡ ok c
unfolding walk
Chain-walk dev (here a) = refl
Chain-walk dev (link {b = b} f r) =
    rw (f.entry, next_checks dev b f.to f.goes_on) (Chain-walk dev r)

nth_runs :
    (dev : Device) (start index : ℕ)
    → fat16_cluster_valid dev start ≡ true
    → index < dev.total_clusters
    → fat16_get_nth_cluster dev start index ≡ walk index dev start
unfolding fat16_get_nth_cluster
nth_runs dev start index v lt = ground arith

nth_starts :
    (dev : Device) (start index : ℕ) {c : ℕ}
    → fat16_get_nth_cluster dev start index ≡ ok c
    → (fat16_cluster_valid dev start ≡ true) × (index < dev.total_clusters)
unfolding fat16_get_nth_cluster
nth_starts dev start index h = ground arith

-- `fat16_get_nth_cluster` finds a cluster exactly when the FAT leads to it in that many links, from
-- a cluster that holds data and within the number of clusters; a cycle is no way round that bound.
pub nth_cluster_iff :
    (dev : Device) (start index c : ℕ)
    → (fat16_get_nth_cluster dev start index ≡ ok c) ↔ (
        (fat16_cluster_valid dev start ≡ true)
        × (index < dev.total_clusters)
        × Chain dev index start c)
nth_cluster_iff dev start index c = (forth, back)
  where
    forth :
        fat16_get_nth_cluster dev start index ≡ ok c
        → (fat16_cluster_valid dev start ≡ true)
          × (index < dev.total_clusters)
          × Chain dev index start c
    forth h =
        let (v, lt) = nth_starts dev start index h in
        (v, lt, walk-Chain index dev start c v (sym (nth_runs dev start index v lt) ∙ h))

    back :
        (fat16_cluster_valid dev start ≡ true)
          × (index < dev.total_clusters)
          × Chain dev index start c
        → fat16_get_nth_cluster dev start index ≡ ok c
    back (v, lt, r) = nth_runs dev start index v lt ∙ Chain-walk dev r

pub Chain-valid :
    (dev : Device) {n a c : ℕ}
    → Chain dev n a c
    → fat16_cluster_valid dev a ≡ true
    → fat16_cluster_valid dev c ≡ true
Chain-valid dev (here a) v = v
Chain-valid dev (link f r) v = Chain-valid dev r f.to
