-- ===== src/Pfa/Range.antt =====
-- The inner loop of `pfa_init`: which frames of a range it registers.
use nyxis_os.Base.{
  ℕ, zero, suc, ◌+◌, ◌*◌, ◌%◌, ◌^◌, ◌≤◌, ◌<◌, ◌≡◌, ◌≢◌, ◌⊎◌, ap, true, false, List, ◌∷◌, arith,
  ◌==◌, ltb, leb, not, ◌&&◌, if◌then◌else◌, inl, inr, Bool-cases, lt-of-ltb,
}
use native.Mathlib.Decide.{ℕ_discrete}
use nyxis_os.Base.Members.{count, NotIn-of-count}
use nyxis_os.Base.Words.{page_size, add64}
use nyxis_os.Pfa.{Pfa, Layout, low_reserved, is_reserved, ranges_overlap, add_one, add_frames}
use nyxis_os.Pfa.FreeList.{Holds}
use nyxis_os.Pfa.Calls.{push-Holds}

-- Two ranges, of which the second may be empty, share no address.
abbrev pub Apart : ℕ → ℕ → ℕ → ℕ → Type 0
Apart a_start a_end b_start b_end = (b_end ≤ b_start) ⊎ (a_end ≤ b_start) ⊎ (b_end ≤ a_start)

overlap_false : (a b c d : ℕ) → a < b → ranges_overlap a b c d ≡ false → Apart a b c d
unfolding ranges_overlap
overlap_false a b c d h e = ground arith

-- What the tests on a frame rule out.
pub not_reserved :
    (l : Layout) (x : ℕ)
    → x + page_size < 2 ^ 64
    → is_reserved l x ≡ false
    → (low_reserved ≤ x)
      × Apart x (x + page_size) l.kernel_start l.kernel_end
      × Apart x (x + page_size) l.initrd_start l.initrd_end
unfolding is_reserved
not_reserved l x h e = ground arith

-- 1 if the inner loop registers `a` as it goes from `start` to `end`.
abbrev pub in_range : Layout → ℕ → ℕ → ℕ → ℕ
in_range l start end a =
    if leb start a && ltb a end && (a % page_size == 0) && not (is_reserved l a) then 1 else 0

in_range_done : (l : Layout) (start end a : ℕ) → end ≤ start → in_range l start end a ≡ 0
in_range_done l start end a h = ground arith

in_range_first :
    (l : Layout) (start end : ℕ)
    → start < end
    → start % page_size ≡ 0
    → in_range l start end start ≡ (if is_reserved l start then 0 else 1)
in_range_first l start end h k = ground arith

in_range_past : (l : Layout) (start end : ℕ) → in_range l (start + page_size) end start ≡ 0
in_range_past l start end = ground arith

in_range_shared :
    (l : Layout) (start end a b : ℕ) → a ≡ b → in_range l start end a ≡ in_range l start end b
in_range_shared l start end a b e = ap (in_range l start end) e

in_range_split :
    (l : Layout) (start end a : ℕ)
    → start < end
    → start % page_size ≡ 0
    → in_range l start end a
      ≡ (if start == a then (if is_reserved l start then 0 else 1) else 0)
        + in_range l (start + page_size) end a
in_range_split l start end a h k = elim (ℕ_discrete start a) [
  | yes e ↦ ground (
    arith,
    in_range_shared l start end start a e,
    in_range_shared l (start + page_size) end start a e,
    in_range_first l start end h k,
    in_range_past l start end,
  )
  | no e ↦ ground arith
]

zero_reserved : (l : Layout) → is_reserved l 0 ≡ true
unfolding is_reserved
zero_reserved l = ground arith

nonzero : (l : Layout) (x : ℕ) → is_reserved l x ≡ false → x ≢ 0
nonzero l x e z = cc (zero_reserved l, ap (is_reserved l) z)

add_one-Holds :
    (l : Layout) (start : ℕ) (p : Pfa) (free : List ℕ)
    → Holds p free
    → start % page_size ≡ 0
    → count start free + (if is_reserved l start then 0 else 1) ≤ 1
    → (free' : List ℕ) × Holds (add_one l start p) free'
      × ((a : ℕ)
          → count a free'
            ≡ count a free + (if start == a then (if is_reserved l start then 0 else 1) else 0))
unfolding add_one
add_one-Holds l start p free v aligned room = elim (Bool-cases (is_reserved l start)) [
  | inl r ↦ (free, rw (r, add_one) v, λ a. ground arith)
  | inr r ↦ (
    start ∷ free,
    rw (r, add_one)
        (push-Holds p start free v (nonzero l start r, aligned)
          (NotIn-of-count start free (ground arith))),
    λ a. ground arith,
  )
]

-- The inner loop registers exactly the frames in its range that are not reserved.
pub add_frames_lem :
    (fuel : ℕ) (l : Layout) (start end : ℕ) (p : Pfa) (free : List ℕ)
    → Holds p free
    → start % page_size ≡ 0
    → end + page_size ≤ 2 ^ 64
    → end < start + fuel * page_size
    → ((a : ℕ) → count a free + in_range l start end a ≤ 1)
    → (free' : List ℕ) × Holds (add_frames fuel l start end p) free'
      × ((a : ℕ) → count a free' ≡ count a free + in_range l start end a)
unfolding add_frames
add_frames_lem zero l start end p free v aligned small enough room =
    (free, v, λ a. omega (arith, in_range_done l start end a))
add_frames_lem (suc fuel) l start end p free v aligned small enough room =
    elim (Bool-cases (ltb start end)) [
      | inr stop ↦ (free, rw stop v, λ a. omega (arith, in_range_done l start end a (ground arith)))
      | inl go ↦
          let below = lt-of-ltb start end go in
          let (free₁, v₁, one) =
            add_one-Holds l start p free v aligned
              (omega (arith, room start, in_range_first l start end below aligned)) in
          let (free₂, v₂, more) =
            add_frames_lem fuel l (start + page_size) end (add_one l start p) free₁ v₁ (omega arith)
              small (omega arith)
              (λ a. omega (arith, one a, room a, in_range_split l start end a below aligned)) in
          let next : add64 start page_size ≡ start + page_size = omega arith in
          (
            free₂,
            rw (go, next) v₂,
            λ a. omega (arith, one a, more a, in_range_split l start end a below aligned),
          )
    ]
