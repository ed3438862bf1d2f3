-- ===== src/Pfa/Init.antt =====
-- `pfa_init`: which frames it registers.
use nyxis_os.Base.{
  ℕ, suc, ◌+◌, ◌*◌, ◌/◌, ◌%◌, ◌^◌, ◌≤◌, ◌<◌, ◌≡◌, ◌≢◌, refl, true, false, List, [], ◌∷◌, arith,
  ◌==◌, ltb, leb, not, ◌&&◌, if◌then◌else◌, inl, inr, Bool-cases, min,
}
use native.Mathlib.Decide.{ℕ_discrete}
use nyxis_os.Base.Members.{count}
use nyxis_os.Base.Words.{page_size, align_up, align_down, align_up_page, align_down_page}
use nyxis_os.Base.Status.{ok}
use nyxis_os.Pfa.{
  Pfa, Layout, MemDesc, low_reserved, is_reserved, add_frames, add_desc, add_descs, is_skipped,
  desc_end, pfa_init,
}
use nyxis_os.Pfa.FreeList.{Holds}
use nyxis_os.Pfa.Range.{Apart, not_reserved, in_range, add_frames_lem}

-- 1 if the firmware's descriptor offers the frame at `a`: a whole page of conventional memory,
-- below the limit of the HHDM, and not reserved.
abbrev pub offers : Layout → MemDesc → ℕ → ℕ
offers l d a =
    let end = d.phys_start + d.num_pages * page_size in
    if d.conventional
      && leb d.num_pages (2 ^ 36)
      && ltb end (2 ^ 64)
      && leb d.phys_start a
      && leb (a + page_size) end
      && leb (a + page_size) l.hhdm_limit
      && (a % page_size == 0)
      && not (is_reserved l a)
    then 1
    else 0

abbrev pub offered : Layout → List MemDesc → ℕ → ℕ
offered l [] a = 0
offered l (d ∷ ds) a = offers l d a + offered l ds a

-- What the tests on a descriptor leave: no sum of it wraps.
desc_bounds :
    (l : Layout) (d : MemDesc)
    → l.hhdm_limit ≤ 2 ^ 48
    → is_skipped l d ≡ false
    → (d.conventional ≡ true)
      × (d.num_pages ≤ 2 ^ 36)
      × (d.phys_start < desc_end l d)
      × (desc_end l d ≡ min l.hhdm_limit (d.phys_start + d.num_pages * page_size))
unfolding is_skipped
desc_bounds l d h k = ground arith

range_aligned :
    (s e a : ℕ)
    → s < e
    → e ≤ 2 ^ 48
    → a % page_size ≡ 0
    → (leb (align_up s page_size) a && ltb a (align_down e page_size))
      ≡ (leb s a && leb (a + page_size) e)
range_aligned s e a lo hi k = ground (arith, align_up_page s, align_down_page e)

desc_range :
    (l : Layout) (d : MemDesc) (a : ℕ)
    → l.hhdm_limit ≤ 2 ^ 48
    → is_skipped l d ≡ false
    → in_range l (align_up d.phys_start page_size) (align_down (desc_end l d) page_size) a
      ≡ offers l d a
desc_range l d a h k =
    let (conv, few, below, end) = desc_bounds l d h k in
    elim (ℕ_discrete (a % page_size) 0) [
      | yes z ↦ ground (arith, range_aligned d.phys_start (desc_end l d) a below (omega arith) z)
      | no nz ↦ ground arith
    ]

desc_skipped : (l : Layout) (d : MemDesc) (a : ℕ) → is_skipped l d ≡ true → offers l d a ≡ 0
unfolding is_skipped
desc_skipped l d a k = ground arith

add_desc_skips : (l : Layout) (d : MemDesc) (p : Pfa) → is_skipped l d ≡ true → add_desc l d p ≡ p
unfolding add_desc
add_desc_skips l d p s = rw (s, add_desc)

add_desc_runs :
    (l : Layout) (d : MemDesc) (p : Pfa)
    → is_skipped l d ≡ false
    → add_desc l d p
      ≡ add_frames
          (suc (align_down (desc_end l d) page_size / page_size))
          l
          (align_up d.phys_start page_size)
          (align_down (desc_end l d) page_size)
          p
unfolding add_desc
add_desc_runs l d p s = rw (s, add_desc)

offers_facts :
    (l : Layout) (d : MemDesc) (a : ℕ)
    → offers l d a ≢ 0
    → (a % page_size ≡ 0) × (a + page_size ≤ l.hhdm_limit) × (is_reserved l a ≡ false)
offers_facts l d a h = ground arith

-- One descriptor: it registers exactly the frames that it offers.
add_desc_lem :
    (l : Layout) (d : MemDesc) (p : Pfa) (free : List ℕ)
    → l.hhdm_limit ≤ 2 ^ 48
    → Holds p free
    → ((a : ℕ) → count a free + offers l d a ≤ 1)
    → (free' : List ℕ) × Holds (add_desc l d p) free'
      × ((a : ℕ) → count a free' ≡ count a free + offers l d a)
add_desc_lem l d p free h v room = elim (Bool-cases (is_skipped l d)) [
  | inl s ↦ (free, rw (add_desc_skips l d p s) v, λ a. omega (arith, desc_skipped l d a s))
  | inr s ↦
      let (conv, few, below, end) = desc_bounds l d h s in
      let lo = align_up_page d.phys_start (omega arith) in
      let hi = align_down_page (desc_end l d) (omega arith) in
      let (free', v', more) =
        add_frames_lem (suc (align_down (desc_end l d) page_size / page_size)) l
          (align_up d.phys_start page_size) (align_down (desc_end l d) page_size) p free v
          (omega arith) (omega arith) (omega arith)
          (λ a. omega (arith, room a, desc_range l d a h s)) in
      (free', rw (add_desc_runs l d p s) v', λ a. omega (arith, more a, desc_range l d a h s))
]

add_descs_lem :
    (l : Layout) (ds : List MemDesc) (p : Pfa) (free : List ℕ)
    → l.hhdm_limit ≤ 2 ^ 48
    → Holds p free
    → ((a : ℕ) → count a free + offered l ds a ≤ 1)
    → (free' : List ℕ) × Holds (add_descs l ds p) free'
      × ((a : ℕ) → count a free' ≡ count a free + offered l ds a)
unfolding add_descs
add_descs_lem l [] p free h v room = (free, v, λ a. omega arith)
add_descs_lem l (d ∷ ds) p free h v room =
    let (free₁, v₁, one) = add_desc_lem l d p free h v (λ a. omega (arith, room a)) in
    let (free₂, v₂, more) =
      add_descs_lem l ds (add_desc l d p) free₁ h v₁ (λ a. omega (arith, room a, one a)) in
    (free₂, v₂, λ a. omega (arith, one a, more a))

Holds-empty : (p : Pfa) → Holds (record p { free_head = 0; free_count = 0 }) []
Holds-empty p = record { chain = refl; once = λ a. omega arith; counted = refl }

Holds-flag : (p : Pfa) (free : List ℕ) → Holds p free → Holds (record p { initialized = true }) free
Holds-flag p free v = record { chain = v.chain; once = v.once; counted = v.counted }

-- On a memory map that offers no frame twice, `pfa_init` succeeds, and the free list holds exactly
-- the frames that the map offers, each once.
pub init_lem :
    (l : Layout) (ds : List MemDesc) (p : Pfa)
    → p.initialized ≡ false
    → l.hhdm_limit ≤ 2 ^ 48
    → ((a : ℕ) → offered l ds a ≤ 1)
    → (p' : Pfa) × (free : List ℕ) × (pfa_init l ds p ≡ ok p')
      × Holds p' free
      × ((a : ℕ) → count a free ≡ offered l ds a)
unfolding pfa_init
init_lem l ds p e h once =
    let start = record p { free_head = 0; free_count = 0 } in
    let (free, v, all) =
      add_descs_lem l ds start [] h (Holds-empty p) (λ a. omega (arith, once a)) in
    (
      record (add_descs l ds start) { initialized = true },
      free,
      rw (e, pfa_init),
      Holds-flag (add_descs l ds start) free v,
      λ a. omega (arith, all a),
    )

-- Where a memory map offers a frame, it lies in the HHDM above the first megabyte, and clear of the
-- kernel image and the initrd.
pub offered_safe :
    (l : Layout) (ds : List MemDesc) (a : ℕ)
    → l.hhdm_limit ≤ 2 ^ 48
    → 0 < offered l ds a
    → (a % page_size ≡ 0)
      × (low_reserved ≤ a)
      × (a + page_size ≤ l.hhdm_limit)
      × Apart a (a + page_size) l.kernel_start l.kernel_end
      × Apart a (a + page_size) l.initrd_start l.initrd_end
offered_safe l [] a h k = absurd (omega arith)
offered_safe l (d ∷ ds) a h k = elim (ℕ_discrete (offers l d a) 0) [
  | yes z ↦ offered_safe l ds a h (omega arith)
  | no nz ↦
      let (al, hi, free) = offers_facts l d a nz in
      let (lo, kernel, initrd) = not_reserved l a (omega arith) free in (al, lo, hi, kernel, initrd)
]
