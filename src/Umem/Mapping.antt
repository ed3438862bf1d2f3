-- ===== src/Umem/Mapping.antt =====
-- The loops of `umem_brk`: all new pages are mapped, or none.
use nyxis_os.Base.{
  ℕ, zero, suc, ◌+◌, ◌-◌, ◌*◌, ◌/◌, ◌%◌, ◌≤◌, ◌<◌, ◌≡◌, ◌⊎◌, refl, ap, sym, ◌∙◌, Bool, true, false,
  not, ◌&&◌, ◌||◌, ltb, leb, ◌==◌, arith, inl, inr, Bool-cases,
}
use nyxis_os.Base.Words.{page_size}
use nyxis_os.Base.Status.{Error, Result, ok, err}
use nyxis_os.Umem.{Pages, rollback_pages, give_up, after_map, after_alloc, map_pages}

-- `q` is one of the pages from `page` on, below `to`.
abbrev pub among : ℕ → ℕ → ℕ → Bool
among page to q = leb page q && ltb q to && (q - page) % 4096 == 0

-- What the calls do to the mapped pages: frames are taken and given back apart from them, and a
-- page is mapped or unmapped alone.
pub record IsPaging {S : Type 0} (m : Pages S) (mapped : S → ℕ → Bool) : Type 0 where
  pub alloc_keeps : (s : S) (r : ℕ × S) (q : ℕ) → m.pfa_alloc s ≡ ok r → mapped r.1 q ≡ mapped s q
  pub free_keeps : (phys : ℕ) (s : S) (q : ℕ) → mapped (m.pfa_free phys s) q ≡ mapped s q
  pub maps :
      (phys page : ℕ) (s : S) (q : ℕ)
      → (m.paging_map_page phys page s).0 ≡ ok tt
      → mapped (m.paging_map_page phys page s).1 q ≡ (q == page || mapped s q)
  pub fails :
      (phys page : ℕ) (s : S) (q : ℕ) (e : Error)
      → (m.paging_map_page phys page s).0 ≡ err e
      → mapped (m.paging_map_page phys page s).1 q ≡ mapped s q
  pub unmaps :
      (page : ℕ) (s : S) (q : ℕ)
      → mapped (m.paging_unmap_free_page page s) q ≡ (not (q == page) && mapped s q)

pub among_done : (page to q : ℕ) → to ≤ page → among page to q ≡ false
among_done page to q le = ground arith

pub among_next :
    (page to q : ℕ) → page < to → among page to q ≡ (q == page || among (page + 4096) to q)
among_next page to q lt = ground arith

among_more :
    (first page q : ℕ)
    → first ≤ page
    → (page - first) % 4096 ≡ 0
    → among first (page + 4096) q ≡ (q == page || among first page q)
among_more first page q le h = ground arith

among_wider :
    (first page last q : ℕ) → page ≤ last → among first page q ≡ true → among first last q ≡ true
among_wider first page last q le h = ground arith

clears : (a b c : Bool) → ((not b && (not a && c)) ≡ (not (a || b) && c))
clears true true c = refl
clears true false c = refl
clears false true c = refl
clears false false c = refl

adds : (a b c : Bool) → (a || (b || c)) ≡ ((a || b) || c)
adds true b c = refl
adds false b c = refl

undone : (a b : Bool) → (a ≡ true → b ≡ false) → (not a && (a || b)) ≡ b
undone true b h = sym (h refl)
undone false b h = refl

module _ {S : Type 0} (m : Pages S) (mapped : S → ℕ → Bool) (laws : IsPaging m mapped) where
  rollback_pages_lem :
      (fuel page to : ℕ) (s : S) (q : ℕ)
      → to - page ≤ fuel * 4096
      → mapped (rollback_pages m fuel page to s) q ≡ (not (among page to q) && mapped s q)
  unfolding rollback_pages
  rollback_pages_lem zero page to s q room = rw (among_done page to q (omega arith)) refl
  rollback_pages_lem (suc fuel) page to s q room = elim (Bool-cases (ltb page to)) [
    | inl e ↦
        let lt : page < to = ground arith in
        rw (e, among_next page to q lt)
          (rollback_pages_lem fuel (page + 4096) to (m.paging_unmap_free_page page s) q
              (omega arith)
            ∙ rw (laws.unmaps page s q)
                (clears (q == page) (among (page + 4096) to q) (mapped s q)))
    | inr e ↦ rw (e, among_done page to q (ground arith)) refl
  ]

  module _ (first last : ℕ) (s0 : S) (whole : (last - first) % 4096 ≡ 0)
      (fresh : (q : ℕ) → among first last q ≡ true → mapped s0 q ≡ false) where
    -- All of the pages are mapped, or the mapped pages are those from before.
    abbrev pub AllOrNone : Result (Unit {0}) × S → Type 0
    AllOrNone r =
        ((r.0 ≡ ok tt) × ((q : ℕ) → mapped r.1 q ≡ (among first last q || mapped s0 q)))
        ⊎ ((e : Error) × (r.0 ≡ err e) × ((q : ℕ) → mapped r.1 q ≡ mapped s0 q))

    -- The pages below `page` are mapped.
    abbrev UpTo : ℕ → S → Type 0
    UpTo page s = (q : ℕ) → mapped s q ≡ (among first page q || mapped s0 q)

    give_up-AllOrNone :
        (e : Error) (page : ℕ) (s : S)
        → first ≤ page
        → page ≤ last
        → (page - first) % 4096 ≡ 0
        → UpTo page s
        → AllOrNone (give_up m e first page s)
    unfolding give_up
    give_up-AllOrNone e page s lo hi aligned so_far = inr (
      e,
      refl,
      λ q.
          rollback_pages_lem (page / 4096) first page s q (omega arith)
          ∙ rw (so_far q) (
              undone (among first page q) (mapped s0 q)
                (λ h. fresh q (among_wider first page last q hi h))),
    )

    after_map-AllOrNone :
        (page phys : ℕ) (s : S) (next : S → Result (Unit {0}) × S) (r : Result (Unit {0}) × S)
        → first ≤ page
        → page < last
        → (page - first) % 4096 ≡ 0
        → UpTo page s
        → (r.0 ≡ ok tt → (q : ℕ) → mapped r.1 q ≡ (q == page || mapped s q))
        → ((e : Error) → r.0 ≡ err e → (q : ℕ) → mapped r.1 q ≡ mapped s q)
        → ((s' : S) → UpTo (page + 4096) s' → AllOrNone (next s'))
        → AllOrNone (after_map m first page phys next r)
    unfolding after_map
    after_map-AllOrNone page phys s next (ok tt, s') lo lt aligned so_far good bad go = go s' (λ q.
        good refl q
        ∙ rw (so_far q) (
            adds (q == page) (among first page q) (mapped s0 q)
            ∙ ap (λ b. b || mapped s0 q) (sym (among_more first page q lo aligned))))
    after_map-AllOrNone page phys s next (err e, s') lo lt aligned so_far good bad go =
        give_up-AllOrNone e page (m.pfa_free phys s') lo (omega arith) aligned
          (λ q. laws.free_keeps phys s' q ∙ bad e refl q ∙ so_far q)

    after_alloc-AllOrNone :
        (page : ℕ) (s : S) (next : S → Result (Unit {0}) × S) (r : Result (ℕ × S))
        → m.pfa_alloc s ≡ r
        → first ≤ page
        → page < last
        → (page - first) % 4096 ≡ 0
        → UpTo page s
        → ((s' : S) → UpTo (page + 4096) s' → AllOrNone (next s'))
        → AllOrNone (after_alloc m first page next s r)
    unfolding after_alloc
    after_alloc-AllOrNone page s next (err e) is lo lt aligned so_far go =
        give_up-AllOrNone e page s lo (omega arith) aligned so_far
    after_alloc-AllOrNone page s next (ok r) is lo lt aligned so_far go =
        after_map-AllOrNone page r.0 r.1 next (m.paging_map_page r.0 page r.1) lo lt aligned
          (λ q. laws.alloc_keeps s r q is ∙ so_far q) (λ e q. laws.maps r.0 page r.1 q e)
          (λ x e q. laws.fails r.0 page r.1 q x e) go

    map_from-AllOrNone :
        (fuel page : ℕ) (s : S)
        → last - page ≤ fuel * 4096
        → first ≤ page
        → page ≤ last
        → (page - first) % 4096 ≡ 0
        → UpTo page s
        → AllOrNone (map_pages m fuel first page last s)
    unfolding map_pages
    map_from-AllOrNone zero page s room lo hi aligned so_far =
        let same : page ≡ last = omega arith in
        inl (refl, λ q. so_far q ∙ ap (λ t. among first t q || mapped s0 q) same)
    map_from-AllOrNone (suc fuel) page s room lo hi aligned so_far =
        elim (Bool-cases (ltb page last)) [
          | inr e ↦
              let same : page ≡ last = ground arith in
              rw e (inl (refl, λ q. so_far q ∙ ap (λ t. among first t q || mapped s0 q) same))
          | inl e ↦
              let lt : page < last = ground arith in
              rw e (
                after_alloc-AllOrNone page s (map_pages m fuel first (page + 4096) last)
                  (m.pfa_alloc s) refl lo lt aligned so_far
                  (λ s' up.
                    map_from-AllOrNone fuel (page + 4096) s' (omega arith) (omega arith)
                      (omega (arith, whole)) (omega arith) up))
        ]

    -- The loop of a growing heap maps all pages from `first` to `last`, page boundaries that are
    -- whole pages apart, or fails and leaves the same pages mapped as before; where paging maps and
    -- unmaps single pages and none of these was mapped.
    pub map_pages-AllOrNone :
        first ≤ last → AllOrNone (map_pages m (last / page_size) first first last s0)
    map_pages-AllOrNone le =
        map_from-AllOrNone (last / 4096) first s0 (omega (arith, whole)) (omega arith) le
          (omega arith) (λ q. rw (among_done first first q (omega arith)) refl)
