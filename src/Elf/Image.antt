-- ===== src/Elf/Image.antt =====
-- The image that a program leaves in its address space.
use nyxis_os.Base.{
  ℕ, zero, suc, ◌+◌, ◌-◌, ◌*◌, ◌/◌, ◌^◌, ◌≤◌, ◌<◌, ◌≡◌, ◌≢◌, refl, ap, sym, ◌∙◌, subst, inl, inr,
  Bool, true, false, ◌&&◌, List, [], ◌∷◌, Option, none, some, ltb, ◌==◌, if◌then◌else◌, arith,
  Bool-cases,
}
use nyxis_os.Base.Words.{page_size}
use nyxis_os.Base.Status.{ok}
use nyxis_os.Base.Effect.{after, return, after-eq-ok}
use nyxis_os.Umem.Mapping.{among, among_done, among_next}
use nyxis_os.Elf.Format.{Phdr, is_load}
use nyxis_os.Elf.Segments.{IsSegment, AllSegments, segment_end_lem}
use nyxis_os.Elf.Loading.{Sight, IsLoading, page_bytes, load_page_lem}
use nyxis_os.Elf.{Loader, load_page, load_pages, load_segment, load_all, segment_flags, segment_end}

-- What a segment shows at a page.
abbrev pub shown : List ℕ → Phdr → ℕ → Option (ℕ × List ℕ)
shown content ph q = some (segment_flags ph, page_bytes content ph (q - ph.vaddr))

-- What the segments show at a page, if one of them covers it.
abbrev pub image : List ℕ → List Phdr → ℕ → Option (ℕ × List ℕ)
image content [] q = none
image content (ph ∷ phs) q =
    if is_load ph && among ph.vaddr ((ph.vaddr + ph.memsz + 4095) / 4096 * 4096) q
    then shown content ph q
    else image content phs q

abbrev pub over : Option (ℕ × List ℕ) → Option (ℕ × List ℕ) → Option (ℕ × List ℕ)
over none b = b
over (some a) b = some a

among_self : (page to : ℕ) → page < to → among page to page ≡ true
among_self page to lt = ground arith

among_ne : (page to q : ℕ) → q ≢ page → page < to → among page to q ≡ among (page + 4096) to q
among_ne page to q ne lt = ground arith

among_above : (page to q : ℕ) → among (page + 4096) to q ≡ true → q ≢ page
among_above page to q h e = ground arith

over-over :
    (first next old : Option (ℕ × List ℕ))
    → ((x : ℕ × List ℕ) → next ≡ some x → over first old ≡ none)
    → over next (over first old) ≡ over (over first next) old
over-over none none old h = refl
over-over none (some b) old h = refl
over-over (some a) none old h = refl
over-over (some a) (some b) old h = absurd (cc (h b refl))

over_free :
    (first next old : Option (ℕ × List ℕ)) {x : ℕ × List ℕ}
    → over first next ≡ some x
    → ((y : ℕ × List ℕ) → next ≡ some y → over first old ≡ none)
    → ((y : ℕ × List ℕ) → first ≡ some y → old ≡ none)
    → old ≡ none
over_free none none old e h k = absurd (cc)
over_free none (some b) old e h k = h b refl
over_free (some a) next old e h k = k a refl

over_if :
    (b : Bool) (x : ℕ × List ℕ) (y : Option (ℕ × List ℕ))
    → over (if b then some x else none) y ≡ (if b then some x else y)
over_if true x y = refl
over_if false x y = refl

segment_end-eq :
    (file_size : ℕ) (ph : Phdr)
    → IsSegment file_size ph
    → segment_end ph ≡ (ph.vaddr + ph.memsz + 4095) / 4096 * 4096
unfolding segment_end
segment_end-eq file_size ph is = segment_end_lem file_size ph is

-- From `s` to `t` the pages are mapped for which `new` shows something; none of them was before.
pub record Mapped {S : Type 0} (o : Sight S) (new : ℕ → Option (ℕ × List ℕ)) (s t : S)
    : Type 0 where
  pub shows : (q : ℕ) → o.view t q ≡ over (new q) (o.view s q)
  pub was_free : (q : ℕ) (x : ℕ × List ℕ) → new q ≡ some x → o.view s q ≡ none

module _ {S : Type 0} (o : Sight S) where
  Mapped-trans :
      (first next : ℕ → Option (ℕ × List ℕ)) {s t u : S}
      → Mapped o first s t
      → Mapped o next t u
      → Mapped o (λ q. over (first q) (next q)) s u
  Mapped-trans first next {s} h k =
      let free =
        λ (q : ℕ) (x : ℕ × List ℕ) (e : next q ≡ some x). sym (h.shows q) ∙ k.was_free q x e in
      record {
        shows = λ q.
            k.shows q
            ∙ ap (over (next q)) (h.shows q)
            ∙ over-over (first q) (next q) (o.view s q) (free q);
        was_free = λ q x e. over_free (first q) (next q) (o.view s q) e (free q) (h.was_free q);
      }

  Mapped-cong :
      (a b : ℕ → Option (ℕ × List ℕ)) {s t : S}
      → ((q : ℕ) → a q ≡ b q)
      → Mapped o a s t
      → Mapped o b s t
  Mapped-cong a b {s} same h = record {
    shows = λ q. h.shows q ∙ ap (λ x. over x (o.view s q)) (same q);
    was_free = λ q x e. h.was_free q x (same q ∙ e);
  }

  Mapped-none : (s : S) → Mapped o (λ q. none) s s
  Mapped-none s = record { shows = λ q. refl; was_free = λ q x e. absurd (cc) }

module _ {S : Type 0} (m : Loader S) (o : Sight S) (laws : IsLoading m o) where
  abbrev pages_of : Phdr → ℕ → ℕ → Option (ℕ × List ℕ)
  pages_of ph page q = if among page (segment_end ph) q then shown o.content ph q else none

  abbrev one_page : Phdr → ℕ → ℕ → Option (ℕ × List ℕ)
  one_page ph page q = if q == page then shown o.content ph q else none

  one_page-Mapped :
      (ph : Phdr) (page : ℕ) (s t : S) (u : Unit {0})
      → ph.offset + ph.filesz < 2 ^ 64
      → load_page m o.space ph page s ≡ (ok u, t)
      → Mapped o (one_page ph page) s t
  one_page-Mapped ph page s t u fits h =
      let (free, new, old) = load_page_lem m o laws ph page s t u fits h in
      record {
        shows = λ q. elim (Bool-cases (q == page)) [
          | inl e ↦
              let same : page ≡ q = ground arith in
              rw e (subst (λ x. o.view t x ≡ shown o.content ph x) same new)
          | inr e ↦ rw e (old q (λ same. absurd (ground arith)))
        ];
        was_free = λ q x is.
            let same : page ≡ q = ground arith in subst (λ x. o.view s x ≡ none) same free;
      }

  -- Where a page ends the loop, and where it is one of the segment's.
  pages_done : (ph : Phdr) (page q : ℕ) → segment_end ph ≤ page → none ≡ pages_of ph page q
  pages_done ph page q le = rw (among_done page (segment_end ph) q le)

  pages_next :
      (ph : Phdr) (page q : ℕ)
      → page < segment_end ph
      → over (one_page ph page q) (pages_of ph (page + 4096) q) ≡ pages_of ph page q
  pages_next ph page q lt = ground (arith, among_next page (segment_end ph) q lt)

  load_pages-Mapped :
      (fuel : ℕ) (ph : Phdr) (page : ℕ) (s t : S) (u : Unit {0})
      → ph.offset + ph.filesz < 2 ^ 64
      → segment_end ph - page ≤ fuel * 4096
      → load_pages m fuel o.space ph page s ≡ (ok u, t)
      → Mapped o (pages_of ph page) s t
  unfolding load_pages
  load_pages-Mapped zero ph page s t u fits room h =
      let same : s ≡ t = ap (λ r. r.1) h in
      Mapped-cong o (λ q. none) (pages_of ph page) (λ q. pages_done ph page q (omega arith))
        (subst (Mapped o (λ q. none) s) same (Mapped-none o s))
  load_pages-Mapped (suc fuel) ph page s t u fits room h =
      elim (Bool-cases (ltb page (segment_end ph))) [
        | inr e ↦
            let h' : return tt s ≡ (ok u, t) = rw e at h in
            let same : s ≡ t = ap (λ r. r.1) h' in
            Mapped-cong o (λ q. none) (pages_of ph page) (λ q. pages_done ph page q (ground arith))
              (subst (Mapped o (λ q. none) s) same (Mapped-none o s))
        | inl e ↦
            let lt : page < segment_end ph = ground arith in
            let rest = load_pages m fuel o.space ph (page + page_size) in
            let h' : after (load_page m o.space ph page s) (λ _. rest) ≡ (ok u, t) = rw e at h in
            let (v, e1, e2) = after-eq-ok (load_page m o.space ph page s) (λ _. rest) h' in
            let s1 = (load_page m o.space ph page s).1 in
            Mapped-cong o (λ q. over (one_page ph page q) (pages_of ph (page + 4096) q))
              (pages_of ph page) (λ q. pages_next ph page q lt)
              (Mapped-trans o (one_page ph page) (pages_of ph (page + 4096))
                (one_page-Mapped ph page s s1 v fits e1)
                (load_pages-Mapped fuel ph (page + 4096) s1 t u fits (omega arith) e2))
      ]

  abbrev own : Phdr → ℕ → Option (ℕ × List ℕ)
  own ph q =
      if is_load ph && among ph.vaddr ((ph.vaddr + ph.memsz + 4095) / 4096 * 4096) q
      then shown o.content ph q
      else none

  own_skip : (ph : Phdr) (q : ℕ) → is_load ph ≡ false → none ≡ own ph q
  own_skip ph q e = rw e

  own_load :
      (file_size : ℕ) (ph : Phdr) (q : ℕ)
      → is_load ph ≡ true
      → IsSegment file_size ph
      → pages_of ph ph.vaddr q ≡ own ph q
  own_load file_size ph q e is = rw (e, segment_end-eq file_size ph is) refl

  segment-Mapped :
      (file_size : ℕ) (ph : Phdr) (s t : S) (u : Unit {0})
      → file_size < 2 ^ 64
      → (is_load ph ≡ true → IsSegment file_size ph)
      → (if is_load ph then load_segment m o.space ph else return tt) s ≡ (ok u, t)
      → Mapped o (own ph) s t
  unfolding load_segment
  segment-Mapped file_size ph s t u small is h = elim (Bool-cases (is_load ph)) [
    | inr e ↦
        let h' : return tt s ≡ (ok u, t) = rw e at h in
        let same : s ≡ t = ap (λ r. r.1) h' in
        Mapped-cong o (λ q. none) (own ph) (λ q. own_skip ph q e)
          (subst (Mapped o (λ q. none) s) same (Mapped-none o s))
    | inl e ↦
        let h' : load_segment m o.space ph s ≡ (ok u, t) = rw e at h in
        let ends = segment_end-eq file_size ph (is e) in
        let fits : ph.offset + ph.filesz < 2 ^ 64 = omega (arith, (is e).in_file) in
        Mapped-cong o (pages_of ph ph.vaddr) (own ph) (λ q. own_load file_size ph q e (is e))
          (load_pages-Mapped (segment_end ph / page_size) ph ph.vaddr s t u fits
            (omega (arith, ends)) h')
  ]

  pub load_all-Mapped :
      (file_size : ℕ) (phs : List Phdr) (s t : S) (u : Unit {0})
      → file_size < 2 ^ 64
      → AllSegments file_size phs
      → load_all m o.space phs s ≡ (ok u, t)
      → Mapped o (image o.content phs) s t
  unfolding load_all
  load_all-Mapped file_size [] s t u small all h =
      let same : s ≡ t = ap (λ r. r.1) h in subst (Mapped o (λ q. none) s) same (Mapped-none o s)
  load_all-Mapped file_size (ph ∷ phs) s t u small all h =
      let first = (if is_load ph then load_segment m o.space ph else return tt) in
      let (v, e1, e2) = after-eq-ok (first s) (λ _. load_all m o.space phs) h in
      Mapped-cong o (λ q. over (own ph q) (image o.content phs q)) (image o.content (ph ∷ phs))
        (λ q.
          over_if (is_load ph && among ph.vaddr ((ph.vaddr + ph.memsz + 4095) / 4096 * 4096) q)
            (segment_flags ph, page_bytes o.content ph (q - ph.vaddr)) (image o.content phs q))
        (Mapped-trans o (own ph) (image o.content phs)
          (segment-Mapped file_size ph s (first s).1 v small all.0 e1)
          (load_all-Mapped file_size phs (first s).1 t u small all.1 e2))
