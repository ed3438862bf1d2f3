-- ===== src/Elf/Loading.antt =====
-- What the loader puts into the address space.
use nyxis_os.Base.{
  ℕ, zero, suc, ◌+◌, ◌-◌, ◌^◌, ◌<◌, ◌≡◌, ◌≢◌, refl, ap, sym, ◌∙◌, subst, inl, inr, Bool, true, not,
  List, ◌++◌, Option, none, some, ltb, ◌==◌, arith, min, length, take, drop, replicate, Bool-cases,
}
use native.Mathlib.Nat.{mod-eq_of_lt}
use nyxis_os.Base.Words.{add64, page_size}
use nyxis_os.Base.Status.{ok, file_corrupted}
use nyxis_os.Base.Effect.{after, fail_if, modify, return, undone, after-eq-ok, undone-eq-ok}
use nyxis_os.Vfs.Handle.{VfsStat}
use nyxis_os.Elf.Format.{Phdr}
use nyxis_os.Elf.{Loader, read_exact, copy_len, fill_page, load_page, segment_flags}

-- What can be seen of the state: the bytes of the file and the place in it, what stands in a frame,
-- which frames are held and mapped nowhere, and the flags and the bytes that a page of the address
-- space `space` shows.
pub record Sight (S : Type 0) : Type 0 where
  pub space : ℕ
  pub content : List ℕ
  pub place : S → ℕ
  pub frame : S → ℕ → List ℕ
  pub loose : S → ℕ → Bool
  pub view : S → ℕ → Option (ℕ × List ℕ)

-- A call that maps nothing and writes to no loose frame.
pub record Keeps {S : Type 0} (o : Sight S) (s t : S) : Type 0 where
  pub views : (q : ℕ) → o.view t q ≡ o.view s q
  pub frames : (p : ℕ) → o.loose s p ≡ true → (o.loose t p ≡ true) × (o.frame t p ≡ o.frame s p)

-- What the loader relies on: a read gives the bytes at the place of the handle, a new frame is
-- cleared, and a mapping in the address space that is looked at shows a loose frame at a page where
-- none was mapped.
pub record IsLoading {S : Type 0} (m : Loader S) (o : Sight S) : Type 0 where
  pub stat_size : (s : S) (st : VfsStat) → (m.vfs_fstat s).0 ≡ ok st → st.size ≡ length o.content
  pub stat_keeps : (s : S) → Keeps o s (m.vfs_fstat s).1
  pub set_keeps : (n : ℕ) (s : S) → Keeps o s (m.set_offset n s)
  pub set_place : (n : ℕ) (s : S) → o.place (m.set_offset n s) ≡ n
  pub read_keeps : (n : ℕ) (s : S) → Keeps o s (m.vfs_read n s).1
  pub read_gives :
      (n : ℕ) (s : S) (bytes : List ℕ)
      → (m.vfs_read n s).0 ≡ ok bytes
      → length bytes ≡ n
      → bytes ≡ take n (drop (o.place s) o.content)
  pub alloc_keeps : (s : S) (q : ℕ) → o.view (m.pfa_alloc s).1 q ≡ o.view s q
  pub alloc_gives :
      (s : S) (p : ℕ)
      → (m.pfa_alloc s).0 ≡ ok p
      → (o.loose (m.pfa_alloc s).1 p ≡ true) × (o.frame (m.pfa_alloc s).1 p ≡ replicate page_size 0)
  pub put_keeps :
      (p : ℕ) (bytes : List ℕ) (s : S) (q : ℕ)
      → o.loose s p ≡ true
      → o.view (m.put_bytes p bytes s) q ≡ o.view s q
  pub puts :
      (p : ℕ) (bytes : List ℕ) (s : S)
      → o.loose s p ≡ true
      → (o.loose (m.put_bytes p bytes s) p ≡ true)
        × (o.frame (m.put_bytes p bytes s) p ≡ bytes ++ drop (length bytes) (o.frame s p))
  pub maps :
      (p page flags : ℕ) (s : S)
      → o.loose s p ≡ true
      → (m.paging_map_page o.space p page flags s).0 ≡ ok tt
      → (o.view s page ≡ none)
        × (o.view (m.paging_map_page o.space p page flags s).1 page ≡ some (flags, o.frame s p))
  pub maps_one :
      (p page flags : ℕ) (s : S) (q : ℕ)
      → q ≢ page
      → o.view (m.paging_map_page o.space p page flags s).1 q ≡ o.view s q

-- A page of a segment, from `seg_off` on: the bytes that stand in the file and then zeros.
abbrev pub page_bytes : List ℕ → Phdr → ℕ → List ℕ
page_bytes content ph seg_off =
    let n = min page_size (ph.filesz - seg_off) in
    take n (drop (ph.offset + seg_off) content) ++ replicate (page_size - n) 0

pub drop-replicate : (n k : ℕ) (b : ℕ) → drop n (replicate k b) ≡ replicate (k - n) b
drop-replicate zero k b = let e : k ≡ k - 0 = omega arith in ap (λ t. replicate t b) e
drop-replicate (suc n) zero b = let e : 0 ≡ 0 - suc n = omega arith in ap (λ t. replicate t b) e
drop-replicate (suc n) (suc k) b =
    let e : k - n ≡ suc k - suc n = omega arith in drop-replicate n k b ∙ ap (λ t. replicate t b) e

copy_len_lem : (ph : Phdr) (seg_off : ℕ) → copy_len ph seg_off ≡ min page_size (ph.filesz - seg_off)
unfolding copy_len
copy_len_lem ph seg_off = ground arith

module _ {S : Type 0} (m : Loader S) (o : Sight S) (laws : IsLoading m o) where
  Keeps-trans : {s t u : S} → Keeps o s t → Keeps o t u → Keeps o s u
  Keeps-trans h k = record {
    views = λ q. k.views q ∙ h.views q;
    frames = λ p l. let (l', f) = h.frames p l in let (l'', f') = k.frames p l' in (l'', f' ∙ f);
  }

  pub read_exact_lem :
      (offset len : ℕ) (s t : S) (bytes : List ℕ)
      → read_exact m offset len s ≡ (ok bytes, t)
      → Keeps o s t × (bytes ≡ take len (drop offset o.content)) × (length bytes ≡ len)
  unfolding read_exact
  read_exact_lem offset len s t bytes h =
      let s1 = m.set_offset offset s in
      let (got, e, k) =
        after-eq-ok (m.vfs_read len s1)
          (λ bs s'. after (fail_if (not (length bs == len)) file_corrupted s') (λ _. return bs))
          h in
      let full : length got ≡ len = ground arith in
      let same : got ≡ bytes = ground arith in
      let end : t ≡ (m.vfs_read len s1).1 = ground arith in
      (
        subst (λ x. Keeps o s x) (sym end)
            (Keeps-trans (laws.set_keeps offset s) (laws.read_keeps len s1)),
        sym same
            ∙ laws.read_gives len s1 got (ap (λ r. r.0) e) full
            ∙ ap (λ x. take len (drop x o.content)) (laws.set_place offset s),
        ap length (sym same) ∙ full,
      )

  fill_page_lem :
      (ph : Phdr) (seg_off phys : ℕ) (s t : S) (u : Unit {0})
      → ph.offset + ph.filesz < 2 ^ 64
      → o.loose s phys ≡ true
      → o.frame s phys ≡ replicate page_size 0
      → fill_page m ph seg_off phys s ≡ (ok u, t)
      → (o.loose t phys ≡ true)
        × (o.frame t phys ≡ page_bytes o.content ph seg_off)
        × ((q : ℕ) → o.view t q ≡ o.view s q)
  unfolding fill_page
  fill_page_lem ph seg_off phys s t u fits l zeros h =
      elim (Bool-cases (ltb 0 (copy_len ph seg_off))) [
        | inr e ↦
            let none_left : min page_size (ph.filesz - seg_off) ≡ 0 =
              ground (arith, copy_len_lem ph seg_off) in
            let h' : return tt s ≡ (ok u, t) = rw e at h in
            let same : t ≡ s = ap (λ r. r.1) (sym h') in rw (same, none_left) (l, zeros, λ q. refl)
        | inl e ↦
            let offset = add64 ph.offset seg_off in
            let len = copy_len ph seg_off in
            let h' : after (read_exact m offset len s) (λ bs. modify (m.put_bytes phys bs))
                ≡ (ok u, t) =
              rw e at h in
            let (bytes, e1, e2) =
              after-eq-ok (read_exact m offset len s) (λ bs. modify (m.put_bytes phys bs)) h' in
            let s1 = (read_exact m offset len s).1 in
            let (k, is, full) = read_exact_lem offset len s s1 bytes e1 in
            let (l1, zeros1) = k.frames phys l in
            let (l2, put) = laws.puts phys bytes s1 l1 in
            let same : t ≡ m.put_bytes phys bytes s1 = ap (λ r. r.1) (sym e2) in
            let no_wrap : offset ≡ ph.offset + seg_off =
              mod-eq_of_lt (ground (arith, copy_len_lem ph seg_off)) in
            let len_is = copy_len_lem ph seg_off in
            rw same (
              l2,
              put
                  ∙ ap (λ f. bytes ++ drop (length bytes) f) (zeros1 ∙ zeros)
                  ∙ ap (λ r. bytes ++ r)
                      (drop-replicate (length bytes) page_size 0
                        ∙ ap (λ n. replicate (page_size - n) 0) (full ∙ len_is))
                  ∙ ap (λ bs. bs ++ replicate (page_size - min page_size (ph.filesz - seg_off)) 0)
                      (is
                        ∙ ap (λ n. take len (drop n o.content)) no_wrap
                        ∙ ap (λ n. take n (drop (ph.offset + seg_off) o.content)) len_is),
              λ q. laws.put_keeps phys bytes s1 q l1 ∙ k.views q,
            )
      ]

  -- One page more is mapped, and shows its part of the segment.
  pub load_page_lem :
      (ph : Phdr) (page : ℕ) (s t : S) (u : Unit {0})
      → ph.offset + ph.filesz < 2 ^ 64
      → load_page m o.space ph page s ≡ (ok u, t)
      → (o.view s page ≡ none)
        × (o.view t page ≡ some (segment_flags ph, page_bytes o.content ph (page - ph.vaddr)))
        × ((q : ℕ) → q ≢ page → o.view t q ≡ o.view s q)
  unfolding load_page
  load_page_lem ph page s t u fits h =
      let fill = λ (p : ℕ). fill_page m ph (page - ph.vaddr) p in
      let map_it = λ (p : ℕ). m.paging_map_page o.space p page (segment_flags ph) in
      let (phys, e, k) =
        after-eq-ok (m.pfa_alloc s)
          (λ p s'.
            after (undone (m.pfa_free p) (fill p s'))
              (λ _ s''. undone (m.pfa_free p) (map_it p s'')))
          h in
      let s1 = (m.pfa_alloc s).1 in
      let (u1, e1, k1) =
        after-eq-ok (undone (m.pfa_free phys) (fill phys s1))
          (λ _ s''. undone (m.pfa_free phys) (map_it phys s'')) k in
      let f1 = undone-eq-ok (m.pfa_free phys) (fill phys s1) e1 in
      let s2 = (undone (m.pfa_free phys) (fill phys s1)).1 in
      let mapped = undone-eq-ok (m.pfa_free phys) (map_it phys s2) k1 in
      let (l1, zeros) = laws.alloc_gives s phys (ap (λ r. r.0) e) in
      let (l2, bytes, keeps) = fill_page_lem ph (page - ph.vaddr) phys s1 s2 u1 fits l1 zeros f1 in
      let (free, shows) = laws.maps phys page (segment_flags ph) s2 l2 (ap (λ r. r.0) mapped) in
      let end : t ≡ (map_it phys s2).1 = ap (λ r. r.1) (sym mapped) in
      (
        sym (keeps page ∙ laws.alloc_keeps s page) ∙ free,
        rw end (shows ∙ ap (λ bs. some (segment_flags ph, bs)) bytes),
        λ q ne.
            rw end (laws.maps_one phys page (segment_flags ph) s2 q ne)
            ∙ keeps q
            ∙ laws.alloc_keeps s q,
      )
