-- ===== src/Elf/Loaded.antt =====
-- What a load of a program promises.
use nyxis_os.Base.{
  ℕ, ◌-◌, ◌*◌, ◌≤◌, ◌≡◌, refl, ap, sym, ◌∙◌, subst, false, not, ◌||◌, List, Option, none, some, ltb,
  ◌==◌, arith, length, take, drop,
}
use nyxis_os.Base.Status.{ok, invalid_arg, invalid_format, unsupported}
use nyxis_os.Base.Effect.{lift, after-eq-ok, fail_if-eq-ok}
use nyxis_os.Elf.Format.{
  Header, Phdr, header_of_bytes, phdrs_of_bytes, is_supported, check_program, max_file, max_phnum,
}
use nyxis_os.Elf.Segments.{AllSegments, SomeEnters, top_of}
use nyxis_os.Elf.Accepting.{check_program_iff}
use nyxis_os.Elf.Loading.{Sight, IsLoading, read_exact_lem}
use nyxis_os.Elf.Image.{image, over, load_all-Mapped}
use nyxis_os.Elf.{Loader, read_exact, read_program, load_all, elf_load}

-- The headers that stand in the file.
abbrev pub header_in : List ℕ → Header
header_in content = header_of_bytes (take 64 content)

abbrev pub phdrs_in : List ℕ → List Phdr
phdrs_in content =
    let h = header_in content in phdrs_of_bytes h.phnum (take (h.phnum * 56) (drop h.phoff content))

over-none : (a b : Option (ℕ × List ℕ)) → b ≡ none → over a b ≡ a
over-none none b e = e
over-none (some x) b e = refl

passed_as :
    (e n : ℕ) (phs : List Phdr) (top : ℕ) {e' n' top' : ℕ} {phs' : List Phdr}
    → e ≡ e'
    → n ≡ n'
    → phs ≡ phs'
    → top ≡ top'
    → check_program e n phs ≡ ok top
    → check_program e' n' phs' ≡ ok top'
passed_as e n phs top p q r t h = cc

enters_as :
    {e e' : ℕ} {phs phs' : List Phdr} → e ≡ e' → phs ≡ phs' → SomeEnters e phs → SomeEnters e' phs'
enters_as {e} {phs'} p q h = subst (λ x. SomeEnters x phs') p (subst (SomeEnters e) q h)

size_bound : (n k : ℕ) → n ≡ k → (n == 0 || ltb max_file n) ≡ false → k ≤ max_file
size_bound n k e h = ground arith

module _ {S : Type 0} (m : Loader S) (o : Sight S) (laws : IsLoading m o) where
  -- The program headers that were read, and what the checks on them said.
  record Found (s t : S) (entry image_end : ℕ) (phs : List Phdr) : Type 0 where
    entry_is : entry ≡ (header_in o.content).entry
    phs_is : phs ≡ phdrs_in o.content
    passed : check_program entry (length o.content) phs ≡ ok image_end
    small : length o.content ≤ max_file
    views : (q : ℕ) → o.view t q ≡ o.view s q

  read_program-Found :
      (s t : S) (entry image_end : ℕ) (phs : List Phdr)
      → read_program m o.space s ≡ (ok (entry, image_end, phs), t)
      → Found s t entry image_end phs
  unfolding read_program
  read_program-Found s t entry image_end phs h =
      let (_, h1) = fail_if-eq-ok (o.space == 0) invalid_arg s _ h in
      let (st, e1, h2) = after-eq-ok (m.vfs_fstat s) _ h1 in
      let s1 = (m.vfs_fstat s).1 in
      let (size_ok, h3) =
        fail_if-eq-ok (st.size == 0 || ltb max_file st.size) invalid_format s1 _ h2 in
      let (bytes, e2, h4) = after-eq-ok (read_exact m 0 64 s1) _ h3 in
      let s2 = (read_exact m 0 64 s1).1 in
      let hd = header_of_bytes bytes in
      let (_, h5) = fail_if-eq-ok (not (is_supported hd)) unsupported s2 _ h4 in
      let (_, h6) =
        fail_if-eq-ok (not (hd.phentsize == 56) || (hd.phnum == 0 || ltb max_phnum hd.phnum))
          invalid_format s2 _ h5 in
      let (_, h7) =
        fail_if-eq-ok (ltb st.size hd.phoff || ltb (st.size - hd.phoff) (hd.phnum * 56))
          invalid_format s2 _ h6 in
      let (table, e3, h8) = after-eq-ok (read_exact m hd.phoff (hd.phnum * 56) s2) _ h7 in
      let s3 = (read_exact m hd.phoff (hd.phnum * 56) s2).1 in
      let found = phdrs_of_bytes hd.phnum table in
      let (top, e4, h9) = after-eq-ok (lift (check_program hd.entry st.size found) s3) _ h8 in
      let (k1, bytes_are, _) = read_exact_lem m o laws 0 64 s1 s2 bytes e2 in
      let (k2, table_is, _) = read_exact_lem m o laws hd.phoff (hd.phnum * 56) s2 s3 table e3 in
      let size_is = laws.stat_size s st (ap (λ r. r.0) e1) in
      let hd_is : hd ≡ header_in o.content = ap header_of_bytes bytes_are in
      let same : found ≡ phs = ground arith in
      let entry_is : hd.entry ≡ entry = ground arith in
      let top_is : top ≡ image_end = ground arith in
      record {
        entry_is = sym entry_is ∙ ap (λ x. x.entry) hd_is;
        phs_is =
            sym same
            ∙ ap (phdrs_of_bytes hd.phnum) table_is
            ∙ ap
                (λ (x : Header).
                  phdrs_of_bytes x.phnum (take (x.phnum * 56) (drop x.phoff o.content)))
                hd_is;
        passed =
            passed_as hd.entry st.size found top entry_is size_is same top_is (ap (λ r. r.0) e4);
        small = size_bound st.size (length o.content) size_is size_ok;
        views = λ q.
            subst (λ x. o.view x q ≡ o.view s3 q) (ap (λ r. r.1) h9) refl
            ∙ k2.views q
            ∙ k1.views q
            ∙ (laws.stat_keeps s).views q;
      }

  -- Where the pages of an address space are free, a load into it that succeeds found program headers
  -- that the file holds, whose loadable segments lie in it and in user memory, and one of which is
  -- executable and holds the entry point that is returned. Each page of a segment then shows in that
  -- address space the bytes of the file and zeros behind them, with the flags of the segment; no
  -- other page of it is mapped; and the image ends at the page boundary behind the last segment.
  pub elf_load_lem :
      (s t : S) (entry image_end : ℕ)
      → ((q : ℕ) → o.view s q ≡ none)
      → elf_load m o.space s ≡ (ok (entry, image_end), t)
      → (entry ≡ (header_in o.content).entry)
        × AllSegments (length o.content) (phdrs_in o.content)
        × SomeEnters entry (phdrs_in o.content)
        × (image_end ≡ top_of (phdrs_in o.content))
        × ((q : ℕ) → o.view t q ≡ image o.content (phdrs_in o.content) q)
  unfolding elf_load
  elf_load_lem s t entry image_end free h =
      let (p, e1, h1) = after-eq-ok (read_program m o.space s) _ h in
      let s1 = (read_program m o.space s).1 in
      let found = read_program-Found s s1 p.0 p.1 p.2 e1 in
      let (u, e2, h2) = after-eq-ok (load_all m o.space p.2 s1) _ h1 in
      let s2 = (load_all m o.space p.2 s1).1 in
      let entry_is : p.0 ≡ entry = ground arith in
      let end_is : p.1 ≡ image_end = ground arith in
      let (all, enters, top) = (check_program_iff p.0 (length o.content) p.2 p.1).0 found.passed in
      let mapped =
        load_all-Mapped m o laws (length o.content) p.2 s1 s2 u (omega (arith, found.small)) all
          e2 in
      (
        sym entry_is ∙ found.entry_is,
        subst (AllSegments (length o.content)) found.phs_is all,
        enters_as entry_is found.phs_is enters,
        sym end_is ∙ top ∙ ap top_of found.phs_is,
        λ q.
            subst (λ x. o.view x q ≡ o.view s2 q) (ap (λ r. r.1) h2) refl
            ∙ mapped.shows q
            ∙ over-none (image o.content p.2 q) (o.view s1 q) (found.views q ∙ free q)
            ∙ ap (λ phs. image o.content phs q) found.phs_is,
      )
