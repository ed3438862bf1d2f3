-- ===== src/Elf/Borrowing.antt =====
-- What a load takes and gives back, whether it succeeds or fails.
use nyxis_os.Base.{
  ℕ, zero, suc, ◌+◌, ◌-◌, ◌*◌, ◌≡◌, List, [], ◌∷◌, ◌||◌, not, ltb, ◌==◌, if◌then◌else◌,
}
use nyxis_os.Base.Words.{page_size}
use nyxis_os.Base.Steady.{
  Ends, Steady, Ends-return, Ends-lift, Ends-if, Ends-fail_if, Ends-modify, Ends-bind, Ends-then,
  Ends-on_error, Gives, Gives-bind,
}
use nyxis_os.Base.Status.{invalid_arg, invalid_format, unsupported}
use nyxis_os.Elf.Format.{
  Phdr, is_load, header_of_bytes, phdrs_of_bytes, check_program, is_supported, max_file, max_phnum,
}
use nyxis_os.Elf.{
  Loader, read_exact, fill_page, load_page, load_pages, load_segment, load_all, read_program,
  elf_load,
}

-- What is out: how many files are open, and for each address space and each frame how often it is out:
-- a space that was created and belongs to no process, a frame that was taken and is mapped nowhere.
pub record Ledger (S : Type 0) : Type 0 where
  pub files : S → ℕ
  pub spaces : S → ℕ → ℕ
  pub frames : S → ℕ → ℕ

-- `x` is out once more.
abbrev pub plus : ℕ → (ℕ → ℕ) → ℕ → ℕ
plus x count y = if y == x then suc (count y) else count y

abbrev pub Out : {S : Type 0} → Ledger S → ℕ → (ℕ → ℕ) → (ℕ → ℕ) → S → Type 0
Out l f a p s = (l.files s ≡ f) × ((x : ℕ) → l.spaces s x ≡ a x) × ((x : ℕ) → l.frames s x ≡ p x)

-- What the calls of the loader take and give back: an allocation takes the frame that it returns, and
-- to free or to map a frame that is out gives back that one. What is freed otherwise is not said.
pub record IsLoan {S : Type 0} (m : Loader S) (l : Ledger S) : Type 0 where
  pub stat_out : (f : ℕ) (a p : ℕ → ℕ) → Steady (Out l f a p) m.vfs_fstat
  pub set_out :
      (f : ℕ) (a p : ℕ → ℕ) (n : ℕ) (s : S) → Out l f a p s → Out l f a p (m.set_offset n s)
  pub read_out : (f : ℕ) (a p : ℕ → ℕ) (n : ℕ) → Steady (Out l f a p) (m.vfs_read n)
  pub put_out :
      (f : ℕ) (a p : ℕ → ℕ) (n : ℕ) (bytes : List ℕ) (s : S)
      → Out l f a p s
      → Out l f a p (m.put_bytes n bytes s)
  pub alloc_out :
      (f : ℕ) (a p : ℕ → ℕ)
      → Gives (Out l f a p) (λ n. Out l f a (plus n p)) (Out l f a p) m.pfa_alloc
  pub free_out :
      (f : ℕ) (a p : ℕ → ℕ) (n : ℕ) (s : S) → Out l f a (plus n p) s → Out l f a p (m.pfa_free n s)
  pub map_out :
      (f : ℕ) (a p : ℕ → ℕ) (space phys page flags : ℕ)
      → Ends
          (Out l f a (plus phys p))
          (Out l f a p)
          (Out l f a (plus phys p))
          (m.paging_map_page space phys page flags)

module _ {S : Type 0} (m : Loader S) (l : Ledger S) (loan : IsLoan m l) (f : ℕ) (a p : ℕ → ℕ) where
  read_exact-Steady : (offset len : ℕ) → Steady (Out l f a p) (read_exact m offset len)
  unfolding read_exact
  read_exact-Steady offset len =
      Ends-then (Ends-modify (m.set_offset offset) (loan.set_out f a p offset))
        (Ends-bind (loan.read_out f a p len) λ bytes. Ends-then (Ends-fail_if _ _) (Ends-return _))

  fill_page-Steady :
      (ph : Phdr) (seg_off phys : ℕ) → Steady (Out l f a p) (fill_page m ph seg_off phys)
  unfolding fill_page
  fill_page-Steady ph seg_off phys =
      Ends-if _
        (Ends-bind (read_exact-Steady _ _)
          λ bytes. Ends-modify (m.put_bytes phys bytes) (loan.put_out f a p phys bytes))
        (Ends-return _)

module _ {S : Type 0} (m : Loader S) (l : Ledger S) (loan : IsLoan m l) (f : ℕ) (a p : ℕ → ℕ) where
  -- The frame of a page that fails goes back.
  load_page-Steady :
      (space : ℕ) (ph : Phdr) (page : ℕ) → Steady (Out l f a p) (load_page m space ph page)
  unfolding load_page
  load_page-Steady space ph page = Gives-bind (loan.alloc_out f a p) λ phys.
      Ends-then
        (Ends-on_error (m.pfa_free phys) (fill_page-Steady m l loan f a (plus phys p) ph _ phys)
          (loan.free_out f a p phys))
        (Ends-on_error (m.pfa_free phys) (loan.map_out f a p space phys page _)
          (loan.free_out f a p phys))

  load_pages-Steady :
      (fuel space : ℕ) (ph : Phdr) (page : ℕ)
      → Steady (Out l f a p) (load_pages m fuel space ph page)
  unfolding load_pages
  load_pages-Steady zero space ph page = Ends-return _
  load_pages-Steady (suc fuel) space ph page =
      Ends-if _
        (Ends-then (load_page-Steady space ph page)
          (load_pages-Steady fuel space ph (page + page_size)))
        (Ends-return _)

  load_segment-Steady : (space : ℕ) (ph : Phdr) → Steady (Out l f a p) (load_segment m space ph)
  unfolding load_segment
  load_segment-Steady space ph = load_pages-Steady _ space ph ph.vaddr

  load_all-Steady : (space : ℕ) (phs : List Phdr) → Steady (Out l f a p) (load_all m space phs)
  unfolding load_all
  load_all-Steady space [] = Ends-return _
  load_all-Steady space (ph ∷ phs) =
      Ends-then (Ends-if (is_load ph) (load_segment-Steady space ph) (Ends-return _))
        (load_all-Steady space phs)

  read_program-Steady : (space : ℕ) → Steady (Out l f a p) (read_program m space)
  unfolding read_program
  read_program-Steady space = Ends-then (Ends-fail_if (space == 0) invalid_arg) (
      Ends-bind (loan.stat_out f a p) λ st.
        Ends-then (Ends-fail_if (st.size == 0 || ltb max_file st.size) invalid_format) (
          Ends-bind (read_exact-Steady m l loan f a p 0 64) λ bytes.
            let h = header_of_bytes bytes in
            Ends-then (Ends-fail_if (not (is_supported h)) unsupported) (
              Ends-then
                (Ends-fail_if (not (h.phentsize == 56) || (h.phnum == 0 || ltb max_phnum h.phnum))
                  invalid_format)
                (Ends-then
                  (Ends-fail_if (ltb st.size h.phoff || ltb (st.size - h.phoff) (h.phnum * 56))
                    invalid_format)
                  (Ends-bind (read_exact-Steady m l loan f a p h.phoff (h.phnum * 56)) λ table.
                    let phs = phdrs_of_bytes h.phnum table in
                    Ends-bind (Ends-lift (check_program h.entry st.size phs))
                      λ image_end. Ends-return (h.entry, image_end, phs))))))

  -- A load keeps no file, address space or frame.
  pub elf_load-Steady : (space : ℕ) → Steady (Out l f a p) (elf_load m space)
  unfolding elf_load
  elf_load-Steady space =
      Ends-bind (read_program-Steady space)
        λ r. Ends-then (load_all-Steady space r.2) (Ends-return _)
