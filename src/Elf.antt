-- ===== src/Elf.antt =====
-- nxkernel/kernel/process/elf.c: the loader of a user program. The open file is part of the state
-- `S`, with the frames and the page tables.
pub mod Format
pub mod Segments
pub mod Accepting
pub mod Loading
pub mod Image
pub mod Loaded
pub mod Borrowing
mod Tests
use nyxis_os.Base.{
  ℕ, zero, suc, ◌+◌, ◌-◌, ◌*◌, ◌/◌, ◌%◌, ◌^◌, Bool, true, false, not, ◌||◌, ◌&&◌, List, [], ◌∷◌,
  bit_and, bit_or, ltb, leb, ◌==◌, if◌then◌else◌, length, drop,
}
use nyxis_os.Base.Words.{add64, align_up, page_size}
use nyxis_os.Base.Effect.{Eff, after, ◌>>=◌, ◌>>◌, return, lift, fail_if, modify, undone, on_error}
use nyxis_os.Base.Status.{Result, ok, err, invalid_arg, invalid_format, unsupported, file_corrupted}
use nyxis_os.Vfs.Handle.{VfsStat}
use nyxis_os.Elf.Format.{
  Header, Phdr, Scan, header_of_bytes, phdrs_of_bytes, check_program, is_supported, is_load, pf_w,
  pf_x, max_phnum, max_file,
}

-- What elf.c calls: the file through its handle, the frames of pfa.c, `phys_to_virt` with the copy to
-- it, and the page tables of the address space whose root is given.
pub record Loader (S : Type 0) : Type 0 where
  pub vfs_fstat : Eff S VfsStat
  pub set_offset : ℕ → S → S
  pub vfs_read : ℕ → Eff S (List ℕ)
  pub pfa_alloc : Eff S ℕ
  pub pfa_free : ℕ → S → S
  pub put_bytes : ℕ → List ℕ → S → S
  pub paging_map_page : ℕ → ℕ → ℕ → ℕ → Eff S (Unit {0})

abbrev pub page_rw : ℕ
page_rw = 0x002

abbrev pub page_user : ℕ
page_user = 0x004

abbrev pub page_nx : ℕ
page_nx = 0x8000000000000000

-- The flags of a segment's pages.
unfoldable pub segment_flags : Phdr → ℕ
segment_flags ph =
    let rw = if bit_and ph.flags pf_w == 0 then page_user else bit_or page_user page_rw in
    if bit_and ph.flags pf_x == 0 then bit_or rw page_nx else rw

-- `copy_len`
unfoldable pub copy_len : Phdr → ℕ → ℕ
copy_len ph seg_off =
    let remain = ph.filesz - seg_off in
    if ltb seg_off ph.filesz then if ltb remain page_size then remain else page_size else 0

unfoldable pub segment_end : Phdr → ℕ
segment_end ph = align_up (add64 ph.vaddr ph.memsz) page_size

module _ {S : Type 0} (m : Loader S) where
  unfoldable pub read_exact : ℕ → ℕ → Eff S (List ℕ)
  read_exact offset len = do
    modify (m.set_offset offset)
    bytes ← m.vfs_read len
    fail_if (not (length bytes == len)) file_corrupted
    return bytes

  -- The part of a page that stands in the file.
  unfoldable pub fill_page : Phdr → ℕ → ℕ → Eff S (Unit {0})
  unfolding read_exact copy_len
  fill_page ph seg_off phys =
      if ltb 0 (copy_len ph seg_off)
      then (read_exact (add64 ph.offset seg_off) (copy_len ph seg_off) >>= λ bytes.
          modify (m.put_bytes phys bytes))
      else return tt

  -- One round of the loop of `load_segment`.
  unfoldable pub load_page : ℕ → Phdr → ℕ → Eff S (Unit {0})
  unfolding fill_page segment_flags
  load_page space ph page = do
    phys ← m.pfa_alloc
    on_error (m.pfa_free phys) (fill_page ph (page - ph.vaddr) phys)
    on_error (m.pfa_free phys) (m.paging_map_page space phys page (segment_flags ph))

  -- The loop, with fuel. A page below `vaddr_end`, which is page-aligned, has a successor below 2 ^ 64.
  unfoldable pub load_pages : ℕ → ℕ → Phdr → ℕ → Eff S (Unit {0})
  unfolding load_page segment_end
  load_pages zero space ph page = return tt
  load_pages (suc fuel) space ph page =
      let round = load_page space ph page >> load_pages fuel space ph (page + page_size) in
      if ltb page (segment_end ph) then round else return tt

  unfoldable pub load_segment : ℕ → Phdr → Eff S (Unit {0})
  unfolding load_pages
  load_segment space ph = load_pages (segment_end ph / page_size) space ph ph.vaddr

  -- The second loop over the program headers.
  unfoldable pub load_all : ℕ → List Phdr → Eff S (Unit {0})
  unfolding load_segment
  load_all space [] = return tt
  load_all space (ph ∷ phs) =
      (if is_load ph then load_segment space ph else return tt) >> load_all space phs

  -- `elf_load` up to its second loop: the entry point, the end of the image and the headers.
  unfoldable pub read_program : ℕ → Eff S (ℕ × ℕ × List Phdr)
  unfolding read_exact header_of_bytes phdrs_of_bytes check_program is_supported
  read_program space = do
    fail_if (space == 0) invalid_arg
    st ← m.vfs_fstat
    fail_if (st.size == 0 || ltb max_file st.size) invalid_format
    bytes ← read_exact 0 64
    let h = header_of_bytes bytes
    fail_if (not (is_supported h)) unsupported
    fail_if (not (h.phentsize == 56) || (h.phnum == 0 || ltb max_phnum h.phnum)) invalid_format
    fail_if (ltb st.size h.phoff || ltb (st.size - h.phoff) (h.phnum * 56)) invalid_format
    table ← read_exact h.phoff (h.phnum * 56)
    let phs = phdrs_of_bytes h.phnum table
    image_end ← lift (check_program h.entry st.size phs)
    return (h.entry, image_end, phs)

  -- The entry point and the end of the image.
  unfoldable pub elf_load : ℕ → Eff S (ℕ × ℕ)
  unfolding read_program load_all
  elf_load space = do p ← read_program space; load_all space p.2; return (p.0, p.1)
