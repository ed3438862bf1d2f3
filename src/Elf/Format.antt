-- ===== src/Elf/Format.antt =====
-- The headers of an ELF file, and the checks of elf.c on them.
use nyxis_os.Base.{
  ℕ, zero, suc, ◌-◌, ◌*◌, Bool, true, false, not, ◌||◌, ◌&&◌, List, [], ◌∷◌, bit_and, ltb, leb,
  ◌==◌, if◌then◌else◌, drop,
}
use nyxis_os.Base.Bytes.{byte_at, u16_at, u32_at, u64_at}
use nyxis_os.Base.Words.{add64, align_up, page_size}
use nyxis_os.Base.Status.{Result, ok, ◌>>=◌, ◌>>◌, fail_if, invalid_format}

abbrev pub pt_load : ℕ
pt_load = 1

abbrev pub pf_x : ℕ
pf_x = 1

abbrev pub pf_w : ℕ
pf_w = 2

-- `ELF_MAX_PHNUM` and `NX_ELF_MAX_FILE`
abbrev pub max_phnum : ℕ
max_phnum = 32

abbrev pub max_file : ℕ
max_file = 64 * 1024 * 1024

-- `NX_USER_ELF_MIN_VADDR` and `NX_USER_ELF_MAX_VADDR`
abbrev pub min_vaddr : ℕ
min_vaddr = 0x10000

abbrev pub max_vaddr : ℕ
max_vaddr = 0x0000700000000000

-- The fields of `elf64_header_t` that the loader reads.
pub record Header : Type 0 where
  pub magic : ℕ
  pub class : ℕ
  pub encoding : ℕ
  pub kind : ℕ
  pub machine : ℕ
  pub entry : ℕ
  pub phoff : ℕ
  pub phentsize : ℕ
  pub phnum : ℕ

-- The fields of `elf64_phdr_t` that the loader reads.
pub record Phdr : Type 0 where
  pub kind : ℕ
  pub flags : ℕ
  pub offset : ℕ
  pub vaddr : ℕ
  pub filesz : ℕ
  pub memsz : ℕ

unfoldable pub header_of_bytes : List ℕ → Header
header_of_bytes bs = record {
  magic = u32_at bs 0;
  class = byte_at bs 4;
  encoding = byte_at bs 5;
  kind = u16_at bs 16;
  machine = u16_at bs 18;
  entry = u64_at bs 24;
  phoff = u64_at bs 32;
  phentsize = u16_at bs 54;
  phnum = u16_at bs 56;
}

unfoldable pub phdrs_of_bytes : ℕ → List ℕ → List Phdr
phdrs_of_bytes zero bs = []
phdrs_of_bytes (suc n) bs =
    record {
      kind = u32_at bs 0;
      flags = u32_at bs 4;
      offset = u64_at bs 8;
      vaddr = u64_at bs 16;
      filesz = u64_at bs 32;
      memsz = u64_at bs 40;
    }
    ∷ phdrs_of_bytes n (drop 56 bs)

unfoldable pub is_supported : Header → Bool
is_supported h =
    h.magic == 0x464c457f && (h.class == 2 && (h.encoding == 1 && (h.kind == 2 && h.machine == 62)))

abbrev pub is_load : Phdr → Bool
is_load ph = ph.kind == pt_load

-- What the first loop over the program headers collects.
pub record Scan : Type 0 where
  pub image_end : ℕ
  pub entry_ok : Bool
  pub any_load : Bool

-- The end of a round of the loop.
unfoldable pub note_segment : ℕ → Phdr → Scan → Scan
note_segment entry ph a =
    let seg_end = align_up (add64 ph.vaddr ph.memsz) page_size in
    record {
      image_end = if ltb a.image_end seg_end then seg_end else a.image_end;
      entry_ok =
          if not (bit_and ph.flags pf_x == 0)
            && (leb ph.vaddr entry && ltb (entry - ph.vaddr) ph.memsz)
          then true
          else a.entry_ok;
      any_load = true;
    }

-- The checks on a segment, in a file of `file_size` bytes.
unfoldable pub check_segment : ℕ → Phdr → Result (Unit {0})
check_segment file_size ph =
    fail_if (ph.memsz == 0 || ltb ph.memsz ph.filesz) invalid_format
    >> fail_if (ltb file_size ph.offset || ltb (file_size - ph.offset) ph.filesz) invalid_format
    >> fail_if (not (bit_and ph.vaddr (page_size - 1) == 0)) invalid_format
    >> fail_if (ltb ph.vaddr min_vaddr || leb max_vaddr ph.vaddr) invalid_format
    >> fail_if (ltb (max_vaddr - ph.vaddr) ph.memsz) invalid_format

-- One round of the loop.
unfoldable pub check_phdr : ℕ → ℕ → Phdr → Scan → Result Scan
unfolding check_segment note_segment
check_phdr entry file_size ph a =
    if is_load ph then check_segment file_size ph >> ok (note_segment entry ph a) else ok a

unfoldable pub check_phdrs : ℕ → ℕ → List Phdr → Scan → Result Scan
unfolding check_phdr
check_phdrs entry file_size [] a = ok a
check_phdrs entry file_size (ph ∷ phs) a =
    check_phdr entry file_size ph a >>= check_phdrs entry file_size phs

-- The first loop and the check behind it: the end of the image.
unfoldable pub check_program : ℕ → ℕ → List Phdr → Result ℕ
unfolding check_phdrs
check_program entry file_size phs =
    check_phdrs entry file_size phs (record { image_end = 0; entry_ok = false; any_load = false })
    >>= λ a. fail_if (not a.any_load || not a.entry_ok) invalid_format >> ok a.image_end
