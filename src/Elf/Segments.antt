-- ===== src/Elf/Segments.antt =====
-- One program header of a file that elf.c loads: what makes it acceptable.
use native.Mathlib.Nat.{mod-eq_of_lt}
use nyxis_os.Base.{
  ℕ, ◌+◌, ◌-◌, ◌*◌, ◌/◌, ◌%◌, ◌≤◌, ◌<◌, ◌≡◌, ◌≢◌, ◌⊎◌, refl, ap, ◌∙◌, inl, inr, Bool, true, false,
  not, ◌&&◌, List, [], ◌∷◌, bit_and, ltb, leb, ◌==◌, if◌then◌else◌, arith, max,
}
use nyxis_os.Base.Bits.{bit_and-ones}
use nyxis_os.Base.Words.{add64, align_up, align_up_page, page_size}
use nyxis_os.Base.Status.{ok}
use nyxis_os.Elf.Format.{Phdr, Scan, check_segment, note_segment, is_load, pf_x}

-- A segment that lies in the file and in user memory, from a page boundary on.
pub record IsSegment (file_size : ℕ) (ph : Phdr) : Type 0 where
  pub some_memory : 0 < ph.memsz
  pub fits : ph.filesz ≤ ph.memsz
  pub in_file : ph.offset + ph.filesz ≤ file_size
  pub aligned : ph.vaddr % 4096 ≡ 0
  pub above : 0x10000 ≤ ph.vaddr
  pub below : ph.vaddr + ph.memsz ≤ 0x700000000000

-- The headers of another kind are not looked at.
abbrev pub AllSegments : ℕ → List Phdr → Type 0
AllSegments file_size [] = Unit
AllSegments file_size (ph ∷ phs) =
    (is_load ph ≡ true → IsSegment file_size ph) × AllSegments file_size phs

-- An executable segment that holds the entry point.
abbrev pub Enters : ℕ → Phdr → Type 0
Enters entry ph =
    (is_load ph ≡ true)
    × (bit_and ph.flags pf_x ≢ 0)
    × (ph.vaddr ≤ entry)
    × (entry < ph.vaddr + ph.memsz)

abbrev pub SomeEnters : ℕ → List Phdr → Type 0
SomeEnters entry [] = ⊥
SomeEnters entry (ph ∷ phs) = Enters entry ph ⊎ SomeEnters entry phs

-- The page boundary behind the last segment.
abbrev pub top_of : List Phdr → ℕ
top_of [] = 0
top_of (ph ∷ phs) =
    max (if is_load ph then (ph.vaddr + ph.memsz + 4095) / 4096 * 4096 else 0) (top_of phs)

pub check_segment_sound :
    (file_size : ℕ) (ph : Phdr) → check_segment file_size ph ≡ ok tt → IsSegment file_size ph
unfolding check_segment
check_segment_sound file_size ph h = ground (arith, bit_and-ones 12 ph.vaddr)

pub check_segment_complete :
    (file_size : ℕ) (ph : Phdr) → IsSegment file_size ph → check_segment file_size ph ≡ ok tt
unfolding check_segment
check_segment_complete file_size ph h = ground (arith, bit_and-ones 12 ph.vaddr)

-- The end of a segment that passed, with no wrap.
pub segment_end_lem :
    (file_size : ℕ) (ph : Phdr)
    → IsSegment file_size ph
    → align_up (add64 ph.vaddr ph.memsz) page_size ≡ (ph.vaddr + ph.memsz + 4095) / 4096 * 4096
segment_end_lem file_size ph h =
    ap (λ t. align_up t page_size) (mod-eq_of_lt (omega arith))
    ∙ align_up_page (ph.vaddr + ph.memsz) (omega arith)

pub note_end :
    (entry file_size : ℕ) (ph : Phdr) (a : Scan)
    → IsSegment file_size ph
    → (note_segment entry ph a).image_end
      ≡ max ((ph.vaddr + ph.memsz + 4095) / 4096 * 4096) a.image_end
unfolding note_segment
note_end entry file_size ph a h = ground (arith, segment_end_lem file_size ph h)

-- The test for the entry point.
unfoldable pub entry_test : ℕ → Phdr → Bool
entry_test entry ph =
    not (bit_and ph.flags pf_x == 0) && (leb ph.vaddr entry && ltb (entry - ph.vaddr) ph.memsz)

pub entry_test_sound :
    (entry : ℕ) (ph : Phdr) → is_load ph ≡ true → entry_test entry ph ≡ true → Enters entry ph
unfolding entry_test
entry_test_sound entry ph l h = (l, ground arith, ground arith, ground arith)

pub entry_test_complete : (entry : ℕ) (ph : Phdr) → Enters entry ph → entry_test entry ph ≡ true
unfolding entry_test
entry_test_complete entry ph h = ground arith

pub if_true : (c b : Bool) → (if c then true else b) ≡ true → (c ≡ true) ⊎ (b ≡ true)
if_true true b h = inl refl
if_true false b h = inr h

pub true_if : (c b : Bool) → (c ≡ true) ⊎ (b ≡ true) → (if c then true else b) ≡ true
true_if true b h = refl
true_if false b (inl h) = absurd (cc)
true_if false b (inr h) = h

pub note_entry_ok :
    (entry : ℕ) (ph : Phdr) (a : Scan)
    → (note_segment entry ph a).entry_ok ≡ (if entry_test entry ph then true else a.entry_ok)
unfolding note_segment entry_test
note_entry_ok entry ph a = refl
