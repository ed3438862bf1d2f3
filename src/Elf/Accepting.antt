-- ===== src/Elf/Accepting.antt =====
-- Which program headers the loader accepts.
use mathlib.Core.Logic.{◌↔◌}
use nyxis_os.Base.{
  ℕ, ◌+◌, ◌*◌, ◌/◌, ◌≡◌, ◌⊎◌, refl, ap, sym, ◌∙◌, inl, inr, true, false, List, [], ◌∷◌,
  if◌then◌else◌, arith, max, Bool-cases,
}
use nyxis_os.Base.Status.{ok, Result-cases}
use nyxis_os.Elf.Format.{
  Phdr, Scan, check_segment, check_phdr, check_phdrs, check_program, note_segment, is_load,
}
use nyxis_os.Elf.Segments.{
  IsSegment, AllSegments, Enters, SomeEnters, top_of, check_segment_sound, check_segment_complete,
  note_end, entry_test, entry_test_sound, entry_test_complete, if_true, true_if, note_entry_ok,
}

-- A round that does not stop.
noted : ℕ → Phdr → Scan → Scan
noted entry ph a = if is_load ph then note_segment entry ph a else a

gather : ℕ → List Phdr → Scan → Scan
gather entry [] a = a
gather entry (ph ∷ phs) a = gather entry phs (noted entry ph a)

check_phdr_sound :
    (entry file_size : ℕ) (ph : Phdr) (a b : Scan)
    → check_phdr entry file_size ph a ≡ ok b
    → (is_load ph ≡ true → IsSegment file_size ph) × (b ≡ noted entry ph a)
unfolding check_phdr noted
check_phdr_sound entry file_size ph a b h = elim (Bool-cases (is_load ph)) [
  | inr e ↦ (λ l. absurd (cc), ground arith)
  | inl e ↦ elim (Result-cases (check_segment file_size ph)) [
    | inl (u, c) ↦ (λ _. check_segment_sound file_size ph c, ground arith)
    | inr (x, c) ↦ absurd (ground arith)
  ]
]

check_phdr_complete :
    (entry file_size : ℕ) (ph : Phdr) (a : Scan)
    → (is_load ph ≡ true → IsSegment file_size ph)
    → check_phdr entry file_size ph a ≡ ok (noted entry ph a)
unfolding check_phdr noted
check_phdr_complete entry file_size ph a h = elim (Bool-cases (is_load ph)) [
  | inr e ↦ ground arith
  | inl e ↦ ground (arith, check_segment_complete file_size ph (h e))
]

check_phdrs_sound :
    (entry file_size : ℕ) (phs : List Phdr) (a b : Scan)
    → check_phdrs entry file_size phs a ≡ ok b
    → AllSegments file_size phs × (b ≡ gather entry phs a)
unfolding check_phdrs gather
check_phdrs_sound entry file_size [] a b h = (tt, ground arith)
check_phdrs_sound entry file_size (ph ∷ phs) a b h =
    elim (Result-cases (check_phdr entry file_size ph a)) [
      | inr (x, c) ↦ absurd (ground arith)
      | inl (a', c) ↦
          let (l, e) = check_phdr_sound entry file_size ph a a' c in
          let (ls, es) = check_phdrs_sound entry file_size phs a' b (ground arith) in
          ((l, ls), es ∙ ap (gather entry phs) e)
    ]

check_phdrs_complete :
    (entry file_size : ℕ) (phs : List Phdr) (a : Scan)
    → AllSegments file_size phs
    → check_phdrs entry file_size phs a ≡ ok (gather entry phs a)
unfolding check_phdrs gather
check_phdrs_complete entry file_size [] a h = refl
check_phdrs_complete entry file_size (ph ∷ phs) a h =
    rw (check_phdr_complete entry file_size ph a h.0)
      (check_phdrs_complete entry file_size phs (noted entry ph a) h.1)

noted_load :
    (entry : ℕ) (ph : Phdr) (a : Scan)
    → is_load ph ≡ true
    → noted entry ph a ≡ note_segment entry ph a
unfolding noted
noted_load entry ph a e = rw e

noted_skip : (entry : ℕ) (ph : Phdr) (a : Scan) → is_load ph ≡ false → noted entry ph a ≡ a
unfolding noted
noted_skip entry ph a e = rw e

noted_end :
    (entry file_size : ℕ) (ph : Phdr) (a : Scan)
    → (is_load ph ≡ true → IsSegment file_size ph)
    → (noted entry ph a).image_end
      ≡ max (if is_load ph then (ph.vaddr + ph.memsz + 4095) / 4096 * 4096 else 0) a.image_end
noted_end entry file_size ph a h = elim (Bool-cases (is_load ph)) [
  | inl e ↦
      rw e (ap (λ s. s.image_end) (noted_load entry ph a e) ∙ note_end entry file_size ph a (h e))
  | inr e ↦ rw e (ap (λ s. s.image_end) (noted_skip entry ph a e) ∙ omega arith)
]

noted_sound :
    (entry : ℕ) (ph : Phdr) (a : Scan)
    → (noted entry ph a).entry_ok ≡ true
    → Enters entry ph ⊎ (a.entry_ok ≡ true)
noted_sound entry ph a h = elim (Bool-cases (is_load ph)) [
  | inr e ↦ inr (ap (λ s. s.entry_ok) (sym (noted_skip entry ph a e)) ∙ h)
  | inl e ↦
      elim (if_true (entry_test entry ph) a.entry_ok (
        sym (note_entry_ok entry ph a)
        ∙ ap (λ s. s.entry_ok) (sym (noted_load entry ph a e))
        ∙ h)) [ inl y ↦ inl (entry_test_sound entry ph e y) | inr y ↦ inr y ]
]

noted_complete :
    (entry : ℕ) (ph : Phdr) (a : Scan)
    → Enters entry ph ⊎ (a.entry_ok ≡ true)
    → (noted entry ph a).entry_ok ≡ true
noted_complete entry ph a (inl h) =
    ap (λ s. s.entry_ok) (noted_load entry ph a h.0)
    ∙ note_entry_ok entry ph a
    ∙ true_if (entry_test entry ph) a.entry_ok (inl (entry_test_complete entry ph h))
noted_complete entry ph a (inr h) = elim (Bool-cases (is_load ph)) [
  | inr e ↦ ap (λ s. s.entry_ok) (noted_skip entry ph a e) ∙ h
  | inl e ↦
      ap (λ s. s.entry_ok) (noted_load entry ph a e)
      ∙ note_entry_ok entry ph a
      ∙ true_if (entry_test entry ph) a.entry_ok (inr h)
]

-- An entry point was only found in a segment.
abbrev FoundInSegment : Scan → Type 0
FoundInSegment a = a.entry_ok ≡ true → a.any_load ≡ true

noted-FoundInSegment :
    (entry : ℕ) (ph : Phdr) (a : Scan) → FoundInSegment a → FoundInSegment (noted entry ph a)
unfolding noted note_segment
noted-FoundInSegment entry ph a k h = ground arith

gather_end :
    (entry file_size : ℕ) (phs : List Phdr) (a : Scan)
    → AllSegments file_size phs
    → (gather entry phs a).image_end ≡ max (top_of phs) a.image_end
unfolding gather
gather_end entry file_size [] a h = omega arith
gather_end entry file_size (ph ∷ phs) a h = omega (
  arith,
  gather_end entry file_size phs (noted entry ph a) h.1,
  noted_end entry file_size ph a h.0,
)

gather_enters :
    (entry : ℕ) (phs : List Phdr) (a : Scan)
    → (gather entry phs a).entry_ok ≡ true
    → SomeEnters entry phs ⊎ (a.entry_ok ≡ true)
unfolding gather
gather_enters entry [] a h = inr h
gather_enters entry (ph ∷ phs) a h = elim (gather_enters entry phs (noted entry ph a) h) [
  | inl x ↦ inl (inr x)
  | inr x ↦ elim (noted_sound entry ph a x) [ inl y ↦ inl (inl y) | inr y ↦ inr y ]
]

gather_keeps :
    (entry : ℕ) (phs : List Phdr) (a : Scan)
    → SomeEnters entry phs ⊎ (a.entry_ok ≡ true)
    → (gather entry phs a).entry_ok ≡ true
unfolding gather
gather_keeps entry [] a (inl h) = absurd h
gather_keeps entry [] a (inr h) = h
gather_keeps entry (ph ∷ phs) a (inl (inr h)) = gather_keeps entry phs (noted entry ph a) (inl h)
gather_keeps entry (ph ∷ phs) a (inl (inl h)) =
    gather_keeps entry phs (noted entry ph a) (inr (noted_complete entry ph a (inl h)))
gather_keeps entry (ph ∷ phs) a (inr h) =
    gather_keeps entry phs (noted entry ph a) (inr (noted_complete entry ph a (inr h)))

gather-FoundInSegment :
    (entry : ℕ) (phs : List Phdr) (a : Scan)
    → FoundInSegment a
    → FoundInSegment (gather entry phs a)
unfolding gather
gather-FoundInSegment entry [] a k = k
gather-FoundInSegment entry (ph ∷ phs) a k =
    gather-FoundInSegment entry phs (noted entry ph a) (noted-FoundInSegment entry ph a k)

-- The program headers are accepted exactly if every loadable segment lies in the file and in user
-- memory, from a page boundary on, and an executable one holds the entry point; and then the result
-- is the page boundary behind the last segment.
pub check_program_iff :
    (entry file_size : ℕ) (phs : List Phdr) (image_end : ℕ)
    → (check_program entry file_size phs ≡ ok image_end)
      ↔ (AllSegments file_size phs × SomeEnters entry phs × (image_end ≡ top_of phs))
unfolding check_program
check_program_iff entry file_size phs image_end = (there, back)
  where
    start : Scan
    start = record { image_end = 0; entry_ok = false; any_load = false }

    there :
        check_program entry file_size phs ≡ ok image_end
        → AllSegments file_size phs × SomeEnters entry phs × (image_end ≡ top_of phs)
    there h = elim (Result-cases (check_phdrs entry file_size phs start)) [
      | inr (x, c) ↦ absurd (ground arith)
      | inl (b, c) ↦
          let (all, e) = check_phdrs_sound entry file_size phs start b c in
          let found : b.entry_ok ≡ true = ground arith in
          let is : image_end ≡ b.image_end = ground arith in
          elim (gather_enters entry phs start (ap (λ s. s.entry_ok) (sym e) ∙ found)) [
            | inr x ↦ absurd (cc)
            | inl x ↦ (
              all,
              x,
              omega (arith, is, ap (λ s. s.image_end) e, gather_end entry file_size phs start all),
            )
          ]
    ]

    back :
        AllSegments file_size phs × SomeEnters entry phs × (image_end ≡ top_of phs)
        → check_program entry file_size phs ≡ ok image_end
    back h =
        let found = gather_keeps entry phs start (inl h.1) in
        rw
          (
            check_phdrs_complete entry file_size phs start h.0,
            found,
            gather-FoundInSegment entry phs start (λ x. absurd (cc)) found,
          )
          (ap ok (gather_end entry file_size phs start h.0 ∙ omega arith))
