-- ===== src/Elf/Tests.antt =====
-- The loader at a small program file.
use nyxis_os.Base.{
  ℕ, ◌+◌, ◌≡◌, ◌≢◌, ◌↔◌, refl, ap, sym, subst, inl, inr, Bool, Option-cases, true, false, List, [],
  ◌∷◌, ◌++◌, Option, none, some, arith, ◌==◌, if◌then◌else◌, length, take, drop, replicate, ==_self,
  not-==-of-ne,
}
use nyxis_os.Base.Bytes.{bytes_of}
use nyxis_os.Base.Words.{page_size, align_up}
use nyxis_os.Base.Status.{Result, ok, err, already_exists, invalid_format}
use nyxis_os.Base.Effect.{Eff}
use nyxis_os.Elf.Format.{header_of_bytes, phdrs_of_bytes, check_program}
use nyxis_os.Elf.Segments.{AllSegments, SomeEnters, top_of}
use nyxis_os.Elf.Accepting.{check_program_iff}
use nyxis_os.Elf.Loading.{Sight, IsLoading}
use nyxis_os.Elf.Image.{image}
use nyxis_os.Elf.Loaded.{header_in, phdrs_in, elf_load_lem}
use nyxis_os.Elf.{Loader, elf_load}

-- One executable segment of three bytes at 0x10000, with two bytes of zeros behind it.
abbrev program : List ℕ
program =
    bytes_of 4 0x464c457f
    ++ (2 ∷ 1 ∷ 1 ∷ 0 ∷ bytes_of 8 0)
    ++ (bytes_of 2 2
        ++ (bytes_of 2 62
            ++ (bytes_of 4 1
                ++ (bytes_of 8 0x10000 ++ (bytes_of 8 64 ++ (bytes_of 8 0 ++ bytes_of 4 0))))))
    ++ (bytes_of 2 64 ++ (bytes_of 2 56 ++ (bytes_of 2 1 ++ bytes_of 6 0)))
    ++ (bytes_of 4 1
        ++ (bytes_of 4 5
            ++ (bytes_of 8 120
                ++ (bytes_of 8 0x10000 ++ (bytes_of 8 0 ++ (bytes_of 8 3 ++ bytes_of 8 5))))))
    ++ (bytes_of 8 4096 ++ (144 ∷ 144 ∷ 244 ∷ []))

record Bench : Type 0 where
  place : ℕ
  next : ℕ
  frame : ℕ → List ℕ
  loose : ℕ → Bool
  view : ℕ → Option (ℕ × List ℕ)

abbrev start : Bench
start = record { place = 0; next = 0; frame = λ p. []; loose = λ p. false; view = λ q. none }

abbrev update {ℓ} : {A : Type ℓ} → (ℕ → A) → ℕ → A → ℕ → A
update f p a q = if q == p then a else f q

abbrev map_page : ℕ → ℕ → ℕ → ℕ → Eff Bench (Unit {0})
map_page space p page flags s = elim (s.view page) [
  | some x ↦ (err already_exists, s)
  | none ↦ (ok tt, record s { view = update s.view page (some (flags, s.frame p)) })
]

abbrev bench : Loader Bench
bench = record {
  vfs_fstat = λ s. (ok (record { size = length program; kind = 1 }), s);
  set_offset = λ n s. record s { place = n };
  vfs_read = λ n s. (ok (take n (drop s.place program)), record s { place = s.place + n });
  pfa_alloc = λ s. (
    ok s.next,
    record s {
      next = s.next + 1;
      frame = update s.frame s.next (replicate page_size 0);
      loose = update s.loose s.next true;
    },
  );
  pfa_free = λ p s. record s { loose = update s.loose p false };
  put_bytes =
      λ p bytes s. record s { frame = update s.frame p (bytes ++ drop (length bytes) (s.frame p)) };
  paging_map_page = map_page;
}

abbrev sight : Sight Bench
sight = record {
  space = 1;
  content = program;
  place = λ s. s.place;
  frame = λ s. s.frame;
  loose = λ s. s.loose;
  view = λ s. s.view;
}

update_self {ℓ} : {A : Type ℓ} (f : ℕ → A) (p : ℕ) (a : A) → update f p a p ≡ a
update_self f p a = rw (==_self p)

update_ne {ℓ} : {A : Type ℓ} (f : ℕ → A) (p : ℕ) (a : A) (q : ℕ) → q ≢ p → update f p a q ≡ f q
update_ne f p a q ne = rw (not-==-of-ne q p ne)

from_ok {ℓ} : {A : Type ℓ} → A → Result A → A
from_ok a (ok b) = b
from_ok a (err e) = a

unok {ℓ} : {A : Type ℓ} {a b : A} → ok a ≡ ok b → a ≡ b
unfolding from_ok
unok {a} h = ap (from_ok a) h

map_page_shows :
    (space p page flags : ℕ) (s : Bench)
    → (map_page space p page flags s).0 ≡ ok tt
    → (s.view page ≡ none) × ((map_page space p page flags s).1.view page ≡ some (flags, s.frame p))
map_page_shows space p page flags s h = elim (Option-cases (s.view page)) [
  | inl e ↦ (e, rw (map_page, e) (update_self s.view page (some (flags, s.frame p))))
  | inr (x, e) ↦ absurd (ground arith)
]

map_page_keeps :
    (space p page flags : ℕ) (s : Bench) (q : ℕ)
    → q ≢ page
    → (map_page space p page flags s).1.view q ≡ s.view q
map_page_keeps space p page flags s q ne = elim (Option-cases (s.view page)) [
  | inl e ↦ rw (map_page, e) (update_ne s.view page (some (flags, s.frame p)) q ne)
  | inr (x, e) ↦ rw (map_page, e) refl
]

bench-IsLoading : IsLoading bench sight
bench-IsLoading = record {
  stat_size = λ s st e. ap (λ x. x.size) (sym (unok e));
  stat_keeps = λ s. record { views = λ q. refl; frames = λ p l. (l, refl) };
  set_keeps = λ n s. record { views = λ q. refl; frames = λ p l. (l, refl) };
  set_place = λ n s. refl;
  read_keeps = λ n s. record { views = λ q. refl; frames = λ p l. (l, refl) };
  read_gives = λ n s bytes e full. sym (unok e);
  alloc_keeps = λ s q. refl;
  alloc_gives = λ s p e.
      subst
        (λ x.
          (update s.loose s.next true x ≡ true)
          × (update s.frame s.next (replicate page_size 0) x ≡ replicate page_size 0))
        (unok e)
        (update_self s.loose s.next true, update_self s.frame s.next (replicate page_size 0));
  put_keeps = λ p bytes s q l. refl;
  puts = λ p bytes s l. (l, update_self s.frame p (bytes ++ drop (length bytes) (s.frame p)));
  maps = λ p page flags s l e. map_page_shows 1 p page flags s e;
  maps_one = λ p page flags s q ne. map_page_keeps 1 p page flags s q ne;
}

elf_load_lem_example :
    (0x10000 ≡ (header_in program).entry)
    × AllSegments 123 (phdrs_in program)
    × SomeEnters 0x10000 (phdrs_in program)
    × (0x11000 ≡ top_of (phdrs_in program))
    × ((q : ℕ) → (elf_load bench 1 start).1.view q ≡ image program (phdrs_in program) q)
unfolding elf_load align_up
elf_load_lem_example =
    elf_load_lem bench sight bench-IsLoading start (elf_load bench 1 start).1 0x10000 0x11000
      (λ q. refl) refl

check_program_iff_example : (check_program 0x10000 123 (phdrs_in program) ≡ ok 0x11000) ↔ (
    AllSegments 123 (phdrs_in program)
    × SomeEnters 0x10000 (phdrs_in program)
    × (0x11000 ≡ top_of (phdrs_in program)))
check_program_iff_example = check_program_iff 0x10000 123 (phdrs_in program) 0x11000

-- The entry point lies behind the segment.
no_entry : check_program 0x10005 123 (phdrs_in program) ≡ err invalid_format
unfolding check_program phdrs_of_bytes header_of_bytes align_up
no_entry = refl
