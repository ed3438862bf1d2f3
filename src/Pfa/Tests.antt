-- ===== src/Pfa/Tests.antt =====
-- The frame allocator at concrete inputs.
use nyxis_os.Base.{ℕ, ◌+◌, ◌≤◌, ◌<◌, ◌≡◌, ◌≢◌, ◌⊎◌, refl, true, false, List, [], ◌∷◌, arith}
use nyxis_os.Base.Members.{count}
use nyxis_os.Base.Words.{page_size, align_up, align_down}
use nyxis_os.Base.Status.{Result, ◌>>=◌, ok, err, invalid_arg}
use nyxis_os.Pfa.{
  Pfa, Layout, MemDesc, pfa_init, pfa_alloc, pfa_free, is_reserved, update, add_descs, add_desc,
  is_skipped, add_frames, add_one, push_free_locked, ranges_overlap,
}
use nyxis_os.Pfa.FreeList.{Holds}
use nyxis_os.Pfa.Calls.{alloc_lem, free_lem, free_refused}
use nyxis_os.Pfa.Owners.{
  World, Call, allocate, release, step, run, Splits, run-Splits, run_untouched,
}
use nyxis_os.Base.Members.{All}
use nyxis_os.Pfa.Safety.{IsSafe, pfa_init-IsSafe}
use nyxis_os.Pfa.Init.{init_lem, offered}

-- Two free frames, at 2 MiB and after.
abbrev two_frames : Pfa
two_frames = record {
  free_head = 0x200000;
  free_count = 2;
  initialized = true;
  word = update (λ a. 0) 0x200000 0x201000;
}

two_frames-Holds : Holds two_frames (0x200000 ∷ 0x201000 ∷ [])
two_frames-Holds = record { chain = omega arith; once = λ a. ground arith; counted = refl }

alloc_lem_example :
    (p' : Pfa) × (pfa_alloc two_frames ≡ ok (0x200000, p'))
    × Holds p' (0x201000 ∷ [])
    × ((a : ℕ) → 0x200000 ≤ a → a < 0x200000 + page_size → p'.word a ≡ 0)
    × ((a : ℕ) → (a < 0x200000) ⊎ (0x200000 + page_size ≤ a) → p'.word a ≡ two_frames.word a)
alloc_lem_example = alloc_lem two_frames 0x200000 (0x201000 ∷ []) two_frames-Holds

free_lem_example :
    (p' : Pfa) × (pfa_free two_frames 0x300000 ≡ ok p')
    × Holds p' (0x300000 ∷ 0x200000 ∷ 0x201000 ∷ [])
    × ((a : ℕ) → a ≢ 0x300000 → p'.word a ≡ two_frames.word a)
free_lem_example =
    free_lem two_frames 0x300000 (0x200000 ∷ 0x201000 ∷ []) two_frames-Holds (omega arith)
      (omega arith)

free_refused_example : pfa_free two_frames 0x200008 ≡ err invalid_arg
free_refused_example = free_refused two_frames 0x200008 (λ f. absurd (omega arith))

-- One frame held, two free.
abbrev world : World
world = record { pfa = two_frames; held = 0x300000 ∷ [] }

abbrev all_frames : List ℕ
all_frames = 0x300000 ∷ 0x200000 ∷ 0x201000 ∷ []

world-Splits : Splits world all_frames (0x200000 ∷ 0x201000 ∷ [])
world-Splits = record {
  holds = two_frames-Holds;
  frames = omega arith;
  total = λ a. ground arith;
  once = λ a. ground arith;
}

abbrev calls : List Call
calls = allocate ∷ release 0 ∷ []

run-Splits_example : (free' : List ℕ) × Splits (run world calls) all_frames free'
run-Splits_example = run-Splits world calls all_frames (0x200000 ∷ 0x201000 ∷ []) world-Splits

run_untouched_example : (run world calls).pfa.word 0x300008 ≡ 0
unfolding step pfa_alloc pfa_free
run_untouched_example =
    run_untouched world calls all_frames (0x200000 ∷ 0x201000 ∷ []) 0x300000 0x300008 world-Splits
      (omega arith) (omega arith) (omega arith) (omega arith)

-- A kernel of one page at 1 MiB and an initrd of one page at 2 MiB.
abbrev layout : Layout
layout = record {
  kernel_start = 0x100000;
  kernel_end = 0x101000;
  initrd_start = 0x200000;
  initrd_end = 0x201000;
  hhdm_limit = 0x300000;
}

abbrev memory_map : List MemDesc
memory_map =
    record { conventional = true; phys_start = 0xff000; num_pages = 4 }
    ∷ record { conventional = true; phys_start = 0x2fe800; num_pages = 2 }
    ∷ record { conventional = false; phys_start = 0x400000; num_pages = 2 }
    ∷ []

abbrev unset : Pfa
unset = record { free_head = 0; free_count = 0; initialized = false; word = λ a. 0 }

init_lem_example :
    (p' : Pfa) × (free : List ℕ) × (pfa_init layout memory_map unset ≡ ok p')
    × Holds p' free
    × ((a : ℕ) → count a free ≡ offered layout memory_map a)
init_lem_example = init_lem layout memory_map unset refl (omega arith) (λ a. ground arith)

pfa_init-IsSafe_example :
    (p' : Pfa) × (free : List ℕ) × (pfa_init layout memory_map unset ≡ ok p')
    × Holds p' free
    × All (IsSafe layout memory_map) free
pfa_init-IsSafe_example =
    pfa_init-IsSafe layout memory_map unset refl (omega arith) (λ a. ground arith)

abbrev first : Pfa → Result ℕ
first p = pfa_alloc p >>= λ r. ok r.0

-- The last frame of the map is the first to be given out.
init_runs : (pfa_init layout memory_map unset >>= λ p. first p) ≡ ok 0x2ff000
unfolding pfa_init pfa_alloc add_descs add_desc is_skipped add_frames add_one is_reserved
    push_free_locked ranges_overlap align_up align_down
init_runs = refl
