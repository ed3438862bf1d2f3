-- ===== src/Pfa/Owners.antt =====
-- The allocator and the frames that its callers hold, over any history of calls in which a caller
-- frees only what it holds.
use nyxis_os.Base.{
  ℕ, ◌+◌, ◌≤◌, ◌<◌, ◌≡◌, ◌⊎◌, refl, ◌∙◌, List, [], ◌∷◌, arith, inl, inr, some, none, get_elem?,
  Option-cases,
}
use nyxis_os.Base.Members.{
  All, NotIn-of-count, count, remove_at, count-remove_at, All-remove_at, All-get_elem?,
}
use native.Mathlib.Decide.{ℕ_discrete, dec_lt}
use nyxis_os.Base.Words.{page_size}
use nyxis_os.Base.Status.{ok, err}
use nyxis_os.Pfa.{Pfa, pfa_alloc, pfa_free}
use nyxis_os.Pfa.FreeList.{IsFrame, Holds}
use nyxis_os.Pfa.Calls.{alloc_empty, alloc_lem, free_lem}

pub data Call : Type 0 where
  allocate : Call
  -- of the frame at that place among those that are held
  release : ℕ → Call

-- The allocator, with the frames that have been given out and not come back.
pub record World : Type 0 where
  pub pfa : Pfa
  pub held : List ℕ

unfoldable pub step : World → Call → World
step w allocate = elim (pfa_alloc w.pfa) [
  | ok r ↦ record { pfa = r.1; held = r.0 ∷ w.held }
  | err e ↦ w
]
step w (release i) = elim (get_elem? w.held i) [
  | none ↦ w
  | some x ↦ elim (pfa_free w.pfa x) [
    | ok p ↦ record { pfa = p; held = remove_at w.held i }
    | err e ↦ w
  ]
]

pub run : World → List Call → World
run w [] = w
run w (c ∷ cs) = run (step w c) cs

-- The frames are those of `all`: each is free or held, and never both, nor held twice.
pub record Splits (w : World) (all : List ℕ) (free : List ℕ) : Type 0 where
  pub holds : Holds w.pfa free
  pub frames : All IsFrame w.held
  pub total : (a : ℕ) → count a w.held + count a free ≡ count a all
  pub once : (a : ℕ) → count a all ≤ 1

-- A call keeps the split, with another list of free frames.
step-Splits :
    (w : World) (c : Call) (all free : List ℕ)
    → Splits w all free
    → (free' : List ℕ) × Splits (step w c) all free'
unfolding step
step-Splits w allocate all [] v = ([], rw (alloc_empty w.pfa v.holds, step) v)
step-Splits w allocate all (x ∷ free) v =
    let (p, e, holds, _, _) = alloc_lem w.pfa x free v.holds in
    (
      free,
      rw (e, step)
          record {
            holds = holds;
            frames = (v.holds.chain.1, v.frames);
            total = λ a. ground (arith, v.total a);
            once = v.once;
          },
    )
step-Splits w (release i) all free v = elim (Option-cases (get_elem? w.held i)) [
  | inl n ↦ (free, rw (n, step) v)
  | inr (x, at) ↦
      let frame = All-get_elem? IsFrame w.held i v.frames at in
      let absent =
        NotIn-of-count x free
          (ground (arith, v.total x, v.once x, count-remove_at x w.held i at)) in
      let (p, e, holds, _) = free_lem w.pfa x free v.holds frame absent in
      (
        x ∷ free,
        rw (at, step, e)
            record {
              holds = holds;
              frames = All-remove_at IsFrame w.held i v.frames;
              total = λ a. ground (arith, v.total a, count-remove_at a w.held i at);
              once = v.once;
            },
      )
]

-- Over any history of calls the frames stay the same, each free or held: none is lost, and none is
-- given out while it is held.
pub run-Splits :
    (w : World) (cs : List Call) (all free : List ℕ)
    → Splits w all free
    → (free' : List ℕ) × Splits (run w cs) all free'
unfolding run
run-Splits w [] all free v = (free, v)
run-Splits w (c ∷ cs) all free v =
    let (free', v') = step-Splits w c all free v in run-Splits (step w c) cs all free' v'

-- The frame `x` is held before and after each of the calls.
abbrev pub StaysHeld : ℕ → World → List Call → Type 0
StaysHeld x w [] = 0 < count x w.held
StaysHeld x w (c ∷ cs) = (0 < count x w.held) × StaysHeld x (step w c) cs

held_now : (x : ℕ) (w : World) (cs : List Call) → StaysHeld x w cs → 0 < count x w.held
held_now x w [] h = h
held_now x w (c ∷ cs) h = h.0

step_untouched :
    (w : World) (c : Call) (all free : List ℕ) (x a : ℕ)
    → Splits w all free
    → IsFrame x
    → 0 < count x w.held
    → 0 < count x (step w c).held
    → x ≤ a
    → a < x + page_size
    → (step w c).pfa.word a ≡ w.pfa.word a
unfolding step
step_untouched w allocate all [] x a v fr h h' lo hi = rw (alloc_empty w.pfa v.holds, step)
step_untouched w allocate all (y ∷ free) x a v fr h h' lo hi =
    let (p, e, _, _, same) = alloc_lem w.pfa y free v.holds in
    rw (e, step) (same a (apart (v.holds.chain.1) (v.total x) (v.once x)))
  where
    apart :
        IsFrame y
        → count x w.held + count x (y ∷ free) ≡ count x all
        → count x all ≤ 1
        → (a < y) ⊎ (y + page_size ≤ a)
    apart f t o = elim (ℕ_discrete y x) [
      | yes e ↦ absurd (ground arith)
      | no e ↦ elim (dec_lt a y) [ yes p ↦ inl p | no p ↦ inr (omega arith) ]
    ]
step_untouched w (release i) all free x a v fr h h' lo hi =
    elim (Option-cases (get_elem? w.held i)) [
      | inl n ↦ rw (n, step)
      | inr (y, at) ↦
          let frame = All-get_elem? IsFrame w.held i v.frames at in
          let absent =
            NotIn-of-count y free
              (ground (arith, v.total y, v.once y, count-remove_at y w.held i at)) in
          let (p, e, holds, same) = free_lem w.pfa y free v.holds frame absent in
          let still : 0 < count x (remove_at w.held i) = released p at e in
          rw (at, step, e)
            (same a (λ hit. ground (arith, v.total x, v.once x, count-remove_at x w.held i at)))
    ]
  where
    released :
        (p : Pfa) {y : ℕ}
        → get_elem? w.held i ≡ some y
        → pfa_free w.pfa y ≡ ok p
        → 0 < count x (remove_at w.held i)
    released p at e = rw (at, step, e) at h'

-- While a frame is held, no other call changes a word of it.
pub run_untouched :
    (w : World) (cs : List Call) (all free : List ℕ) (x a : ℕ)
    → Splits w all free
    → IsFrame x
    → StaysHeld x w cs
    → x ≤ a
    → a < x + page_size
    → (run w cs).pfa.word a ≡ w.pfa.word a
unfolding run
run_untouched w [] all free x a v fr h lo hi = refl
run_untouched w (c ∷ cs) all free x a v fr h lo hi =
    let (free', v') = step-Splits w c all free v in
    run_untouched (step w c) cs all free' x a v' fr h.1 lo hi
    ∙ step_untouched w c all free x a v fr h.0 (held_now x (step w c) cs h.1) lo hi
