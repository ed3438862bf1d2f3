-- ===== src/Process/Turns.antt =====
-- Fairness of the round robin: a ready process gets its turn.
use native.Mathlib.Decide.{ℕ_discrete}
use mathlib.Core.List.{append_assoc}
use nyxis_os.Base.{
  ℕ, ◌<◌, ◌≡◌, ◌≢◌, ◌⊎◌, refl, ap, subst, sym, ◌∙◌, true, Option, none, some, List, [], ◌∷◌, ◌++◌,
  drop, get_or, arith, inl, inr, length, length-append, Bool-cases,
}
use nyxis_os.Base.Members.{All-append, In, unsome}
use nyxis_os.Process.{Process, ready, World, Machine, at}
use nyxis_os.Process.Sched.{schedule}
use nyxis_os.Process.Queue.{Distinct-split}
use nyxis_os.Process.Picking.{runnable, first_runnable}
use nyxis_os.Process.Invariant.{WellFormed, All-In, NotIn-In}
use nyxis_os.Process.Scheduling.{Around, schedule_lem, In-around}

-- Two ways to take the same list apart.
Cuts : List ℕ → List ℕ → List ℕ → ℕ → List ℕ → Type 0
Cuts as' bs xs i rest =
    ((more : List ℕ) × (as' ≡ xs ++ i ∷ more) × (rest ≡ more ++ bs))
    ⊎ ((more : List ℕ) × (xs ≡ as' ++ more) × (bs ≡ more ++ i ∷ rest))

cut :
    (as' bs xs : List ℕ) (i : ℕ) (rest : List ℕ)
    → as' ++ bs ≡ xs ++ i ∷ rest
    → Cuts as' bs xs i rest
unfolding Cuts
cut [] bs xs i rest e = inr (xs, refl, e)
cut (a ∷ as') bs [] i rest e =
    inl (as', ap (λ k. k ∷ as') (ap (λ l. get_or l 0 0) e), sym (ap (drop 1) e))
cut (a ∷ as') bs (x ∷ xs) i rest e =
    let same = ap (λ l. get_or l 0 0) e in
    elim (cut as' bs xs i rest (ap (drop 1) e)) [
      | inl (more, k, l) ↦ inl (more, ap (λ z. a ∷ z) k ∙ ap (λ z. z ∷ (xs ++ i ∷ more)) same, l)
      | inr (more, k, l) ↦ inr (more, ap (λ z. x ∷ z) k ∙ ap (λ z. z ∷ (as' ++ more)) (sym same), l)
    ]

-- The list around another process of it.
rotate :
    (before after xs rest : List ℕ) (c i : ℕ)
    → after ++ before ≡ xs ++ i ∷ rest
    → (before' : List ℕ) × (after' : List ℕ) × (before ++ c ∷ after ≡ before' ++ i ∷ after')
      × (after' ++ before' ≡ rest ++ c ∷ xs)
unfolding Cuts
rotate before after xs rest c i e = elim (cut after before xs i rest e) [
  | inl (more, k, l) ↦ (
    before ++ c ∷ xs,
    more,
    ap (λ z. before ++ c ∷ z) k ∙ sym (append_assoc before (c ∷ xs) (i ∷ more)),
    sym (append_assoc more before (c ∷ xs)) ∙ ap (λ z. z ++ c ∷ xs) (sym l),
  )
  | inr (more, k, l) ↦ (
    more,
    rest ++ c ∷ after,
    ap (λ z. z ++ c ∷ after) l ∙ append_assoc more (i ∷ rest) (c ∷ after),
    append_assoc rest (c ∷ after) more ∙ ap (λ z. rest ++ c ∷ z) (sym k),
  )
]

-- The first process that can run stands no later than one that can.
first_no_later :
    (now : ℕ) (ps : List Process) (xs ys : List ℕ) (q i : ℕ)
    → runnable now (at ps q) ≡ true
    → first_runnable now ps (xs ++ q ∷ ys) ≡ some i
    → (i ≡ q) ⊎ ((xs1 : List ℕ) × (xs2 : List ℕ) × (xs ≡ xs1 ++ i ∷ xs2))
first_no_later now ps [] ys q i can e = inl (sym (unsome (rw can at e)))
first_no_later now ps (x ∷ xs) ys q i can e = elim (Bool-cases (runnable now (at ps x))) [
  | inl h ↦ inr ([], xs, ap (λ k. k ∷ xs) (unsome (rw h at e)))
  | inr h ↦ elim (first_no_later now ps xs ys q i can (rw h at e)) [
    | inl s ↦ inl s
    | inr (xs1, xs2, s) ↦ inr (x ∷ xs1, xs2, ap (λ z. x ∷ z) s)
  ]
]

first_some :
    (now : ℕ) (ps : List Process) (xs ys : List ℕ) (q : ℕ)
    → runnable now (at ps q) ≡ true
    → first_runnable now ps (xs ++ q ∷ ys) ≢ none
first_some now ps [] ys q can e = some-none (rw can at e)
  where
    some-none : {k : ℕ} → ◌≢◌ {A = Option ℕ} (some k) none
    some-none e = cc
first_some now ps (x ∷ xs) ys q can e = elim (Bool-cases (runnable now (at ps x))) [
  | inl h ↦ some-none (rw h at e)
  | inr h ↦ first_some now ps xs ys q can (rw h at e)
]
  where
    some-none : {k : ℕ} → ◌≢◌ {A = Option ℕ} (some k) none
    some-none e = cc

-- One call of `schedule` after another, at these ticks.
unfoldable pub run_schedule : {Env : Type 0} → Machine Env → List ℕ → World Env → World Env
run_schedule m [] w = w
run_schedule m (t ∷ ts) w = run_schedule m ts (schedule m t w).1

ready-runnable : (now : ℕ) (p : Process) → p.in_use ≡ true → p.state ≡ ready → runnable now p ≡ true
ready-runnable now p u r = rw (u, r) refl

In-middle : (xs ys : List ℕ) (q : ℕ) → In q (xs ++ q ∷ ys)
In-middle [] ys q = inl refl
In-middle (x ∷ xs) ys q = inr (In-middle xs ys q)

module _ {Env : Type 0} (m : Machine Env) where
  -- After one of the calls `q` is the current process.
  abbrev pub GetsTurn : World Env → ℕ → List ℕ → Type 0
  GetsTurn w q ticks =
      (used : List ℕ) × (rest : List ℕ) × (ticks ≡ used ++ rest)
      × ((run_schedule m used w).current ≡ some q)

  first_call :
      (w : World Env) (q t : ℕ) (ts : List ℕ)
      → (schedule m t w).1.current ≡ some q
      → GetsTurn w q (t ∷ ts)
  unfolding run_schedule
  first_call w q t ts e = (t ∷ [], ts, refl, e)

  later_call :
      (w : World Env) (q t : ℕ) (ts : List ℕ)
      → GetsTurn (schedule m t w).1 q ts
      → GetsTurn w q (t ∷ ts)
  unfolding run_schedule
  later_call w q t ts (used, rest, e, h) = (t ∷ used, rest, ap (λ z. t ∷ z) e, h)

  -- A ready process gets its turn: if `n` processes stand between the current one and it, going
  -- around the list, one of any `n + 1` calls of `schedule` makes it the current process, whatever
  -- the ticks at which they are made.
  pub ready-GetsTurn :
      (ticks : List ℕ) (w : World Env) (before : List ℕ) (c : ℕ) (after xs ys : List ℕ) (q : ℕ)
      → Around w before c after
      → after ++ before ≡ xs ++ q ∷ ys
      → (at w.procs q).state ≡ ready
      → length xs < length ticks
      → GetsTurn w q ticks
  ready-GetsTurn [] w before c after xs ys q a ring waits enough = absurd (omega arith)
  ready-GetsTurn (t ∷ ts) w before c after xs ys q a ring waits enough =
      let f = a.well_formed in
      let member = In-around q c before after (subst (In q) (sym ring) (In-middle xs ys q)) in
      let can = ready-runnable t (at w.procs q) (All-In _ q _ f.used member) waits in
      let (out, out', rest) = Distinct-split before after c f.distinct in
      let ne : q ≢ c = λ same.
        NotIn-In c (after ++ before) (All-append _ after before out' out) (
          subst (λ k. In k (after ++ before)) same (subst (In q) (sym ring) (In-middle xs ys q))) in
      elim (schedule_lem m t w before c after a) [
        | inr (none_can, same) ↦
            absurd (
              first_some t w.procs xs ys q can
                (ap (first_runnable t w.procs) (sym ring) ∙ none_can))
        | inl (i, choice, did, s, keeps) ↦
            elim (first_no_later t w.procs xs ys q i can
              (ap (first_runnable t w.procs) (sym ring) ∙ choice)) [
                | inl same ↦ first_call w q t ts (s.now_current ∙ ap some same)
                | inr (xs1, xs2, shape) ↦ elim (ℕ_discrete q i) [
                  | yes same ↦ first_call w q t ts (s.now_current ∙ ap some (sym same))
                  | no other ↦
                      let split =
                        ring ∙ ap (λ z. z ++ q ∷ ys) shape ∙ append_assoc xs1 (i ∷ xs2) (q ∷ ys) in
                      let (before', after', order, ring') =
                        rotate before after xs1 (xs2 ++ q ∷ ys) c i split in
                      let w' = (schedule m t w).1 in
                      let a' : Around w' before' i after' = record {
                        well_formed = subst (WellFormed w') order keeps;
                        here = s.now_current;
                      } in
                      later_call w q t ts (
                        ready-GetsTurn ts w' before' i after' xs2 (ys ++ c ∷ xs1) q a'
                          (ring' ∙ append_assoc xs2 (q ∷ ys) (c ∷ xs1))
                          (ap (λ (p : Process). p.state) (s.others q other ne) ∙ waits)
                          (omega (arith, ap length shape, length-append xs1 (i ∷ xs2))))
                ]
              ]
      ]
