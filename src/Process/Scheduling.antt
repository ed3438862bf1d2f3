-- ===== src/Process/Scheduling.antt =====
-- What `schedule` does to a well-formed table.
use nyxis_os.Base.{
  ℕ, ◌<◌, ◌≡◌, ◌≢◌, ◌⊎◌, refl, ap, subst, sym, ◌∙◌, true, false, Option, none, some, List, [], ◌∷◌,
  ◌++◌, arith, inl, inr, length, Option-cases,
}
use nyxis_os.Base.Members.{All-append, In, unsome}
use nyxis_os.Process.{Process, World, Machine, at}
use nyxis_os.Process.Sched.{run_next, schedule}
use nyxis_os.Process.Queue.{Linked, Distinct-split}
use nyxis_os.Process.Picking.{first_runnable, chosen, sched_pick_next_lem}
use nyxis_os.Process.Invariant.{WellFormed, NotIn-In}
use nyxis_os.Process.Stays.{WellFormed-Stays}
use nyxis_os.Process.Switching.{
  first_runnable-In, Switched, switched-Stays, length-switched, switched_new, switched_other,
  switched_old, switched_alone, gone_on, run_chosen, schedule_is,
}

-- The list, taken apart at the current process `c`.
pub record Around {Env : Type 0} (w : World Env) (before : List ℕ) (c : ℕ) (after : List ℕ)
    : Type 0 where
  pub well_formed : WellFormed w (before ++ c ∷ after)
  pub here : w.current ≡ some c

pub In-around :
    (i c : ℕ) (before after : List ℕ) → In i (after ++ before) → In i (before ++ c ∷ after)
In-around i c before after h = elim (In-either i after before h) [
  | inl k ↦ right i c before after k
  | inr k ↦ left i c before after k
]
  where
    In-either : (i : ℕ) (xs ys : List ℕ) → In i (xs ++ ys) → In i xs ⊎ In i ys
    In-either i [] ys h = inr h
    In-either i (x ∷ xs) ys (inl e) = inl (inl e)
    In-either i (x ∷ xs) ys (inr h) = elim (In-either i xs ys h) [
      | inl k ↦ inl (inr k)
      | inr k ↦ inr k
    ]

    right : (i c : ℕ) (xs ys : List ℕ) → In i ys → In i (xs ++ c ∷ ys)
    right i c [] ys k = inr k
    right i c (x ∷ xs) ys k = inr (right i c xs ys k)

    left : (i c : ℕ) (xs ys : List ℕ) → In i xs → In i (xs ++ c ∷ ys)
    left i c [] ys k = absurd k
    left i c (x ∷ xs) ys (inl e) = inl e
    left i c (x ∷ xs) ys (inr k) = inr (left i c xs ys k)

In-current : (c : ℕ) (before after : List ℕ) → In c (before ++ c ∷ after)
In-current c [] after = inl refl
In-current c (x ∷ xs) after = inr (In-current c xs after)

pub Linked-In :
    (ps : List Process) (o : Option ℕ) (order : List ℕ) (i : ℕ)
    → Linked ps o order
    → In i order
    → i < length ps
Linked-In ps o [] i l h = absurd h
Linked-In ps o (x ∷ xs) i l (inl e) = omega (arith, l.1)
Linked-In ps o (x ∷ xs) i l (inr h) = Linked-In ps (at ps x).next xs i l.2 h

module _ {Env : Type 0} (m : Machine Env) (now : ℕ) (w : World Env) (before : List ℕ) (c : ℕ)
    (after : List ℕ) where
  -- Another process runs, or there is none that can.
  abbrev pub ScheduleOutcome : Type 0
  ScheduleOutcome =
      ((i : ℕ) × (first_runnable now w.procs (after ++ before) ≡ some i)
        × ((schedule m now w).0 ≡ true)
        × Switched m w c i (schedule m now w).1
        × WellFormed (schedule m now w).1 (before ++ c ∷ after))
      ⊎ ((first_runnable now w.procs (after ++ before) ≡ none) × (schedule m now w ≡ (false, w)))

  run_none : run_next m w (chosen now w.procs none) ≡ (false, w)
  unfolding run_next
  run_none = refl

  module _ (a : Around w before c after) (i : ℕ) (ne : i ≢ c)
      (member : In i (before ++ c ∷ after)) where
    lt : i < length w.procs
    lt = Linked-In w.procs w.head (before ++ c ∷ after) i a.well_formed.linked member

    lt_c : c < length w.procs
    lt_c =
        Linked-In w.procs w.head (before ++ c ∷ after) c a.well_formed.linked
          (In-current c before after)

    gone_on-Switched : Switched m w c i (gone_on m now w c a.here i)
    gone_on-Switched = record {
      now_current = refl;
      now_running = switched_new now w.procs c i ne lt lt_c;
      put_back_ready = switched_old now w.procs c i ne lt lt_c;
      others = switched_other now w.procs c i ne lt lt_c;
      address_space = refl;
      same_env = refl;
    }

    gone_on-WellFormed : WellFormed (gone_on m now w c a.here i) (before ++ c ∷ after)
    gone_on-WellFormed =
        let f = a.well_formed in
        WellFormed-Stays w (gone_on m now w c a.here i) (before ++ c ∷ after) i f
          (length-switched now w.procs c i ne lt lt_c) (switched-Stays now w.procs c i ne lt lt_c)
          refl refl member
          (λ j h.
            switched_alone now w.procs c i ne lt lt_c j (λ r. unsome (sym (f.alone j r) ∙ a.here))
              h)

  -- On a well-formed table `schedule` switches to the first process that can run behind the current
  -- one, around the list, with its address space; a running process goes back to ready, and the
  -- table stays well formed, with only the new process running. If no other can run, nothing changes.
  pub schedule_lem : Around w before c after → ScheduleOutcome
  schedule_lem a =
      let f = a.well_formed in
      let order = before ++ c ∷ after in
      let pick = sched_pick_next_lem now c w.head w.procs before after f.linked f.distinct in
      let head : w.head ≡ some 0 = (subst (Linked w.procs w.head) f.first.1 f.linked).0 in
      let whole = schedule_is m now w c a.here 0 head ∙ ap (run_next m w) pick in
      elim (Option-cases (first_runnable now w.procs (after ++ before))) [
        | inl e ↦ inr (e, whole ∙ ap (λ o. run_next m w (chosen now w.procs o)) e ∙ run_none)
        | inr (i, e) ↦
            let (member, can) = first_runnable-In now w.procs (after ++ before) i e in
            let member' = In-around i c before after member in
            let (out, out', rest) = Distinct-split before after c f.distinct in
            let ne : i ≢ c = λ same.
              NotIn-In c (after ++ before) (All-append _ after before out' out)
                (subst (λ k. In k (after ++ before)) same member) in
            let goes : schedule m now w ≡ (true, gone_on m now w c a.here i) =
              whole
              ∙ ap (λ o. run_next m w (chosen now w.procs o)) e
              ∙ run_chosen m now w c a.here i (lt a i ne member') ne can in
            inl (
              i,
              e,
              ap (λ r. r.0) goes,
              subst (Switched m w c i) (sym (ap (λ r. r.1) goes)) (gone_on-Switched a i ne member'),
              subst (λ v. WellFormed v order) (sym (ap (λ r. r.1) goes))
                  (gone_on-WellFormed a i ne member'),
            )
      ]
