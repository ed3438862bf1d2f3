-- ===== src/Process/Ending.antt =====
-- Ending, sleeping and choosing keep the table well formed.
use native.Mathlib.Decide.{ℕ_discrete}
use nyxis_os.Base.{
  ℕ, ◌≡◌, ◌≢◌, ◌⊎◌, refl, ap, subst, sym, ◌∙◌, true, false, Option, none, some, List, [], ◌∷◌, ◌++◌,
  set, ◌==◌, inl, inr, length, length-set, Bool-cases,
}
use nyxis_os.Base.Members.{In, unsome}
use nyxis_os.Base.Status.{Error, kernel_fault}
use nyxis_os.Handles.{nx_handles_close_all}
use nyxis_os.Process.{
  Process, running, terminated, is_terminated, is_blocked, is_at, World, Machine, at, blank_process,
}
use nyxis_os.Process.Sched.{schedule}
use nyxis_os.Process.Life.{
  process_reap, Outcome, returns, switches, panics, find_pid, mark_terminated, terminate_found,
  process_terminate, or_panic, leave_code, exit_from, process_exit_with_code, after_sleep,
  fall_asleep, sleep_from, process_sleep_ticks,
}
use nyxis_os.Process.Queue.{get_or-set_ne}
use nyxis_os.Process.Taking.{kept}
use nyxis_os.Process.Invariant.{WellFormed, process_reap-WellFormed}
use nyxis_os.Process.Stays.{Stays, Stays-refl, WellFormed-Stays, at-set-related}
use nyxis_os.Process.Scheduling.{schedule_lem}

-- The table is well formed, in some order.
abbrev pub Sound : {Env : Type 0} → World Env → Type 0
Sound w = (order : List ℕ) × WellFormed w order

In-split :
    (c : ℕ) (order : List ℕ)
    → In c order
    → (before : List ℕ) × (after : List ℕ) × (order ≡ before ++ c ∷ after)
In-split c [] h = absurd h
In-split c (x ∷ xs) (inl e) = ([], xs, ap (λ k. k ∷ xs) (sym e))
In-split c (x ∷ xs) (inr h) =
    let (before, after, e) = In-split c xs h in (x ∷ before, after, ap (λ z. x ∷ z) e)

-- A change of one process that leaves its place, and makes it run only if it is the current one.
set-Sound :
    {Env : Type 0} (w w' : World Env) (i : ℕ) (p : Process)
    → Sound w
    → w'.procs ≡ set w.procs i p
    → w'.head ≡ w.head
    → w'.current ≡ w.current
    → Stays p (at w.procs i)
    → (p.state ≡ running → w.current ≡ some i)
    → Sound w'
set-Sound w w' i p (order, f) table head now s runs =
    let (c, here, in_order) = f.runs in
    let stays : (j : ℕ) → Stays (at w'.procs j) (at w.procs j) = λ j.
      subst (λ ps. Stays (at ps j) (at w.procs j)) (sym table)
        (at-set-related Stays w.procs i p Stays-refl s j) in
    (
      order,
      WellFormed-Stays w w' order c f (ap length table ∙ length-set w.procs i p) stays head
          (now ∙ here) in_order
          (λ j h. unsome (sym (lone j (subst (λ ps. (at ps j).state ≡ running) table h)) ∙ here)),
    )
  where
    lone : (j : ℕ) → (at (set w.procs i p) j).state ≡ running → w.current ≡ some j
    lone j h = elim (ℕ_discrete j i) [
      | no ne ↦
          f.alone j
            (sym (ap (λ (q : Process). q.state) (get_or-set_ne w.procs i j p blank_process ne)) ∙ h)
      | yes e ↦
          elim (at-set-related
            (λ q r. q.state ≡ running → (r.state ≡ running) ⊎ (w.current ≡ some i)) w.procs i p
            (λ q g. inl g) (λ g. inr (runs g)) j h) [
              | inl g ↦ f.alone j g
              | inr g ↦ g ∙ ap some (sym e)
            ]
    ]

module _ {Env : Type 0} (m : Machine Env) where
  pub schedule-Sound : (now : ℕ) (w : World Env) → Sound w → Sound (schedule m now w).1
  schedule-Sound now w (order, f) =
      let (c, here, in_order) = f.runs in
      let (before, after, e) = In-split c order in_order in
      elim (schedule_lem m now w before c after
        (record { well_formed = subst (WellFormed w) e f; here = here })) [
          | inl (i, choice, did, s, keeps) ↦ (before ++ c ∷ after, keeps)
          | inr (n, same) ↦ (order, subst (λ r. WellFormed r.1 order) (sym same) f)
        ]

  pub process_reap-Sound : (w : World Env) → Sound w → Sound (process_reap m w)
  process_reap-Sound w (order, f) =
      (kept w.current w.procs order, process_reap-WellFormed m w order f)

  mark_terminated-Sound : (i : ℕ) (w : World Env) → Sound w → Sound (mark_terminated m i w)
  unfolding mark_terminated
  mark_terminated-Sound i w s =
      let p = at w.procs i in
      let closed = nx_handles_close_all m.vfs_close p.handles w.env in
      set-Sound w (mark_terminated m i w) i (record p { handles = closed.0; state = terminated }) s
        refl refl refl (record { next = refl; in_use = refl; pid = refl }) (λ e. cc)

  terminate_found-Sound :
      (now : ℕ) (w : World Env) (o : Option ℕ) → Sound w → Sound (terminate_found m now w o).1
  unfolding terminate_found
  terminate_found-Sound now w none s = s
  terminate_found-Sound now w (some i) s =
      let marked = mark_terminated m i w in
      let after = schedule-Sound now marked (mark_terminated-Sound i w s) in
      elim (Bool-cases (is_terminated (at w.procs i).state)) [
        | inl e ↦ rw e s
        | inr e ↦ rw e (elim (Bool-cases (is_at w.current i)) [
          | inl here ↦ rw here (elim (Bool-cases (schedule m now marked).0) [
            | inl b ↦ rw b after
            | inr b ↦ rw b after
          ])
          | inr here ↦ rw here (process_reap-Sound marked (mark_terminated-Sound i w s))
        ])
      ]

  pub process_terminate-Sound :
      (now pid : ℕ) (w : World Env) → Sound w → Sound (process_terminate m now pid w).1
  unfolding process_terminate
  process_terminate-Sound now pid w s = elim (Bool-cases (pid == 0)) [
    | inl e ↦ rw e s
    | inr e ↦ rw e (terminate_found-Sound now w (find_pid (length w.procs) pid w.head w.procs) s)
  ]

  or_panic-Sound : (e : Error) (r : Outcome × World Env) → Sound r.1 → Sound (or_panic e r).1
  or_panic-Sound e (returns r, w) s = s
  or_panic-Sound e (switches, w) s = s
  or_panic-Sound e (panics r, w) s = s

  exit_from-Sound :
      (now code : ℕ) (w : World Env) (o : Option ℕ) → Sound w → Sound (exit_from m now code w o).1
  unfolding exit_from leave_code
  exit_from-Sound now code w none s = s
  exit_from-Sound now code w (some i) s = elim (Bool-cases ((at w.procs i).pid == 0)) [
    | inl e ↦ rw e s
    | inr e ↦ rw e (
        or_panic-Sound kernel_fault _ (
          process_terminate-Sound now (at w.procs i).pid (leave_code i code w) (
            set-Sound w (leave_code i code w) i (record (at w.procs i) { exit_code = code }) s refl
              refl refl (record { next = refl; in_use = refl; pid = refl }) (λ r. s.1.alone i r))))
  ]

  pub process_exit_with_code-Sound :
      (now code : ℕ) (w : World Env) → Sound w → Sound (process_exit_with_code m now code w).1
  unfolding process_exit_with_code
  process_exit_with_code-Sound now code w s = exit_from-Sound now code w w.current s

  pub after_sleep-Sound :
      (i : ℕ) (w : World Env) → w.current ≡ some i → Sound w → Sound (after_sleep i w).1
  unfolding after_sleep
  after_sleep-Sound i w here s = elim (Bool-cases (is_blocked (at w.procs i).state)) [
    | inl e ↦ rw e (
        set-Sound w _ i (record (at w.procs i) { state = running; wake_tick = 0 }) s refl refl refl
          (record { next = refl; in_use = refl; pid = refl }) (λ r. here))
    | inr e ↦ rw e s
  ]

  stays_put :
      (now : ℕ) (w : World Env) → Sound w → (schedule m now w).0 ≡ false → (schedule m now w).1 ≡ w
  stays_put now w (order, f) e =
      let (c, here, in_order) = f.runs in
      let (before, after, shape) = In-split c order in_order in
      elim (schedule_lem m now w before c after
        (record { well_formed = subst (WellFormed w) shape f; here = here })) [
          | inl (i, choice, did, s, keeps) ↦ absurd (true_false (sym did ∙ e))
          | inr (n, same) ↦ ap (λ r. r.1) same
        ]
    where
      true_false : true ≢ false
      true_false e = cc

  fall_asleep-Sound :
      (i now ticks : ℕ) (w : World Env) → Sound w → Sound (fall_asleep i now ticks w)
  unfolding fall_asleep
  fall_asleep-Sound i now ticks w s =
      set-Sound w (fall_asleep i now ticks w) i _ s refl refl refl
        (record { next = refl; in_use = refl; pid = refl }) (λ e. cc)

  fall_asleep_current :
      (i now ticks : ℕ) (w : World Env) → (fall_asleep i now ticks w).current ≡ w.current
  unfolding fall_asleep
  fall_asleep_current i now ticks w = refl

  sleep_from-Sound :
      (now ticks : ℕ) (w : World Env) (o : Option ℕ)
      → w.current ≡ o
      → Sound w
      → Sound (sleep_from m now ticks w o).1
  unfolding sleep_from
  sleep_from-Sound now ticks w none here s = s
  sleep_from-Sound now ticks w (some i) here s =
      let v = fall_asleep i now ticks w in
      let asleep = fall_asleep-Sound i now ticks w s in
      let after = schedule-Sound now v asleep in
      elim (Bool-cases ((at w.procs i).pid == 0)) [
        | inl e ↦ rw e s
        | inr e ↦ rw e (elim (Bool-cases (schedule m now v).0) [
          | inl b ↦ rw b after
          | inr b ↦ rw b (
              after_sleep-Sound i (schedule m now v).1
                (ap (λ (u : World Env). u.current) (stays_put now v asleep b)
                  ∙ fall_asleep_current i now ticks w
                  ∙ here)
                after)
        ])
      ]

  pub process_sleep_ticks-Sound :
      (now ticks : ℕ) (w : World Env) → Sound w → Sound (process_sleep_ticks m now ticks w).1
  unfolding process_sleep_ticks
  process_sleep_ticks-Sound now ticks w s = sleep_from-Sound now ticks w w.current refl s
