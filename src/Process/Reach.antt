-- ===== src/Process/Reach.antt =====
-- Every state that the calls of process.c lead to is well formed.
use nyxis_os.Base.{
  ℕ, zero, suc, ◌-◌, ◌≡◌, ◌≢◌, refl, ap, subst, sym, ◌∙◌, some, [], ◌∷◌, ◌++◌, replicate, ◌==◌,
  arith, inl, inr, Bool-cases, Option-cases,
}
use nyxis_os.Base.Status.{Result, ok, err, already_initialized}
use nyxis_os.Process.{Process, running, World, Machine, at, blank_process, process_max}
use nyxis_os.Process.Sched.{schedule}
use nyxis_os.Process.Life.{
  process_init, idle_process, process_reap_terminated, process_create, process_create_user, create,
  is_null, new_process, new_user, process_terminate, process_exit_with_code, after_sleep,
  process_sleep_ticks,
}
use nyxis_os.Process.Taking.{kept}
use nyxis_os.Process.Invariant.{not_running}
use nyxis_os.Process.Creation.{IsFresh, create_lem}
use nyxis_os.Process.Ending.{
  Sound, schedule-Sound, process_reap-Sound, process_terminate-Sound, process_exit_with_code-Sound,
  after_sleep-Sound, process_sleep_ticks-Sound,
}

-- The states after `process_init` and any further calls, at any ticks. A sleeper's call goes on
-- when it is the current process again.
pub data Reachable {Env : Type 0} (m : Machine Env) : World Env → Type 0 where
  init : (w w' : World Env) → process_init w ≡ ok w' → Reachable m w'
  create_thread :
      (entry_point stack : ℕ) (w : World Env)
      → Reachable m w
      → Reachable m (process_create m entry_point stack w).1
  create_user :
      (pml4 entry stack_top heap_start : ℕ) (w : World Env)
      → Reachable m w
      → Reachable m (process_create_user m pml4 entry stack_top heap_start w).1
  yield : (now : ℕ) (w : World Env) → Reachable m w → Reachable m (schedule m now w).1
  terminate :
      (now pid : ℕ) (w : World Env) → Reachable m w → Reachable m (process_terminate m now pid w).1
  exit :
      (now code : ℕ) (w : World Env)
      → Reachable m w
      → Reachable m (process_exit_with_code m now code w).1
  sleep :
      (now ticks : ℕ) (w : World Env)
      → Reachable m w
      → Reachable m (process_sleep_ticks m now ticks w).1
  wake_up :
      (i : ℕ) (w : World Env) → w.current ≡ some i → Reachable m w → Reachable m (after_sleep i w).1
  reap : (w : World Env) → Reachable m w → Reachable m (process_reap_terminated m w)

new_process-IsFresh :
    {Env : Type 0} (m : Machine Env) (entry_point stack : ℕ)
    → IsFresh (λ i pid. new_process m i pid entry_point stack)
new_process-IsFresh m entry_point stack = record {
  used = λ i pid. refl;
  unlinked = λ i pid. refl;
  idles = λ i pid. refl;
}

new_user-IsFresh :
    {Env : Type 0} (m : Machine Env) (pml4 entry stack_top heap_start : ℕ)
    → IsFresh (λ i pid. new_user m i pid pml4 entry stack_top heap_start)
new_user-IsFresh m pml4 entry stack_top heap_start = record {
  used = λ i pid. refl;
  unlinked = λ i pid. refl;
  idles = λ i pid. refl;
}

at-boot :
    (j : ℕ)
    → j ≢ 0
    → at (idle_process ∷ replicate (process_max - 1) blank_process) j ≡ blank_process
at-boot zero ne = absurd (ne refl)
at-boot (suc j) ne = blank (process_max - 1) j
  where
    blank : (n j : ℕ) → at (replicate n blank_process) j ≡ blank_process
    blank zero j = refl
    blank (suc n) zero = refl
    blank (suc n) (suc j) = blank n j

module _ {Env : Type 0} (m : Machine Env) where
  abbrev booted : World Env → World Env
  booted w = record w {
    procs = idle_process ∷ replicate (process_max - 1) blank_process;
    head = some 0;
    current = some 0;
  }

  booted-Sound : (w : World Env) → Sound (booted w)
  booted-Sound w = (
    0 ∷ [],
    record {
      linked = (refl, omega arith, refl);
      distinct = (tt, tt);
      used = (refl, tt);
      unused = λ j out. ap (λ (p : Process). p.in_use) (at-boot j out.0);
      idle = refl;
      first = ([], refl);
      runs = (0, refl, inl refl);
      alone = alone;
      size = refl;
    },
  )
    where
      alone : (j : ℕ) → (at (booted w).procs j).state ≡ running → some 0 ≡ some j
      alone zero h = refl
      alone (suc j) h = absurd (
          not_running (
            sym h
            ∙ ap (λ (p : Process). p.state) (at-boot (suc j) (λ e. absurd (omega (arith, e))))))

  init-Sound : (w w' : World Env) → process_init w ≡ ok w' → Sound w'
  unfolding process_init
  init-Sound w w' e = elim (Option-cases w.head) [
    | inl h ↦ subst Sound (ap (value w') (rw h at e)) (booted-Sound w)
    | inr (i, h) ↦ absurd (failed (rw h at e))
  ]
    where
      value : World Env → Result (World Env) → World Env
      value d (ok v) = v
      value d (err e) = d

      failed : {v : World Env} → ◌≢◌ {A = Result (World Env)} (err already_initialized) (ok v)
      failed e = cc

  create-Sound :
      (fresh : ℕ → ℕ → Process) (w : World Env)
      → IsFresh fresh
      → Sound w
      → Sound (create m fresh w).1
  create-Sound fresh w n (order, f) = elim (create_lem m fresh w order f n) [
    | inl (i, result, pid, made) ↦ (kept w.current w.procs order ++ i ∷ [], made.well_formed)
    | inr (e, full) ↦ subst (λ r. Sound r.1) (sym e) (process_reap-Sound m w (order, f))
  ]

  process_create-Sound :
      (entry_point stack : ℕ) (w : World Env)
      → Sound w
      → Sound (process_create m entry_point stack w).1
  unfolding process_create
  process_create-Sound entry_point stack w s = elim (Bool-cases (entry_point == 0)) [
    | inl e ↦ rw e s
    | inr e ↦ rw e (elim (Bool-cases (is_null w.head)) [
      | inl h ↦ rw h s
      | inr h ↦ rw h (create-Sound _ w (new_process-IsFresh m entry_point stack) s)
    ])
  ]

  process_create_user-Sound :
      (pml4 entry stack_top heap_start : ℕ) (w : World Env)
      → Sound w
      → Sound (process_create_user m pml4 entry stack_top heap_start w).1
  unfolding process_create_user
  process_create_user-Sound pml4 entry stack_top heap_start w s = elim (Bool-cases (pml4 == 0)) [
    | inl e ↦ rw e s
    | inr e ↦ rw e (elim (Bool-cases (is_null w.head)) [
      | inl h ↦ rw h s
      | inr h ↦ rw h (create-Sound _ w (new_user-IsFresh m pml4 entry stack_top heap_start) s)
    ])
  ]

  -- In every state that the calls of process.c lead to, the list runs once through exactly the
  -- slots in use, starting with the idle process and with the current one in it, and no process
  -- but the current one is marked as running.
  pub Reachable-Sound : (w : World Env) → Reachable m w → Sound w
  unfolding process_reap_terminated
  Reachable-Sound _ (init w w' e) = init-Sound w w' e
  Reachable-Sound _ (create_thread entry_point stack w r) =
      process_create-Sound entry_point stack w (Reachable-Sound w r)
  Reachable-Sound _ (create_user pml4 entry stack_top heap_start w r) =
      process_create_user-Sound pml4 entry stack_top heap_start w (Reachable-Sound w r)
  Reachable-Sound _ (yield now w r) = schedule-Sound m now w (Reachable-Sound w r)
  Reachable-Sound _ (terminate now pid w r) =
      process_terminate-Sound m now pid w (Reachable-Sound w r)
  Reachable-Sound _ (exit now code w r) =
      process_exit_with_code-Sound m now code w (Reachable-Sound w r)
  Reachable-Sound _ (sleep now ticks w r) =
      process_sleep_ticks-Sound m now ticks w (Reachable-Sound w r)
  Reachable-Sound _ (wake_up i w here r) = after_sleep-Sound m i w here (Reachable-Sound w r)
  Reachable-Sound _ (reap w r) = process_reap-Sound m w (Reachable-Sound w r)
