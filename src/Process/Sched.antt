-- ===== src/Process/Sched.antt =====
-- sched_rr.h and schedule.c: the round-robin choice, and the switch of process.c.
use nyxis_os.Base.{
  ℕ, zero, suc, ◌+◌, Bool, true, false, not, ◌&&◌, ◌||◌, Option, none, some, List, set, leb, ◌==◌,
  if◌then◌else◌, length,
}
use nyxis_os.Base.Status.{Result, ok, err, invalid_arg}
use nyxis_os.Process.{
  Process, ready, running, World, Machine, at, is_ready, is_running, is_blocked, is_at, kstack_size,
}

-- `proc->next ? proc->next : list_head`; the list has an entry, so the last case is not met.
abbrev pub next_or_head : Option ℕ → Option ℕ → ℕ
next_or_head (some i) head = i
next_or_head none (some h) = h
next_or_head none none = 0

-- The sleeper's time has come.
unfoldable pub is_due : ℕ → Process → Bool
is_due now p = p.in_use && is_blocked p.state && not (p.wake_tick == 0) && leb p.wake_tick now

unfoldable pub wake : ℕ → Process → Process
wake now p = if is_due now p then record p { state = ready; wake_tick = 0 } else p

-- The loop of `sched_pick_next` at process `i`, with fuel; the table changes where it wakes one.
unfoldable pub pick_from : ℕ → ℕ → Option ℕ → ℕ → ℕ → List Process → Option ℕ × List Process
pick_from zero now head current i ps = (none, ps)
pick_from (suc fuel) now head current i ps =
    let woken = set ps i (wake now (at ps i)) in
    let p = at woken i in
    let rest = pick_from fuel now head current (next_or_head p.next head) woken in
    if i == current
    then (none, ps)
    else if p.in_use && is_ready p.state
    then (some i, woken)
    else rest

-- A round for each slot is enough, since the processes of the list stand in different slots.
unfoldable pub sched_pick_next : ℕ → ℕ → Option ℕ → List Process → Option ℕ × List Process
sched_pick_next now current head ps =
    pick_from (length ps) now head current (next_or_head (at ps current).next head) ps

-- `if (old && old->state == PROCESS_RUNNING) old->state = PROCESS_READY`
unfoldable pub put_back : Option ℕ → List Process → List Process
put_back none ps = ps
put_back (some i) ps =
    if is_running (at ps i).state then set ps i (record (at ps i) { state = ready }) else ps

-- The new process starts to run.
unfoldable pub set_running : ℕ → List Process → List Process
set_running i ps = set ps i (record (at ps i) { state = running })

-- The result tells if the processor goes to `i`; the call then returns when the caller is chosen
-- again. `cpu_switch_context` and the saved stack pointer are the processor's.
unfoldable pub process_switch :
    {Env : Type 0} → Machine Env → ℕ → World Env → Result Bool × World Env
process_switch m i w =
    let p = at w.procs i in
    if not p.in_use || not (is_ready p.state)
    then (err invalid_arg, w)
    else if is_at w.current i
    then (ok false, w)
    else (
      ok true,
      record w {
        procs = set_running i (put_back w.current w.procs);
        current = some i;
        cr3 = if p.pml4 == 0 then m.kernel_cr3 else m.virt_to_phys p.pml4;
        ring0_stack = if p.kernel_stack == 0 then w.ring0_stack else p.kernel_stack + kstack_size;
      },
    )

abbrev pub did_switch : Result Bool → Bool
did_switch (ok b) = b
did_switch (err e) = false

-- `if (next) (void)process_switch(next);`, with the table that the choice left.
unfoldable pub run_next :
    {Env : Type 0} → Machine Env → World Env → Option ℕ × List Process → Bool × World Env
run_next m w (none, ps) = (false, record w { procs = ps })
run_next m w (some i, ps) =
    let s = process_switch m i (record w { procs = ps }) in (did_switch s.0, s.1)

-- `schedule` with `current_process` and `process_list`.
unfoldable pub schedule_with :
    {Env : Type 0} → Machine Env → ℕ → World Env → Option ℕ → Option ℕ → Bool × World Env
schedule_with m now w none head = (false, w)
schedule_with m now w (some c) none = (false, w)
schedule_with m now w (some c) (some h) = run_next m w (sched_pick_next now c (some h) w.procs)

-- At tick `now`; true if another process runs.
unfoldable pub schedule : {Env : Type 0} → Machine Env → ℕ → World Env → Bool × World Env
schedule m now w = schedule_with m now w w.current w.head
