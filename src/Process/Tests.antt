-- ===== src/Process/Tests.antt =====
-- The process table at concrete states.
use nyxis_os.Base.{
  ℕ, zero, suc, ◌+◌, ◌≡◌, refl, ap, true, false, none, some, [], ◌∷◌, replicate, arith, inl,
}
use nyxis_os.Base.Members.{NotIn}
use nyxis_os.Base.Status.{ok}
use nyxis_os.Process.{
  Process, State, ready, running, blocked, terminated, World, Machine, at, blank_process,
}
use nyxis_os.Process.Sched.{sched_pick_next}
use nyxis_os.Process.Life.{process_init, idle_process, new_process, process_reap, process_create}
use nyxis_os.Process.Reaping.{Reaped, process_reap_lem}
use nyxis_os.Process.Invariant.{WellFormed}
use nyxis_os.Process.Picking.{chosen, first_runnable, sched_pick_next_lem}
use nyxis_os.Process.Creation.{CreateOutcome, create_lem}
use nyxis_os.Process.Scheduling.{Around, ScheduleOutcome, schedule_lem}
use nyxis_os.Process.Turns.{GetsTurn, ready-GetsTurn}
use nyxis_os.Process.Ending.{Sound}
use nyxis_os.Process.Reach.{init, create_thread, Reachable-Sound}

-- The environment counts the address spaces that went back.
abbrev machine : Machine ℕ
machine = record {
  virt_to_phys = λ v. v + 1;
  kernel_cr3 = 0x1000;
  kstacks = 0x100000;
  trampoline = 0x2000;
  user_thunk = 0x3000;
  paging_addrspace_destroy = λ pml4 n. n + 1;
  vfs_close = λ file n. n;
}

abbrev blank_world : World ℕ
blank_world = record {
  procs = [];
  head = none;
  current = none;
  next_pid = 1;
  last_exit_code = 0;
  cr3 = 0;
  ring0_stack = 0;
  env = 0;
}

abbrev booted : World ℕ
booted = record blank_world {
  procs = idle_process ∷ replicate 15 blank_process;
  head = some 0;
  current = some 0;
}

boots : process_init blank_world ≡ ok booted
unfolding process_init
boots = refl

Reachable-Sound_example : Sound (process_create machine 7 0 booted).1
Reachable-Sound_example =
    Reachable-Sound machine (process_create machine 7 0 booted).1
      (create_thread 7 0 booted (init blank_world booted boots))

-- The idle process runs; behind it a dead user process, a thread asleep until tick 5, and a thread
-- that is ready.
abbrev dead : Process
dead = record blank_process { pid = 1; state = terminated; pml4 = 9; in_use = true; next = some 2 }

abbrev asleep : Process
asleep = record blank_process {
  pid = 2;
  state = blocked;
  wake_tick = 5;
  in_use = true;
  next = some 3;
}

abbrev waiting : Process
waiting = record blank_process { pid = 3; state = ready; in_use = true }

abbrev busy_world : World ℕ
busy_world = record booted {
  procs =
      record idle_process { next = some 1 } ∷ dead ∷ asleep ∷ waiting ∷ replicate 12 blank_process;
  next_pid = 4;
}

blank-at : (n j : ℕ) → at (replicate n blank_process) j ≡ blank_process
blank-at zero j = refl
blank-at (suc n) zero = refl
blank-at (suc n) (suc j) = blank-at n j

busy-WellFormed : WellFormed busy_world (0 ∷ 1 ∷ 2 ∷ 3 ∷ [])
busy-WellFormed = record {
  linked = (refl, omega arith, (refl, omega arith, (refl, omega arith, (refl, omega arith, refl))));
  distinct = (
    (
      λ e. absurd (omega (arith, e)),
      (λ e. absurd (omega (arith, e)), (λ e. absurd (omega (arith, e)), tt)),
    ),
    (
      (λ e. absurd (omega (arith, e)), (λ e. absurd (omega (arith, e)), tt)),
      ((λ e. absurd (omega (arith, e)), tt), (tt, tt)),
    ),
  );
  used = (refl, (refl, (refl, (refl, tt))));
  unused = unused;
  idle = refl;
  first = (1 ∷ 2 ∷ 3 ∷ [], refl);
  runs = (0, refl, inl refl);
  alone = alone;
  size = refl;
}
  where
    unused : (i : ℕ) → NotIn i (0 ∷ 1 ∷ 2 ∷ 3 ∷ []) → (at busy_world.procs i).in_use ≡ false
    unused zero h = absurd (h.0 refl)
    unused (suc zero) h = absurd (h.1.0 refl)
    unused (suc (suc zero)) h = absurd (h.1.1.0 refl)
    unused (suc (suc (suc zero))) h = absurd (h.1.1.1.0 refl)
    unused (suc (suc (suc (suc j)))) h = ap (λ (p : Process). p.in_use) (blank-at 12 j)

    idle_only : {s : State} → s ≡ ready → s ≡ running → ⊥
    idle_only e f = cc

    alone : (i : ℕ) → (at busy_world.procs i).state ≡ running → busy_world.current ≡ some i
    alone zero h = refl
    alone (suc zero) h = cc
    alone (suc (suc zero)) h = cc
    alone (suc (suc (suc zero))) h = cc
    alone (suc (suc (suc (suc j)))) h =
        absurd (idle_only (ap (λ (p : Process). p.state) (blank-at 12 j)) h)

busy-Around : Around busy_world [] 0 (1 ∷ 2 ∷ 3 ∷ [])
busy-Around = record { well_formed = busy-WellFormed; here = refl }

process_reap_lem_example :
    Reaped machine busy_world [] (0 ∷ 1 ∷ 2 ∷ 3 ∷ []) (process_reap machine busy_world)
process_reap_lem_example =
    process_reap_lem machine busy_world (0 ∷ 1 ∷ 2 ∷ 3 ∷ []) busy-WellFormed.linked
      busy-WellFormed.distinct

sched_pick_next_lem_example :
    sched_pick_next 4 0 (some 0) busy_world.procs
    ≡ chosen 4 busy_world.procs (first_runnable 4 busy_world.procs (1 ∷ 2 ∷ 3 ∷ []))
sched_pick_next_lem_example =
    sched_pick_next_lem 4 0 (some 0) busy_world.procs [] (1 ∷ 2 ∷ 3 ∷ []) busy-WellFormed.linked
      busy-WellFormed.distinct

create_lem_example :
    CreateOutcome machine (λ i pid. new_process machine i pid 7 0) busy_world (0 ∷ 1 ∷ 2 ∷ 3 ∷ [])
create_lem_example =
    create_lem machine (λ i pid. new_process machine i pid 7 0) busy_world (0 ∷ 1 ∷ 2 ∷ 3 ∷ [])
      busy-WellFormed
      (record { used = λ i pid. refl; unlinked = λ i pid. refl; idles = λ i pid. refl })

schedule_lem_example : ScheduleOutcome machine 5 busy_world [] 0 (1 ∷ 2 ∷ 3 ∷ [])
schedule_lem_example = schedule_lem machine 5 busy_world [] 0 (1 ∷ 2 ∷ 3 ∷ []) busy-Around

ready-GetsTurn_example : GetsTurn machine busy_world 3 (4 ∷ 4 ∷ 5 ∷ [])
ready-GetsTurn_example =
    ready-GetsTurn machine (4 ∷ 4 ∷ 5 ∷ []) busy_world [] 0 (1 ∷ 2 ∷ 3 ∷ []) (1 ∷ 2 ∷ []) [] 3
      busy-Around refl refl (omega arith)
