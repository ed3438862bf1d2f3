-- ===== src/Process/Life.antt =====
-- process.c: creating, ending and reaping processes.
use nyxis_os.Base.{
  ℕ, zero, suc, ◌+◌, ◌-◌, ◌*◌, ◌%◌, ◌^◌, Bool, true, false, not, ◌&&◌, Option, none, some, List, [],
  ◌∷◌, set, drop, replicate, ◌==◌, if◌then◌else◌, length,
}
use nyxis_os.Base.Status.{
  Error, Result, ok, err, invalid_arg, not_initialized, already_initialized, process_failed,
  permission, not_found, interrupted, busy, invalid_state, kernel_fault,
}
use nyxis_os.Handles.{nx_handles_init, nx_handles_close_all}
use nyxis_os.Process.{
  Process, ready, running, blocked, terminated, World, Machine, at, set_next, blank_process,
  process_max, kstack_size, is_blocked, is_terminated, is_at,
}
use nyxis_os.Process.Sched.{schedule}

-- The test of `process_reap`.
unfoldable pub is_dead : Option ℕ → ℕ → Process → Bool
is_dead current i p = is_terminated p.state && not (is_at current i) && not (p.pid == 0)

module _ {Env : Type 0} where
  -- `if (prev) prev->next = next; else process_list = next;`
  unfoldable pub unlink : Option ℕ → Option ℕ → World Env → World Env
  unlink none next w = record w { head = next }
  unlink (some j) next w = record w { procs = set_next w.procs j next }

  -- The address space goes back, and the slot is cleared.
  unfoldable pub release : Machine Env → ℕ → World Env → World Env
  release m i w =
      let p = at w.procs i in
      record w {
        procs = set w.procs i blank_process;
        env = if p.pml4 == 0 then w.env else m.paging_addrspace_destroy p.pml4 w.env;
      }

  -- The loop of `process_reap` at `p` behind `prev`, with fuel.
  unfoldable pub reap_from : ℕ → Machine Env → Option ℕ → Option ℕ → World Env → World Env
  reap_from zero m prev p w = w
  reap_from (suc fuel) m prev none w = w
  reap_from (suc fuel) m prev (some i) w =
      let next = (at w.procs i).next in
      let dead = reap_from fuel m prev next (release m i (unlink prev next w)) in
      let kept = reap_from fuel m (some i) next w in
      if is_dead w.current i (at w.procs i) then dead else kept

  -- A round for each slot is enough, since the list has no slot twice.
  unfoldable pub process_reap : Machine Env → World Env → World Env
  process_reap m w = reap_from (length w.procs) m none w.head w

  unfoldable pub process_reap_terminated : Machine Env → World Env → World Env
  process_reap_terminated m w = process_reap m w

-- The boot thread.
abbrev pub idle_process : Process
idle_process = record blank_process {
  pid = 0;
  state = running;
  handles = nx_handles_init;
  in_use = true;
}

unfoldable pub process_init : {Env : Type 0} → World Env → Result (World Env)
process_init w = elim w.head [
  | some h ↦ err already_initialized
  | none ↦ ok (record w {
    procs = idle_process ∷ replicate (process_max - 1) blank_process;
    head = some 0;
    current = some 0;
  })
]

-- The first slot that is not in use, from number `i` on.
unfoldable pub find_slot : ℕ → List Process → Option ℕ
find_slot i [] = none
find_slot i (p ∷ ps) = if p.in_use then find_slot (i + 1) ps else some i

-- `tail` and the loop `while (tail->next) tail = tail->next;`, with fuel.
unfoldable pub last_from : ℕ → List Process → ℕ → ℕ
last_from zero ps i = i
last_from (suc fuel) ps i = elim (at ps i).next [ none ↦ i | some j ↦ last_from fuel ps j ]

unfoldable pub append_slot : Option ℕ → ℕ → List Process → List Process
append_slot none i ps = ps
append_slot (some h) i ps = set_next ps (last_from (length ps) ps h) (some i)

-- What the creation of a process puts into slot `i`, for a thread of the kernel.
abbrev pub new_process : {Env : Type 0} → Machine Env → ℕ → ℕ → ℕ → ℕ → Process
new_process m i pid entry_point stack = record blank_process {
  pid = pid;
  state = ready;
  stack = stack;
  entry_point = entry_point;
  kernel_stack = m.kstacks + i * kstack_size;
  kernel_rsp = m.kstacks + i * kstack_size + kstack_size - 56;
  saved = 0 ∷ 0 ∷ stack ∷ entry_point ∷ 0 ∷ 0 ∷ m.trampoline ∷ [];
  handles = nx_handles_init;
  in_use = true;
}

-- The arguments of `process_create_user` that go into the process.
abbrev pub new_user : {Env : Type 0} → Machine Env → ℕ → ℕ → ℕ → ℕ → ℕ → ℕ → Process
new_user m i pid pml4 entry stack_top heap_start = record (new_process m i pid m.user_thunk 0) {
  pml4 = pml4;
  user_entry = entry;
  user_stack_top = stack_top;
  heap_start = heap_start;
  heap_brk = heap_start;
}

abbrev pub is_null : Option ℕ → Bool
is_null none = true
is_null (some i) = false

module _ {Env : Type 0} where
  -- What `process_create` and `process_create_user` do with the slot that they found.
  unfoldable pub place : (ℕ → ℕ → Process) → World Env → Option ℕ → Result ℕ × World Env
  place fresh w none = (err process_failed, w)
  place fresh w (some i) = (
    ok w.next_pid,
    record w {
      procs = append_slot w.head i (set w.procs i (fresh i w.next_pid));
      next_pid = (w.next_pid + 1) % 2 ^ 32;
    },
  )

  -- What the two share: `fresh` is the process for a slot and a pid.
  unfoldable pub create : Machine Env → (ℕ → ℕ → Process) → World Env → Result ℕ × World Env
  create m fresh w = let r = process_reap m w in place fresh r (find_slot 1 (drop 1 r.procs))

  unfoldable pub process_create : Machine Env → ℕ → ℕ → World Env → Result ℕ × World Env
  process_create m entry_point stack w =
      if entry_point == 0
      then (err invalid_arg, w)
      else if is_null w.head
      then (err not_initialized, w)
      else create m (λ i pid. new_process m i pid entry_point stack) w

  unfoldable pub process_create_user :
      Machine Env → ℕ → ℕ → ℕ → ℕ → World Env → Result ℕ × World Env
  process_create_user m pml4 entry stack_top heap_start w =
      if pml4 == 0
      then (err invalid_arg, w)
      else if is_null w.head
      then (err not_initialized, w)
      else create m (λ i pid. new_user m i pid pml4 entry stack_top heap_start) w

-- How a call ends that may not return: it returns, another process runs, or the kernel panics.
pub data Outcome : Type 0 where
  returns : Result (Unit {0}) → Outcome
  switches : Outcome
  panics : Error → Outcome

-- The loop over the list for the process with a pid, with fuel.
unfoldable pub find_pid : ℕ → ℕ → Option ℕ → List Process → Option ℕ
find_pid zero pid p ps = none
find_pid (suc fuel) pid none ps = none
find_pid (suc fuel) pid (some i) ps =
    let rest = find_pid fuel pid (at ps i).next ps in
    if (at ps i).in_use && (at ps i).pid == pid then some i else rest

module _ {Env : Type 0} where
  -- The handles are closed and the process is marked.
  unfoldable pub mark_terminated : Machine Env → ℕ → World Env → World Env
  mark_terminated m i w =
      let p = at w.procs i in
      let closed = nx_handles_close_all m.vfs_close p.handles w.env in
      record w {
        procs = set w.procs i (record p { handles = closed.0; state = terminated });
        env = closed.1;
      }

  -- `process_terminate` behind its search.
  unfoldable pub terminate_found : Machine Env → ℕ → World Env → Option ℕ → Outcome × World Env
  terminate_found m now w none = (returns (err not_found), w)
  terminate_found m now w (some i) =
      let marked = mark_terminated m i w in
      let switched = schedule m now marked in
      if is_terminated (at w.procs i).state
      then (returns (err not_found), w)
      else if is_at w.current i
      then (if switched.0 then (switches, switched.1) else (panics process_failed, switched.1))
      else (returns (ok tt), process_reap m marked)

  unfoldable pub process_terminate : Machine Env → ℕ → ℕ → World Env → Outcome × World Env
  process_terminate m now pid w =
      if pid == 0
      then (returns (err permission), w)
      else terminate_found m now w (find_pid (length w.procs) pid w.head w.procs)

  -- A call that must not return panics if it does.
  abbrev pub or_panic : Error → Outcome × World Env → Outcome × World Env
  or_panic e (returns r, w) = (panics e, w)
  or_panic e (switches, w) = (switches, w)
  or_panic e (panics d, w) = (panics d, w)

  -- `current_process->exit_code = code; g_last_exit_code = code;`
  unfoldable pub leave_code : ℕ → ℕ → World Env → World Env
  leave_code i code w = record w {
    procs = set w.procs i (record (at w.procs i) { exit_code = code });
    last_exit_code = code;
  }

  unfoldable pub exit_from : Machine Env → ℕ → ℕ → World Env → Option ℕ → Outcome × World Env
  exit_from m now code w none = (panics invalid_state, w)
  exit_from m now code w (some i) =
      if (at w.procs i).pid == 0
      then (panics invalid_state, w)
      else or_panic kernel_fault (process_terminate m now (at w.procs i).pid (leave_code i code w))

  unfoldable pub process_exit_with_code : Machine Env → ℕ → ℕ → World Env → Outcome × World Env
  process_exit_with_code m now code w = exit_from m now code w w.current

  -- `process_sleep_ticks` behind its call of `schedule`, when the process runs on.
  unfoldable pub after_sleep : ℕ → World Env → Outcome × World Env
  after_sleep i w =
      if is_blocked (at w.procs i).state
      then (
        returns (err interrupted),
        record w {
          procs = set w.procs i (record (at w.procs i) { state = running; wake_tick = 0 });
        },
      )
      else (returns (ok tt), w)

  -- `self->wake_tick = ...; self->state = PROCESS_BLOCKED;`
  unfoldable pub fall_asleep : ℕ → ℕ → ℕ → World Env → World Env
  fall_asleep i now ticks w = record w {
    procs = set w.procs i (record (at w.procs i) {
      wake_tick = (now + (if ticks == 0 then 1 else ticks)) % 2 ^ 64;
      state = blocked;
    });
  }

  unfoldable pub sleep_from : Machine Env → ℕ → ℕ → World Env → Option ℕ → Outcome × World Env
  sleep_from m now ticks w none = (returns (err permission), w)
  sleep_from m now ticks w (some i) =
      let r = schedule m now (fall_asleep i now ticks w) in
      if (at w.procs i).pid == 0
      then (returns (err permission), w)
      else if r.0
      then (switches, r.1)
      else after_sleep i r.1

  unfoldable pub process_sleep_ticks : Machine Env → ℕ → ℕ → World Env → Outcome × World Env
  process_sleep_ticks m now ticks w = sleep_from m now ticks w w.current

  unfoldable pub process_get_exit_code : ℕ → World Env → Result ℕ
  process_get_exit_code pid w = elim (find_pid (length w.procs) pid w.head w.procs) [
    | none ↦ err not_found
    | some i ↦ if is_terminated (at w.procs i).state then ok (at w.procs i).exit_code else err busy
  ]

-- The loop of `process_count`, with fuel.
unfoldable pub count_from : ℕ → Option ℕ → List Process → ℕ
count_from zero p ps = 0
count_from (suc fuel) none ps = 0
count_from (suc fuel) (some i) ps =
    (if (at ps i).in_use && not (is_terminated (at ps i).state) then 1 else 0)
    + count_from fuel (at ps i).next ps

unfoldable pub process_count : {Env : Type 0} → World Env → ℕ
process_count w = count_from (length w.procs) w.head w.procs
