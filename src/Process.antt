-- ===== src/Process.antt =====
-- nxkernel/kernel/process/process.h: the process table, with the list that runs through it.
use nyxis_os.Base.{
  ℕ, ◌+◌, ◌*◌, ◌==◌, Bool, true, false, Option, none, some, List, [], ◌∷◌, get_or, set,
}
use nyxis_os.Vfs.Handle.{FileHandle}
use nyxis_os.Handles.{Table}
pub mod Life
pub mod Sched
pub mod Queue
pub mod Taking
pub mod Reaping
pub mod Invariant
pub mod Appending
pub mod Creation
pub mod Picking
pub mod Stays
pub mod Switching
pub mod Scheduling
pub mod Turns
pub mod Ending
pub mod Reach
mod Tests

pub data State : Type 0 where
  ready running blocked terminated : State

-- `process_t`. `pml4` stands for the address space, 0 if there is none, and `saved` for the words
-- from `kernel_rsp` up to the top of the kernel stack. `next` is the index of the next process.
pub record Process : Type 0 where
  pub pid : ℕ
  pub state : State
  pub stack : ℕ
  pub entry_point : ℕ
  pub pml4 : ℕ
  pub user_entry : ℕ
  pub user_stack_top : ℕ
  pub heap_start : ℕ
  pub heap_brk : ℕ
  pub kernel_rsp : ℕ
  pub kernel_stack : ℕ
  pub saved : List ℕ
  pub wake_tick : ℕ
  pub exit_code : ℕ
  pub handles : Table
  pub in_use : Bool
  pub next : Option ℕ

-- What `memset(p, 0, sizeof(*p))` leaves; `PROCESS_READY` is 0.
abbrev pub blank_process : Process
blank_process = record {
  pid = 0;
  state = ready;
  stack = 0;
  entry_point = 0;
  pml4 = 0;
  user_entry = 0;
  user_stack_top = 0;
  heap_start = 0;
  heap_brk = 0;
  kernel_rsp = 0;
  kernel_stack = 0;
  saved = [];
  wake_tick = 0;
  exit_code = 0;
  handles = [];
  in_use = false;
  next = none;
}

-- `PROCESS_MAX`
abbrev pub process_max : ℕ
process_max = 16

-- `PROCESS_KSTACK_SIZE`
abbrev pub kstack_size : ℕ
kstack_size = 16384

-- The state of process.c. `env` is the state of paging.c and of the file systems.
pub record World (Env : Type 0) : Type 0 where
  pub procs : List Process
  pub head : Option ℕ
  pub current : Option ℕ
  pub next_pid : ℕ
  pub last_exit_code : ℕ
  pub cr3 : ℕ
  pub ring0_stack : ℕ
  pub env : Env

-- What process.c calls, and the addresses that it takes.
pub record Machine (Env : Type 0) : Type 0 where
  pub virt_to_phys : ℕ → ℕ
  pub kernel_cr3 : ℕ
  pub kstacks : ℕ
  pub trampoline : ℕ
  pub user_thunk : ℕ
  pub paging_addrspace_destroy : ℕ → Env → Env
  pub vfs_close : FileHandle → Env → Env

-- `g_procs[i]`, for an index that the code takes from the list.
abbrev pub at : List Process → ℕ → Process
at ps i = get_or ps i blank_process

abbrev pub set_next : List Process → ℕ → Option ℕ → List Process
set_next ps i o = set ps i (record (at ps i) { next = o })

abbrev pub is_ready : State → Bool
is_ready ready = true
is_ready _ = false

abbrev pub is_running : State → Bool
is_running running = true
is_running _ = false

abbrev pub is_blocked : State → Bool
is_blocked blocked = true
is_blocked _ = false

abbrev pub is_terminated : State → Bool
is_terminated terminated = true
is_terminated _ = false

-- `proc == p` for a pointer that may be null.
abbrev pub is_at : Option ℕ → ℕ → Bool
is_at none i = false
is_at (some j) i = j == i
