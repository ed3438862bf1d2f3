-- ===== src/Syscall.antt =====
-- nxkernel/kernel/syscall/syscall.c: the system calls, and their table.
pub mod State
pub mod Objects
pub mod Transfer
pub mod Slices
pub mod Reading
pub mod Rights
pub mod Seeking
mod Tests
use Prim.Native.Nat.{bit_or}
use nyxis_os.Base.{
  ℕ, zero, suc, ◌+◌, ◌-◌, ◌*◌, ◌/◌, ◌%◌, ◌^◌, Bool, true, false, not, ◌||◌, ◌&&◌, Option, none,
  some, List, [], ◌∷◌, ◌++◌, map, replicate, length, ltb, ◌==◌, if◌then◌else◌, get_or,
}
use nyxis_os.Base.Words.{page_size}
use nyxis_os.Base.Bytes.{bytes_of}
use nyxis_os.Base.Status.{
  Error, Result, ok, err, code, invalid_arg, unsupported, not_initialized, permission,
  syscall_failed,
}
use nyxis_os.Base.Effect.{Eff, after, ◌>>=◌, ◌>>◌, return, lift, fail_if, modify}
use nyxis_os.Handles.{nx_handles_count}
use nyxis_os.Process as P
use nyxis_os.Process.{Process}
use nyxis_os.Umem.{umem_brk}
use nyxis_os.Syscall.State.{Kernel, Calls, to_user, string_arg}
use nyxis_os.Syscall.Objects.{
  sys_open, sys_close, sys_seek, sys_stat, sys_duplicate_handle, to_i64, path_max,
}
use nyxis_os.Syscall.Transfer.{sys_read, sys_write, printable}

-- `NX_SLEEP_MAX_MS`, `NX_PID_SELF` and `SYSCALL_STRING_MAX`
abbrev pub sleep_max_ms : ℕ
sleep_max_ms = 3600000

abbrev pub pid_self : ℕ
pid_self = 0xffffffff

abbrev pub string_max : ℕ
string_max = 256

-- `process_t.state` as a number.
abbrev pub state_code : P.State → ℕ
state_code P.ready = 0
state_code P.running = 1
state_code P.blocked = 2
state_code P.terminated = 3

-- A call that comes back with a result, or the end of the process with its code.
pub data Reply : Type 0 where
  replied : Result ℕ → Reply
  exited : ℕ → Reply

module _ {M Fs : Type 0} (m : Calls M Fs) where
  pub sys_get_version : Eff (Kernel M Fs) ℕ
  sys_get_version = return (bit_or (2 ^ 32) (2 ^ 16))

  pub sys_get_time : ℕ → Eff (Kernel M Fs) ℕ
  sys_get_time clock = do fail_if (not (clock == 0)) unsupported; return m.timer_get_ns

  pub sys_sleep : ℕ → Eff (Kernel M Fs) ℕ
  sys_sleep ms = do
    fail_if (ltb sleep_max_ms ms) invalid_arg
    fail_if (m.timer_get_hz == 0) unsupported
    m.process_sleep_ticks ((ms * m.timer_get_hz + 999) / 1000)
    return 0

  pub sys_yield : Eff (Kernel M Fs) ℕ
  sys_yield k = (ok 0, m.schedule k)

  -- The bytes of a `struct nx_sysinfo`.
  pub sys_sysinfo : ℕ → Eff (Kernel M Fs) ℕ
  sys_sysinfo out = do
    to_user m out (
        bytes_of 4 1
        ++ (bytes_of 4 1
            ++ (bytes_of 4 page_size
                ++ (bytes_of 4 m.timer_get_hz
                    ++ (bytes_of 8 m.memory_size
                        ++ (bytes_of 8 m.timer_get_ns
                            ++ (bytes_of 4 m.process_count ++ replicate 12 0)))))))
    return 0

  pub sys_process_create : ℕ → Eff (Kernel M Fs) ℕ
  sys_process_create path_addr = do path ← string_arg m path_addr path_max; m.process_spawn path

  pub sys_virtual_alloc : ℕ → Eff (Kernel M Fs) ℕ
  sys_virtual_alloc increment k = elim k.current [
    | none ↦ (err not_initialized, k)
    | some p ↦
        let r = umem_brk m.pages p (to_i64 increment) k.mem in
        (r.0, record k { current = some r.1; mem = r.2 })
  ]

  -- The bytes of a `struct nx_procinfo`.
  abbrev pub info_bytes : Process → List ℕ
  info_bytes p =
      bytes_of 4 p.pid
      ++ (bytes_of 4 (state_code p.state)
          ++ (bytes_of 4 (nx_handles_count p.handles) ++ replicate 20 0))

  pub sys_process_info : ℕ → ℕ → Eff (Kernel M Fs) ℕ
  sys_process_info pid out k = elim k.current [
    | none ↦ (err not_initialized, k)
    | some self ↦
        (fail_if (not (pid == pid_self) && not (pid == self.pid)) permission
            >> (to_user m out (info_bytes self) >> return 0))
          k
  ]

  pub sys_kernel_print : ℕ → Eff (Kernel M Fs) ℕ
  unfolding printable
  sys_kernel_print addr = do
    text ← string_arg m addr string_max
    modify (λ k. record k { log = k.log ++ map printable text })
    return 0

  pub sys_debug_nop : Eff (Kernel M Fs) ℕ
  sys_debug_nop = return 0

-- A handler comes back, or ends the process with the code that it makes of its first argument.
pub data Handler (M Fs : Type 0) : Type 0 where
  returning : (ℕ → ℕ → ℕ → Eff (Kernel M Fs) ℕ) → Handler M Fs
  exiting : (ℕ → ℕ) → Handler M Fs

-- `sys_process_exit`
pub sys_process_exit : ℕ → ℕ
sys_process_exit exit_code = exit_code % 2 ^ 32

-- `g_syscalls`
pub g_syscalls : {M Fs : Type 0} → Calls M Fs → List (ℕ × Handler M Fs)
g_syscalls m =
    (2, returning (λ a b c. sys_get_version m))
    ∷ (3, returning (λ a b c. sys_get_time m a))
    ∷ (4, returning (λ a b c. sys_sleep m a))
    ∷ (5, returning (λ a b c. sys_yield m))
    ∷ (7, returning (λ a b c. sys_sysinfo m a))
    ∷ (32, returning (λ a b c. sys_open m a b))
    ∷ (33, returning (λ a b c. sys_close m a))
    ∷ (34, returning (λ a b c. sys_read m a b c))
    ∷ (35, returning (λ a b c. sys_write m a b c))
    ∷ (36, returning (λ a b c. sys_seek m a b c))
    ∷ (37, returning (λ a b c. sys_stat m a b))
    ∷ (41, returning (λ a b c. sys_duplicate_handle m a b))
    ∷ (64, returning (λ a b c. sys_process_create m a))
    ∷ (65, exiting sys_process_exit)
    ∷ (68, returning (λ a b c. sys_process_info m a b))
    ∷ (96, returning (λ a b c. sys_virtual_alloc m a))
    ∷ (771, returning (λ a b c. sys_kernel_print m a))
    ∷ (777, returning (λ a b c. sys_debug_nop m))
    ∷ []

module _ {M Fs : Type 0} where
  pub run_handler : Handler M Fs → ℕ → ℕ → ℕ → Kernel M Fs → Reply × Kernel M Fs
  run_handler (returning f) a b c k = let r = f a b c k in (replied r.0, r.1)
  run_handler (exiting f) a b c k = (exited (f a), k)

  -- The loop of `syscall_dispatch`.
  pub dispatch_in : List (ℕ × Handler M Fs) → ℕ → ℕ → ℕ → ℕ → Kernel M Fs → Reply × Kernel M Fs
  unfolding run_handler
  dispatch_in [] nr a b c k = (replied (err syscall_failed), k)
  dispatch_in ((n, h) ∷ rest) nr a b c k =
      if n == nr then run_handler h a b c k else dispatch_in rest nr a b c k

-- The handlers read three of the six arguments.
pub syscall_dispatch :
    {M Fs : Type 0} → Calls M Fs → ℕ → ℕ → ℕ → ℕ → Kernel M Fs → Reply × Kernel M Fs
unfolding dispatch_in g_syscalls
syscall_dispatch m nr a b c k = dispatch_in (g_syscalls m) nr a b c k

-- The fields of `struct trap_frame` that a system call uses.
pub record Frame : Type 0 where
  pub rax : ℕ
  pub rdi : ℕ
  pub rsi : ℕ
  pub rdx : ℕ

-- The i64 of a result as a u64: a status is sign-extended.
pub rax_of : Result ℕ → ℕ
rax_of (ok n) = n
rax_of (err e) = 2 ^ 64 - 2 ^ 31 + code e

-- The frame is left by the caller that comes back.
pub end_of_call : {M Fs : Type 0} → Frame → Reply × Kernel M Fs → Option Frame × Kernel M Fs
unfolding rax_of
end_of_call frame (replied r, k) = (some (record frame { rax = rax_of r }), k)
end_of_call frame (exited n, k) = (none, k)

pub syscall_handle : {M Fs : Type 0} → Calls M Fs → Frame → Kernel M Fs → Option Frame × Kernel M Fs
unfolding end_of_call
syscall_handle m frame k =
    end_of_call frame (syscall_dispatch m frame.rax frame.rdi frame.rsi frame.rdx k)
