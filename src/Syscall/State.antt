-- ===== src/Syscall/State.antt =====
-- The state that the system calls work on, and what they call.
use nyxis_os.Base.{
  ℕ, Bool, true, false, Option, none, some, List, [], ◌∷◌, get_elem?, set, ◌≡◌, sym, ap, ◌∙◌, ◌==◌,
  if◌then◌else◌,
}
use nyxis_os.Base.Status.{Result, ok, err, not_initialized}
use nyxis_os.Base.Effect.{Eff, after, ◌>>=◌, lift}
use nyxis_os.Vfs.Handle.{FileHandle, VfsStat}
use nyxis_os.Handles.{Table, Slot, nx_handle_lookup}
use nyxis_os.Process.{Process}
use nyxis_os.Uaccess.{User, copy_from_user, copy_to_user, copy_string_from_user}
use nyxis_os.Umem.{Pages}

-- `current_process` (none if there is no process), the memory and page tables of user space, the
-- state of the file systems, and what has been printed.
pub record Kernel (M Fs : Type 0) : Type 0 where
  pub current : Option Process
  pub mem : M
  pub fs : Fs
  pub log : List ℕ

-- What syscall.c calls of other files. A read gives the bytes; a read and a write return the
-- `handle_t` too, whose offset they move.
pub record Calls (M Fs : Type 0) : Type 0 where
  pub user : User M
  pub pages : Pages M
  pub vfs_open : List ℕ → ℕ → Fs → Result FileHandle × Fs
  pub vfs_read : FileHandle → ℕ → Fs → Result (List ℕ) × FileHandle × Fs
  pub vfs_write : FileHandle → List ℕ → Fs → Result ℕ × FileHandle × Fs
  pub vfs_close : FileHandle → Fs → Fs
  pub vfs_fstat : FileHandle → Fs → Result VfsStat × Fs
  pub vfs_reopen : FileHandle → Fs → Result FileHandle × Fs
  pub timer_get_ns : ℕ
  pub timer_get_hz : ℕ
  pub memory_size : ℕ
  pub process_count : ℕ
  pub schedule : Kernel M Fs → Kernel M Fs
  pub process_sleep_ticks : ℕ → Eff (Kernel M Fs) (Unit {0})
  pub process_spawn : List ℕ → Eff (Kernel M Fs) ℕ

abbrev pub is_some {ℓ} : {A : Type ℓ} → Option A → Bool
is_some none = false
is_some (some a) = true

module _ {M Fs : Type 0} where
  -- `cur_handles`, with the check of every caller.
  abbrev pub cur_handles : Eff (Kernel M Fs) Table
  cur_handles k = elim k.current [ none ↦ (err not_initialized, k) | some p ↦ (ok p.handles, k) ]

  pub cur_handles_lem :
      (k : Kernel M Fs) {p : Process} → k.current ≡ some p → cur_handles k ≡ (ok p.handles, k)
  cur_handles_lem k e = simp (cur_handles, e)

  -- With a current process a call goes on with its table.
  pub with_table :
      {A : Type 0} (k : Kernel M Fs) {p : Process} (next : Table → Eff (Kernel M Fs) A)
      {r : Result A × Kernel M Fs}
      → k.current ≡ some p
      → after (cur_handles k) next ≡ r
      → next p.handles k ≡ r
  with_table k next e h = ap (λ c. after c next) (sym (cur_handles_lem k e)) ∙ h

  abbrev pub put_table : Table → Kernel M Fs → Kernel M Fs
  put_table t k = elim k.current [
    | none ↦ k
    | some p ↦ record k { current = some (record p { handles = t }) }
  ]

  -- A call of the file systems.
  abbrev pub on_fs : {A : Type 0} → (Fs → Result A × Fs) → Eff (Kernel M Fs) A
  on_fs call k = let r = call k.fs in (r.0, record k { fs = r.1 })

  -- The slot that a handle leads to, with its index.
  unfoldable pub find_slot : ℕ → ℕ → Eff (Kernel M Fs) (ℕ × Slot)
  find_slot handle right = do t ← cur_handles; lift (nx_handle_lookup t handle right)

-- `slots[i].file = file`
unfoldable pub set_file : Table → ℕ → FileHandle → Table
set_file t i file = elim (get_elem? t i) [ none ↦ t | some s ↦ set t i (record s { file = file }) ]

abbrev pub put_file : {M Fs : Type 0} → ℕ → FileHandle → Kernel M Fs → Kernel M Fs
put_file i file k = elim k.current [
  | none ↦ k
  | some p ↦ record k { current = some (record p { handles = set_file p.handles i file }) }
]

before_nul : List ℕ → List ℕ
before_nul [] = []
before_nul (c ∷ cs) = if c == 0 then [] else c ∷ before_nul cs

-- The C string in the buffer of a copy that has succeeded.
text_of : Result (Unit {0}) × List ℕ → Result (List ℕ)
unfolding before_nul
text_of (err e, bytes) = err e
text_of (ok u, bytes) = ok (before_nul bytes)

module _ {M Fs : Type 0} (m : Calls M Fs) where
  -- Whether there is a current process is in the state.
  abbrev pub user_of : Kernel M Fs → User M
  user_of k = record m.user { has_process = is_some k.current }

  abbrev pub to_user : ℕ → List ℕ → Eff (Kernel M Fs) (Unit {0})
  to_user addr bytes k =
      let r = copy_to_user (user_of k) addr bytes k.mem in (r.0, record k { mem = r.1 })

  abbrev pub from_user : ℕ → ℕ → Eff (Kernel M Fs) (List ℕ)
  from_user addr len k = (copy_from_user (user_of k) addr len k.mem, k)

  -- The string that a system call is given.
  unfoldable pub string_arg : ℕ → ℕ → Eff (Kernel M Fs) (List ℕ)
  unfolding text_of
  string_arg addr max k = (text_of (copy_string_from_user (user_of k) addr max k.mem), k)
