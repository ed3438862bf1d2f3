-- ===== src/Handles.antt =====
-- nxkernel/kernel/syscall/handles.c: the handle table of a process. A slot pointer is the slot's
-- index; `vfs_close` and the state that it changes are parameters.
pub mod Slots
pub mod Table
pub mod Lifetime
pub mod Shutdown
mod Tests
use nyxis_os.Base.{
  ℕ, zero, suc, ◌+◌, ◌*◌, ◌/◌, ◌%◌, ◌^◌, Bool, true, false, not, ◌||◌, Option, none, some, List, [],
  ◌∷◌, bit_and, ltb, leb, ◌==◌, if◌then◌else◌, get_elem?, set, replicate,
}
use nyxis_os.Base.Words.{pack32}
use nyxis_os.Base.Status.{Result, ok, err, invalid_arg, out_of_memory, permission, ◌>>=◌}
use nyxis_os.Vfs.Handle.{FileHandle, blank_file}

abbrev pub handle_free : ℕ
handle_free = 0

abbrev pub handle_console : ℕ
handle_console = 1

abbrev pub handle_file : ℕ
handle_file = 2

abbrev pub max_handles : ℕ
max_handles = 32

-- `NX_RIGHT_READ` and so on
abbrev pub right_read : ℕ
right_read = 0x01

abbrev pub right_write : ℕ
right_write = 0x02

abbrev pub right_seek : ℕ
right_seek = 0x04

abbrev pub right_stat : ℕ
right_stat = 0x08

abbrev pub right_dup : ℕ
right_dup = 0x10

abbrev pub right_all : ℕ
right_all = 0x1f

-- `nx_handle_t`
pub record Slot : Type 0 where
  pub kind : ℕ
  pub rights : ℕ
  pub generation : ℕ
  pub console_fd : ℕ
  pub file : FileHandle

-- `slots` of `nx_handle_table_t`
abbrev pub Table : Type 0
Table = List Slot

-- A slot after memset, with its generation put back.
abbrev pub blank_slot : ℕ → Slot
blank_slot g = record {
  kind = handle_free;
  rights = 0;
  generation = g;
  console_fd = 0;
  file = blank_file;
}

unfoldable pub make_handle : ℕ → ℕ → ℕ
make_handle generation index = pack32 generation index

-- The loop of `nx_handle_alloc`: the first free slot.
unfoldable pub find_free : ℕ → List Slot → Option ℕ
find_free i [] = none
find_free i (s ∷ ss) = if s.kind == handle_free then some i else find_free (i + 1) ss

-- What `nx_handle_alloc` puts into the free slot `s`.
abbrev pub fill_slot : Slot → ℕ → ℕ → Slot
fill_slot s kind rights = record (blank_slot s.generation) {
  kind = kind;
  rights = bit_and rights right_all;
}

-- The table, the handle and the slot.
unfoldable pub nx_handle_alloc : Table → ℕ → ℕ → Result (Table × ℕ × ℕ)
nx_handle_alloc t kind rights = elim (find_free 0 t) [
  | none ↦ err out_of_memory
  | some i ↦ elim (get_elem? t i) [
    | none ↦ err out_of_memory
    | some s ↦ ok (set t i (fill_slot s kind rights), make_handle s.generation i, i)
  ]
]

-- The checks of `nx_handle_lookup` on the slot.
unfoldable pub check_slot : Slot → ℕ → ℕ → ℕ → Result (ℕ × Slot)
check_slot s index generation required =
    if s.kind == handle_free || not (s.generation == generation)
    then err invalid_arg
    else if bit_and s.rights required == required
    then ok (index, s)
    else err permission

-- The slot's index, with the slot.
unfoldable pub nx_handle_lookup : Table → ℕ → ℕ → Result (ℕ × Slot)
nx_handle_lookup t handle required =
    if leb max_handles (handle % 2 ^ 32)
    then err invalid_arg
    else elim (get_elem? t (handle % 2 ^ 32)) [
      | none ↦ err invalid_arg
      | some s ↦ check_slot s (handle % 2 ^ 32) (handle / 2 ^ 32 % 2 ^ 32) required
    ]

-- `slot->generation + 1U`
abbrev pub next_generation : ℕ → ℕ
next_generation g = (g + 1) % 2 ^ 32

unfoldable pub nx_handle_discard : Table → ℕ → Table
nx_handle_discard t i = elim (get_elem? t i) [
  | none ↦ t
  | some s ↦ set t i (blank_slot (next_generation s.generation))
]

unfoldable pub nx_handles_count : Table → ℕ
nx_handles_count [] = 0
nx_handles_count (s ∷ ss) = (if s.kind == handle_free then 0 else 1) + nx_handles_count ss

-- `slot->console_fd = fd`
unfoldable pub set_console_fd : Table → ℕ → ℕ → Table
set_console_fd t i fd = elim (get_elem? t i) [
  | none ↦ t
  | some s ↦ set t i (record s { console_fd = fd })
]

-- One of the three calls of `nx_handles_init`; a failure leaves the table.
open_console : Table → ℕ → ℕ → Table
unfolding set_console_fd nx_handle_alloc find_free make_handle
open_console t rights fd = elim (nx_handle_alloc t handle_console rights) [
  | err e ↦ t
  | ok r ↦ set_console_fd r.0 r.2 fd
]

pub nx_handles_init : Table
unfolding open_console
nx_handles_init =
    open_console (open_console (open_console (replicate max_handles (blank_slot 0)) 0x19 0) 0x1a 1)
      0x1a 2

module _ {Fs : Type 0} (vfs_close : FileHandle → Fs → Fs) where
  unfoldable pub nx_handle_close : Table → ℕ → Fs → Result (Table × Fs)
  nx_handle_close t handle fs = elim (nx_handle_lookup t handle 0) [
    | err e ↦ err e
    | ok r ↦ ok (
      set t r.0 (blank_slot (next_generation r.1.generation)),
      if r.1.kind == handle_file then vfs_close r.1.file fs else fs,
    )
  ]

  -- The status of the close is dropped.
  pub close_or_keep : Table → ℕ → Fs → Table × Fs
  unfolding nx_handle_close
  close_or_keep t handle fs = elim (nx_handle_close t handle fs) [ err e ↦ (t, fs) | ok r ↦ r ]

  -- One round of the loop of `nx_handles_close_all`.
  pub close_slot : ℕ → Table × Fs → Table × Fs
  close_slot i (t, fs) = elim (get_elem? t i) [
    | none ↦ (t, fs)
    | some s ↦
        if s.kind == handle_free then (t, fs) else close_or_keep t (make_handle s.generation i) fs
  ]

  pub close_from : ℕ → ℕ → Table × Fs → Table × Fs
  close_from zero i st = st
  close_from (suc n) i st = close_from n (i + 1) (close_slot i st)

  pub nx_handles_close_all : Table → Fs → Table × Fs
  unfolding close_from
  nx_handles_close_all t fs = close_from max_handles 0 (t, fs)
