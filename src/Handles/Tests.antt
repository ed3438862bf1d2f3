-- ===== src/Handles/Tests.antt =====
-- The handle table at concrete inputs: `nx_handles_init`, and an instance of each theorem.
use nyxis_os.Base.{ℕ, ◌+◌, ◌^◌, ◌≡◌, ◌↔◌, refl, some, [], ◌∷◌, arith, get_elem?, map, replicate}
use nyxis_os.Base.Words.{pack32}
use nyxis_os.Base.Status.{ok, err, invalid_arg, permission, out_of_memory}
use nyxis_os.Vfs.Handle.{FileHandle, blank_file}
use nyxis_os.Handles.{
  Slot, Table, handle_console, handle_file, max_handles, make_handle, nx_handle_lookup, check_slot,
  nx_handle_alloc, nx_handle_close, find_free, fill_slot, nx_handles_close_all, blank_slot,
  nx_handles_count, nx_handles_init,
}
use nyxis_os.Handles.Slots.{IsTable}
use nyxis_os.Handles.Table.{lookup-alloc, alloc_full_iff, lookup-alloc_other}
use nyxis_os.Handles.Lifetime.{allocated, closed, run, closed_stays_closed}
use nyxis_os.Handles.Shutdown.{close_all_lem, closed_slot}

abbrev console : ℕ → ℕ → Slot
console rights fd = record (blank_slot 0) {
  kind = handle_console;
  rights = rights;
  console_fd = fd;
}

-- The table of a new process.
abbrev fresh : Table
fresh = console 0x19 0 ∷ console 0x1a 1 ∷ console 0x1a 2 ∷ replicate 29 (blank_slot 0)

init_runs : nx_handles_init ≡ fresh
unfolding nx_handles_init
init_runs = refl

fresh-IsTable : IsTable fresh
fresh-IsTable = omega arith

-- Slot 0 in use with generation 5; a process that opened nothing else.
abbrev file_slot : Slot
file_slot = record {
  kind = handle_file;
  rights = 0x0d;
  generation = 5;
  console_fd = 0;
  file = blank_file;
}

abbrev one_file : Table
one_file = file_slot ∷ replicate 31 (blank_slot 0)

one_file-IsTable : IsTable one_file
one_file-IsTable = omega arith

-- `fresh` with a new file handle in slot 3.
abbrev opened : Table
opened =
    console 0x19 0
    ∷ console 0x1a 1
    ∷ console 0x1a 2
    ∷ fill_slot (blank_slot 0) handle_file 0x0d
    ∷ replicate 28 (blank_slot 0)

alloc_opens : nx_handle_alloc fresh handle_file 0x0d ≡ ok (opened, 3, 3)
unfolding nx_handle_alloc find_free make_handle pack32
alloc_opens = refl

-- Asked for the rights to write, the new handle is refused; it has those to read and to seek.
lookup-alloc_example :
    (s : Slot) × (get_elem? opened 3 ≡ some s)
    × (s.kind ≡ handle_file)
    × (s.rights ≡ 0x0d)
    × (nx_handle_lookup opened 3 0x02 ≡ err permission)
lookup-alloc_example = lookup-alloc fresh handle_file 0x0d 0x02 fresh-IsTable (λ e. cc) alloc_opens

alloc_full_iff_example :
    (nx_handle_alloc (replicate 32 (console 0 0)) 2 0 ≡ err out_of_memory)
    ↔ (nx_handles_count (replicate 32 (console 0 0)) ≡ max_handles)
alloc_full_iff_example = alloc_full_iff (replicate 32 (console 0 0)) 2 0 (omega arith)

lookup-alloc_other_example : nx_handle_lookup opened 1 0x02 ≡ ok (1, console 0x1a 1)
unfolding nx_handle_lookup check_slot
lookup-alloc_other_example = lookup-alloc_other fresh handle_file 0x0d 1 0x02 alloc_opens refl

-- A file system that counts its closes.
abbrev count_close : FileHandle → ℕ → ℕ
count_close f n = n + 1

close_runs :
    nx_handle_close count_close opened 3 0
    ≡ ok (
      console 0x19 0 ∷ console 0x1a 1 ∷ console 0x1a 2 ∷ blank_slot 1 ∷ replicate 28 (blank_slot 0),
      1,
    )
unfolding nx_handle_close nx_handle_lookup check_slot
close_runs = refl

closed_stays_closed_example :
    nx_handle_lookup
      (run count_close (allocated 2 0x0d ∷ closed (2 ^ 32 + 3) ∷ []) (
        console 0x19 0
            ∷ console 0x1a 1
            ∷ console 0x1a 2
            ∷ blank_slot 1
            ∷ replicate 28 (blank_slot 0),
        1,
      )).0
      3
      0
    ≡ err invalid_arg
closed_stays_closed_example =
    closed_stays_closed count_close opened 3 0 0 (allocated 2 0x0d ∷ closed (2 ^ 32 + 3) ∷ [])
      close_runs (omega arith)

close_all_lem_example :
    (nx_handles_count (nx_handles_close_all count_close opened 7).0 ≡ 0)
    × ((nx_handles_close_all count_close opened 7).1 ≡ 8)
    × ((nx_handles_close_all count_close opened 7).0 ≡ map closed_slot opened)
close_all_lem_example = close_all_lem count_close opened 7 (omega arith)
