-- ===== src/Syscall/Tests.antt =====
-- System calls of a process with the console and one open file.
use nyxis_os.Base.{
  ℕ, ◌+◌, ◌-◌, ◌*◌, ◌%◌, ◌^◌, ◌≡◌, ◌↔◌, refl, inl, true, ◌&&◌, some, List, [], ◌∷◌, arith, ltb, leb,
  if◌then◌else◌, length, take, drop, get_or, min, replicate, bit_and,
}
use nyxis_os.Base.Words.{pack32}
use nyxis_os.Base.Status.{Result, ok, err, unsupported, syscall_failed}
use nyxis_os.Vfs.Handle.{FileHandle, blank_file}
use nyxis_os.Process.{Process, blank_process}
use nyxis_os.Uaccess.{User, copy_to_user, all_stored}
use nyxis_os.Umem.{Pages}
use nyxis_os.Handles.{
  Slot, Table, blank_slot, handle_console, handle_file, nx_handle_lookup, nx_handle_alloc,
  check_slot, find_free, make_handle,
}
use nyxis_os.Handles.Slots.{IsTable}
use nyxis_os.Syscall.State.{Kernel, Calls, user_of, set_file}
use nyxis_os.Syscall.Objects.{sys_seek, sys_duplicate_handle}
use nyxis_os.Syscall.Transfer.{Stream, sys_read, io_max}
use nyxis_os.Syscall.Reading.{View, IsReading, Delivered}
use nyxis_os.Syscall.Rights.{duplicate-Grants}
use nyxis_os.Syscall.Seeking.{SeeksTo, Sought, sys_seek_lem, sys_read_lem}
use nyxis_os.Syscall.{replied, syscall_dispatch}

abbrev hello : List ℕ
hello = 104 ∷ 101 ∷ 108 ∷ 108 ∷ 111 ∷ []

abbrev write_at : ℕ → List ℕ → (ℕ → ℕ) → ℕ → ℕ
write_at addr bytes mem a =
    if leb addr a && ltb a (addr + length bytes) then get_or bytes (a - addr) 0 else mem a

abbrev user : User (ℕ → ℕ)
user = record {
  has_process = true;
  is_user_range = λ a n w. leb 4096 a;
  load = λ a n mem. some (replicate n 0);
  store = λ a bytes mem. (true, write_at a bytes mem);
}

abbrev pages : Pages (ℕ → ℕ)
pages = record {
  pfa_alloc = λ s. ok (0, s);
  pfa_free = λ p s. s;
  paging_map_page = λ p q s. (ok tt, s);
  paging_unmap_free_page = λ p s. s;
}

-- One file that holds "hello". The state counts the open files.
abbrev calls : Calls (ℕ → ℕ) ℕ
calls = record {
  user = user;
  pages = pages;
  vfs_open = λ path flags n. (ok blank_file, n + 1);
  vfs_read = λ file n fs.
      let bytes = take n (drop file.offset hello) in
      (ok bytes, record file { offset = file.offset + length bytes }, fs);
  vfs_write = λ file bytes fs. (err unsupported, file, fs);
  vfs_close = λ file n. n - 1;
  vfs_fstat = λ file fs. (ok (record { size = 5; kind = 1 }), fs);
  vfs_reopen = λ file n. (ok file, n + 1);
  timer_get_ns = 0;
  timer_get_hz = 100;
  memory_size = 0;
  process_count = 1;
  schedule = λ k. k;
  process_sleep_ticks = λ n k. (ok tt, k);
  process_spawn = λ path k. (ok 7, k);
}

abbrev console : ℕ → ℕ → Slot
console rights fd = record (blank_slot 0) {
  kind = handle_console;
  rights = rights;
  console_fd = fd;
}

abbrev hello_file : FileHandle
hello_file = record blank_file { vnode = some 9; offset = 1 }

abbrev file_slot : Slot
file_slot = record (blank_slot 5) { kind = handle_file; rights = 0x1d; file = hello_file }

abbrev table : Table
table = console 0x19 0 ∷ console 0x1a 1 ∷ console 0x1a 2 ∷ file_slot ∷ replicate 28 (blank_slot 0)

abbrev process : Process
process = record blank_process { pid = 3; handles = table }

abbrev kernel : Kernel (ℕ → ℕ) ℕ
kernel = record { current = some process; mem = λ a. 0; fs = 1; log = [] }

-- Generation 5, slot 3.
abbrev handle : ℕ
handle = 5 * 2 ^ 32 + 3

abbrev view : View (ℕ → ℕ)
view = record { vnode = 9; content = hello; peek = λ mem. mem }

calls-IsReading : IsReading calls (user_of calls kernel) view
calls-IsReading = record {
  reads = λ file n fs is. inl (refl, refl, is);
  stores = λ addr bytes mem. (length bytes, omega arith, (λ h. refl), λ a. refl);
}

seek_at : (sys_seek calls handle (2 ^ 64 - 1) 2 kernel).0 ≡ ok 4
unfolding sys_seek nx_handle_lookup check_slot
seek_at = refl

-- One byte before the end.
sys_seek_lem_example :
    (((sys_seek calls handle (2 ^ 64 - 1) 2 kernel).0 ≡ ok 4)
      ↔ SeeksTo calls 2 (2 ^ 64 - 1) file_slot 1 4)
    × Sought calls process 3 file_slot (sys_seek calls handle (2 ^ 64 - 1) 2 kernel)
unfolding nx_handle_lookup check_slot
sys_seek_lem_example =
    sys_seek_lem calls handle (2 ^ 64 - 1) 2 4 3 file_slot kernel process refl refl

sys_read_lem_example :
    (r : Result ℕ × Stream (ℕ → ℕ) ℕ) × Delivered calls
      (user_of calls kernel)
      view
      calls-IsReading
      5000
      (min 100 io_max)
      1
      0
      kernel.mem
      r
    × ((sys_read calls handle 5000 100 kernel).0 ≡ r.0)
    × ((sys_read calls handle 5000 100 kernel).1.mem ≡ r.1.mem)
    × ((sys_read calls handle 5000 100 kernel).1.current
        ≡ some (record process { handles = set_file table 3 r.1.file }))
unfolding nx_handle_lookup check_slot
sys_read_lem_example =
    sys_read_lem calls view handle 5000 100 3 file_slot kernel process refl refl refl refl
      calls-IsReading (omega arith) (omega arith) (omega arith)

reads_ello : (sys_read calls handle 5000 100 kernel).0 ≡ ok 4
unfolding sys_read nx_handle_lookup check_slot copy_to_user all_stored
reads_ello = refl

table-IsTable : IsTable table
table-IsTable = omega arith

-- The new handle: generation 0, slot 4, with the rights to read and to duplicate.
abbrev dup_slot : Slot
dup_slot = record (blank_slot 0) { kind = handle_file; rights = 0x11; file = hello_file }

duplicate-Grants_example :
    (i : ℕ) × (s : Slot) × (nx_handle_lookup table handle 1 ≡ ok (i, s))
    × (bit_and (0x11 % 2 ^ 32) 1 ≡ 1)
unfolding sys_duplicate_handle nx_handle_lookup check_slot nx_handle_alloc find_free make_handle
    pack32
duplicate-Grants_example =
    duplicate-Grants calls kernel (sys_duplicate_handle calls handle 0x11 kernel).1 process handle
      0x11 4 1 4 dup_slot
      (console 0x19 0
        ∷ console 0x1a 1
        ∷ console 0x1a 2
        ∷ file_slot
        ∷ dup_slot
        ∷ replicate 27 (blank_slot 0))
      refl table-IsTable refl refl refl

-- There is no such call, and nothing happens.
unknown_call : syscall_dispatch calls 1000 1 2 3 kernel ≡ (replied (err syscall_failed), kernel)
unfolding syscall_dispatch
unknown_call = refl
