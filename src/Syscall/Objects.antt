-- ===== src/Syscall/Objects.antt =====
-- The system calls on handles but reading and writing.
use Prim.Native.Nat.{bit_and, bit_or}
use nyxis_os.Base.{
  ℕ, ◌+◌, ◌-◌, ◌%◌, ◌^◌, not, ◌||◌, none, some, List, [], ◌++◌, replicate, ltb, ◌==◌, if◌then◌else◌,
}
use nyxis_os.Base.Bytes.{bytes_of}
use nyxis_os.Base.Status.{Result, ok, err, invalid_arg, unsupported, overflow, not_initialized}
use nyxis_os.Base.Effect.{Eff, ◌>>=◌, ◌>>◌, return, lift, fail_if, modify, on_error}
use nyxis_os.Vfs.Handle.{FileHandle}
use nyxis_os.Handles.{
  Table, Slot, handle_console, handle_file, right_read, right_write, right_seek, right_stat,
  right_dup, right_all, nx_handle_alloc, nx_handle_lookup, nx_handle_discard, nx_handle_close,
  set_console_fd,
}
use nyxis_os.Umem.{ℤ, pos, negsuc}
use nyxis_os.Syscall.State.{
  Kernel, Calls, cur_handles, put_table, on_fs, find_slot, set_file, put_file, to_user, string_arg,
}

-- `NX_O_READ`, `NX_O_WRITE` and `NX_O_MASK`
abbrev pub o_read : ℕ
o_read = 1

abbrev pub o_write : ℕ
o_write = 2

abbrev pub o_mask : ℕ
o_mask = 3

-- `NX_PATH_MAX`
abbrev pub path_max : ℕ
path_max = 256

-- `NX_TYPE_FILE` and so on
abbrev pub type_file : ℕ
type_file = 1

abbrev pub type_dir : ℕ
type_dir = 2

abbrev pub type_console : ℕ
type_console = 3

-- `a & ~mask`
abbrev pub outside : ℕ → ℕ → ℕ
outside a mask = bit_and a (2 ^ 64 - 1 - mask)

-- The rights of a file that is opened with these flags.
unfoldable pub rights_of : ℕ → ℕ
rights_of flags =
    let base = bit_or (bit_or right_seek right_stat) right_dup in
    let read = if bit_and flags o_read == 0 then base else bit_or base right_read in
    if bit_and flags o_write == 0 then read else bit_or read right_write

-- A u64 as an i64.
unfoldable pub to_i64 : ℕ → ℤ
to_i64 n = if ltb n (2 ^ 63) then pos n else negsuc (2 ^ 64 - 1 - n)

-- The bound on both sides of a seek.
abbrev pub seek_max : ℕ
seek_max = 0x3fffffffffffffff

-- The checks on the offset, and the target.
unfoldable pub seek_target : ℕ → ℤ → Result ℕ
seek_target base (pos n) = if ltb seek_max n then err invalid_arg else ok (base + n)
seek_target base (negsuc n) =
    if ltb seek_max (n + 1)
    then err invalid_arg
    else if ltb base (n + 1)
    then err invalid_arg
    else ok (base - (n + 1))

module _ {M Fs : Type 0} (m : Calls M Fs) where
  abbrev pub close_file : FileHandle → Kernel M Fs → Kernel M Fs
  close_file file k = record k { fs = m.vfs_close file k.fs }

  -- The write of no bytes that asks whether the file system can write.
  unfoldable pub probe : FileHandle → Eff (Kernel M Fs) FileHandle
  probe file k =
      let r = m.vfs_write file [] k.fs in
      elim r.0 [
        | err e ↦ (err e, record k { fs = m.vfs_close r.1 r.2 })
        | ok n ↦ (ok r.1, record k { fs = r.2 })
      ]

  unfoldable pub sys_open : ℕ → ℕ → Eff (Kernel M Fs) ℕ
  unfolding probe rights_of string_arg
  sys_open path_addr flags = do
    t ← cur_handles
    fail_if (not (outside flags o_mask == 0) || flags == 0) invalid_arg
    path ← string_arg m path_addr path_max
    opened ← on_fs (m.vfs_open path (flags % 2 ^ 32))
    file ← if bit_and flags o_write == 0 then return opened else probe opened
    r ← on_error (close_file file) (lift (nx_handle_alloc t handle_file (rights_of flags)))
    modify (put_table (set_file r.0 r.2 file))
    return r.1

  unfoldable pub sys_close : ℕ → Eff (Kernel M Fs) ℕ
  sys_close handle k = elim k.current [
    | none ↦ (err not_initialized, k)
    | some p ↦ elim (nx_handle_close m.vfs_close p.handles handle k.fs) [
      | err e ↦ (err e, k)
      | ok r ↦ (ok 0, put_table r.0 (record k { fs = r.1 }))
    ]
  ]

  -- The base of a seek.
  unfoldable pub seek_base : ℕ → FileHandle → Eff (Kernel M Fs) ℕ
  seek_base whence file =
      if whence == 0
      then return 0
      else if whence == 1
      then return file.offset
      else if whence == 2
      then (on_fs (m.vfs_fstat file) >>= λ st. return st.size)
      else lift (err invalid_arg)

  -- A base below 0 as an i64 is above the bound as a u64.
  unfoldable pub sys_seek : ℕ → ℕ → ℕ → Eff (Kernel M Fs) ℕ
  unfolding find_slot seek_base to_i64 seek_target set_file
  sys_seek handle offset whence = do
    found ← find_slot handle right_seek
    fail_if (not (found.1.kind == handle_file)) unsupported
    base ← seek_base whence found.1.file
    fail_if (ltb seek_max base) overflow
    target ← lift (seek_target base (to_i64 offset))
    modify (put_file found.0 (record found.1.file { offset = target }))
    return target

  -- The bytes of a `struct nx_stat`.
  abbrev pub stat_bytes : ℕ → ℕ → ℕ → List ℕ
  stat_bytes size kind rights =
      bytes_of 8 size ++ (bytes_of 4 kind ++ (bytes_of 4 rights ++ replicate 16 0))

  unfoldable pub file_stat : FileHandle → ℕ → Eff (Kernel M Fs) (List ℕ)
  file_stat file rights = do
    st ← on_fs (m.vfs_fstat file)
    return (stat_bytes st.size (if st.kind == 2 then type_dir else type_file) rights)

  unfoldable pub sys_stat : ℕ → ℕ → Eff (Kernel M Fs) ℕ
  unfolding find_slot file_stat
  sys_stat handle out = do
    found ← find_slot handle right_stat
    bytes ←
        if found.1.kind == handle_console
        then return (stat_bytes 0 type_console found.1.rights)
        else file_stat found.1.file found.1.rights
    to_user m out bytes
    return 0

  -- What a duplicate takes over from its slot; `t` is the table with the new slot `j`.
  unfoldable pub fill_dup : Table → ℕ → Slot → Eff (Kernel M Fs) (Unit {0})
  unfolding set_file set_console_fd nx_handle_discard
  fill_dup t j s =
      if s.kind == handle_console
      then modify (put_table (set_console_fd t j s.console_fd))
      else (on_error (put_table (nx_handle_discard t j)) (on_fs (m.vfs_reopen s.file)) >>= λ file.
          modify (put_table (set_file t j file)))

  unfoldable pub sys_duplicate_handle : ℕ → ℕ → Eff (Kernel M Fs) ℕ
  unfolding fill_dup nx_handle_lookup nx_handle_alloc
  sys_duplicate_handle handle mask = do
    t ← cur_handles
    fail_if (not (outside mask right_all == 0)) invalid_arg
    found ← lift (nx_handle_lookup t handle right_dup)
    r ← lift (nx_handle_alloc t found.1.kind (bit_and found.1.rights (mask % 2 ^ 32)))
    fill_dup r.0 r.2 found.1
    return r.1
