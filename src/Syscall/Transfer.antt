-- ===== src/Syscall/Transfer.antt =====
-- The system calls that read and write through a handle.
use nyxis_os.Base.{
  ℕ, zero, suc, ◌+◌, ◌-◌, ◌%◌, ◌^◌, Bool, true, false, not, ◌||◌, ◌&&◌, List, [], ◌∷◌, ◌++◌, map,
  min, length, ltb, leb, ◌==◌, if◌then◌else◌,
}
use nyxis_os.Base.Status.{Error, Result, ok, err, unsupported}
use nyxis_os.Base.Effect.{Eff, ◌>>=◌, return, lift}
use nyxis_os.Vfs.Handle.{FileHandle}
use nyxis_os.Handles.{handle_console, handle_file, right_read, right_write}
use nyxis_os.Uaccess.{User, copy_from_user, copy_to_user}
use nyxis_os.Syscall.State.{Kernel, Calls, find_slot, set_file, put_file, user_of}

-- `IO_CHUNK` and `NX_IO_MAX`
abbrev pub io_chunk : ℕ
io_chunk = 512

abbrev pub io_max : ℕ
io_max = 0x100000

-- `total ? (i64)total : (i64)status`
abbrev pub total_or : ℕ → Error → Result ℕ
total_or total e = if total == 0 then err e else ok total

-- What `printk_write` prints for a byte.
unfoldable pub printable : ℕ → ℕ
printable c =
    if c == b'\n' || (c == b'\r' || (c == b'\t' || (leb 0x20 c && leb c 0x7e))) then c else b'?'

-- What a transfer works on: the file of the slot, user memory, the file systems and the output.
pub record Stream (M Fs : Type 0) : Type 0 where
  pub file : FileHandle
  pub mem : M
  pub fs : Fs
  pub log : List ℕ

unfoldable pub printk_write : {M Fs : Type 0} → List ℕ → Stream M Fs → Stream M Fs
unfolding printable
printk_write bytes x = record x { log = x.log ++ map printable bytes }

module _ {M Fs : Type 0} (m : Calls M Fs) (u : User M) where
  -- The end of a round that has read `got` bytes, by the outcome of their copy. `next` is the rest.
  unfoldable pub after_copy :
      ℕ → ℕ → ℕ → (ℕ → Eff (Stream M Fs) ℕ) → Result (Unit {0}) × M → Eff (Stream M Fs) ℕ
  after_copy total got want next (err e, mem) x = (
    total_or total e,
    record x {
      file = record x.file { offset = (x.file.offset + 2 ^ 64 - got) % 2 ^ 64 };
      mem = mem;
    },
  )
  after_copy total got want next (ok u, mem) x =
      let y = record x { mem = mem } in
      let rest = next (total + got) y in if ltb got want then (ok (total + got), y) else rest

  unfoldable pub after_read :
      ℕ → ℕ → ℕ → (ℕ → Eff (Stream M Fs) ℕ) → Result (List ℕ) → Eff (Stream M Fs) ℕ
  unfolding after_copy
  after_read buf total want next (err e) x = (total_or total e, x)
  after_read buf total want next (ok []) x = (ok total, x)
  after_read buf total want next (ok (b ∷ bs)) x =
      after_copy total (length (b ∷ bs)) want next
        (copy_to_user u ((buf + total) % 2 ^ 64) (b ∷ bs) x.mem) x

  -- The loop of `sys_read`, with fuel: each round but the last reads a byte or more.
  unfoldable pub read_loop : ℕ → ℕ → ℕ → ℕ → Eff (Stream M Fs) ℕ
  unfolding after_read
  read_loop zero buf len total x = (ok total, x)
  read_loop (suc fuel) buf len total x =
      let want = min (len - total) io_chunk in
      let r = m.vfs_read x.file want x.fs in
      let round =
        after_read buf total want (read_loop fuel buf len) r.0
          (record x { file = r.1; fs = r.2 }) in
      if ltb total len then round else (ok total, x)

  -- What becomes of a chunk that was copied, on the console or in the file.
  unfoldable pub after_write : ℕ → ℕ → (ℕ → Eff (Stream M Fs) ℕ) → Result ℕ → Eff (Stream M Fs) ℕ
  after_write total n next (err e) x = (total_or total e, x)
  after_write total n next (ok written) x =
      let rest = next (total + n) x in if ltb written n then (ok (total + written), x) else rest

  unfoldable pub write_chunk :
      Bool → ℕ → ℕ → (ℕ → Eff (Stream M Fs) ℕ) → Result (List ℕ) → Eff (Stream M Fs) ℕ
  unfolding after_write printk_write
  write_chunk console total n next (err e) x = (total_or total e, x)
  write_chunk true total n next (ok chunk) x = next (total + n) (printk_write chunk x)
  write_chunk false total n next (ok chunk) x =
      let r = m.vfs_write x.file chunk x.fs in
      after_write total n next r.0 (record x { file = r.1; fs = r.2 })

  -- The loop of `sys_write`, with fuel.
  unfoldable pub write_loop : Bool → ℕ → ℕ → ℕ → ℕ → Eff (Stream M Fs) ℕ
  unfolding write_chunk
  write_loop console zero buf len total x = (ok total, x)
  write_loop console (suc fuel) buf len total x =
      let n = min (len - total) io_chunk in
      let round =
        write_chunk console total n (write_loop console fuel buf len)
          (copy_from_user u ((buf + total) % 2 ^ 64) n x.mem) x in
      if ltb total len then round else (ok total, x)

abbrev pub stream_of : {M Fs : Type 0} → FileHandle → Kernel M Fs → Stream M Fs
stream_of file k = record { file = file; mem = k.mem; fs = k.fs; log = k.log }

-- The slot keeps its file through the loop.
unfoldable pub on_slot :
    {M Fs : Type 0} → ℕ → FileHandle → Eff (Stream M Fs) ℕ → Eff (Kernel M Fs) ℕ
unfolding set_file
on_slot i file loop k =
    let r = loop (stream_of file k) in
    (r.0, put_file i r.1.file (record k { mem = r.1.mem; fs = r.1.fs; log = r.1.log }))

module _ {M Fs : Type 0} (m : Calls M Fs) where
  unfoldable pub sys_read : ℕ → ℕ → ℕ → Eff (Kernel M Fs) ℕ
  unfolding find_slot on_slot read_loop
  sys_read handle buf len k =
      (find_slot handle right_read >>= λ found.
      if len == 0
      then return 0
      else if not (found.1.kind == handle_file)
      then lift (err unsupported)
      else on_slot found.0 found.1.file
          (read_loop m (user_of m k) (min len io_max) buf (min len io_max) 0))
        k

  unfoldable pub sys_write : ℕ → ℕ → ℕ → Eff (Kernel M Fs) ℕ
  unfolding find_slot on_slot write_loop
  sys_write handle buf len k =
      (find_slot handle right_write >>= λ found.
      if len == 0
      then return 0
      else on_slot found.0 found.1.file (
          write_loop m (user_of m k) (found.1.kind == handle_console) (min len io_max) buf
            (min len io_max) 0))
        k
