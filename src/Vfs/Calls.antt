-- ===== src/Vfs/Calls.antt =====
-- The calls of vfs.c on open files.
use nyxis_os.Base.{ℕ, ◌+◌, ◌%◌, ◌^◌, Option, none, some, List, get_or, set, ◌==◌, length}
use nyxis_os.Base.Status.{Result, ok, err, unsupported, invalid_arg, out_of_memory}
use nyxis_os.Base.Effect.{Eff, ◌>>=◌, ◌>>◌, fail_if, modify, on_error}
use nyxis_os.Vfs.Handle.{FileHandle, VfsStat, blank_file}
use nyxis_os.Vfs.Tree.{Vfs, dentry_at, alloc_handle, free_handle}
use nyxis_os.Vfs.Resolve.{Open, Drivers, op_of, call_op, resolve_path_internal}

module _ {D : Type 0} (drivers : Drivers D) where
  -- The slot is filled, the driver's `open` runs on it, and a copy goes to the caller. The slot is
  -- given back in any case.
  unfoldable pub open_slot :
      FileHandle → (ℕ → Eff (Vfs D) (Unit {0})) → Option ℕ × Vfs D → Result FileHandle × Vfs D
  unfolding free_handle
  open_slot file call (none, v) = (err out_of_memory, v)
  open_slot file call (some i, v) =
      (on_error (free_handle i) (call i) >>= λ u w.
      (ok (get_or w.handles i blank_file), free_handle i w))
        (record v { handles = set v.handles i file })

  -- What `vfs_open` does with the vnode and the driver's function.
  unfoldable pub open_node :
      ℕ → ℕ → (ℕ → ℕ → ℕ → Eff (Vfs D) (Unit {0})) → ℕ → Eff (Vfs D) FileHandle
  unfolding open_slot alloc_handle
  open_node flags offset open_file node v =
      open_slot
        (record {
          vnode = some node;
          offset = offset;
          flags = flags;
          fs_private = none;
          refcnt = 1;
        })
        (open_file node flags) (alloc_handle v)

  unfoldable pub vfs_open : List ℕ → List ℕ → ℕ → Eff (Vfs D) FileHandle
  unfolding resolve_path_internal call_op open_node
  vfs_open stack path flags = resolve_path_internal drivers stack path >>= λ target v.
      call_op drivers (dentry_at v.dentries target).node (λ ops. ops.open_file) unsupported
        (λ n open_file. open_node flags 0 open_file n) v

  -- A new handle on the vnode of another, with its flags and its place.
  unfoldable pub vfs_reopen : FileHandle → Eff (Vfs D) FileHandle
  unfolding call_op open_node
  vfs_reopen src =
      call_op drivers src.vnode (λ ops. ops.open_file) invalid_arg
        (λ n open_file. open_node src.flags src.offset open_file n)

  -- The caller's handle moves by the bytes that the driver has transferred.
  abbrev pub moved_by : {A : Type 0} → (A → ℕ) → Result A × Open D → Result A × Open D
  moved_by size (err e, x) = (err e, x)
  moved_by size (ok a, x) =
      (ok a, record x { file = record x.file { offset = (x.file.offset + size a) % 2 ^ 64 } })

  unfoldable pub vfs_read : ℕ → Eff (Open D) (List ℕ)
  unfolding op_of
  vfs_read size x = elim (op_of drivers x.file.vnode (λ ops. ops.read) x.vfs) [
    | none ↦ (err unsupported, x)
    | some (n, read) ↦ moved_by length (read size x)
  ]

  unfoldable pub vfs_write : List ℕ → Eff (Open D) ℕ
  unfolding op_of
  vfs_write bytes x = elim (op_of drivers x.file.vnode (λ ops. ops.write) x.vfs) [
    | none ↦ (err unsupported, x)
    | some (n, write) ↦ moved_by (λ k. k) (write bytes x)
  ]

  unfoldable pub vfs_close : Eff (Open D) (Unit {0})
  unfolding op_of
  vfs_close x = elim (op_of drivers x.file.vnode (λ ops. ops.close) x.vfs) [
    | none ↦ (err unsupported, x)
    | some (n, close) ↦ (close >> modify (λ y. record y { file = blank_file })) x
  ]

  unfoldable pub vfs_fstat : FileHandle → Eff (Vfs D) VfsStat
  unfolding call_op
  vfs_fstat file = call_op drivers file.vnode (λ ops. ops.stat) unsupported (λ n stat. stat n)

  unfoldable pub vfs_readdir : List ℕ → List ℕ → ℕ → ℕ → Eff (Vfs D) (List ℕ × ℕ)
  unfolding resolve_path_internal call_op
  vfs_readdir stack path index max =
      fail_if (max == 0) invalid_arg
      >> (resolve_path_internal drivers stack path >>= λ target v.
          call_op drivers (dentry_at v.dentries target).node (λ ops. ops.readdir) unsupported
            (λ n readdir. readdir n index max) v)
