-- ===== src/Vfs/Editing.antt =====
-- The calls of vfs.c that change the tree: namespaces, mounts, and names in directories.
use nyxis_os.Base.{
  ℕ, zero, suc, Bool, true, false, not, ◌||◌, Option, none, some, List, [], ◌∷◌, set, take,
  replicate, ◌==◌, if◌then◌else◌, length,
}
use nyxis_os.Base.Status.{
  Result, ok, err, unsupported, invalid_arg, out_of_memory, already_exists, not_found,
  too_many_file_system,
}
use nyxis_os.Base.Effect.{Eff, ◌>>=◌, ◌>>◌, return, fail_if, modify}
use nyxis_os.Vfs.Path.{name_max}
use nyxis_os.Vfs.Tree.{
  Vfs, Dentry, dentry_at, alloc_dentry, free_dentry, attach_child, detach_child, find_child,
  set_node, free_vnode, max_dentries,
}
use nyxis_os.Vfs.Resolve.{
  Ops, Drivers, call_op, new_namespace, get_namespace, namespace_at, resolve_namespace_path,
  resolve_path_internal_ns, resolve_parent_ns,
}

abbrev pub is_some {ℓ} : {A : Type ℓ} → Option A → Bool
is_some none = false
is_some (some a) = true

-- `strcmp(local_path, "/") == 0 || local_path[0] == '\0'`
unfoldable pub is_root : List ℕ → Bool
is_root [] = true
is_root (c ∷ []) = c == b'/'
is_root (c ∷ d ∷ cs) = false

-- `VFS_MAX_NAMESPACES`
abbrev pub max_namespaces : ℕ
max_namespaces = 16

-- The walk of `vfs_rename` up from the new directory, with fuel: whether it meets the dentry.
unfoldable pub is_above : ℕ → ℕ → Option ℕ → List Dentry → Bool
is_above zero i walk ds = false
is_above (suc fuel) i none ds = false
is_above (suc fuel) i (some w) ds =
    let rest = is_above fuel i (dentry_at ds w).parent ds in if w == i then true else rest

module _ {D : Type 0} (drivers : Drivers D) where
  unfoldable pub default_of : Option ℕ × Vfs D → Result (Unit {0}) × Vfs D
  unfolding free_dentry
  default_of (none, v) = (err out_of_memory, record v { default_namespace = none })
  default_of (some i, v) = (ok tt, record v { default_namespace = some i })

  -- The default namespace has the empty name.
  unfoldable pub vfs_init : Eff (Vfs D) (Unit {0})
  unfolding alloc_dentry new_namespace default_of
  vfs_init v =
      let cleared = record v {
        namespaces =
            replicate max_namespaces (record { name = []; root = 0; cwd = 0; in_use = false });
      } in
      let root = alloc_dentry [] none none cleared in
      elim root.0 [
        | none ↦ (err out_of_memory, root.1)
        | some i ↦ default_of (new_namespace drivers [] root)
      ]

  -- The namespace gets a new root.
  unfoldable pub point_namespace : ℕ → Option ℕ × Vfs D → Result (Unit {0}) × Vfs D
  point_namespace root (none, v) = (err too_many_file_system, v)
  point_namespace root (some i, v) = (
    ok tt,
    record v {
      namespaces =
          set v.namespaces i
            (record (namespace_at drivers v.namespaces i) { root = root; cwd = root });
    },
  )

  unfoldable pub vfs_register_namespace : List ℕ → List ℕ → List ℕ → Eff (Vfs D) (Unit {0})
  unfolding resolve_namespace_path resolve_path_internal_ns get_namespace point_namespace
  vfs_register_namespace stack name source = do
    r ← resolve_namespace_path drivers stack source false
    root ← λ v. resolve_path_internal_ns drivers (namespace_at drivers v.namespaces r.0) r.1 v
    λ v. point_namespace root (get_namespace drivers name true v)

  -- The root dentry of a namespace.
  abbrev pub root_of : ℕ → Vfs D → ℕ
  root_of ns v = (namespace_at drivers v.namespaces ns).root

  -- The parent of the last name of a path in a namespace.
  abbrev pub parent_in : ℕ → List ℕ → Eff (Vfs D) (ℕ × List ℕ)
  parent_in ns local v = resolve_parent_ns drivers (namespace_at drivers v.namespaces ns) local v

  -- A new dentry below `parent`, or the cleaning up where there is no room.
  unfoldable pub add_child : ℕ → List ℕ → Option ℕ → (Vfs D → Vfs D) → Eff (Vfs D) (Unit {0})
  unfolding alloc_dentry attach_child
  add_child parent name node clean v =
      let r = alloc_dentry name node (some parent) v in
      elim r.0 [
        | none ↦ (err out_of_memory, clean r.1)
        | some i ↦ (ok tt, attach_child parent i r.1)
      ]

  -- The dentry that has the name gets the node, or a new one does.
  unfoldable pub put_node :
      ℕ → List ℕ → Option ℕ → (Vfs D → Vfs D) → Option ℕ → Eff (Vfs D) (Unit {0})
  unfolding add_child set_node
  put_node parent name node clean (some i) v = (ok tt, set_node i node v)
  put_node parent name node clean none v = add_child parent name node clean v

  -- Whether the name is taken by a dentry with a node.
  unfoldable pub is_taken : Option ℕ → Vfs D → Bool
  is_taken none v = false
  is_taken (some i) v = is_some (dentry_at v.dentries i).node

  unfoldable pub mount_root : ℕ → ℕ → Eff (Vfs D) (Unit {0})
  unfolding set_node
  mount_root root i v =
      if is_some (dentry_at v.dentries i).node
      then (err already_exists, v)
      else (ok tt, set_node i (some root) v)

  unfoldable pub mount_at : ℕ → ℕ → List ℕ → Eff (Vfs D) (Unit {0})
  unfolding find_child put_node is_taken
  mount_at root parent name v =
      let existing = find_child parent name v in
      if is_taken existing v
      then (err already_exists, v)
      else put_node parent name (some root) (λ w. w) existing v

  -- `root` is the root vnode of the file system.
  unfoldable pub vfs_mount : List ℕ → List ℕ → ℕ → Eff (Vfs D) (Unit {0})
  unfolding resolve_namespace_path resolve_parent_ns mount_root mount_at is_root
  vfs_mount stack path root = do
    fail_if (length path == 0) invalid_arg
    r ← resolve_namespace_path drivers stack path true
    if is_root r.1
        then (λ v. mount_root root (root_of r.0 v) v)
        else (parent_in r.0 r.1 >>= λ p.
            fail_if (length p.1 == 0) invalid_arg >> mount_at root p.0 p.1)

  unfoldable pub unmount_root : ℕ → Eff (Vfs D) (Unit {0})
  unfolding set_node
  unmount_root i v =
      if is_some (dentry_at v.dentries i).node
      then (ok tt, set_node i none v)
      else (err not_found, v)

  -- A mount point below another dentry is taken out of the tree; a root only loses its node.
  unfoldable pub drop_mount : ℕ → Option ℕ → Vfs D → Vfs D
  unfolding detach_child free_dentry set_node
  drop_mount i none v = set_node i none v
  drop_mount i (some parent) v = free_dentry i (detach_child parent i v)

  unfoldable pub unmount_at : ℕ → Eff (Vfs D) (Unit {0})
  unfolding drop_mount
  unmount_at i v =
      if is_some (dentry_at v.dentries i).node
      then (ok tt, drop_mount i (dentry_at v.dentries i).parent v)
      else (err not_found, v)

  unfoldable pub vfs_unmount : List ℕ → List ℕ → Eff (Vfs D) (Unit {0})
  unfolding resolve_namespace_path resolve_path_internal_ns unmount_root unmount_at is_root
  vfs_unmount stack path = do
    fail_if (length path == 0) invalid_arg
    r ← resolve_namespace_path drivers stack path false
    if is_root r.1
        then (λ v. unmount_root (root_of r.0 v) v)
        else ((λ v. resolve_path_internal_ns drivers (namespace_at drivers v.namespaces r.0) r.1 v)
            >>= unmount_at)

  -- The directory and the name that a path ends with, where it has one.
  unfoldable pub named : List ℕ → List ℕ → Eff (Vfs D) (ℕ × List ℕ)
  unfolding resolve_namespace_path resolve_parent_ns
  named stack path = do
    fail_if (length path == 0) invalid_arg
    r ← resolve_namespace_path drivers stack path false
    p ← parent_in r.0 r.1
    fail_if (length p.1 == 0) invalid_arg
    return p

  unfoldable pub free_made : Option ℕ → Vfs D → Vfs D
  unfolding free_vnode
  free_made none w = w
  free_made (some c) w = free_vnode c w

  -- What `vfs_create` and `vfs_mkdir` do in the directory; `field` is the driver's function.
  unfoldable pub make_in :
      (Ops D → Option (ℕ → List ℕ → ℕ → Eff (Vfs D) (Option ℕ)))
      → ℕ
      → ℕ
      → List ℕ
      → Eff (Vfs D) (Unit {0})
  unfolding call_op find_child put_node is_taken free_made
  make_in field mode parent name v =
      call_op drivers (dentry_at v.dentries parent).node field unsupported
        (λ n make w.
          let existing = find_child parent name w in
          let made =
            make n name mode >>= λ child. put_node parent name child (free_made child) existing in
          if is_taken existing w then (err already_exists, w) else made w)
        v

  unfoldable pub vfs_create : List ℕ → List ℕ → ℕ → Eff (Vfs D) (Unit {0})
  unfolding named make_in
  vfs_create stack path mode = named stack path >>= λ p. make_in (λ ops. ops.create) mode p.0 p.1

  unfoldable pub vfs_mkdir : List ℕ → List ℕ → ℕ → Eff (Vfs D) (Unit {0})
  unfolding named make_in
  vfs_mkdir stack path mode = named stack path >>= λ p. make_in (λ ops. ops.mkdir) mode p.0 p.1

  -- A name is taken out of the tree, with its vnode.
  unfoldable pub forget : ℕ → Option ℕ → Vfs D → Vfs D
  unfolding detach_child free_vnode free_dentry
  forget parent none v = v
  forget parent (some i) v =
      let w = detach_child parent i v in
      free_dentry i (elim (dentry_at w.dentries i).node [ none ↦ w | some n ↦ free_vnode n w ])

  unfoldable pub vfs_unlink : List ℕ → List ℕ → Eff (Vfs D) (Unit {0})
  unfolding named call_op forget find_child
  vfs_unlink stack path = named stack path >>= λ p v.
      (call_op drivers (dentry_at v.dentries p.0).node (λ ops. ops.unlink) unsupported
            (λ n unlink. unlink n p.1)
          >> modify (λ w. forget p.0 (find_child p.0 p.1 w) w))
        v

  -- The dentry that was renamed is moved below its new parent, under its new name.
  unfoldable pub move_child : ℕ → ℕ → List ℕ → Option ℕ → Vfs D → Vfs D
  unfolding detach_child attach_child
  move_child old new name none v = v
  move_child old new name (some i) v =
      let w = detach_child old i v in
      attach_child new i (record w {
        dentries =
            set w.dentries i
              (record (dentry_at w.dentries i) { name = take name_max name; parent = some new });
      })

  -- Whether a directory would be moved below itself, as far as the tree shows.
  unfoldable pub makes_cycle : Option ℕ → ℕ → List Dentry → Bool
  unfolding is_above
  makes_cycle none new ds = false
  makes_cycle (some i) new ds = is_above max_dentries i (some new) ds

  unfoldable pub rename_in : ℕ → List ℕ → ℕ → List ℕ → Eff (Vfs D) (Unit {0})
  unfolding call_op find_child makes_cycle forget move_child
  rename_in old old_name new new_name v =
      call_op drivers (dentry_at v.dentries old).node (λ ops. ops.rename) unsupported
        (λ n rename w.
          let moved = find_child old old_name w in
          let renamed =
            rename n old_name (dentry_at w.dentries new).node new_name
            >> modify (λ x.
              move_child old new new_name moved (forget new (find_child new new_name x) x)) in
          if makes_cycle moved new w.dentries then (err invalid_arg, w) else renamed w)
        v

  -- `stack` is what stands in the buffers for the two namespaces.
  unfoldable pub vfs_rename : List ℕ → List ℕ → List ℕ → Eff (Vfs D) (Unit {0})
  unfolding resolve_namespace_path resolve_parent_ns rename_in
  vfs_rename stack old_path new_path = do
    fail_if (length old_path == 0 || length new_path == 0) invalid_arg
    r ← resolve_namespace_path drivers stack old_path false
    r' ← resolve_namespace_path drivers stack new_path false
    fail_if (not (r.0 == r'.0)) unsupported
    p ← parent_in r.0 r.1
    p' ← parent_in r'.0 r'.1
    fail_if (length p.1 == 0 || length p'.1 == 0) invalid_arg
    rename_in p.0 p.1 p'.0 p'.1
