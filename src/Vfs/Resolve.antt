-- ===== src/Vfs/Resolve.antt =====
-- How vfs.c follows a path through the tree, and asks the file systems for what is not in it yet.
use nyxis_os.Base.{
  ℕ, zero, suc, ◌+◌, Bool, true, false, not, Option, none, some, List, [], ◌∷◌, get_or, set, take,
  ◌==◌, if◌then◌else◌, length,
}
use nyxis_os.Base.Status.{Error, Result, ok, err, file_not_found, not_found, out_of_memory}
use nyxis_os.Base.Effect.{Eff, ◌>>=◌, return, lift}
use nyxis_os.Strings.{strcmp}
use nyxis_os.Vfs.Handle.{FileHandle, VfsStat}
use nyxis_os.Vfs.Path.{name_max, parse_segment, skip_slashes, parse_namespace_path, starts_local}
use nyxis_os.Vfs.Tree.{
  Vfs, Namespace, blank_vnode, dentry_at, is_same, alloc_dentry, free_dentry, attach_child,
  find_child, free_vnode,
}

-- A handle of the caller beside the tables.
pub record Open (D : Type 0) : Type 0 where
  pub file : FileHandle
  pub vfs : Vfs D

-- `vfs_ops_t`: the functions of a file system, null if it has none. A vnode is given by its index, and
-- the handle of `open` by its slot.
pub record Ops (D : Type 0) : Type 0 where
  pub lookup : Option (ℕ → List ℕ → Eff (Vfs D) (Option ℕ))
  pub open_file : Option (ℕ → ℕ → ℕ → Eff (Vfs D) (Unit {0}))
  pub read : Option (ℕ → Eff (Open D) (List ℕ))
  pub write : Option (List ℕ → Eff (Open D) ℕ)
  pub close : Option (Eff (Open D) (Unit {0}))
  pub stat : Option (ℕ → Eff (Vfs D) VfsStat)
  pub create : Option (ℕ → List ℕ → ℕ → Eff (Vfs D) (Option ℕ))
  pub mkdir : Option (ℕ → List ℕ → ℕ → Eff (Vfs D) (Option ℕ))
  pub unlink : Option (ℕ → List ℕ → Eff (Vfs D) (Unit {0}))
  pub readdir : Option (ℕ → ℕ → ℕ → Eff (Vfs D) (List ℕ × ℕ))
  pub rename : Option (ℕ → List ℕ → Option ℕ → List ℕ → Eff (Vfs D) (Unit {0}))

-- The tables of operations by their numbers.
abbrev pub Drivers : Type 0 → Type 0
Drivers D = ℕ → Ops D

-- `find_namespace`
unfoldable pub find_namespace : ℕ → List ℕ → List Namespace → Option ℕ
find_namespace i name [] = none
find_namespace i name (n ∷ ns) =
    if not n.in_use
    then find_namespace (i + 1) name ns
    else if is_same (strcmp n.name name)
    then some i
    else find_namespace (i + 1) name ns

unfoldable pub unused_namespace : ℕ → List Namespace → Option ℕ
unused_namespace i [] = none
unused_namespace i (n ∷ ns) = if n.in_use then unused_namespace (i + 1) ns else some i

module _ {D : Type 0} (drivers : Drivers D) where
  -- An operation of a vnode: there is none if a pointer on the way is null.
  unfoldable pub op_of : {A : Type 0} → Option ℕ → (Ops D → Option A) → Vfs D → Option (ℕ × A)
  op_of none field v = none
  op_of (some n) field v = elim ((get_or v.vnodes n blank_vnode).ops) [
    | none ↦ none
    | some table ↦ elim (field (drivers table)) [ none ↦ none | some f ↦ some (n, f) ]
  ]

  -- A call of it, or the status where there is none.
  unfoldable pub call_op :
      {A B : Type 0}
      → Option ℕ
      → (Ops D → Option A)
      → Error
      → (ℕ → A → Eff (Vfs D) B)
      → Eff (Vfs D) B
  unfolding op_of
  call_op node field e call v = elim (op_of node field v) [
    | none ↦ (err e, v)
    | some (n, f) ↦ call n f v
  ]

  -- A vnode that was looked up gets a dentry below `current`.
  unfoldable pub cache : ℕ → List ℕ → ℕ → Eff (Vfs D) ℕ
  unfolding alloc_dentry free_vnode attach_child
  cache current name vnode v =
      let r = alloc_dentry name (some vnode) (some current) v in
      elim r.0 [
        | none ↦ (err out_of_memory, free_vnode vnode r.1)
        | some child ↦ (ok child, attach_child current child r.1)
      ]

  unfoldable pub cached : Error → ℕ → List ℕ → Option ℕ → Eff (Vfs D) ℕ
  unfolding cache
  cached missing current name none v = (err missing, v)
  cached missing current name (some vnode) v = cache current name vnode v

  -- One step down: the child in the tree, or else what the file system finds.
  unfoldable pub enter : Error → ℕ → List ℕ → Eff (Vfs D) ℕ
  unfolding call_op cached find_child
  enter missing current name v = elim (find_child current name v) [
    | some child ↦ (ok child, v)
    | none ↦
        (call_op (dentry_at v.dentries current).node (λ ops. ops.lookup) missing
              (λ n lookup. lookup n name)
            >>= cached missing current name)
          v
  ]

  -- The loop of `resolve_path_internal_ns`, with fuel.
  unfoldable pub resolve_loop : ℕ → ℕ → List ℕ → Eff (Vfs D) ℕ
  unfolding enter parse_segment
  resolve_loop zero current cursor = return current
  resolve_loop (suc fuel) current [] = return current
  resolve_loop (suc fuel) current (c ∷ cs) = lift (parse_segment (name_max + 1) (c ∷ cs)) >>= λ r.
      let next = enter file_not_found current r.0 >>= λ child. resolve_loop fuel child r.1 in
      if length r.0 == 0 then return current else next

  -- The root of the namespace or its current directory.
  abbrev pub start_of : Namespace → List ℕ → ℕ
  start_of ns path = if starts_local path then ns.root else ns.cwd

  abbrev pub past_slash : List ℕ → List ℕ
  past_slash [] = []
  past_slash (c ∷ cs) = if starts_local (c ∷ cs) then cs else c ∷ cs

  unfoldable pub resolve_path_internal_ns : Namespace → List ℕ → Eff (Vfs D) ℕ
  unfolding resolve_loop
  resolve_path_internal_ns ns path = resolve_loop (length path) (start_of ns path) (past_slash path)

  -- The loop of `resolve_parent_ns`, with fuel: the directory of the last name, and the name.
  unfoldable pub parent_loop : ℕ → ℕ → List ℕ → Eff (Vfs D) (ℕ × List ℕ)
  unfolding enter parse_segment skip_slashes
  parent_loop zero current cursor = lift (err not_found)
  parent_loop (suc fuel) current [] = lift (err not_found)
  parent_loop (suc fuel) current (c ∷ cs) = lift (parse_segment (name_max + 1) (c ∷ cs)) >>= λ r.
      let next =
        enter not_found current r.0 >>= λ child. parent_loop fuel child (skip_slashes r.1) in
      if length r.0 == 0
      then lift (err not_found)
      else if length (skip_slashes r.1) == 0
      then return (current, r.0)
      else next

  -- An empty path ends at once, with no name.
  unfoldable pub resolve_parent_ns : Namespace → List ℕ → Eff (Vfs D) (ℕ × List ℕ)
  unfolding parent_loop
  resolve_parent_ns ns path =
      if length path == 0
      then return (ns.cwd, [])
      else parent_loop (length path) (start_of ns path) (past_slash path)

  unfoldable pub create_namespace : List ℕ → ℕ → Vfs D → Option ℕ × Vfs D
  unfolding unused_namespace
  create_namespace name root v = elim (unused_namespace 0 v.namespaces) [
    | none ↦ (none, v)
    | some i ↦ (
      some i,
      record v {
        namespaces =
            set v.namespaces i
              (record { name = take name_max name; root = root; cwd = root; in_use = true });
      },
    )
  ]

  -- A new namespace, whose root dentry is given back if there is no room.
  unfoldable pub new_namespace : List ℕ → Option ℕ × Vfs D → Option ℕ × Vfs D
  unfolding create_namespace free_dentry
  new_namespace name (none, v) = (none, v)
  new_namespace name (some root, v) =
      let r = create_namespace name root v in
      elim r.0 [ some i ↦ r | none ↦ (none, free_dentry root r.1) ]

  unfoldable pub get_namespace : List ℕ → Bool → Vfs D → Option ℕ × Vfs D
  unfolding new_namespace find_namespace
  get_namespace [] create v = (v.default_namespace, v)
  get_namespace (c ∷ cs) create v = elim (find_namespace 0 (c ∷ cs) v.namespaces) [
    | some i ↦ (some i, v)
    | none ↦
        let made = new_namespace (c ∷ cs) (alloc_dentry [] none none v) in
        if create then made else (none, v)
  ]

  abbrev pub namespace_at : List Namespace → ℕ → Namespace
  namespace_at ns i = get_or ns i (record { name = []; root = 0; cwd = 0; in_use = false })

  unfoldable pub the_namespace : List ℕ → Option ℕ × Vfs D → Result (ℕ × List ℕ) × Vfs D
  the_namespace local (none, v) = (err not_found, v)
  the_namespace local (some i, v) = (ok (i, local), v)

  -- The namespace and the local path; `stack` is what stands in the buffer for the name.
  unfoldable pub resolve_namespace_path : List ℕ → List ℕ → Bool → Eff (Vfs D) (ℕ × List ℕ)
  unfolding get_namespace the_namespace parse_namespace_path
  resolve_namespace_path stack path create = do
    r ← lift (parse_namespace_path (name_max + 1) stack path)
    λ v. the_namespace r.1 (get_namespace r.0 create v)

  unfoldable pub resolve_path_internal : List ℕ → List ℕ → Eff (Vfs D) ℕ
  unfolding resolve_namespace_path resolve_path_internal_ns
  resolve_path_internal stack path = resolve_namespace_path stack path false >>= λ r v.
      resolve_path_internal_ns (namespace_at v.namespaces r.0) r.1 v
