-- ===== src/Vfs/Tree.antt =====
-- The tables of drivers/filesystem/vfs.c, and the tree of dentries that runs through one of them. A pointer
-- to an entry is its index.
use nyxis_os.Base.{
  ℕ, zero, suc, ◌+◌, Bool, true, false, Option, none, some, List, [], ◌∷◌, get_or, set, take, ◌==◌,
  if◌then◌else◌,
}
use nyxis_os.Strings.{Sign, same, strcmp}
use nyxis_os.Vfs.Path.{name_max}
use nyxis_os.Vfs.Handle.{FileHandle, blank_file}

-- `struct vnode`; `ops` is the number of its table of operations.
pub record Vnode : Type 0 where
  pub inode_id : ℕ
  pub kind : ℕ
  pub ops : Option ℕ
  pub sb : Option ℕ
  pub refcnt : ℕ
  pub fs_private : Option ℕ

abbrev pub blank_vnode : Vnode
blank_vnode = record {
  inode_id = 0;
  kind = 0;
  ops = none;
  sb = none;
  refcnt = 0;
  fs_private = none;
}

-- `struct dentry`
pub record Dentry : Type 0 where
  pub name : List ℕ
  pub node : Option ℕ
  pub parent : Option ℕ
  pub first_child : Option ℕ
  pub next_sibling : Option ℕ
  pub refcnt : ℕ

abbrev pub blank_dentry : Dentry
blank_dentry = record {
  name = [];
  node = none;
  parent = none;
  first_child = none;
  next_sibling = none;
  refcnt = 0;
}

-- `vfs_namespace_t`, less its lock
pub record Namespace : Type 0 where
  pub name : List ℕ
  pub root : ℕ
  pub cwd : ℕ
  pub in_use : Bool

-- The globals of vfs.c. `env` is the state of the file system drivers.
pub record Vfs (D : Type 0) : Type 0 where
  pub dentries : List Dentry
  pub handles : List FileHandle
  pub namespaces : List Namespace
  pub default_namespace : Option ℕ
  pub vnodes : List Vnode
  pub env : D

-- `VFS_MAX_DENTRIES`
abbrev pub max_dentries : ℕ
max_dentries = 64

abbrev pub is_same : Sign → Bool
is_same same = true
is_same _ = false

abbrev pub dentry_at : List Dentry → ℕ → Dentry
dentry_at ds i = get_or ds i blank_dentry

-- The loops over the tables: the first entry with the reference count 0.
unfoldable pub free_dentry_at : ℕ → List Dentry → Option ℕ
free_dentry_at i [] = none
free_dentry_at i (d ∷ ds) = if d.refcnt == 0 then some i else free_dentry_at (i + 1) ds

unfoldable pub free_vnode_at : ℕ → List Vnode → Option ℕ
free_vnode_at i [] = none
free_vnode_at i (v ∷ vs) = if v.refcnt == 0 then some i else free_vnode_at (i + 1) vs

unfoldable pub free_handle_at : ℕ → List FileHandle → Option ℕ
free_handle_at i [] = none
free_handle_at i (h ∷ hs) = if h.refcnt == 0 then some i else free_handle_at (i + 1) hs

-- The walk of `detach_child` along the siblings, with fuel. The child is taken out of the list behind
-- `previous`, or from the head of it.
unfoldable pub detach_from : ℕ → ℕ → ℕ → Option ℕ → Option ℕ → List Dentry → List Dentry
detach_from zero parent child previous current ds = ds
detach_from (suc fuel) parent child previous none ds = ds
detach_from (suc fuel) parent child previous (some i) ds =
    let rest = detach_from fuel parent child (some i) (dentry_at ds i).next_sibling ds in
    let next = (dentry_at ds i).next_sibling in
    let linked : List Dentry = elim previous [
      | some q ↦ set ds q (record (dentry_at ds q) { next_sibling = next })
      | none ↦ set ds parent (record (dentry_at ds parent) { first_child = next })
    ] in
    if i == child then set linked i (record (dentry_at linked i) { next_sibling = none }) else rest

-- The walk of `find_child`, with fuel.
unfoldable pub find_among : ℕ → List ℕ → Option ℕ → List Dentry → Option ℕ
find_among zero name current ds = none
find_among (suc fuel) name none ds = none
find_among (suc fuel) name (some i) ds =
    let rest = find_among fuel name (dentry_at ds i).next_sibling ds in
    if is_same (strcmp (dentry_at ds i).name name) then some i else rest

module _ {D : Type 0} where
  unfoldable pub alloc_dentry : List ℕ → Option ℕ → Option ℕ → Vfs D → Option ℕ × Vfs D
  unfolding free_dentry_at
  alloc_dentry name node parent v = elim (free_dentry_at 0 v.dentries) [
    | none ↦ (none, v)
    | some i ↦ (
      some i,
      record v {
        dentries = set v.dentries i (record blank_dentry {
          name = take name_max name;
          node = node;
          parent = parent;
          refcnt = 1;
        });
      },
    )
  ]

  -- A freed dentry keeps its name.
  unfoldable pub free_dentry : ℕ → Vfs D → Vfs D
  free_dentry i v = record v {
    dentries = set v.dentries i (record blank_dentry { name = (dentry_at v.dentries i).name });
  }

  unfoldable pub set_node : ℕ → Option ℕ → Vfs D → Vfs D
  set_node i node v = record v {
    dentries = set v.dentries i (record (dentry_at v.dentries i) { node = node });
  }

  unfoldable pub attach_child : ℕ → ℕ → Vfs D → Vfs D
  attach_child parent child v =
      let first = (dentry_at v.dentries parent).first_child in
      let ds =
        set v.dentries child (record (dentry_at v.dentries child) { next_sibling = first }) in
      record v {
        dentries = set ds parent (record (dentry_at ds parent) { first_child = some child });
      }

  unfoldable pub detach_child : ℕ → ℕ → Vfs D → Vfs D
  unfolding detach_from
  detach_child parent child v = record v {
    dentries =
        detach_from max_dentries parent child none (dentry_at v.dentries parent).first_child
          v.dentries;
  }

  unfoldable pub find_child : ℕ → List ℕ → Vfs D → Option ℕ
  unfolding find_among
  find_child parent name v =
      find_among max_dentries name (dentry_at v.dentries parent).first_child v.dentries

  unfoldable pub alloc_vnode : Vfs D → Option ℕ × Vfs D
  unfolding free_vnode_at
  alloc_vnode v = elim (free_vnode_at 0 v.vnodes) [
    | none ↦ (none, v)
    | some i ↦ (some i, record v { vnodes = set v.vnodes i (record blank_vnode { refcnt = 1 }) })
  ]

  -- A freed vnode keeps its number and its kind.
  unfoldable pub free_vnode : ℕ → Vfs D → Vfs D
  free_vnode i v =
      let old = get_or v.vnodes i blank_vnode in
      record v {
        vnodes = set v.vnodes i (record blank_vnode { inode_id = old.inode_id; kind = old.kind });
      }

  -- `vfs_init_vnode`, for a table of operations that is not null.
  unfoldable pub vfs_init_vnode : ℕ → ℕ → ℕ → ℕ → Option ℕ → Option ℕ → Vfs D → Vfs D
  vfs_init_vnode i inode_id kind ops sb fs_private v = record v {
    vnodes = set v.vnodes i (record (get_or v.vnodes i blank_vnode) {
      inode_id = inode_id;
      kind = kind;
      ops = some ops;
      sb = sb;
      fs_private = fs_private;
    });
  }

  unfoldable pub vfs_get_vnode_private : ℕ → Vfs D → Option ℕ
  vfs_get_vnode_private i v = (get_or v.vnodes i blank_vnode).fs_private

  unfoldable pub alloc_handle : Vfs D → Option ℕ × Vfs D
  unfolding free_handle_at
  alloc_handle v = elim (free_handle_at 0 v.handles) [
    | none ↦ (none, v)
    | some i ↦ (some i, record v { handles = set v.handles i (record blank_file { refcnt = 1 }) })
  ]

  unfoldable pub free_handle : ℕ → Vfs D → Vfs D
  free_handle i v = record v { handles = set v.handles i blank_file }
