-- ===== src/Vfs/Borrowing.antt =====
-- The slots of the handle table that `vfs_open` and `vfs_reopen` of vfs.c borrow.
use nyxis_os.Base.Found.{zero_plus}
use nyxis_os.Base.{
  ℕ, zero, suc, ◌+◌, ◌≡◌, refl, ap, sym, ◌∙◌, subst, inl, inr, false, Option, none, some, List, [],
  ◌∷◌, get_or, set, ◌==◌, length, Option-cases,
}
use nyxis_os.Base.Status.{Error, ok, file_not_found, unsupported, invalid_arg}
use nyxis_os.Base.Effect.{Eff, ◌>>=◌, on_error}
use nyxis_os.Base.Steady.{
  Outcome, Steady, Ends-return, Ends-lift, Ends-if, Ends-bind, Ends-on_error, same_outcome,
}
use nyxis_os.Vfs.Handle.{FileHandle, blank_file}
use nyxis_os.Vfs.Path.{name_max, parse_segment, parse_namespace_path}
use nyxis_os.Vfs.Tree.{
  Vfs, dentry_at, free_handle_at, alloc_handle, free_handle, alloc_dentry, attach_child, free_vnode,
  find_child, free_dentry_at,
}
use nyxis_os.Vfs.Resolve.{
  Drivers, Ops, op_of, call_op, cache, cached, enter, resolve_loop, resolve_path_internal_ns,
  find_namespace, get_namespace, the_namespace, resolve_namespace_path, resolve_path_internal,
  namespace_at, start_of, past_slash,
}
use nyxis_os.Vfs.Calls.{open_slot, open_node, vfs_open, vfs_reopen}
use nyxis_os.Vfs.Slots.{counts, Counts, IsCareful, counts-set, set-set, free_slot, op_of_source}

module _ {D : Type 0} (drivers : Drivers D) (careful : IsCareful drivers) (rs : List ℕ) where
  -- A call of a function that keeps the counts.
  call_op-Steady :
      {A B : Type 0} (node : Option ℕ) (field : Ops D → Option A) (e : Error)
      (call : ℕ → A → Eff (Vfs D) B)
      → ((table n : ℕ) (f : A) → field (drivers table) ≡ some f → Steady (Counts rs) (call n f))
      → Steady (Counts rs) (call_op drivers node field e call)
  unfolding call_op
  call_op-Steady node field e call keeps = record {
    runs = λ v h. elim (Option-cases (op_of drivers node field v)) [
      | inl out ↦ rw (call_op, out) h
      | inr ((n, f), is) ↦
          let from = op_of_source drivers node field v n f is in
          rw (call_op, is) ((keeps from.0 n f from.1).runs v h)
    ];
  }

  alloc_dentry_handles :
      (name : List ℕ) (target parent : Option ℕ) (v : Vfs D)
      → (alloc_dentry name target parent v).1.handles ≡ v.handles
  unfolding alloc_dentry
  alloc_dentry_handles name target parent v = elim (Option-cases (free_dentry_at 0 v.dentries)) [
    | inl out ↦ rw (alloc_dentry, out) refl
    | inr (i, is) ↦ rw (alloc_dentry, is) refl
  ]

  cache-Steady :
      (current : ℕ) (name : List ℕ) (node : ℕ)
      → Steady (Counts rs) (cache drivers current name node)
  unfolding cache free_vnode attach_child
  cache-Steady current name node = record {
    runs = λ v h.
        let kept : Counts rs (alloc_dentry name (some node) (some current) v).1 =
          ap counts (alloc_dentry_handles name (some node) (some current) v) ∙ h in
        elim (Option-cases ((alloc_dentry name (some node) (some current) v).0)) [
          | inl out ↦ rw (cache, out) kept
          | inr (i, is) ↦ rw (cache, is) kept
        ];
  }

  cached-Steady :
      (e : Error) (current : ℕ) (name : List ℕ) (node : Option ℕ)
      → Steady (Counts rs) (cached drivers e current name node)
  unfolding cached
  cached-Steady e current name none = record { runs = λ v h. h }
  cached-Steady e current name (some n) = record { runs = (cache-Steady current name n).runs }

  enter-Steady :
      (e : Error) (current : ℕ) (name : List ℕ) → Steady (Counts rs) (enter drivers e current name)
  unfolding enter
  enter-Steady e current name = record {
    runs = λ v h. elim (Option-cases (find_child current name v)) [
      | inl out ↦
          rw (enter, out)
            ((Ends-bind
                (call_op-Steady (dentry_at v.dentries current).node (λ ops. ops.lookup) e
                  (λ n lookup. lookup n name)
                  (λ table n f is. careful.lookup_keeps table f is rs n name))
                (cached-Steady e current name)).runs
              v h)
      | inr (i, is) ↦ rw (enter, is) h
    ];
  }

  resolve_loop-Steady :
      (fuel current : ℕ) (cursor : List ℕ)
      → Steady (Counts rs) (resolve_loop drivers fuel current cursor)
  unfolding resolve_loop
  resolve_loop-Steady zero current cursor = Ends-return _
  resolve_loop-Steady (suc fuel) current [] = Ends-return _
  resolve_loop-Steady (suc fuel) current (c ∷ cs) =
      Ends-bind (Ends-lift (parse_segment (name_max + 1) (c ∷ cs))) λ (r : List ℕ × List ℕ).
        Ends-if (length r.0 == 0) (Ends-return current) (
          Ends-bind (enter-Steady file_not_found current r.0)
            λ child. resolve_loop-Steady fuel child r.1)

  the_namespace-Steady :
      (local : List ℕ) (r : Option ℕ × Vfs D)
      → Counts rs r.1
      → Outcome (Counts rs) (Counts rs) (the_namespace drivers local r)
  unfolding the_namespace
  the_namespace-Steady local (none, v) h = h
  the_namespace-Steady local (some i, v) h = h

  get_namespace_counts :
      (name : List ℕ) (v : Vfs D) → Counts rs v → Counts rs (get_namespace drivers name false v).1
  unfolding get_namespace
  get_namespace_counts [] v h = h
  get_namespace_counts (c ∷ cs) v h = elim (Option-cases (find_namespace 0 (c ∷ cs) v.namespaces)) [
    | inl out ↦ rw (get_namespace, out) h
    | inr (i, is) ↦ rw (get_namespace, is) h
  ]

  resolve_path_internal-Steady :
      (stack path : List ℕ) → Steady (Counts rs) (resolve_path_internal drivers stack path)
  unfolding resolve_path_internal resolve_namespace_path resolve_path_internal_ns
  resolve_path_internal-Steady stack path =
      Ends-bind
        (Ends-bind (Ends-lift (parse_namespace_path (name_max + 1) stack path))
          λ (r : List ℕ × List ℕ). record {
            runs = λ v h.
                the_namespace-Steady r.1 (get_namespace drivers r.0 false v)
                  (get_namespace_counts r.0 v h);
          })
        λ (r : ℕ × List ℕ). record {
          runs = λ v h.
              (resolve_loop-Steady (length r.1)
                  (start_of drivers (namespace_at drivers v.namespaces r.0) r.1)
                  (past_slash drivers r.1)).runs
                v h;
        }

  -- A slot is marked while the driver runs, and given back.
  open_slot-Steady :
      (i : ℕ) (file : FileHandle) (call : ℕ → Eff (Vfs D) (Unit {0})) (v w : Vfs D)
      → Counts rs v
      → free_handle_at 0 v.handles ≡ some i
      → ((ts : List ℕ) → Steady (Counts ts) (call i))
      → counts w.handles ≡ set (counts v.handles) i file.refcnt
      → Outcome (Counts rs) (Counts rs) (
          (on_error (free_handle i) (call i) >>= λ u x.
          (ok (get_or x.handles i blank_file), free_handle i x))
            w)
  unfolding free_handle
  open_slot-Steady i file call v w h free keeps marked =
      let found = free_slot 0 i v.handles free in
      let free_in_rs : set rs i 0 ≡ rs =
        subst (λ cs. set cs i 0 ≡ cs) h
          (subst (λ k. set (counts v.handles) k 0 ≡ counts v.handles)
            (sym (found.1 ∙ zero_plus found.0)) found.2) in
      let back : (x : Vfs D) → Counts (set rs i file.refcnt) x → Counts rs (free_handle i x) =
        λ x k.
          counts-set x.handles i blank_file
          ∙ ap (λ cs. set cs i 0) k
          ∙ set-set rs i file.refcnt 0
          ∙ free_in_rs in
      (Ends-bind (Ends-on_error (free_handle i) (keeps (set rs i file.refcnt)) back)
          (λ u. record { runs = back })).runs
        w (marked ∙ ap (λ cs. set cs i file.refcnt) h)

  abbrev opened : ℕ → ℕ → ℕ → FileHandle
  opened node offset flags = record {
    vnode = some node;
    offset = offset;
    flags = flags;
    fs_private = none;
    refcnt = 1;
  }

  open_node-Steady :
      (flags offset node : ℕ) (f : ℕ → ℕ → ℕ → Eff (Vfs D) (Unit {0}))
      → ((ts : List ℕ) (i : ℕ) → Steady (Counts ts) (f node flags i))
      → Steady (Counts rs) (open_node drivers flags offset f node)
  unfolding open_node open_slot alloc_handle
  open_node-Steady flags offset node f keeps = record {
    runs = λ v h. elim (Option-cases (free_handle_at 0 v.handles)) [
      | inl out ↦ rw (open_node, alloc_handle, out) h
      | inr (i, is) ↦
          rw (open_node, alloc_handle, is)
            (open_slot-Steady i (opened node offset flags) (f node flags) v
              (record v {
                handles =
                    set (set v.handles i (record blank_file { refcnt = 1 })) i
                      (opened node offset flags);
              })
              h is (λ ts. keeps ts i)
              (counts-set (set v.handles i (record blank_file { refcnt = 1 })) i
                  (opened node offset flags)
                ∙ ap (λ cs. set cs i 1) (counts-set v.handles i (record blank_file { refcnt = 1 }))
                ∙ set-set (counts v.handles) i 1 1))
    ];
  }

  vfs_open-Counts :
      (stack path : List ℕ) (flags : ℕ) → Steady (Counts rs) (vfs_open drivers stack path flags)
  unfolding vfs_open
  vfs_open-Counts stack path flags =
      Ends-bind (resolve_path_internal-Steady stack path) λ (target : ℕ). record {
        runs = λ v h.
            (call_op-Steady (dentry_at v.dentries target).node (λ ops. ops.open_file) unsupported
                (λ n open_file. open_node drivers flags 0 open_file n)
                (λ table n f is.
                  open_node-Steady flags 0 n f
                    (λ ts i. careful.open_keeps table f is ts n flags i))).runs
              v h;
      }

  vfs_reopen-Counts : (src : FileHandle) → Steady (Counts rs) (vfs_reopen drivers src)
  unfolding vfs_reopen
  vfs_reopen-Counts src =
      call_op-Steady src.vnode (λ ops. ops.open_file) invalid_arg
        (λ n open_file. open_node drivers src.flags src.offset open_file n)
        (λ table n f is.
          open_node-Steady src.flags src.offset n f
            (λ ts i. careful.open_keeps table f is ts n src.flags i))

-- Where the functions `lookup` and `open` of the drivers give no slot away and take none, `vfs_open` and
-- `vfs_reopen` leave the reference count of every slot of the handle table as it was, whether they
-- succeed or fail, at the path, at the driver or for want of a slot.
pub open_gives_slots_back :
    {D : Type 0} (drivers : Drivers D)
    → IsCareful drivers
    → (v : Vfs D) (stack path : List ℕ) (flags : ℕ) (src : FileHandle)
    → (counts (vfs_open drivers stack path flags v).1.handles ≡ counts v.handles)
      × (counts (vfs_reopen drivers src v).1.handles ≡ counts v.handles)
open_gives_slots_back drivers careful v stack path flags src = (
  same_outcome (Counts (counts v.handles)) (vfs_open drivers stack path flags v)
      ((vfs_open-Counts drivers careful (counts v.handles) stack path flags).runs v refl),
  same_outcome (Counts (counts v.handles)) (vfs_reopen drivers src v)
      ((vfs_reopen-Counts drivers careful (counts v.handles) src).runs v refl),
)
