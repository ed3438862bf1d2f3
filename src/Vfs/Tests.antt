-- ===== src/Vfs/Tests.antt =====
-- A tree with a root directory and a file system that finds every name.
use nyxis_os.Base.{ℕ, ◌≡◌, ◌≢◌, refl, arith, subst, true, none, some, List, [], ◌∷◌, replicate}
use nyxis_os.Base.Members.{unsome}
use nyxis_os.Base.Status.{ok, file_not_found, not_found}
use nyxis_os.Base.Effect.{lift}
use nyxis_os.Base.Steady.{Steady, Ends-lift}
use nyxis_os.Vfs.Handle.{blank_file}
use nyxis_os.Vfs.Tree.{Vfs, Vnode, Namespace, blank_vnode, blank_dentry}
use nyxis_os.Vfs.Resolve.{Drivers, resolve_path_internal_ns, resolve_parent_ns, enter}
use nyxis_os.Vfs.Calls.{vfs_open, vfs_reopen}
use nyxis_os.Vfs.Naming.{names}
use nyxis_os.Vfs.Parents.{parent_walk, resolve_parent_ns_lem}
use nyxis_os.Vfs.Again.{IsReader, enter_again}
use nyxis_os.Vfs.Namespaces.{has_local, parse_namespace_path_lem}
use nyxis_os.Vfs.Path.{parse_namespace_path}
use nyxis_os.Vfs.Walking.{walk, resolve_path_internal_ns_lem}
use nyxis_os.Vfs.Slots.{IsCareful, Counts, counts}
use nyxis_os.Vfs.Borrowing.{open_gives_slots_back}

abbrev drivers : Drivers ℕ
drivers table = record {
  lookup = some (λ node name. lift (ok (some 1)));
  open_file = some (λ node flags slot. lift (ok tt));
  read = none;
  write = none;
  close = none;
  stat = none;
  create = none;
  mkdir = none;
  unlink = none;
  readdir = none;
  rename = none;
}

abbrev root_namespace : Namespace
root_namespace = record { name = []; root = 0; cwd = 0; in_use = true }

abbrev node : ℕ → Vnode
node k = record blank_vnode { kind = k; ops = some 0; refcnt = 1 }

abbrev start : Vfs ℕ
start = record {
  dentries = record blank_dentry { node = some 0; refcnt = 1 } ∷ replicate 3 blank_dentry;
  handles = replicate 2 blank_file;
  namespaces = root_namespace ∷ [];
  default_namespace = some 0;
  vnodes = node 1 ∷ node 0 ∷ [];
  env = 0;
}

-- "//bin//sh/"
abbrev path : List ℕ
path = 47 ∷ 47 ∷ 98 ∷ 105 ∷ 110 ∷ 47 ∷ 47 ∷ 115 ∷ 104 ∷ 47 ∷ []

names_of_path : names path ≡ (98 ∷ 105 ∷ 110 ∷ []) ∷ (115 ∷ 104 ∷ []) ∷ []
unfolding names
names_of_path = refl

resolved : (resolve_path_internal_ns drivers root_namespace path start).0 ≡ ok 2
unfolding resolve_path_internal_ns
resolved = refl

resolve_path_internal_ns_lem_example :
    resolve_path_internal_ns drivers root_namespace path start ≡ walk drivers 0 (names path) start
resolve_path_internal_ns_lem_example =
    resolve_path_internal_ns_lem drivers root_namespace path start

careful : IsCareful drivers
careful = record {
  lookup_keeps = λ table f e rs n name.
      subst (λ g. Steady (Counts rs) (g n name)) (unsome e) (Ends-lift (ok (some 1)));
  open_keeps = λ table f e rs n flags slot.
      subst (λ g. Steady (Counts rs) (g n flags slot)) (unsome e) (Ends-lift (ok tt));
}

open_gives_slots_back_example :
    (counts (vfs_open drivers [] path 1 start).1.handles ≡ counts start.handles)
    × (counts (vfs_reopen drivers blank_file start).1.handles ≡ counts start.handles)
open_gives_slots_back_example = open_gives_slots_back drivers careful start [] path 1 blank_file

-- The directory is the new dentry for "bin".
parent_found : (resolve_parent_ns drivers root_namespace path start).0 ≡ ok (1, 115 ∷ 104 ∷ [])
unfolding resolve_parent_ns
parent_found = refl

resolve_parent_ns_lem_example :
    (resolve_parent_ns drivers root_namespace path start ≡ parent_walk drivers 0 (names path) start)
    × (resolve_parent_ns drivers root_namespace [] start ≡ (ok (0, []), start))
resolve_parent_ns_lem_example =
    resolve_parent_ns_lem drivers root_namespace 47
      (47 ∷ 98 ∷ 105 ∷ 110 ∷ 47 ∷ 47 ∷ 115 ∷ 104 ∷ 47 ∷ []) start

reader : IsReader drivers
reader = record {
  keeps_dentries =
      λ table f e n name v. subst (λ g. (g n name v).1.dentries ≡ v.dentries) (unsome e) refl;
}

abbrev bin : List ℕ
bin = 98 ∷ 105 ∷ 110 ∷ []

entered : enter drivers not_found 0 bin start ≡ (ok 1, (enter drivers not_found 0 bin start).1)
unfolding enter
entered = refl

one_not_zero : ◌≢◌ {A = ℕ} 1 0
one_not_zero e = ground arith

enter_again_example :
    enter drivers file_not_found 0 bin (enter drivers not_found 0 bin start).1
    ≡ (ok 1, (enter drivers not_found 0 bin start).1)
enter_again_example =
    enter_again drivers reader not_found file_not_found 0 1 bin start
      (enter drivers not_found 0 bin start).1 (omega arith) one_not_zero entered

-- "a:b:/x" in the namespace "a:b"
parse_namespace_path_lem_example :
    parse_namespace_path 256 (7 ∷ []) (97 ∷ 58 ∷ 98 ∷ 58 ∷ 47 ∷ 120 ∷ [])
    ≡ ok (97 ∷ 58 ∷ 98 ∷ [], 47 ∷ 120 ∷ [])
unfolding has_local
parse_namespace_path_lem_example =
    parse_namespace_path_lem 256 (7 ∷ []) 97 (58 ∷ 98 ∷ []) (120 ∷ []) refl refl refl (omega arith)
