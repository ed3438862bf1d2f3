-- ===== src/Syscall/Rights.antt =====
-- What a duplicated handle may do.
use nyxis_os.Base.{
  ℕ, ◌%◌, ◌^◌, ◌≡◌, refl, ap, sym, ◌∙◌, inl, inr, not, Option, none, some, bit_and, ◌==◌, arith,
  Bool-cases, get_elem?, [], set, get_elem?-set_self, lt_length-of-some,
}
use nyxis_os.Base.Bits.{bit_and-subset}
use nyxis_os.Base.Words.{pack32-eq-add}
use nyxis_os.Base.Members.{unsome}
use nyxis_os.Base.Status.{ok, invalid_arg}
use nyxis_os.Base.Effect.{after, lift, modify, undone, after-eq-ok, fail_if-eq-ok, undone-eq-ok}
use nyxis_os.Vfs.Handle.{FileHandle}
use nyxis_os.Process.{Process}
use nyxis_os.Handles.{
  Table, Slot, right_dup, right_all, handle_console, nx_handle_lookup, nx_handle_alloc,
  nx_handle_discard, check_slot, make_handle, set_console_fd, fill_slot,
}
use nyxis_os.Handles.Slots.{IsTable}
use nyxis_os.Handles.Table.{Allocated, alloc-Allocated, lookup-Grants}
use nyxis_os.Syscall.State.{Kernel, Calls, put_table, set_file, on_fs, with_table}
use nyxis_os.Syscall.Objects.{sys_duplicate_handle, fill_dup, outside}

-- Where a lookup succeeds, one for other rights that the slot has does as well.
regrant :
    (t : Table) (h r r' : ℕ) {i : ℕ} {s : Slot}
    → nx_handle_lookup t h r ≡ ok (i, s)
    → bit_and s.rights r' ≡ r'
    → nx_handle_lookup t h r' ≡ ok (i, s)
unfolding nx_handle_lookup check_slot
regrant t h r r' {i} {s} e has =
    let g = lookup-Grants t h r e in ground (arith, g.slot, g.index, g.within, g.in_use, g.current)

-- The slot `j` of a table keeps its rights.
abbrev SameRights : Table → Slot → ℕ → Type 0
SameRights t x j = (y : Slot) × (get_elem? t j ≡ some y) × (y.rights ≡ x.rights)

set_file-SameRights :
    (t : Table) (j : ℕ) (x : Slot) (file : FileHandle)
    → get_elem? t j ≡ some x
    → SameRights (set_file t j file) x j
unfolding set_file
set_file-SameRights t j x file at =
    let y = record x { file = file } in
    let is : set_file t j file ≡ set t j y = rw (at, set_file) in
    (y, ap (λ u. get_elem? u j) is ∙ get_elem?-set_self t j y (lt_length-of-some t j at), refl)

set_console_fd-SameRights :
    (t : Table) (j : ℕ) (x : Slot) (fd : ℕ)
    → get_elem? t j ≡ some x
    → SameRights (set_console_fd t j fd) x j
unfolding set_console_fd
set_console_fd-SameRights t j x fd at =
    let y = record x { console_fd = fd } in
    let is : set_console_fd t j fd ≡ set t j y = rw (at, set_console_fd) in
    (y, ap (λ u. get_elem? u j) is ∙ get_elem?-set_self t j y (lt_length-of-some t j at), refl)

handles_of : Option Process → Table
handles_of none = []
handles_of (some p) = p.handles

module _ {M Fs : Type 0} (m : Calls M Fs) where
  put_table_lem :
      (t : Table) (k : Kernel M Fs) (p : Process)
      → k.current ≡ some p
      → (put_table t k).current ≡ some (record p { handles = t })
  put_table_lem t k p e = rw (put_table, e) refl

  fill_dup_lem :
      (t : Table) (j : ℕ) (s x : Slot) (k k' : Kernel M Fs) (p : Process) (u : Unit {0})
      → k.current ≡ some p
      → get_elem? t j ≡ some x
      → fill_dup m t j s k ≡ (ok u, k')
      → (t' : Table) × (k'.current ≡ some (record p { handles = t' })) × SameRights t' x j
  unfolding fill_dup
  fill_dup_lem t j s x k k' p u cur at h = elim (Bool-cases (s.kind == handle_console)) [
    | inl e ↦
        let h' : (ok tt, put_table (set_console_fd t j s.console_fd) k) ≡ (ok u, k') = rw e at h in
        (
          set_console_fd t j s.console_fd,
          ap (λ r. r.1.current) (sym h') ∙ put_table_lem (set_console_fd t j s.console_fd) k p cur,
          set_console_fd-SameRights t j x s.console_fd at,
        )
    | inr e ↦
        let clean = put_table (nx_handle_discard t j) in
        let opened = on_fs (m.vfs_reopen s.file) k in
        let keep = λ (file : FileHandle). modify (put_table (set_file t j file)) in
        let h' : after (undone clean opened) keep ≡ (ok u, k') = rw e at h in
        let (file, e1, e2) = after-eq-ok (undone clean opened) keep h' in
        let k1 = (undone clean opened).1 in
        let cur1 : k1.current ≡ some p =
          ap (λ r. r.1.current) (sym (undone-eq-ok clean opened e1)) ∙ cur in
        (
          set_file t j file,
          ap (λ r. r.1.current) (sym e2) ∙ put_table_lem (set_file t j file) k1 p cur1,
          set_file-SameRights t j x file at,
        )
  ]

  handle_index :
      (t : Table) (kind rights : ℕ) {t' : Table} {h j : ℕ}
      → IsTable t
      → Allocated t kind rights t' h j
      → h % 2 ^ 32 ≡ j
  unfolding make_handle
  handle_index t kind rights {h} {j} v a =
      let small = lt_length-of-some t j a.was in
      let apart = pack32-eq-add a.slot.generation j (omega (arith, small, v.size)) in
      ap (λ x. x % 2 ^ 32) (a.handle ∙ apart) ∙ omega (arith, small, v.size)

  -- A duplicate that the process has made grants only rights of the handle that it was made from, and
  -- only those of the mask: if a lookup of it for some rights succeeds, so does one of the old handle,
  -- and the rights are in the mask.
  pub duplicate-Grants :
      (k k' : Kernel M Fs) (p : Process) (handle mask new required j : ℕ) (y : Slot) (t' : Table)
      → k.current ≡ some p
      → IsTable p.handles
      → sys_duplicate_handle m handle mask k ≡ (ok new, k')
      → k'.current ≡ some (record p { handles = t' })
      → nx_handle_lookup t' new required ≡ ok (j, y)
      → (i : ℕ) × (s : Slot) × (nx_handle_lookup p.handles handle required ≡ ok (i, s))
        × (bit_and (mask % 2 ^ 32) required ≡ required)
  unfolding sys_duplicate_handle handles_of
  duplicate-Grants k k' p handle mask new required j y t' cur v h cur' look =
      let h0 = with_table k _ cur h in
      let (_, h1) = fail_if-eq-ok (not (outside mask right_all == 0)) invalid_arg k _ h0 in
      let (found, e1, h2) =
        after-eq-ok (lift (nx_handle_lookup p.handles handle right_dup) k) _ h1 in
      let i = found.0 in
      let s = found.1 in
      let rights = bit_and s.rights (mask % 2 ^ 32) in
      let (r, e2, h3) = after-eq-ok (lift (nx_handle_alloc p.handles s.kind rights) k) _ h2 in
      let (u, e3, h4) = after-eq-ok (fill_dup m r.0 r.2 s k) _ h3 in
      let alloc = alloc-Allocated p.handles s.kind rights (ap (λ c. c.0) e2) in
      let filled = fill_slot alloc.slot s.kind rights in
      let k1 = (fill_dup m r.0 r.2 s k).1 in
      let stands : get_elem? r.0 r.2 ≡ some filled =
        ap (λ t. get_elem? t r.2) alloc.table
        ∙ get_elem?-set_self p.handles r.2 filled (lt_length-of-some p.handles r.2 alloc.was) in
      let (t1, cur1, same) = fill_dup_lem r.0 r.2 s filled k k1 p u cur stands e3 in
      let is_new : r.1 ≡ new = ground arith in
      let ends : k1.current ≡ k'.current = ap (λ c. c.1.current) h4 in
      let table_is : t1 ≡ t' = ap handles_of (sym cur1 ∙ ends ∙ cur') in
      let grants = lookup-Grants t' new required look in
      let index : new % 2 ^ 32 ≡ r.2 =
        ap (λ n. n % 2 ^ 32) (sym is_new) ∙ handle_index p.handles s.kind rights v alloc in
      let slot_is : same.0 ≡ y = unsome (
        sym same.1
        ∙ ap (λ t. get_elem? t r.2) table_is
        ∙ ap (get_elem? t') (sym index)
        ∙ grants.slot) in
      let granted : bit_and (bit_and rights right_all) required ≡ required =
        ap (λ x. bit_and x required) (sym same.2 ∙ ap (λ x. x.rights) slot_is) ∙ grants.permitted in
      let (inner, _) = bit_and-subset rights right_all required granted in
      let (old, in_mask) = bit_and-subset s.rights (mask % 2 ^ 32) required inner in
      (i, s, regrant p.handles handle right_dup required (ap (λ c. c.0) e1) old, in_mask)
