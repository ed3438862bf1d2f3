-- ===== src/Handles/Shutdown.antt =====
-- `nx_handles_close_all`, which runs when a process ends.
use mathlib.Core.List.{append_assoc}
use nyxis_os.Base.{
  ℕ, ◌+◌, ◌^◌, ◌<◌, ◌≡◌, refl, ap, subst, ◌∙◌, sym, false, [], ◌∷◌, ◌++◌, map, arith, ◌==◌,
  if◌then◌else◌, length, Bool-cases, inl, inr, get_elem?-append, set-append, length-append,
  eq-of-==,
}
use nyxis_os.Base.Members.{All-get_elem?}
use nyxis_os.Base.Bits.{bit_and-zero}
use nyxis_os.Base.Status.{ok}
use nyxis_os.Vfs.Handle.{FileHandle}
use nyxis_os.Handles.{
  Slot, Table, handle_free, handle_file, max_handles, make_handle, check_slot, close_or_keep,
  close_slot, close_from, nx_handles_close_all, blank_slot, next_generation, nx_handles_count,
}
use nyxis_os.Handles.Slots.{IsTable, set-IsTable, lookup_at}
use nyxis_os.Handles.Lifetime.{close_found}

-- A slot when its process has ended.
abbrev pub closed_slot : Slot → Slot
closed_slot s = if s.kind == handle_free then s else blank_slot (next_generation s.generation)

count-map_closed : (t : Table) → nx_handles_count (map closed_slot t) ≡ 0
unfolding nx_handles_count
count-map_closed [] = refl
count-map_closed (s ∷ t) = ground (arith, count-map_closed t)

check_slot_any :
    (s : Slot) (i : ℕ) → (s.kind == handle_free) ≡ false → check_slot s i s.generation 0 ≡ ok (i, s)
unfolding check_slot
check_slot_any s i used = ground (arith, bit_and-zero s.rights)

module _ {Fs : Type 0} (vfs_close : FileHandle → Fs → Fs) where
  -- The files of the slots in use, closed in the order of the slots.
  abbrev pub close_files : Table → Fs → Fs
  close_files [] fs = fs
  close_files (s ∷ t) fs = close_files t (if s.kind == handle_file then vfs_close s.file fs else fs)

  close_slot_lem :
      (before after : Table) (s : Slot) (fs : Fs)
      → IsTable (before ++ s ∷ after)
      → close_slot vfs_close (length before) (before ++ s ∷ after, fs) ≡ (
        before ++ closed_slot s ∷ after,
        if s.kind == handle_file then vfs_close s.file fs else fs,
      )
  unfolding close_slot close_or_keep
  close_slot_lem before after s fs v = elim (Bool-cases (s.kind == handle_free)) [
    | inl free ↦ ground (arith, get_elem?-append before after s, eq-of-== s.kind handle_free free)
    | inr used ↦ ground (
      arith,
      get_elem?-append before after s,
      close_found vfs_close (before ++ s ∷ after) (make_handle s.generation (length before)) fs (
          lookup_at (before ++ s ∷ after) s.generation (length before) 0 v
            (All-get_elem? (λ (x : Slot). x.generation < 2 ^ 32) _ (length before) v.words
              (get_elem?-append before after s))
            (get_elem?-append before after s)
          ∙ check_slot_any s (length before) used),
      set-append before after s (blank_slot (next_generation s.generation)),
    )
  ]

  closed_IsTable :
      (before after : Table) (s : Slot)
      → IsTable (before ++ s ∷ after)
      → IsTable (before ++ closed_slot s ∷ after)
  closed_IsTable before after s v =
      let small =
        All-get_elem? (λ (x : Slot). x.generation < 2 ^ 32) _ (length before) v.words
          (get_elem?-append before after s) in
      subst IsTable (set-append before after s (closed_slot s))
        (set-IsTable _ (length before) (closed_slot s) v (ground arith))

  close_from_lem :
      (after before : Table) (fs : Fs)
      → IsTable (before ++ after)
      → close_from vfs_close (length after) (length before) (before ++ after, fs)
        ≡ (before ++ map closed_slot after, close_files after fs)
  unfolding close_from
  close_from_lem [] before fs v = refl
  close_from_lem (s ∷ after) before fs v =
      let fs' = if s.kind == handle_file then vfs_close s.file fs else fs in
      let moved = append_assoc before (closed_slot s ∷ []) in
      let longer : length (before ++ closed_slot s ∷ []) ≡ length before + 1 =
        length-append before (closed_slot s ∷ []) in
      let rest =
        close_from_lem after (before ++ closed_slot s ∷ []) fs'
          (subst IsTable (sym (moved after)) (closed_IsTable before after s v)) in
      ap (λ (st : Table × Fs). close_from vfs_close (length after) (length before + 1) st)
        (close_slot_lem before after s fs v)
      ∙ rw (← longer, ← moved after, ← moved (map closed_slot after)) rest

  -- After the shutdown no handle is open; each file that was open has been closed, once and in
  -- the order of the slots; and a slot that was in use has the next generation, so that no old
  -- handle of the process is accepted.
  pub close_all_lem :
      (t : Table) (fs : Fs)
      → IsTable t
      → (nx_handles_count (nx_handles_close_all vfs_close t fs).0 ≡ 0)
        × ((nx_handles_close_all vfs_close t fs).1 ≡ close_files t fs)
        × ((nx_handles_close_all vfs_close t fs).0 ≡ map closed_slot t)
  unfolding nx_handles_close_all
  close_all_lem t fs v =
      let all : close_from vfs_close max_handles 0 (t, fs) ≡ (map closed_slot t, close_files t fs) =
        subst (λ n. close_from vfs_close n 0 (t, fs) ≡ (map closed_slot t, close_files t fs)) v.size
          (close_from_lem t [] fs v) in
      (
        ap (λ (r : Table × Fs). nx_handles_count r.0) all ∙ count-map_closed t,
        ap (λ (r : Table × Fs). r.1) all,
        ap (λ (r : Table × Fs). r.0) all,
      )
