-- ===== src/Handles/Lifetime.antt =====
-- A closed handle stays closed: the generations of handles.h.
use nyxis_os.Base.{
  ℕ, ◌+◌, ◌/◌, ◌%◌, ◌^◌, ◌≤◌, ◌<◌, ◌≡◌, ◌≢◌, ◌⊎◌, refl, subst, ◌∙◌, sym, some, List, [], ◌∷◌, arith,
  ◌==◌, if◌then◌else◌, get_elem?, set, length, Option-cases, inl, inr, lt_length-of-some,
  get_elem?-set_self, get_elem?-set_ne,
}
use nyxis_os.Base.Members.{unsome}
use native.Mathlib.Decide.{ℕ_discrete}
use nyxis_os.Base.Status.{Result, Result-cases, ok, err, invalid_arg}
use nyxis_os.Vfs.Handle.{FileHandle}
use nyxis_os.Handles.{
  Slot, Table, nx_handle_lookup, check_slot, nx_handle_alloc, nx_handle_close, nx_handle_discard,
  close_or_keep, fill_slot, blank_slot, next_generation,
}
use nyxis_os.Handles.Table.{alloc-Allocated, Grants, lookup-Grants}

-- What can happen to a table between two calls that its process makes.
pub data Event : Type 0 where
  allocated : ℕ → ℕ → Event
  closed : ℕ → Event
  discarded : ℕ → Event

-- Slot `i` of `u` has the generation that it has in `t`, or the next.
abbrev SlotAges : ℕ → Table → Table → Type 0
SlotAges i t u =
    (s : Slot)
    → get_elem? t i ≡ some s
    → (s' : Slot) × (get_elem? u i ≡ some s')
      × ((s'.generation ≡ s.generation) ⊎ (s'.generation ≡ next_generation s.generation))

-- A write to slot `j` ages it so, if the new slot is that much older.
SlotAges-set :
    (i j : ℕ) (t : Table) (x y : Slot)
    → get_elem? t j ≡ some x
    → (y.generation ≡ x.generation) ⊎ (y.generation ≡ next_generation x.generation)
    → SlotAges i t (set t j y)
SlotAges-set i j t x y at older s e = elim (ℕ_discrete j i) [
  | yes same ↦
      let at_i = subst (λ n. get_elem? t n ≡ some x) same at in
      let x-s : x ≡ s = unsome (sym at_i ∙ e) in
      (
        y,
        subst (λ n. get_elem? (set t n y) i ≡ some y) (sym same)
            (get_elem?-set_self t i y (lt_length-of-some t i e)),
        subst
            (λ (z : Slot).
              (y.generation ≡ z.generation) ⊎ (y.generation ≡ next_generation z.generation))
            x-s older,
      )
  | no differ ↦ (s, get_elem?-set_ne t y differ ∙ e, inl refl)
]

discard_ages : (i j : ℕ) (t : Table) → SlotAges i t (nx_handle_discard t j)
unfolding nx_handle_discard
discard_ages i j t s e = elim (Option-cases (get_elem? t j)) [
  | inl n ↦ (s, rw (n, nx_handle_discard) e, inl refl)
  | inr (x, at) ↦
      rw (at, nx_handle_discard)
        (SlotAges-set i j t x (blank_slot (next_generation x.generation)) at (inr refl) s e)
]

abbrev after_alloc : Table → Result (Table × ℕ × ℕ) → Table
after_alloc t (ok r) = r.0
after_alloc t (err e) = t

alloc_ages :
    (i : ℕ) (t : Table) (kind rights : ℕ)
    → SlotAges i t (after_alloc t (nx_handle_alloc t kind rights))
alloc_ages i t kind rights s e = elim (Result-cases (nx_handle_alloc t kind rights)) [
  | inl (r, q) ↦
      let a = alloc-Allocated t kind rights {t' = r.0} {h = r.1} {i = r.2} q in
      rw (q, after_alloc, a.table)
        (SlotAges-set i r.2 t a.slot (fill_slot a.slot kind rights) a.was (inl refl) s e)
  | inr (x, q) ↦ rw (q, after_alloc) (s, e, inl refl)
]

module _ {Fs : Type 0} (vfs_close : FileHandle → Fs → Fs) where
  -- A call that fails leaves the table as it was.
  pub step : Event → Table × Fs → Table × Fs
  step (allocated kind rights) (t, fs) = (after_alloc t (nx_handle_alloc t kind rights), fs)
  step (closed h) (t, fs) = close_or_keep vfs_close t h fs
  step (discarded i) (t, fs) = (nx_handle_discard t i, fs)

  pub run : List Event → Table × Fs → Table × Fs
  run [] st = st
  run (e ∷ es) st = run es (step e st)

  pub close_found :
      (t : Table) (h : ℕ) (fs : Fs) {j : ℕ} {s : Slot}
      → nx_handle_lookup t h 0 ≡ ok (j, s)
      → nx_handle_close vfs_close t h fs
        ≡ ok (
          set t j (blank_slot (next_generation s.generation)),
          if s.kind == 2 then vfs_close s.file fs else fs,
        )
  unfolding nx_handle_close
  close_found t h fs e = rw (e, nx_handle_close)

  close_refused :
      (t : Table) (h : ℕ) (fs : Fs) {x : _}
      → nx_handle_lookup t h 0 ≡ err x
      → nx_handle_close vfs_close t h fs ≡ err x
  unfolding nx_handle_close
  close_refused t h fs e = rw (e, nx_handle_close)

  close_ages :
      (i : ℕ) (h : ℕ) (t : Table) (fs : Fs) → SlotAges i t (close_or_keep vfs_close t h fs).0
  unfolding close_or_keep
  close_ages i h t fs s e = elim (Result-cases (nx_handle_lookup t h 0)) [
    | inl (r, q) ↦
        let g = lookup-Grants t h 0 {j = r.0} {s = r.1} q in
        rw (close_found t h fs q, close_or_keep)
          (SlotAges-set i r.0 t r.1 (blank_slot (next_generation r.1.generation))
            (rw g.index g.slot) (inr refl) s e)
    | inr (x, q) ↦ rw (close_refused t h fs q, close_or_keep) (s, e, inl refl)
  ]

  step_ages : (i : ℕ) (e : Event) (st : Table × Fs) → SlotAges i st.0 (step e st).0
  unfolding step
  step_ages i (allocated kind rights) st = alloc_ages i st.0 kind rights
  step_ages i (closed h) st = close_ages i h st.0 st.1
  step_ages i (discarded j) st = discard_ages i j st.0

  -- Over a history the generation grows by at most one for each event.
  run_ages :
      (i : ℕ) (es : List Event) (st : Table × Fs) (s : Slot)
      → get_elem? st.0 i ≡ some s
      → s.generation < 2 ^ 32
      → (s' : Slot) × (k : ℕ) × (get_elem? (run es st).0 i ≡ some s')
        × (k ≤ length es)
        × (s'.generation ≡ (s.generation + k) % 2 ^ 32)
  unfolding run
  run_ages i [] st s at small = (s, 0, at, omega arith, omega arith)
  run_ages i (e ∷ es) st s at small =
      let (x, at_x, older) = step_ages i e st s at in
      let (s', k, at', few, sum) = run_ages i es (step e st) x at_x (omega arith) in
      aged x s' k at' few sum older
    where
      aged :
          (x s' : Slot) (k : ℕ)
          → get_elem? (run es (step e st)).0 i ≡ some s'
          → k ≤ length es
          → s'.generation ≡ (x.generation + k) % 2 ^ 32
          → (x.generation ≡ s.generation) ⊎ (x.generation ≡ next_generation s.generation)
          → (s' : Slot) × (k : ℕ) × (get_elem? (run es (step e st)).0 i ≡ some s')
            × (k ≤ length (e ∷ es))
            × (s'.generation ≡ (s.generation + k) % 2 ^ 32)
      aged x s' k at' few sum (inl same) = (s', k, at', omega arith, omega arith)
      aged x s' k at' few sum (inr next) = (s', k + 1, at', omega arith, omega arith)

  lookup_stale :
      (t : Table) (h required : ℕ) {s : Slot}
      → get_elem? t (h % 2 ^ 32) ≡ some s
      → s.generation ≢ h / 2 ^ 32 % 2 ^ 32
      → nx_handle_lookup t h required ≡ err invalid_arg
  unfolding nx_handle_lookup check_slot
  lookup_stale t h required at differ = ground arith

  -- A close that succeeds found the handle's slot and moved its generation on.
  pub close-ok :
      (t : Table) (h : ℕ) (fs : Fs) {t' : Table} {fs' : Fs}
      → nx_handle_close vfs_close t h fs ≡ ok (t', fs')
      → (s : Slot) × Grants t h 0 (h % 2 ^ 32) s
        × (t' ≡ set t (h % 2 ^ 32) (blank_slot (next_generation s.generation)))
        × (fs' ≡ (if s.kind == 2 then vfs_close s.file fs else fs))
  close-ok t h fs {t'} {fs'} e = elim (Result-cases (nx_handle_lookup t h 0)) [
    | inl (r, q) ↦
        let g = lookup-Grants t h 0 {j = r.0} {s = r.1} q in
        let c = close_found t h fs q in
        (
          r.1,
          subst (λ n. Grants t h 0 n r.1) g.index g,
          subst (λ n. t' ≡ set t n (blank_slot (next_generation r.1.generation))) g.index
              (ground arith),
          ground arith,
        )
    | inr (x, q) ↦ absurd (cc (close_refused t h fs q))
  ]

  -- Once a handle is closed it is refused, whatever is opened and closed afterwards: for as long
  -- as fewer than 2 ^ 32 - 1 events follow, so that its slot's generation has not come round.
  pub closed_stays_closed :
      (t : Table) (h required : ℕ) (fs : Fs) {t' : Table} {fs' : Fs} (es : List Event)
      → nx_handle_close vfs_close t h fs ≡ ok (t', fs')
      → length es + 1 < 2 ^ 32
      → nx_handle_lookup (run es (t', fs')).0 h required ≡ err invalid_arg
  closed_stays_closed t h required fs {t'} {fs'} es e few =
      let (s, g, table, _) = close-ok t h fs e in
      let next = blank_slot (next_generation s.generation) in
      let at : get_elem? t' (h % 2 ^ 32) ≡ some next =
        rw table
          (get_elem?-set_self t (h % 2 ^ 32) next (lt_length-of-some t (h % 2 ^ 32) g.slot)) in
      let (s', k, at', short, sum) = run_ages (h % 2 ^ 32) es (t', fs') next at (omega arith) in
      lookup_stale (run es (t', fs')).0 h required at' (omega (arith, g.current))
