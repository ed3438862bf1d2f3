-- ===== src/Vfs/Again.antt =====
-- The dentries as a cache of what `lookup` has found, in drivers/filesystem/vfs.c.
use nyxis_os.Base.Found.{zero_plus, plus_zero, none_or_some}
use nyxis_os.Base.{
  ℕ, zero, suc, ◌+◌, ◌≤◌, ◌<◌, ◌≡◌, ◌≢◌, refl, ap, sym, ◌∙◌, subst, inl, inr, true, Option, none,
  some, List, [], ◌∷◌, get_or, set, take, ◌==◌, length, length-set, Bool-cases, Option-cases, arith,
}
use nyxis_os.Base.Members.{unsome}
use nyxis_os.Base.Status.{Error, Result, ok, err}
use nyxis_os.Base.Effect.{Eff, after-eq-ok}
use nyxis_os.Strings.{same, strcmp, sign_of}
use nyxis_os.Vfs.Path.{name_max}
use nyxis_os.Vfs.Tree.{
  Vfs, Dentry, blank_dentry, dentry_at, max_dentries, free_dentry_at, alloc_dentry, attach_child,
  find_among, find_child,
}
use nyxis_os.Vfs.Resolve.{Drivers, op_of, call_op, cache, cached, enter}
use nyxis_os.Vfs.Slots.{op_of_source}

module _ {A : Type 0} where
  get_or-set_self : (xs : List A) (i : ℕ) (v d : A) → i < length xs → get_or (set xs i v) i d ≡ v
  get_or-set_self [] i v d h = absurd (omega arith)
  get_or-set_self (x ∷ xs) zero v d h = refl
  get_or-set_self (x ∷ xs) (suc i) v d h = get_or-set_self xs i v d (omega arith)

  get_or-set_ne :
      (xs : List A) (i j : ℕ) (v d : A) → i ≢ j → get_or (set xs i v) j d ≡ get_or xs j d
  get_or-set_ne [] i j v d h = refl
  get_or-set_ne (x ∷ xs) zero zero v d h = absurd (h refl)
  get_or-set_ne (x ∷ xs) zero (suc j) v d h = refl
  get_or-set_ne (x ∷ xs) (suc i) zero v d h = refl
  get_or-set_ne (x ∷ xs) (suc i) (suc j) v d h = get_or-set_ne xs i j v d (λ e. h (ap suc e))

  take_all : (n : ℕ) (xs : List A) → length xs ≤ n → take n xs ≡ xs
  take_all zero [] h = refl
  take_all zero (x ∷ xs) h = absurd (omega arith)
  take_all (suc n) [] h = refl
  take_all (suc n) (x ∷ xs) h = ap (λ ys. x ∷ ys) (take_all n xs (omega arith))

eq_self : (a : ℕ) → (a == a) ≡ true
eq_self a = ground arith

err_or_ok :
    {A S : Type 0} {e : Error} {a : A} {s t : S} → ◌≡◌ {A = Result A × S} (err e, s) (ok a, t) → ⊥
err_or_ok e = cc

strcmp_self : (s : List ℕ) → strcmp s s ≡ same
unfolding strcmp sign_of
strcmp_self [] = refl
strcmp_self (a ∷ s) = rw (eq_self a) (strcmp_self s)

-- A dentry that is in use stands in the table.
used_in_table : (ds : List Dentry) (i : ℕ) → (dentry_at ds i).refcnt ≢ 0 → i < length ds
used_in_table [] i h = absurd (h refl)
used_in_table (d ∷ ds) zero h = omega arith
used_in_table (d ∷ ds) (suc i) h = let ih = used_in_table ds i h in omega arith

-- A dentry that is found is free.
free_dentry_found :
    (k j : ℕ) (ds : List Dentry)
    → free_dentry_at k ds ≡ some j
    → (i : ℕ) × (j ≡ k + i) × (i < length ds) × ((dentry_at ds i).refcnt ≡ 0)
unfolding free_dentry_at
free_dentry_found k j [] e = absurd (cc)
free_dentry_found k j (d ∷ ds) e = elim (Bool-cases (d.refcnt == 0)) [
  | inl z ↦ (0, sym (unsome (rw (free_dentry_at, z) at e)) ∙ plus_zero k, omega arith, ground arith)
  | inr nz ↦
      let r = free_dentry_found (k + 1) j ds (rw (free_dentry_at, nz) at e) in
      let at_i = r.1 in let less = r.2 in (suc r.0, omega arith, omega arith, r.3)
]

-- A new child of a directory is the first that is found under its name.
find_first :
    (name : List ℕ) (i : ℕ) (ds : List Dentry)
    → (dentry_at ds i).name ≡ name
    → find_among max_dentries name (some i) ds ≡ some i
unfolding find_among
find_first name i ds named = rw (find_among, named, strcmp_self name) refl

module _ {D : Type 0} where
  -- A child that has been attached is found under its name.
  find_child-attach_child :
      (name : List ℕ) (current i : ℕ) (v : Vfs D)
      → i < length v.dentries
      → current < length v.dentries
      → i ≢ current
      → (dentry_at v.dentries i).name ≡ name
      → find_child current name (attach_child current i v) ≡ some i
  unfolding find_child attach_child
  find_child-attach_child name current i v l c ne named =
      let new = record (dentry_at v.dentries i) {
        next_sibling = (dentry_at v.dentries current).first_child;
      } in
      let ds = set v.dentries i new in
      let dir = record (dentry_at ds current) { first_child = some i } in
      let at_dir : dentry_at (set ds current dir) current ≡ dir =
        get_or-set_self ds current dir blank_dentry
          (subst (λ n. current < n) (sym (length-set v.dentries i new)) c) in
      let at_new : dentry_at (set ds current dir) i ≡ new =
        get_or-set_ne ds current i dir blank_dentry (λ e. ne (sym e))
        ∙ get_or-set_self v.dentries i new blank_dentry l in
      ap (λ d. find_among max_dentries name d.first_child (set ds current dir)) at_dir
      ∙ find_first name i (set ds current dir) (ap (λ d. d.name) at_new ∙ named)

  -- Where a dentry is allocated it gets the name, was free before and leaves those in use as they were.
  alloc_dentry_lem :
      (name : List ℕ) (target parent : Option ℕ) (v : Vfs D) (i : ℕ)
      → (alloc_dentry name target parent v).0 ≡ some i
      → length name ≤ name_max
      → (i < length (alloc_dentry name target parent v).1.dentries)
        × (length (alloc_dentry name target parent v).1.dentries ≡ length v.dentries)
        × ((dentry_at v.dentries i).refcnt ≡ 0)
        × ((dentry_at (alloc_dentry name target parent v).1.dentries i).name ≡ name)
  unfolding alloc_dentry
  alloc_dentry_lem name target parent v i e short =
      elim (Option-cases (free_dentry_at 0 v.dentries)) [
        | inl out ↦ absurd (none_or_some (rw (alloc_dentry, out) at e))
        | inr (j, is) ↦
            let found = free_dentry_found 0 j v.dentries is in
            let new = record blank_dentry {
              name = take name_max name;
              node = target;
              parent = parent;
              refcnt = 1;
            } in
            let same_index : j ≡ i = unsome (rw (alloc_dentry, is) at e) in
            let j_is : j ≡ found.0 = found.1 ∙ zero_plus found.0 in
            let inside : j < length v.dentries =
              subst (λ k. k < length v.dentries) (sym j_is) found.2 in
            let free : (dentry_at v.dentries j).refcnt ≡ 0 =
              subst (λ k. (dentry_at v.dentries k).refcnt ≡ 0) (sym j_is) found.3 in
            subst
              (λ k.
                (k < length (alloc_dentry name target parent v).1.dentries)
                × (length (alloc_dentry name target parent v).1.dentries ≡ length v.dentries)
                × ((dentry_at v.dentries k).refcnt ≡ 0)
                × ((dentry_at (alloc_dentry name target parent v).1.dentries k).name ≡ name))
              same_index
              (rw (alloc_dentry, is)
                (
                  subst (λ n. j < n) (sym (length-set v.dentries j new)) inside,
                  length-set v.dentries j new,
                  free,
                  ap (λ d. d.name) (get_or-set_self v.dentries j new blank_dentry inside)
                      ∙ take_all name_max name short,
                ))
      ]

-- What `lookup` of a file system keeps: the dentries are none of its business.
pub record IsReader {D : Type 0} (drivers : Drivers D) : Type 0 where
  pub keeps_dentries :
      (table : ℕ) (f : ℕ → List ℕ → Eff (Vfs D) (Option ℕ))
      → (drivers table).lookup ≡ some f
      → (node : ℕ) (name : List ℕ) (v : Vfs D) → (f node name v).1.dentries ≡ v.dentries

module _ {D : Type 0} (drivers : Drivers D) (current : ℕ) (name : List ℕ)
    (short : length name ≤ name_max) where
  ok_child :
      {a b : ℕ} {v w : Vfs D} → ◌≡◌ {A = Result ℕ × Vfs D} (ok a, v) (ok b, w) → (a ≡ b) × (v ≡ w)
  ok_child e = (cc, cc)

  cached_found :
      (node child : ℕ) (v w : Vfs D)
      → (dentry_at v.dentries current).refcnt ≢ 0
      → cache drivers current name node v ≡ (ok child, w)
      → find_child current name w ≡ some child
  unfolding cache
  cached_found node child v w used e =
      let r = alloc_dentry name (some node) (some current) v in
      elim (Option-cases r.0) [
        | inl out ↦ absurd (err_or_ok (rw (cache, out) at e))
        | inr (i, is) ↦
            let new = alloc_dentry_lem name (some node) (some current) v i is short in
            let made = ok_child (rw (cache, is) at e) in
            let apart : i ≢ current = λ same_index.
              used (subst (λ k. (dentry_at v.dentries k).refcnt ≡ 0) same_index new.2) in
            let inside : current < length r.1.dentries =
              subst (λ n. current < n) (sym new.1) (used_in_table v.dentries current used) in
            let found = find_child-attach_child name current i r.1 new.0 inside apart new.3 in
            subst (λ x. find_child current name x ≡ some child) made.1
              (found ∙ ap (λ k. some k) made.0)
      ]

  enter_found :
      (e : Error) (child : ℕ) (w : Vfs D)
      → find_child current name w ≡ some child
      → enter drivers e current name w ≡ (ok child, w)
  unfolding enter
  enter_found e child w is = rw (enter, is) refl

  -- The directory is in use as before where `lookup` has been called.
  lookup_used :
      IsReader drivers
      → (e : Error) (target : Option ℕ) (v w : Vfs D) (found : Option ℕ)
      → call_op drivers target (λ ops. ops.lookup) e (λ n lookup. lookup n name) v ≡ (ok found, w)
      → w.dentries ≡ v.dentries
  unfolding call_op
  lookup_used reader e target v w found is =
      elim (Option-cases (op_of drivers target (λ ops. ops.lookup) v)) [
        | inl out ↦ absurd (err_or_ok (rw (call_op, out) at is))
        | inr ((n, f), has) ↦
            let from = op_of_source drivers target (λ ops. ops.lookup) v n f has in
            let call : ◌≡◌ {A = Result (Option ℕ) × Vfs D} (f n name v) (ok found, w) =
              rw (call_op, has) at is in
            sym (ap (λ r. r.1.dentries) call) ∙ reader.keeps_dentries from.0 f from.1 n name v
      ]

  found_by_lookup :
      (e : Error) (found : Option ℕ) (child : ℕ) (v w : Vfs D)
      → (dentry_at v.dentries current).refcnt ≢ 0
      → cached drivers e current name found v ≡ (ok child, w)
      → find_child current name w ≡ some child
  unfolding cached
  found_by_lookup e none child v w used is = absurd (err_or_ok is)
  found_by_lookup e (some node) child v w used is = cached_found node child v w used is

  entered_found :
      IsReader drivers
      → (e : Error) (child : ℕ) (v w : Vfs D) → (dentry_at v.dentries current).refcnt ≢ 0
      → enter drivers e current name v ≡ (ok child, w)
      → find_child current name w ≡ some child
  unfolding enter
  entered_found reader e child v w used is = elim (Option-cases (find_child current name v)) [
    | inr (i, has) ↦
        let done = ok_child (rw (enter, has) at is) in
        subst (λ x. find_child current name x ≡ some child) done.1 (has ∙ ap (λ k. some k) done.0)
    | inl out ↦
        let looked =
          call_op drivers (dentry_at v.dentries current).node (λ ops. ops.lookup) e
            (λ n lookup. lookup n name) v in
        let r = after-eq-ok looked (cached drivers e current name) (rw (enter, out) at is) in
        let kept = lookup_used reader e (dentry_at v.dentries current).node v looked.1 r.0 r.1 in
        found_by_lookup e r.0 child looked.1 w
          (subst (λ ds. (dentry_at ds current).refcnt ≢ 0) (sym kept) used) r.2
  ]

-- Where a name of at most 255 bytes has once been entered from a directory that is in use, it is found
-- again at once: the step leads to the same dentry, asks no file system and changes nothing, if `lookup`
-- of the file systems leaves the dentries alone.
pub enter_again :
    {D : Type 0} (drivers : Drivers D)
    → IsReader drivers
    → (e e' : Error) (current child : ℕ) (name : List ℕ) (v w : Vfs D) → length name ≤ name_max
    → (dentry_at v.dentries current).refcnt ≢ 0
    → enter drivers e current name v ≡ (ok child, w)
    → enter drivers e' current name w ≡ (ok child, w)
enter_again drivers reader e e' current child name v w short used is =
    enter_found drivers current name short e' child w
      (entered_found drivers current name short reader e child v w used is)
