-- ===== src/Process/Creation.antt =====
-- What the creation of a process does: a free slot is filled and put at the end of the list.
use native.Mathlib.Decide.{ℕ_discrete}
use nyxis_os.Base.{
  ℕ, suc, ◌+◌, ◌-◌, ◌%◌, ◌^◌, ◌≤◌, ◌<◌, ◌≡◌, ◌≢◌, ◌⊎◌, refl, ap, subst, sym, ◌∙◌, true, false, none,
  some, List, [], ◌∷◌, ◌++◌, drop, arith, inl, inr, length,
}
use nyxis_os.Base.Members.{All, All-append, In, NotIn}
use nyxis_os.Base.Status.{ok, err, process_failed}
use nyxis_os.Process.{Process, ready, World, Machine, at, blank_process, process_max}
use nyxis_os.Process.Life.{process_reap, find_slot, place, create}
use nyxis_os.Process.Queue.{Distinct, get_or-set_self, get_or-set_ne}
use nyxis_os.Process.Taking.{Same, bare, kept}
use nyxis_os.Process.Invariant.{
  WellFormed, All-In, NotIn-In, In-cases, not_running, process_reap-WellFormed,
}
use nyxis_os.Process.Appending.{find_slot_lem, at-drop, length-drop, added, append-Linked}

-- A new process that is in use, not yet in the list, and does not run.
pub record IsFresh (fresh : ℕ → ℕ → Process) : Type 0 where
  pub used : (i pid : ℕ) → (fresh i pid).in_use ≡ true
  pub unlinked : (i pid : ℕ) → (fresh i pid).next ≡ none
  pub idles : (i pid : ℕ) → (fresh i pid).state ≡ ready

pub NotIn-both : (a : ℕ) (xs ys : List ℕ) → NotIn a (xs ++ ys) → NotIn a xs × NotIn a ys
NotIn-both a [] ys h = (tt, h)
NotIn-both a (x ∷ xs) ys h = let (k, l) = NotIn-both a xs ys h.1 in ((h.0, k), l)

pub In-append : (a : ℕ) (xs ys : List ℕ) → In a xs → In a (xs ++ ys)
In-append a [] ys h = absurd h
In-append a (x ∷ xs) ys (inl e) = inl e
In-append a (x ∷ xs) ys (inr h) = inr (In-append a xs ys h)

Distinct-append : (xs : List ℕ) (i : ℕ) → Distinct xs → NotIn i xs → Distinct (xs ++ i ∷ [])
Distinct-append [] i d out = (tt, tt)
Distinct-append (x ∷ xs) i d out = (
  All-append (λ y. x ≢ y) xs (i ∷ []) d.0 ((λ e. out.0 (sym e)), tt),
  Distinct-append xs i d.1 out.1,
)

All-others :
    {Env : Type 0} (w : World Env) (i : ℕ) (qs : List Process) (order : List ℕ)
    → ((j : ℕ) → j ≢ i → Same (at qs j) (at w.procs j))
    → NotIn i order
    → All (λ j. (at w.procs j).in_use ≡ true) order
    → All (λ j. (at qs j).in_use ≡ true) order
All-others w i qs [] same out u = tt
All-others w i qs (j ∷ js) same out u = (
  ap (λ (p : Process). p.in_use) (same j (λ e. out.0 (sym e))) ∙ u.0,
  All-others w i qs js same out.1 u.1,
)

module _ {Env : Type 0} (w : World Env) (order : List ℕ) (i : ℕ) (p : Process)
    (f : WellFormed w order) (out : NotIn i order) (lt : i < length w.procs)
    (used : p.in_use ≡ true) (last : p.next ≡ none) (waits : p.state ≡ ready) where
  pub added-Same : (j : ℕ) → j ≢ i → Same (at (added w i p) j) (at w.procs j)
  added-Same j ne =
      let (l, same, size) =
        append-Linked w order f.first.0 i p f.linked f.distinct f.first.1 out lt last in
      same j ∙ ap bare (get_or-set_ne w.procs i j p blank_process ne)

  pub added-new : Same (at (added w i p) i) p
  added-new =
      let (l, same, size) =
        append-Linked w order f.first.0 i p f.linked f.distinct f.first.1 out lt last in
      same i ∙ ap bare (get_or-set_self w.procs i p blank_process lt)

  pub added-WellFormed :
      (pid : ℕ) → WellFormed (record w { procs = added w i p; next_pid = pid }) (order ++ i ∷ [])
  added-WellFormed pid =
      let (l, same, size) =
        append-Linked w order f.first.0 i p f.linked f.distinct f.first.1 out lt last in
      let (c, now, in_order) = f.runs in
      let zero_in = subst (In 0) (sym f.first.1) (inl refl) in
      record {
        linked = l;
        distinct = Distinct-append order i f.distinct out;
        used =
            All-append _ order (i ∷ []) (All-others w i (added w i p) order added-Same out f.used)
              (ap (λ (q : Process). q.in_use) added-new ∙ used, tt);
        unused = λ j h.
            let (k, k') = NotIn-both j order (i ∷ []) h in
            ap (λ (q : Process). q.in_use) (added-Same j k'.0) ∙ f.unused j k;
        idle =
            ap (λ (q : Process). q.pid)
              (added-Same 0 (λ e. NotIn-In i order out (subst (λ k. In k order) e zero_in)))
            ∙ f.idle;
        first = (f.first.0 ++ i ∷ [], ap (λ zs. zs ++ i ∷ []) f.first.1);
        runs = (c, now, In-append c order (i ∷ []) in_order);
        alone = λ j h. elim (ℕ_discrete j i) [
          | yes e ↦ absurd (
              not_running (
                sym h
                ∙ ap (λ k. (at (added w i p) k).state) e
                ∙ ap (λ (q : Process). q.state) added-new
                ∙ waits))
          | no ne ↦ f.alone j (sym (ap (λ (q : Process). q.state) (added-Same j ne)) ∙ h)
        ];
        size = size ∙ f.size;
      }

-- A slot that is not in use is not in the list.
unused-NotIn :
    {Env : Type 0} (w : World Env) (order : List ℕ) (i : ℕ)
    → WellFormed w order
    → (at w.procs i).in_use ≡ false
    → NotIn i order
unused-NotIn w order i f free = elim (In-cases i order) [
  | inl h ↦ absurd (true-is-false (sym (All-In _ i order f.used h) ∙ free))
  | inr h ↦ h
]
  where
    true-is-false : true ≢ false
    true-is-false e = cc

-- `w'` is `r` with a new process `p` at the end of the list `order`.
pub record Created {Env : Type 0} (r : World Env) (order : List ℕ) (i : ℕ) (p : Process)
    (w' : World Env) : Type 0 where
  pub well_formed : WellFormed w' (order ++ i ∷ [])
  pub was_free : NotIn i order
  pub placed : Same (at w'.procs i) p
  pub others : (j : ℕ) → j ≢ i → Same (at w'.procs j) (at r.procs j)
  pub same_current : w'.current ≡ r.current
  pub same_env : w'.env ≡ r.env

module _ {Env : Type 0} (m : Machine Env) (fresh : ℕ → ℕ → Process) (w : World Env)
    (order : List ℕ) where
  create_full :
      find_slot 1 (drop 1 (process_reap m w).procs) ≡ none
      → create m fresh w ≡ (err process_failed, process_reap m w)
  unfolding create place
  create_full e = ap (place fresh (process_reap m w)) e

  create_fits :
      (i : ℕ)
      → let r = process_reap m w in
        find_slot 1 (drop 1 r.procs) ≡ some i
        → create m fresh w ≡ (
          ok r.next_pid,
          record r { procs = added r i (fresh i r.next_pid); next_pid = (r.next_pid + 1) % 2 ^ 32 },
        )
  unfolding create place
  create_fits i e = ap (place fresh (process_reap m w)) e

  -- The process is made, or all slots are in use.
  abbrev pub CreateOutcome : Type 0
  CreateOutcome =
      let r = process_reap m w in
      let stay = kept w.current w.procs order in
      ((i : ℕ) × ((create m fresh w).0 ≡ ok r.next_pid)
        × ((create m fresh w).1.next_pid ≡ (r.next_pid + 1) % 2 ^ 32)
        × Created r stay i (fresh i r.next_pid) (create m fresh w).1)
      ⊎ ((create m fresh w ≡ (err process_failed, r))
          × ((i : ℕ) → 1 ≤ i → i < process_max → (at r.procs i).in_use ≡ true))

  -- On a well-formed table the creation of a process first reaps. Then it either puts the new
  -- process, with the next pid, into a free slot and at the end of the list, and leaves the others
  -- and the invariant; or it fails, since all slots are in use.
  pub create_lem : WellFormed w order → IsFresh fresh → CreateOutcome
  create_lem f n =
      let r = process_reap m w in
      let stay = kept w.current w.procs order in
      let g = process_reap-WellFormed m w order f in
      elim (find_slot_lem 1 (drop 1 r.procs)) [
        | inl (e, all) ↦ inr (
          create_full e,
          λ i lo hi.
              let below : i - 1 < length (drop 1 r.procs) =
                omega (arith, length-drop r.procs, g.size) in
              let same : suc (i - 1) ≡ i = omega arith in
              subst (λ k. (at r.procs k).in_use ≡ true) same
                (subst (λ (q : Process). q.in_use ≡ true) (at-drop r.procs (i - 1))
                  (all (i - 1) below)),
        )
        | inr (k, e, lt, free) ↦
            let i = 1 + k in
            let p = fresh i r.next_pid in
            let same : suc k ≡ i = omega arith in
            let free' : (at r.procs i).in_use ≡ false =
              subst (λ j. (at r.procs j).in_use ≡ false) same
                (subst (λ (q : Process). q.in_use ≡ false) (at-drop r.procs k) free) in
            let out = unused-NotIn r stay i g free' in
            let lt' : i < length r.procs = omega (arith, length-drop r.procs) in
            let made = create_fits i e in
            inl (
              i,
              ap (λ z. z.0) made,
              ap (λ z. z.1.next_pid) made,
              subst (λ z. Created r stay i p z) (sym (ap (λ z. z.1) made))
                  (record {
                    well_formed =
                        added-WellFormed r stay i p g out lt' (n.used i r.next_pid)
                          (n.unlinked i r.next_pid) (n.idles i r.next_pid)
                          ((r.next_pid + 1) % 2 ^ 32);
                    was_free = out;
                    placed =
                        added-new r stay i p g out lt' (n.used i r.next_pid)
                          (n.unlinked i r.next_pid) (n.idles i r.next_pid);
                    others =
                        added-Same r stay i p g out lt' (n.used i r.next_pid)
                          (n.unlinked i r.next_pid) (n.idles i r.next_pid);
                    same_current = refl;
                    same_env = refl;
                  }),
            )
      ]
