-- ===== src/Process/Appending.antt =====
-- The parts of creating a process: the search for a slot, and the walk to the end of the list.
use mathlib.Core.List.{append_assoc}
use nyxis_os.Base.{
  ℕ, zero, suc, ◌+◌, ◌-◌, ◌<◌, ◌≡◌, ◌⊎◌, refl, ap, subst, sym, ◌∙◌, true, false, none, some, List,
  [], ◌∷◌, ◌++◌, set, drop, arith, inl, inr, length, length-set, length-append, Bool-cases,
}
use nyxis_os.Base.Members.{In, NotIn, unsome}
use nyxis_os.Process.{Process, World, at, set_next, blank_process}
use nyxis_os.Process.Life.{find_slot, last_from, append_slot}
use nyxis_os.Process.Queue.{
  Linked, Distinct, Distinct-split, Linked-set_other, Linked-set_next, length-Linked,
  get_or-set_self,
}
use nyxis_os.Process.Taking.{Same, Same-set_next}
use nyxis_os.Process.Invariant.{NotIn-In}

pub find_slot_lem :
    (i : ℕ) (ps : List Process)
    → ((find_slot i ps ≡ none) × ((k : ℕ) → k < length ps → (at ps k).in_use ≡ true))
      ⊎ ((k : ℕ) × (find_slot i ps ≡ some (i + k)) × (k < length ps) × ((at ps k).in_use ≡ false))
unfolding find_slot
find_slot_lem i [] = inl (refl, λ k lt. absurd (omega arith))
find_slot_lem i (p ∷ ps) = elim (Bool-cases p.in_use) [
  | inr e ↦ inr (0, rw e (ap some (omega arith)), omega arith, e)
  | inl e ↦ elim (find_slot_lem (i + 1) ps) [
    | inl (n, all) ↦ inl (rw e n, λ k lt. later p ps e all k lt)
    | inr (k, s, lt, free) ↦ inr (suc k, rw e (s ∙ ap some (omega arith)), omega arith, free)
  ]
]
  where
    later :
        (p : Process) (ps : List Process)
        → p.in_use ≡ true
        → ((k : ℕ) → k < length ps → (at ps k).in_use ≡ true)
        → (k : ℕ) → k < length (p ∷ ps)
        → (at (p ∷ ps) k).in_use ≡ true
    later p ps e all zero lt = e
    later p ps e all (suc k) lt = all k (omega arith)

pub at-drop : (ps : List Process) (k : ℕ) → at (drop 1 ps) k ≡ at ps (suc k)
at-drop [] k = refl
at-drop (p ∷ ps) k = refl

pub length-drop : (ps : List Process) → length (drop 1 ps) ≡ length ps - 1
length-drop [] = omega arith
length-drop (p ∷ ps) = omega arith

last_stop :
    (fuel : ℕ) (ps : List Process) (i : ℕ) → (at ps i).next ≡ none → last_from (suc fuel) ps i ≡ i
unfolding last_from
last_stop fuel ps i e = ap (λ o. elim o [ none ↦ i | some j ↦ last_from fuel ps j ]) e

last_go :
    (fuel : ℕ) (ps : List Process) (i j : ℕ)
    → (at ps i).next ≡ some j
    → last_from (suc fuel) ps i ≡ last_from fuel ps j
unfolding last_from
last_go fuel ps i j e = ap (λ o. elim o [ none ↦ i | some j ↦ last_from fuel ps j ]) e

last_from_lem :
    (fuel : ℕ) (ps : List Process) (h : ℕ) (xs : List ℕ) (y : ℕ)
    → Linked ps (some h) (xs ++ y ∷ [])
    → length xs < fuel
    → last_from fuel ps h ≡ y
last_from_lem zero ps h xs y l room = absurd (omega arith)
last_from_lem (suc fuel) ps h [] y l room =
    let same = unsome l.0 in
    last_stop fuel ps h (subst (λ k. (at ps k).next ≡ none) (sym same) l.2) ∙ same
last_from_lem (suc fuel) ps h (x ∷ []) y l room =
    last_go fuel ps h y (subst (λ k. (at ps k).next ≡ some y) (sym (unsome l.0)) l.2.0)
    ∙ last_from_lem fuel ps y [] y (refl, l.2.1, l.2.2) (omega arith)
last_from_lem (suc fuel) ps h (x ∷ z ∷ zs) y l room =
    last_go fuel ps h z (subst (λ k. (at ps k).next ≡ some z) (sym (unsome l.0)) l.2.0)
    ∙ last_from_lem fuel ps z (z ∷ zs) y (refl, l.2.1, l.2.2) (omega arith)

-- A list that is not empty has a last member.
last_of : (x : ℕ) (xs : List ℕ) → (front : List ℕ) × (y : ℕ) × (x ∷ xs ≡ front ++ y ∷ [])
last_of x [] = ([], x, refl)
last_of x (x' ∷ xs) = let (front, y, e) = last_of x' xs in (x ∷ front, y, ap (λ zs. x ∷ zs) e)

In-last : (xs : List ℕ) (y : ℕ) → In y (xs ++ y ∷ [])
In-last [] y = inl refl
In-last (x ∷ xs) y = inr (In-last xs y)

module _ {Env : Type 0} where
  -- The table with the process `p` added in slot `i`.
  abbrev pub added : World Env → ℕ → Process → List Process
  added w i p = append_slot w.head i (set w.procs i p)

  pub append-Linked :
      (w : World Env) (order rest : List ℕ) (i : ℕ) (p : Process)
      → Linked w.procs w.head order
      → Distinct order
      → order ≡ 0 ∷ rest
      → NotIn i order
      → i < length w.procs
      → p.next ≡ none
      → Linked (added w i p) w.head (order ++ i ∷ [])
        × ((j : ℕ) → Same (at (added w i p) j) (at (set w.procs i p) j))
        × (length (added w i p) ≡ length w.procs)
  unfolding append_slot
  append-Linked w order rest i p l d shape out lt unlinked =
      let (front, y, last) = last_of 0 rest in
      let ps = set w.procs i p in
      let whole = shape ∙ last in
      let head : w.head ≡ some 0 = (subst (Linked w.procs w.head) shape l).0 in
      let l1 : Linked ps w.head (front ++ y ∷ []) =
        subst (Linked ps w.head) whole (Linked-set_other w.procs w.head order i p out l) in
      let split = Distinct-split front [] y (subst Distinct whole d) in
      let fits = length-Linked ps w.head (front ++ y ∷ []) l1 (subst Distinct whole d) in
      let tail : last_from (length ps) ps 0 ≡ y =
        last_from_lem (length ps) ps 0 front y (subst (λ o. Linked ps o (front ++ y ∷ [])) head l1)
          (omega (arith, fits, length-append front (y ∷ []))) in
      let out' : NotIn y (i ∷ []) = (
        (λ e.
            NotIn-In i (front ++ y ∷ []) (subst (NotIn i) whole out)
              (subst (λ k. In k (front ++ y ∷ [])) e (In-last front y))),
        tt,
      ) in
      let l2 : Linked ps (some i) (i ∷ []) = (
        refl,
        omega (arith, length-set w.procs i p),
        ap (λ (q : Process). q.next) (get_or-set_self w.procs i p blank_process lt) ∙ unlinked,
      ) in
      rw (head, tail)
        (
          subst (Linked (set_next ps y (some i)) (some 0))
              (sym (ap (λ zs. zs ++ i ∷ []) whole ∙ append_assoc front (y ∷ []) (i ∷ [])))
              (subst (λ o. Linked (set_next ps y (some i)) o (front ++ y ∷ i ∷ [])) head
                (Linked-set_next ps w.head (some i) front [] (i ∷ []) y l1 split.0 out' l2)),
          (λ j. Same-set_next ps y j (some i)),
          length-set ps y (record (at ps y) { next = some i }) ∙ length-set w.procs i p,
        )
