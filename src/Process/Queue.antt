-- ===== src/Process/Queue.antt =====
-- The list of processes that runs through the table.
use nyxis_os.Base.{
  ℕ, zero, suc, ◌≤◌, ◌<◌, ◌≡◌, ◌≢◌, refl, ap, subst, sym, ◌∙◌, Option, none, some, List, [], ◌∷◌,
  ◌++◌, set, get_or, ◌==◌, if◌then◌else◌, ==_self, not-==-of-ne, Bool-cases, arith, inl, inr,
  length, length-set,
}
use native.Mathlib.Decide.{ℕ_discrete}
use nyxis_os.Base.Members.{All, NotIn}
use nyxis_os.Process.{Process, at, set_next, blank_process}

module _ {ℓ} {A : Type ℓ} where
  pub get_or-set_self :
      (xs : List A) (i : ℕ) (v d : A) → i < length xs → get_or (set xs i v) i d ≡ v
  get_or-set_self [] i v d h = absurd (omega arith)
  get_or-set_self (x ∷ xs) zero v d h = refl
  get_or-set_self (x ∷ xs) (suc i) v d h = get_or-set_self xs i v d (omega arith)

  pub get_or-set_ne :
      (xs : List A) (i j : ℕ) (v d : A) → j ≢ i → get_or (set xs i v) j d ≡ get_or xs j d
  get_or-set_ne [] i j v d h = refl
  get_or-set_ne (x ∷ xs) zero zero v d h = absurd (h refl)
  get_or-set_ne (x ∷ xs) zero (suc j) v d h = refl
  get_or-set_ne (x ∷ xs) (suc i) zero v d h = refl
  get_or-set_ne (x ∷ xs) (suc i) (suc j) v d h = get_or-set_ne xs i j v d (λ e. h (ap suc e))

-- From `o` on the list runs through the slots `order`, each of which is in the table.
abbrev pub Linked : List Process → Option ℕ → List ℕ → Type 0
Linked ps o [] = o ≡ none
Linked ps o (i ∷ is) = (o ≡ some i) × (i < length ps) × Linked ps (at ps i).next is

-- No slot stands twice.
abbrev pub Distinct : List ℕ → Type 0
Distinct [] = Unit {0}
Distinct (i ∷ is) = NotIn i is × Distinct is

-- A change of another slot, or of no `next`, leaves the list.
pub Linked-set_other :
    (ps : List Process) (o : Option ℕ) (order : List ℕ) (j : ℕ) (p : Process)
    → NotIn j order
    → Linked ps o order
    → Linked (set ps j p) o order
Linked-set_other ps o [] j p out l = l
Linked-set_other ps o (i ∷ is) j p out l =
    let same = get_or-set_ne ps j i p blank_process (λ e. out.0 (sym e)) in
    (
      l.0,
      omega (arith, length-set ps j p, l.1),
      subst (λ q. Linked (set ps j p) q.next is) (sym same)
          (Linked-set_other ps (at ps i).next is j p out.1 l.2),
    )

pub Linked-set_same :
    (ps : List Process) (o : Option ℕ) (order : List ℕ) (j : ℕ) (p : Process)
    → p.next ≡ (at ps j).next
    → Linked ps o order
    → Linked (set ps j p) o order
Linked-set_same ps o [] j p same l = l
Linked-set_same ps o (i ∷ is) j p same l = elim (ℕ_discrete i j) [
  | yes e ↦ (
    l.0,
    omega (arith, length-set ps j p, l.1),
    subst (λ n. Linked (set ps j p) n is)
        (sym (
          subst (λ k. (at (set ps j p) k).next ≡ (at ps k).next) (sym e)
            (ap (λ q. q.next)
                (get_or-set_self ps j p blank_process (subst (λ k. k < length ps) e l.1))
              ∙ same)))
        (Linked-set_same ps (at ps i).next is j p same l.2),
  )
  | no ne ↦ (
    l.0,
    omega (arith, length-set ps j p, l.1),
    subst (λ q. Linked (set ps j p) q.next is) (sym (get_or-set_ne ps j i p blank_process ne))
        (Linked-set_same ps (at ps i).next is j p same l.2),
  )
]

-- Behind `y` the list can be given another rest.
pub Linked-set_next :
    (ps : List Process) (o o' : Option ℕ) (xs zs zs' : List ℕ) (y : ℕ)
    → Linked ps o (xs ++ y ∷ zs)
    → NotIn y xs
    → NotIn y zs'
    → Linked ps o' zs'
    → Linked (set_next ps y o') o (xs ++ y ∷ zs')
Linked-set_next ps o o' [] zs zs' y l out out' l' =
    let p = record (at ps y) { next = o' } in
    (
      l.0,
      omega (arith, length-set ps y p, l.1),
      subst (λ q. Linked (set ps y p) q.next zs') (sym (get_or-set_self ps y p blank_process l.1))
          (Linked-set_other ps o' zs' y p out' l'),
    )
Linked-set_next ps o o' (x ∷ xs) zs zs' y l out out' l' =
    let p = record (at ps y) { next = o' } in
    (
      l.0,
      omega (arith, length-set ps y p, l.1),
      subst (λ q. Linked (set ps y p) q.next (xs ++ y ∷ zs'))
          (sym (get_or-set_ne ps y x p blank_process (λ e. out.0 (sym e))))
          (Linked-set_next ps (at ps x).next o' xs zs zs' y l.2 out.1 out' l'),
    )

-- A part of the list from its middle on.
pub Linked-rest :
    (ps : List Process) (o : Option ℕ) (xs zs : List ℕ) (y : ℕ)
    → Linked ps o (xs ++ y ∷ zs)
    → (y < length ps) × Linked ps (at ps y).next zs
Linked-rest ps o [] zs y l = (l.1, l.2)
Linked-rest ps o (x ∷ xs) zs y l = Linked-rest ps (at ps x).next xs zs y l.2

-- The slots behind and before a member are others.
pub Distinct-split :
    (xs zs : List ℕ) (y : ℕ)
    → Distinct (xs ++ y ∷ zs)
    → NotIn y xs × NotIn y zs × Distinct (xs ++ zs)
Distinct-split [] zs y d = (tt, d.0, d.1)
Distinct-split (x ∷ xs) zs y d =
    let (out, out', rest) = Distinct-split xs zs y d.1 in
    ((λ e. member x xs zs y d.0 (sym e), out), out', (omit x xs zs y d.0, rest))
  where
    member : (x : ℕ) (xs zs : List ℕ) (y : ℕ) → NotIn x (xs ++ y ∷ zs) → x ≢ y
    member x [] zs y h = h.0
    member x (w ∷ xs) zs y h = member x xs zs y h.1

    omit : (x : ℕ) (xs zs : List ℕ) (y : ℕ) → NotIn x (xs ++ y ∷ zs) → NotIn x (xs ++ zs)
    omit x [] zs y h = h.1
    omit x (w ∷ xs) zs y h = (h.0, omit x xs zs y h.1)

-- `n` taken out of a list.
without : ℕ → List ℕ → List ℕ
without n [] = []
without n (x ∷ xs) = if x == n then without n xs else x ∷ without n xs

NotIn-without : (a n : ℕ) (xs : List ℕ) → NotIn a xs → NotIn a (without n xs)
unfolding without
NotIn-without a n [] h = tt
NotIn-without a n (x ∷ xs) h = elim (Bool-cases (x == n)) [
  | inl e ↦ rw e (NotIn-without a n xs h.1)
  | inr e ↦ rw e (h.0, NotIn-without a n xs h.1)
]

Distinct-without : (n : ℕ) (xs : List ℕ) → Distinct xs → Distinct (without n xs)
unfolding without
Distinct-without n [] d = tt
Distinct-without n (x ∷ xs) d = elim (Bool-cases (x == n)) [
  | inl e ↦ rw e (Distinct-without n xs d.1)
  | inr e ↦ rw e (NotIn-without x n xs d.0, Distinct-without n xs d.1)
]

without_same : (n : ℕ) (xs : List ℕ) → NotIn n xs → length (without n xs) ≡ length xs
unfolding without
without_same n [] h = refl
without_same n (x ∷ xs) h =
    rw (not-==-of-ne x n (λ e. h.0 (sym e))) (ap suc (without_same n xs h.1))

length-without : (n : ℕ) (xs : List ℕ) → Distinct xs → length xs ≤ suc (length (without n xs))
unfolding without
length-without n [] d = omega arith
length-without n (x ∷ xs) d = elim (ℕ_discrete x n) [
  | yes e ↦ rw (e, ==_self n) (omega (arith, without_same n xs (subst (λ k. NotIn k xs) e d.0)))
  | no ne ↦ rw (not-==-of-ne x n ne) (omega (arith, length-without n xs d.1))
]

below-without : (n : ℕ) (xs : List ℕ) → All (λ x. x < suc n) xs → All (λ x. x < n) (without n xs)
unfolding without
below-without n [] h = tt
below-without n (x ∷ xs) h = elim (ℕ_discrete x n) [
  | yes e ↦ rw (e, ==_self n) (below-without n xs h.1)
  | no ne ↦ rw (not-==-of-ne x n ne) (omega arith, below-without n xs h.1)
]

pigeonhole : (n : ℕ) (xs : List ℕ) → Distinct xs → All (λ x. x < n) xs → length xs ≤ n
pigeonhole zero [] d h = omega arith
pigeonhole zero (x ∷ xs) d h = absurd (omega (arith, h.0))
pigeonhole (suc n) xs d h = omega (
  arith,
  length-without n xs d,
  pigeonhole n (without n xs) (Distinct-without n xs d) (below-without n xs h),
)

Linked-below :
    (ps : List Process) (o : Option ℕ) (order : List ℕ)
    → Linked ps o order
    → All (λ i. i < length ps) order
Linked-below ps o [] l = tt
Linked-below ps o (i ∷ is) l = (l.1, Linked-below ps (at ps i).next is l.2)

-- The list is not longer than the table.
pub length-Linked :
    (ps : List Process) (o : Option ℕ) (order : List ℕ)
    → Linked ps o order
    → Distinct order
    → length order ≤ length ps
length-Linked ps o order l d = pigeonhole (length ps) order d (Linked-below ps o order l)
