-- ===== src/Process/Invariant.antt =====
-- The invariant of the process table, and reaping under it.
use native.Mathlib.Decide.{ℕ_discrete}
use nyxis_os.Base.{
  ℕ, ◌≡◌, ◌≢◌, ◌⊎◌, refl, ap, subst, sym, ◌∙◌, true, false, Option, some, List, [], ◌∷◌, ==_self,
  arith, inl, inr, length, Bool-cases,
}
use nyxis_os.Base.Members.{All, In, NotIn}
use nyxis_os.Process.{Process, ready, running, World, Machine, at, blank_process, process_max}
use nyxis_os.Process.Life.{is_dead, process_reap}
use nyxis_os.Process.Queue.{Linked, Distinct}
use nyxis_os.Process.Taking.{Same, kept, reaped, reaped-sub}
use nyxis_os.Process.Reaping.{process_reap_lem}

pub record WellFormed {Env : Type 0} (w : World Env) (order : List ℕ) : Type 0 where
  pub linked : Linked w.procs w.head order
  pub distinct : Distinct order
  pub used : All (λ i. (at w.procs i).in_use ≡ true) order
  pub unused : (i : ℕ) → NotIn i order → (at w.procs i).in_use ≡ false
  pub idle : (at w.procs 0).pid ≡ 0
  pub first : (rest : List ℕ) × (order ≡ 0 ∷ rest)
  pub runs : (c : ℕ) × (w.current ≡ some c) × In c order
  pub alone : (i : ℕ) → (at w.procs i).state ≡ running → w.current ≡ some i
  pub size : length w.procs ≡ process_max

pub In-cases : (a : ℕ) (xs : List ℕ) → In a xs ⊎ NotIn a xs
In-cases a [] = inr tt
In-cases a (x ∷ xs) = elim (ℕ_discrete a x) [
  | yes e ↦ inl (inl e)
  | no ne ↦ elim (In-cases a xs) [ inl h ↦ inl (inr h) | inr h ↦ inr (ne, h) ]
]

pub All-In {κ} : (P : ℕ → Type κ) (a : ℕ) (xs : List ℕ) → All P xs → In a xs → P a
All-In P a [] h i = absurd i
All-In P a (x ∷ xs) h (inl e) = subst P (sym e) h.0
All-In P a (x ∷ xs) h (inr i) = All-In P a xs h.1 i

pub NotIn-In : (a : ℕ) (xs : List ℕ) → NotIn a xs → In a xs → ⊥
NotIn-In a xs h i = All-In (λ x. a ≢ x) a xs h i refl

module _ (current : Option ℕ) (ps : List Process) where
  pub kept-sub {κ} : (P : ℕ → Type κ) (is : List ℕ) → All P is → All P (kept current ps is)
  kept-sub P [] h = tt
  kept-sub P (i ∷ is) h = elim (Bool-cases (is_dead current i (at ps i))) [
    | inl e ↦ rw e (kept-sub P is h.1)
    | inr e ↦ rw e (h.0, kept-sub P is h.1)
  ]

  pub Distinct-kept : (is : List ℕ) → Distinct is → Distinct (kept current ps is)
  Distinct-kept [] d = tt
  Distinct-kept (i ∷ is) d = elim (Bool-cases (is_dead current i (at ps i))) [
    | inl e ↦ rw e (Distinct-kept is d.1)
    | inr e ↦ rw e (kept-sub (λ j. i ≢ j) is d.0, Distinct-kept is d.1)
  ]

  -- A process that stays is not reaped.
  kept-NotIn :
      (is : List ℕ) → Distinct is → All (λ i. NotIn i (reaped current ps is)) (kept current ps is)
  kept-NotIn [] d = tt
  kept-NotIn (i ∷ is) d = elim (Bool-cases (is_dead current i (at ps i))) [
    | inl e ↦ rw e (add (kept current ps is) (kept-sub (λ j. i ≢ j) is d.0) (kept-NotIn is d.1))
    | inr e ↦ rw e (reaped-sub (λ j. i ≢ j) current ps is d.0, kept-NotIn is d.1)
  ]
    where
      add :
          (js : List ℕ)
          → NotIn i js
          → All (λ j. NotIn j (reaped current ps is)) js
          → All (λ j. NotIn j (i ∷ reaped current ps is)) js
      add [] h k = tt
      add (j ∷ js) h k = (((λ e. h.0 (sym e)), k.0), add js h.1 k.1)

  -- Each process stays or is reaped.
  either_way :
      (a : ℕ) (is : List ℕ)
      → NotIn a (kept current ps is)
      → NotIn a (reaped current ps is)
      → NotIn a is
  either_way a [] h k = tt
  either_way a (i ∷ is) h k = elim (Bool-cases (is_dead current i (at ps i))) [
    | inl e ↦ let k' = (rw e at k) in (k'.0, either_way a is (rw e at h) k'.1)
    | inr e ↦ let h' = (rw e at h) in (h'.0, either_way a is h'.1 (rw e at k))
  ]

  -- A process that is not dead stays.
  stays-In :
      (a : ℕ) (is : List ℕ)
      → is_dead current a (at ps a) ≡ false
      → In a is
      → In a (kept current ps is)
  stays-In a [] e h = absurd h
  stays-In a (i ∷ is) e (inl same) =
      rw (subst (λ k. is_dead current k (at ps k) ≡ false) same e) (inl same)
  stays-In a (i ∷ is) e (inr h) = elim (Bool-cases (is_dead current i (at ps i))) [
    | inl d ↦ rw d (stays-In a is e h)
    | inr d ↦ rw d (inr (stays-In a is e h))
  ]

All-both {κ μ ν} :
    {P : ℕ → Type κ} {Q : ℕ → Type μ} {R : ℕ → Type ν} (xs : List ℕ)
    → ((a : ℕ) → P a → Q a → R a)
    → All P xs
    → All Q xs
    → All R xs
All-both [] f h k = tt
All-both (x ∷ xs) f h k = (f x h.0 k.0, All-both xs f h.1 k.1)

idle_stays : (current : Option ℕ) (i : ℕ) (p : Process) → p.pid ≡ 0 → is_dead current i p ≡ false
unfolding is_dead
idle_stays current i p e = ground arith

current_stays : (i : ℕ) (p : Process) → is_dead (some i) i p ≡ false
unfolding is_dead
current_stays i p = ground (arith, ==_self i)

pub not_running : running ≢ ready
not_running e = cc

-- Reaping keeps the invariant, for the processes that stay.
pub process_reap-WellFormed :
    {Env : Type 0} (m : Machine Env) (w : World Env) (order : List ℕ)
    → WellFormed w order
    → WellFormed (process_reap m w) (kept w.current w.procs order)
process_reap-WellFormed m w order f =
    let r = process_reap_lem m w order f.linked f.distinct in
    let w' = process_reap m w in
    let (rest, shape) = f.first in
    let (c, now, in_order) = f.runs in
    let stay = kept-NotIn w.current w.procs order f.distinct in
    let zero_in =
      stays-In w.current w.procs 0 order (idle_stays w.current 0 (at w.procs 0) f.idle)
        (subst (In 0) (sym shape) (inl refl)) in
    record {
      linked = r.linked;
      distinct = Distinct-kept w.current w.procs order f.distinct;
      used =
          All-both (kept w.current w.procs order)
            (λ i u out. ap (λ (p : Process). p.in_use) (r.stays i out) ∙ u)
            (kept-sub w.current w.procs (λ i. (at w.procs i).in_use ≡ true) order f.used) stay;
      unused = λ i out. elim (In-cases i (reaped w.current w.procs order)) [
        | inl h ↦
            ap (λ (p : Process). p.in_use)
              (All-In (λ j. Same (at w'.procs j) blank_process) i _ r.cleared h)
        | inr h ↦
            ap (λ (p : Process). p.in_use) (r.stays i h)
            ∙ f.unused i (either_way w.current w.procs i order out h)
      ];
      idle = ap (λ (p : Process). p.pid) (r.stays 0 (All-In _ 0 _ stay zero_in)) ∙ f.idle;
      first = (
        kept w.current w.procs rest,
        ap (kept w.current w.procs) shape ∙ rw (idle_stays w.current 0 (at w.procs 0) f.idle) refl,
      );
      runs = (
        c,
        r.same_current ∙ now,
        stays-In w.current w.procs c order
            (subst (λ o. is_dead o c (at w.procs c) ≡ false) (sym now)
              (current_stays c (at w.procs c)))
            in_order,
      );
      alone = λ i h. elim (In-cases i (reaped w.current w.procs order)) [
        | inl dead ↦ absurd (
            not_running (
              sym h
              ∙ ap (λ (p : Process). p.state)
                  (All-In (λ j. Same (at w'.procs j) blank_process) i _ r.cleared dead)))
        | inr out ↦
            r.same_current ∙ f.alone i (sym (ap (λ (p : Process). p.state) (r.stays i out)) ∙ h)
      ];
      size = r.same_size ∙ f.size;
    }
