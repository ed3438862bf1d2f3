-- ===== src/Base/Steady.antt =====
-- What a call makes sure of: one predicate on the state where it succeeds and one where it fails.
use nyxis_os.Base.Status.{Error, Result, ok, err}
use nyxis_os.Base.Effect.{
  Eff, after, ◌>>=◌, ◌>>◌, return, lift, fail_if, modify, undone, on_error, finally,
}
use nyxis_os.Base.Tests.{if◌then◌else◌}
use mathlib.Core.Bool.{Bool, true, false}

-- `Q` where the call has succeeded, `R` where it has failed.
abbrev pub Outcome : {S A : Type 0} → (S → Type 0) → (S → Type 0) → Result A × S → Type 0
Outcome Q R (ok a, t) = Q t
Outcome Q R (err e, t) = R t

pub same_outcome : {S A : Type 0} (Q : S → Type 0) (r : Result A × S) → Outcome Q Q r → Q r.1
same_outcome Q (ok a, t) h = h
same_outcome Q (err e, t) h = h

-- From a state with `P` the call ends in one with `Q`, or fails and ends in one with `R`.
pub record Ends {S A : Type 0} (P Q R : S → Type 0) (call : Eff S A) : Type 0 where
  pub runs : (s : S) → P s → Outcome Q R (call s)

-- `P` holds at the end as well.
abbrev pub Steady : {S A : Type 0} → (S → Type 0) → Eff S A → Type 0
Steady P call = Ends P P P call

pub Ends-return : {S A : Type 0} {P R : S → Type 0} (a : A) → Ends P P R (return a)
Ends-return a = record { runs = λ s h. h }

pub Ends-lift : {S A : Type 0} {P : S → Type 0} (r : Result A) → Ends P P P (lift r)
Ends-lift (ok a) = record { runs = λ s h. h }
Ends-lift (err e) = record { runs = λ s h. h }

pub Ends-if :
    {S A : Type 0} {P Q R : S → Type 0} (b : Bool) {x y : Eff S A}
    → Ends P Q R x
    → Ends P Q R y
    → Ends P Q R (if b then x else y)
Ends-if true h k = h
Ends-if false h k = k

pub Ends-fail_if : {S : Type 0} {P : S → Type 0} (b : Bool) (e : Error) → Ends P P P (fail_if b e)
Ends-fail_if true e = record { runs = λ s h. h }
Ends-fail_if false e = record { runs = λ s h. h }

pub Ends-modify :
    {S : Type 0} {P Q R : S → Type 0} (f : S → S)
    → ((s : S) → P s → Q (f s))
    → Ends P Q R (modify f)
Ends-modify f h = record { runs = h }

after_outcome :
    {S A B : Type 0} (Q R T : S → Type 0) (r : Result A × S) (next : A → Eff S B)
    → Outcome Q R r
    → ((a : A) → Ends Q T R (next a))
    → Outcome T R (after r next)
after_outcome Q R T (ok a, t) next h k = (k a).runs t h
after_outcome Q R T (err e, t) next h k = h

undone_outcome :
    {S A : Type 0} (Q R T : S → Type 0) (clean : S → S) (r : Result A × S)
    → Outcome Q R r
    → ((s : S) → R s → T (clean s))
    → Outcome Q T (undone clean r)
undone_outcome Q R T clean (ok a, t) h k = h
undone_outcome Q R T clean (err e, t) h k = k t h

finally_outcome :
    {S A : Type 0} (Q R T U : S → Type 0) (f : S → S) (r : Result A × S)
    → Outcome Q R r
    → ((s : S) → Q s → T (f s))
    → ((s : S) → R s → U (f s))
    → Outcome T U (r.0, f r.1)
finally_outcome Q R T U f (ok a, t) h k l = k t h
finally_outcome Q R T U f (err e, t) h k l = l t h

module _ {S A B : Type 0} {P Q R T : S → Type 0} where
  pub Ends-bind :
      {m : Eff S A} {next : A → Eff S B}
      → Ends P Q R m
      → ((a : A) → Ends Q T R (next a))
      → Ends P T R (m >>= next)
  Ends-bind {m} {next} h k = record { runs = λ s p. after_outcome Q R T (m s) next (h.runs s p) k }

module _ {S A : Type 0} {P Q R T : S → Type 0} where
  pub Ends-on_error :
      (clean : S → S) {m : Eff S A}
      → Ends P Q R m
      → ((s : S) → R s → T (clean s))
      → Ends P Q T (on_error clean m)
  Ends-on_error clean {m} h k = record {
    runs = λ s p. undone_outcome Q R T clean (m s) (h.runs s p) k;
  }

module _ {S A : Type 0} {P Q R T U : S → Type 0} where
  pub Ends-finally :
      (f : S → S) {m : Eff S A}
      → Ends P Q R m
      → ((s : S) → Q s → T (f s))
      → ((s : S) → R s → U (f s))
      → Ends P T U (finally f m)
  Ends-finally f {m} h k l = record {
    runs = λ s p. finally_outcome Q R T U f (m s) (h.runs s p) k l;
  }

module _ {S B : Type 0} {P Q R T : S → Type 0} where
  pub Ends-then :
      {m : Eff S (Unit {0})} {next : Eff S B}
      → Ends P Q R m
      → Ends Q T R next
      → Ends P T R (m >> next)
  Ends-then {m} {next} h k = record {
    runs = λ s p. after_outcome Q R T (m s) (λ _. next) (h.runs s p) (λ _. k);
  }

-- As `Outcome`, where what holds at a success depends on the result.
abbrev pub OutcomeOf : {S A : Type 0} → (A → S → Type 0) → (S → Type 0) → Result A × S → Type 0
OutcomeOf Q R (ok a, t) = Q a t
OutcomeOf Q R (err e, t) = R t

-- From a state with `P` the call gives an `a` and ends in a state with `Q a`, or fails.
pub record Gives {S A : Type 0} (P : S → Type 0) (Q : A → S → Type 0) (R : S → Type 0)
    (call : Eff S A) : Type 0 where
  pub gives : (s : S) → P s → OutcomeOf Q R (call s)

given_after :
    {S A B : Type 0} (Q : A → S → Type 0) (R T : S → Type 0) (r : Result A × S) (next : A → Eff S B)
    → OutcomeOf Q R r
    → ((a : A) → Ends (Q a) T R (next a))
    → Outcome T R (after r next)
given_after Q R T (ok a, t) next h k = (k a).runs t h
given_after Q R T (err e, t) next h k = h

given_undone :
    {S A : Type 0} (Q : A → S → Type 0) (R T : S → Type 0) (clean : S → S) (r : Result A × S)
    → OutcomeOf Q R r
    → ((s : S) → R s → T (clean s))
    → OutcomeOf Q T (undone clean r)
given_undone Q R T clean (ok a, t) h k = h
given_undone Q R T clean (err e, t) h k = k t h

module _ {S A B : Type 0} {P R T : S → Type 0} {Q : A → S → Type 0} where
  pub Gives-bind :
      {m : Eff S A} {next : A → Eff S B}
      → Gives P Q R m
      → ((a : A) → Ends (Q a) T R (next a))
      → Ends P T R (m >>= next)
  Gives-bind {m} {next} h k = record { runs = λ s p. given_after Q R T (m s) next (h.gives s p) k }

module _ {S A : Type 0} {P R T : S → Type 0} {Q : A → S → Type 0} where
  pub Gives-on_error :
      (clean : S → S) {m : Eff S A}
      → Gives P Q R m
      → ((s : S) → R s → T (clean s))
      → Gives P Q T (on_error clean m)
  Gives-on_error clean {m} h k = record {
    gives = λ s p. given_undone Q R T clean (m s) (h.gives s p) k;
  }

module _ {S A B : Type 0} {P Q R : S → Type 0} {T : B → S → Type 0} where
  pub Gives-after :
      {m : Eff S A} {next : A → Eff S B}
      → Ends P Q R m
      → ((a : A) → Gives Q T R (next a))
      → Gives P T R (m >>= next)
  Gives-after {m} {next} h k = record { gives = λ s p. kept (m s) next (h.runs s p) k }
    where
      kept :
          (r : Result A × S) (next : A → Eff S B)
          → Outcome Q R r
          → ((a : A) → Gives Q T R (next a))
          → OutcomeOf T R (after r next)
      kept (ok a, t) next h k = (k a).gives t h
      kept (err e, t) next h k = h
