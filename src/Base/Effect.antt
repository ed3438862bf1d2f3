-- ===== src/Base/Effect.antt =====
-- Calls that change a state `S` and return a status: with `ok`, results that go through pointers.
-- A failed call has changed the state as well, so its state is kept beside its code.
use nyxis_os.Base.Status.{Error, Result, ok, err}
use nyxis_os.Base.Tests.{if◌then◌else◌}
use mathlib.Core.Bool.{Bool, true, false}
use mathlib.Core.Path.{◌≡◌, refl}

abbrev pub Eff : Type 0 → Type 0 → Type 0
Eff S A = S → Result A × S

abbrev pub after : {S A B : Type 0} → Result A × S → (A → Eff S B) → Result B × S
after (ok a, s) next = next a s
after (err e, s) next = (err e, s)

infixl 5 ◌>>=◌ ◌>>◌
abbrev pub ◌>>=◌ : {S A B : Type 0} → Eff S A → (A → Eff S B) → Eff S B
◌>>=◌ call next s = after (call s) next

abbrev pub ◌>>◌ : {S B : Type 0} → Eff S (Unit {0}) → Eff S B → Eff S B
◌>>◌ call next s = after (call s) (λ _. next)

abbrev pub return : {S A : Type 0} → A → Eff S A
return a s = (ok a, s)

-- `status`, from a computation that leaves the state.
abbrev pub lift : {S A : Type 0} → Result A → Eff S A
lift r s = (r, s)

-- An early return, where a test holds.
abbrev pub fail_if : {S : Type 0} → Bool → Error → Eff S (Unit {0})
fail_if b e s = if b then (err e, s) else (ok tt, s)

-- A call that does not fail.
abbrev pub modify : {S : Type 0} → (S → S) → Eff S (Unit {0})
modify f s = (ok tt, f s)

-- The cleaning up before an error is handed on.
abbrev pub undone : {S A : Type 0} → (S → S) → Result A × S → Result A × S
undone clean (ok a, s) = (ok a, s)
undone clean (err e, s) = (err e, clean s)

abbrev pub on_error : {S A : Type 0} → (S → S) → Eff S A → Eff S A
on_error clean call s = undone clean (call s)

-- What follows a call whatever its status.
abbrev pub finally : {S A : Type 0} → (S → S) → Eff S A → Eff S A
finally f call s = let r = call s in (r.0, f r.1)

-- Where a chain succeeds its first call has succeeded, and the rest from the state that it left.
pub after-eq-ok :
    {S A B : Type 0} (r : Result A × S) (next : A → Eff S B) {b : B} {t : S}
    → after r next ≡ (ok b, t)
    → (a : A) × (r ≡ (ok a, r.1)) × (next a r.1 ≡ (ok b, t))
after-eq-ok (ok a, s) next h = (a, refl, h)
after-eq-ok (err e, s) next h = absurd (cc)

pub undone-eq-ok :
    {S A : Type 0} (clean : S → S) (r : Result A × S) {a : A} {t : S}
    → undone clean r ≡ (ok a, t)
    → r ≡ (ok a, t)
undone-eq-ok clean (ok a, s) h = h
undone-eq-ok clean (err e, s) h = absurd (cc)

-- Behind an early return that was not taken.
pub fail_if-eq-ok :
    {S A : Type 0} (b : Bool) (e : Error) (s : S) (next : Unit {0} → Eff S A) {a : A} {t : S}
    → after (fail_if b e s) next ≡ (ok a, t)
    → (b ≡ false) × (next tt s ≡ (ok a, t))
fail_if-eq-ok true e s next h = absurd (cc)
fail_if-eq-ok false e s next h = (refl, h)
