-- ===== src/Base/Found.antt =====
-- Steps that searches with a running index share, and cases that cannot be.
use Prim.Native.Nat.{ℕ, suc, ◌+◌}
use mathlib.Core.Path.{◌≡◌}
use mathlib.Core.Bool.{true, false}
use mathlib.Core.Option.{none, some}
use native.Mathlib.Omega.{arith}

pub zero_plus : (k : ℕ) → 0 + k ≡ k
zero_plus k = omega arith

pub plus_zero : (k : ℕ) → k ≡ k + 0
plus_zero k = omega arith

pub plus_suc : (k i : ℕ) → k + 1 + i ≡ k + suc i
plus_suc k i = omega arith

pub false_or_true : false ≡ true → ⊥
false_or_true e = cc

pub none_or_some {ℓ} : {A : Type ℓ} {a : A} → none ≡ some a → ⊥
none_or_some e = cc
