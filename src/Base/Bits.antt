-- ===== src/Base/Bits.antt =====
-- What `|`, `&` and masks mean as arithmetic: from the binary digits, for every width.
use Prim.Native.Nat.{
  ℕ, zero, suc, ◌+◌, ◌-◌, ◌*◌, ◌/◌, ◌%◌, ◌^◌, ◌≤◌, ◌<◌, min, max, bit_and, bit_or, digits,
  bit_and-bitwise, bit_or-bitwise,
}
use mathlib.Core.Path.{◌≡◌, refl, ap, sym, ◌∙◌}
use native.Mathlib.Nat.{pow-suc, one-le-pow, div-div-eq-div-mul, div-add-mod}
use native.Mathlib.Omega.{arith}

-- Any two amounts of fuel that cover the number give the same digits.
module _ (rest : ℕ → ℕ) (op : ℕ → ℕ → ℕ) where
  digits_enough : (f g a b : ℕ) → a ≤ f → a ≤ g → digits rest op f a b ≡ digits rest op g a b
  digits_enough f g zero b hf hg = at_zero f g b
    where
      at_zero : (f g b : ℕ) → digits rest op f zero b ≡ digits rest op g zero b
      at_zero zero zero b = refl
      at_zero zero (suc g) b = refl
      at_zero (suc f) zero b = refl
      at_zero (suc f) (suc g) b = refl
  digits_enough zero g (suc a) b hf hg = absurd (omega arith)
  digits_enough (suc f) zero (suc a) b hf hg = absurd (omega arith)
  digits_enough (suc f) (suc g) (suc a) b hf hg =
      ap (λ (k : ℕ). k * 2 + op (suc a % 2) (b % 2))
        (digits_enough f g (suc a / 2) (b / 2) (omega arith) (omega arith))

pub and-digit : (a b : ℕ) → bit_and a b ≡ 2 * bit_and (a / 2) (b / 2) + min (a % 2) (b % 2)
and-digit zero b = omega (arith, bit_and-bitwise 0 b, bit_and-bitwise 0 (b / 2))
and-digit (suc a) b = omega (
  arith,
  bit_and-bitwise (suc a) b,
  bit_and-bitwise (suc a / 2) (b / 2),
  digits_enough (λ _. 0) min a (suc a / 2) (suc a / 2) (b / 2) (omega arith) (omega arith),
)

pub or-digit : (a b : ℕ) → bit_or a b ≡ 2 * bit_or (a / 2) (b / 2) + max (a % 2) (b % 2)
or-digit zero b = omega (arith, bit_or-bitwise 0 b, bit_or-bitwise 0 (b / 2))
or-digit (suc a) b = omega (
  arith,
  bit_or-bitwise (suc a) b,
  bit_or-bitwise (suc a / 2) (b / 2),
  digits_enough (λ y. y) max a (suc a / 2) (suc a / 2) (b / 2) (omega arith) (omega arith),
)

or_zero_below : (n a : ℕ) → a ≤ n → bit_or a 0 ≡ a
or_zero_below n zero h = bit_or-bitwise 0 0
or_zero_below zero (suc a) h = absurd (omega arith)
or_zero_below (suc n) (suc a) h =
    omega (arith, or-digit (suc a) 0, or_zero_below n (suc a / 2) (omega arith))

and_zero_below : (n a : ℕ) → a ≤ n → bit_and a 0 ≡ 0
and_zero_below n zero h = bit_and-bitwise 0 0
and_zero_below zero (suc a) h = absurd (omega arith)
and_zero_below (suc n) (suc a) h =
    omega (arith, and-digit (suc a) 0, and_zero_below n (suc a / 2) (omega arith))

pub bit_and-zero : (a : ℕ) → bit_and a 0 ≡ 0
bit_and-zero a = and_zero_below a a (omega arith)

double-pow : (q k : ℕ) → q * 2 ^ suc k ≡ 2 * (q * 2 ^ k)
double-pow q k = omega (arith, ap (λ (t : ℕ). q * t) (pow-suc 2 k))

pub div-pow-suc : (a k : ℕ) → a / 2 ^ suc k ≡ a / 2 / 2 ^ k
div-pow-suc a k =
    ap (λ (t : ℕ). a / t) (omega (arith, pow-suc 2 k)) ∙ sym (div-div-eq-div-mul a 2 (2 ^ k))

mod-pow-suc : (a k : ℕ) → a % 2 ^ suc k ≡ 2 * (a / 2 % 2 ^ k) + a % 2
mod-pow-suc a k = omega (
  arith,
  div-add-mod a (2 ^ suc k),
  div-add-mod (a / 2) (2 ^ k),
  double-pow (a / 2 ^ suc k) k,
  ap (λ (t : ℕ). t * 2 ^ k) (div-pow-suc a k),
)

-- `(q << k) | r` is a sum where `r` fits the low `k` bits.
pub bit_or-shifted : (k q r : ℕ) → r < 2 ^ k → bit_or (q * 2 ^ k) r ≡ q * 2 ^ k + r
bit_or-shifted zero q r h = ground (arith, or_zero_below q q)
bit_or-shifted (suc k) q r h =
    ground
      (arith, or-digit (q * 2 ^ suc k) r, double-pow q k, pow-suc 2 k, bit_or-shifted k q (r / 2))

-- `a & (q << k)` keeps of `a` what `(a >> k) & q` keeps.
pub bit_and-shifted : (k q a : ℕ) → bit_and a (q * 2 ^ k) ≡ bit_and (a / 2 ^ k) q * 2 ^ k
bit_and-shifted zero q a = ground arith
bit_and-shifted (suc k) q a = ground (
  arith,
  and-digit a (q * 2 ^ suc k),
  double-pow q k,
  double-pow (bit_and (a / 2 ^ suc k) q) k,
  pow-suc 2 k,
  bit_and-shifted k q (a / 2),
  ap (λ (t : ℕ). bit_and t q) (div-pow-suc a k),
)

-- A mask of `k` ones is the remainder by `2 ^ k`.
pub bit_and-ones : (k a : ℕ) → bit_and a (2 ^ k - 1) ≡ a % 2 ^ k
bit_and-ones zero a = ground (arith, bit_and-zero a)
bit_and-ones (suc k) a = ground (
  arith,
  and-digit a (2 ^ suc k - 1),
  pow-suc 2 k,
  one-le-pow k 2,
  bit_and-ones k (a / 2),
  mod-pow-suc a k,
)

-- What is kept by two masks is kept by each.
subset_below :
    (n a m r : ℕ) → r ≤ n → bit_and (bit_and a m) r ≡ r → (bit_and a r ≡ r) × (bit_and m r ≡ r)
subset_below n a m zero h e = (bit_and-zero a, bit_and-zero m)
subset_below zero a m (suc r) h e = absurd (omega arith)
subset_below (suc n) a m (suc r) h e =
    let inner = and-digit a m in
    let half : bit_and a m / 2 ≡ bit_and (a / 2) (m / 2) = omega (arith, inner) in
    let outer = and-digit (bit_and a m) (suc r) in
    let tops = ap (λ t. bit_and t (suc r / 2)) half in
    let rest : bit_and (bit_and (a / 2) (m / 2)) (suc r / 2) ≡ suc r / 2 =
      omega (arith, outer, tops, e) in
    let (l, k) = subset_below n (a / 2) (m / 2) (suc r / 2) (omega arith) rest in
    (
      omega (arith, and-digit a (suc r), inner, outer, tops, e, l),
      omega (arith, and-digit m (suc r), inner, outer, tops, e, k),
    )

pub bit_and-subset :
    (a m r : ℕ) → bit_and (bit_and a m) r ≡ r → (bit_and a r ≡ r) × (bit_and m r ≡ r)
bit_and-subset a m r e = subset_below r a m r (omega arith) e
