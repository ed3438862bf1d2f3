-- ===== src/Vfs/Namespaces.antt =====
-- Namespace names in front of paths, as parse_namespace_path of drivers/filesystem/vfs.c reads them.
use mathlib.Core.List.{append_assoc}
use nyxis_os.Base.Found.{none_or_some}
use nyxis_os.Base.{
  ℕ, zero, suc, ◌+◌, ◌≤◌, ◌<◌, ◌≡◌, refl, ap, sym, ◌∙◌, subst, inl, inr, Bool, true, false, ◌&&◌,
  Option, none, some, List, [], ◌∷◌, ◌++◌, ◌==◌, if◌then◌else◌, length, length-append, Bool-cases,
  Option-cases, not-leb-of-lt, arith,
}
use nyxis_os.Base.Members.{unsome}
use nyxis_os.Base.Status.{ok}
use nyxis_os.Vfs.Path.{
  is_slash, at_colon, add_part, too_long, starts_local, namespace_loop, parse_namespace_path,
}

-- Whether a slash follows a colon, so that the namespace would end there.
unfoldable pub has_local : List ℕ → Bool
has_local [] = false
has_local (c ∷ cs) = if c == b':' && starts_local cs then true else has_local cs

some_or_none : {A : Type 0} {a : A} → some a ≡ none → ⊥
some_or_none e = cc

true_or_false : true ≡ false → ⊥
true_or_false e = cc

both :
    {A : Type 0} {a b c d : A}
    → ◌≡◌ {A = Option (A × A)} (some (a, b)) (some (c, d))
    → (a ≡ c) × (b ≡ d)
both e = (ap (λ r. r.0) (unsome e), ap (λ r. r.1) (unsome e))

eq_of : (a b : ℕ) → (a == b) ≡ true → a ≡ b
eq_of a b h = ground arith

not_colon : (c : ℕ) → c ≡ b':' → (c == b':') ≡ false → ⊥
not_colon c e h = ground arith

abbrev head_or : List ℕ → ℕ
head_or [] = 0
head_or (c ∷ cs) = c

at_colon-none : (q r : List ℕ) → at_colon q ≡ none → at_colon (q ++ b':' ∷ r) ≡ some (q, r)
unfolding at_colon
at_colon-none [] r h = refl
at_colon-none (c ∷ q) r h = elim (Bool-cases (c == b':')) [
  | inl is ↦ absurd (some_or_none (rw (at_colon, is) at h))
  | inr other ↦ elim (Option-cases (at_colon q)) [
    | inl out ↦ rw (other, at_colon-none q r out) refl
    | inr (r', has) ↦ absurd (some_or_none (rw (at_colon, other, has) at h))
  ]
]

at_colon-some :
    (q x q1 q2 : List ℕ)
    → at_colon q ≡ some (q1, q2)
    → (at_colon (q ++ x) ≡ some (q1, q2 ++ x)) × (q ≡ q1 ++ b':' ∷ q2)
unfolding at_colon
at_colon-some [] x q1 q2 h = absurd (cc)
at_colon-some (c ∷ q) x q1 q2 h = elim (Bool-cases (c == b':')) [
  | inl is ↦
      let parts = both (rw (at_colon, is) at h) in
      (
        rw is (ap (λ p. some (p, q ++ x)) parts.0 ∙ ap (λ p. some (q1, p ++ x)) parts.1),
        ap (λ k. k ∷ q) (eq_of c b':' is)
            ∙ ap (λ p. b':' ∷ p) parts.1
            ∙ ap (λ p. p ++ b':' ∷ q2) parts.0,
      )
  | inr other ↦ elim (Option-cases (at_colon q)) [
    | inl out ↦ absurd (none_or_some (rw (at_colon, other, out) at h))
    | inr ((r1, r2), has) ↦
        let parts = both (rw (at_colon, other, has) at h) in
        let ih = at_colon-some q x r1 r2 has in
        (
          rw (other, ih.0)
              (ap (λ p. some (p, r2 ++ x)) parts.0 ∙ ap (λ p. some (q1, p ++ x)) parts.1),
          ap (λ p. c ∷ p) ih.1
              ∙ ap (λ p. (c ∷ r1) ++ b':' ∷ p) parts.1
              ∙ ap (λ p. p ++ b':' ∷ q2) parts.0,
        )
  ]
]

no_local :
    (q1 q2 : List ℕ)
    → has_local (q1 ++ b':' ∷ q2) ≡ false
    → (starts_local q2 ≡ false) × (has_local q2 ≡ false)
unfolding has_local
no_local [] q2 h = elim (Bool-cases (starts_local q2)) [
  | inl is ↦ absurd (true_or_false (rw is at h))
  | inr other ↦ (other, rw other at h)
]
no_local (c ∷ q1) q2 h = elim (Bool-cases (c == b':' && starts_local (q1 ++ b':' ∷ q2))) [
  | inl is ↦ absurd (true_or_false (rw is at h))
  | inr other ↦ no_local q1 q2 (rw other at h)
]

starts_local-append :
    (q rest : List ℕ) → starts_local q ≡ false → starts_local (q ++ b':' ∷ rest) ≡ false
starts_local-append [] rest h = refl
starts_local-append (c ∷ q) rest h = h

-- The last round and another one, where a part of the name has been read.
loop_last :
    (fuel max : ℕ) (stack path name q rest : List ℕ)
    → at_colon q ≡ none
    → too_long max name q ≡ false
    → namespace_loop (suc fuel) max stack path name (q ++ b':' ∷ b'/' ∷ rest)
      ≡ ok (add_part name q, b'/' ∷ rest)
unfolding namespace_loop
loop_last fuel max stack path name q rest out fits =
    rw (namespace_loop, at_colon-none q (b'/' ∷ rest) out, fits) refl

loop_next :
    (fuel max : ℕ) (stack path name q q1 q2 rest : List ℕ)
    → at_colon q ≡ some (q1, q2)
    → too_long max name q1 ≡ false
    → starts_local q2 ≡ false
    → namespace_loop (suc fuel) max stack path name (q ++ b':' ∷ b'/' ∷ rest)
      ≡ namespace_loop fuel max stack path (add_part name q1) (q2 ++ b':' ∷ b'/' ∷ rest)
unfolding namespace_loop
loop_next fuel max stack path name q q1 q2 rest has fits inner =
    rw
      (
        namespace_loop,
        (at_colon-some q (b':' ∷ b'/' ∷ rest) q1 q2 has).0,
        fits,
        starts_local-append q2 (b'/' ∷ rest) inner,
      )
      refl

namespace_loop_lem :
    (fuel max : ℕ) (stack path : List ℕ) (a : ℕ) (name q rest : List ℕ)
    → length q < fuel
    → length ((a ∷ name) ++ b':' ∷ q) < max
    → has_local q ≡ false
    → namespace_loop fuel max stack path (a ∷ name) (q ++ b':' ∷ b'/' ∷ rest)
      ≡ ok ((a ∷ name) ++ b':' ∷ q, b'/' ∷ rest)
unfolding add_part too_long
namespace_loop_lem zero max stack path a name q rest l fits free = absurd (omega arith)
namespace_loop_lem (suc fuel) max stack path a name q rest l fits free =
    let len = length-append (a ∷ name) (b':' ∷ q) in
    elim (Option-cases (at_colon q)) [
      | inl out ↦
          loop_last fuel max stack path (a ∷ name) q rest out
            (not-leb-of-lt max (length (a ∷ name) + 1 + length q) (omega arith))
      | inr ((q1, q2), has) ↦
          let is = (at_colon-some q [] q1 q2 has).1 in
          let inner = no_local q1 q2 (subst (λ p. has_local p ≡ false) is free) in
          let size : length q ≡ length q1 + suc (length q2) =
            ap (λ p. length p) is ∙ length-append q1 (b':' ∷ q2) in
          let joined : (a ∷ name) ++ b':' ∷ q ≡ ((a ∷ name) ++ b':' ∷ q1) ++ b':' ∷ q2 =
            ap (λ p. (a ∷ name) ++ b':' ∷ p) is
            ∙ sym (append_assoc (a ∷ name) (b':' ∷ q1) (b':' ∷ q2)) in
          loop_next fuel max stack path (a ∷ name) q q1 q2 rest has
            (not-leb-of-lt max (length (a ∷ name) + 1 + length q1) (omega arith)) inner.0
          ∙ namespace_loop_lem fuel max stack path a (name ++ b':' ∷ q1) q2 rest (omega arith)
              (subst (λ p. length p < max) joined fits) inner.1
          ∙ ap (λ p. ok (p, b'/' ∷ rest)) (sym joined)
    ]

-- The first part of the name is not empty.
first_part :
    (fuel max : ℕ) (stack path q q1 q2 rest : List ℕ) (c : ℕ) (cs : List ℕ)
    → q ≡ c ∷ cs
    → (c == b':') ≡ false
    → at_colon q ≡ some (q1, q2)
    → length q ≤ fuel
    → length q < max
    → has_local q ≡ false
    → namespace_loop (suc fuel) max stack path [] (q ++ b':' ∷ b'/' ∷ rest) ≡ ok (q, b'/' ∷ rest)
unfolding add_part too_long
first_part fuel max stack path q [] q2 rest c cs q_is other has l fits free =
    let starts : c ∷ cs ≡ b':' ∷ q2 = sym q_is ∙ (at_colon-some q [] [] q2 has).1 in
    absurd (not_colon c (ap head_or starts) other)
first_part fuel max stack path q (a ∷ q1) q2 rest c cs q_is other has l fits free =
    let is = (at_colon-some q [] (a ∷ q1) q2 has).1 in
    let inner = no_local (a ∷ q1) q2 (subst (λ p. has_local p ≡ false) is free) in
    let size : length q ≡ length (a ∷ q1) + suc (length q2) =
      ap (λ p. length p) is ∙ length-append (a ∷ q1) (b':' ∷ q2) in
    loop_next fuel max stack path [] q (a ∷ q1) q2 rest has
      (not-leb-of-lt max (length (a ∷ q1)) (omega arith)) inner.0
    ∙ namespace_loop_lem fuel max stack path a q1 q2 rest (omega arith)
        (subst (λ p. length p < max) is fits) inner.1
    ∙ ap (λ p. ok (p, b'/' ∷ rest)) (sym is)

name_read :
    (fuel max : ℕ) (stack path : List ℕ) (c : ℕ) (cs rest : List ℕ)
    → (c == b':') ≡ false
    → length (c ∷ cs) ≤ fuel
    → length (c ∷ cs) < max
    → has_local (c ∷ cs) ≡ false
    → namespace_loop (suc fuel) max stack path [] ((c ∷ cs) ++ b':' ∷ b'/' ∷ rest)
      ≡ ok (c ∷ cs, b'/' ∷ rest)
unfolding add_part too_long
name_read fuel max stack path c cs rest other l fits free =
    elim (Option-cases (at_colon (c ∷ cs))) [
      | inl out ↦
          loop_last fuel max stack path [] (c ∷ cs) rest out
            (not-leb-of-lt max (length (c ∷ cs)) (omega arith))
      | inr ((q1, q2), has) ↦
          first_part fuel max stack path (c ∷ cs) q1 q2 rest c cs refl other has l fits free
    ]

-- A name that is put in front of a local path with a colon is read back with that path, whatever the
-- buffer held before: the name is shorter than the buffer, starts with neither a slash nor a colon and
-- has no colon before a slash, but it may have other colons.
pub parse_namespace_path_lem :
    (max : ℕ) (stack : List ℕ) (c : ℕ) (cs rest : List ℕ)
    → is_slash c ≡ false
    → (c == b':') ≡ false
    → has_local (c ∷ cs) ≡ false
    → length (c ∷ cs) < max
    → parse_namespace_path max stack ((c ∷ cs) ++ b':' ∷ b'/' ∷ rest) ≡ ok (c ∷ cs, b'/' ∷ rest)
unfolding parse_namespace_path
parse_namespace_path_lem max stack c cs rest outside other free fits =
    let path = (c ∷ cs) ++ b':' ∷ b'/' ∷ rest in
    let size = length-append cs (b':' ∷ b'/' ∷ rest) in
    rw (parse_namespace_path, outside)
      (name_read (length (cs ++ b':' ∷ b'/' ∷ rest)) max stack path c cs rest other (omega arith)
        fits free)
