-- ===== src/Uaccess/Copies.antt =====
-- What a string copied from user memory looks like.
use mathlib.Core.List.{append_assoc}
use nyxis_os.Base.{
  ℕ, zero, suc, ◌+◌, ◌-◌, ◌%◌, ◌^◌, ◌≤◌, ◌<◌, ◌≡◌, ◌≢◌, ◌⊎◌, refl, ◌∙◌, List, [], ◌∷◌, ◌++◌, get_or,
  ltb, ◌==◌, length, length-set, length-append, not-==-of-ne, arith, inl, inr, Bool-cases, Bool,
  true, false,
}
use native.Mathlib.Decide.{ℕ_discrete}
use nyxis_os.Base.Members.{All}
use nyxis_os.Base.Status.{
  Error, Result, ok, err, not_initialized, invalid_arg, invalid_pointer, path_too_long,
}
use nyxis_os.Uaccess.{
  User, copy_from_user, after_byte, string_from, copy_string_from_user, copy_to_user, all_stored,
}

-- With `n` bytes of room behind `done`: the call succeeds with a string that ends with its only NUL
-- and fits, or it fails and has not written more than the room.
abbrev pub Copied : ℕ → List ℕ → Result (Unit {0}) × List ℕ → Type 0
Copied n done r =
    ((text : List ℕ) × (r.0 ≡ ok tt)
      × (r.1 ≡ done ++ (text ++ 0 ∷ []))
      × All (λ c. c ≢ 0) text
      × (length text < n))
    ⊎ ((e : Error) × (r.0 ≡ err e) × (length r.1 ≤ length done + n))

module _ {M : Type 0} (u : User M) where
  after_byte-Copied :
      (n : ℕ) (done : List ℕ) (next : List ℕ → Result (Unit {0}) × List ℕ) (r : Result (List ℕ))
      → ((more : List ℕ) → Copied n more (next more))
      → Copied (suc n) done (after_byte u done next r)
  unfolding after_byte
  after_byte-Copied n done next (err e) h = inr (e, refl, omega arith)
  after_byte-Copied n done next (ok bytes) h =
      let c = get_or bytes 0 0 in
      elim (ℕ_discrete c 0) [
        | yes z ↦ rw z (inl ([], refl, refl, tt, omega arith))
        | no nz ↦ rw (not-==-of-ne c 0 nz) (elim (h (done ++ c ∷ [])) [
          | inl (text, good, shape, plain, lt) ↦ inl (
            c ∷ text,
            good,
            shape ∙ append_assoc done (c ∷ []) (text ++ 0 ∷ []),
            (nz, plain),
            omega arith,
          )
          | inr (e, bad, le) ↦ inr (e, bad, omega (arith, le, length-append done (c ∷ [])))
        ])
      ]

  string_from-Copied :
      (n i user_src : ℕ) (mem : M) (done : List ℕ)
      → Copied n done (string_from u n i user_src mem done)
  unfolding string_from
  string_from-Copied zero i user_src mem done =
      inr (path_too_long, refl, omega (arith, length-set done (length done - 1) 0))
  string_from-Copied (suc n) i user_src mem done =
      elim (Bool-cases (ltb ((user_src + i) % 2 ^ 64) user_src)) [
        | inl e ↦ rw e (inr (invalid_pointer, refl, omega arith))
        | inr e ↦ rw e (
            after_byte-Copied n done (string_from u n (i + 1) user_src mem)
              (copy_from_user u ((user_src + i) % 2 ^ 64) 1 mem)
              (λ more. string_from-Copied n (i + 1) user_src mem more))
      ]

  -- A string is copied with its NUL and no byte behind it, and fits the buffer; a failed copy has
  -- not written past the buffer either.
  pub copy_string_from_user-Copied :
      (user_src max : ℕ) (mem : M) → Copied max [] (copy_string_from_user u user_src max mem)
  unfolding copy_string_from_user
  copy_string_from_user-Copied user_src max mem = elim (Bool-cases (max == 0)) [
    | inl e ↦ rw e (inr (invalid_arg, refl, omega arith))
    | inr e ↦ rw e (elim (Bool-cases (user_src == 0)) [
      | inl z ↦ rw z (inr (invalid_pointer, refl, omega arith))
      | inr z ↦ rw z (string_from-Copied max 0 user_src mem [])
    ])
  ]

-- What a copy of some bytes to user memory comes to: a store of them, or an error that leaves the memory.
pub copy_to_user-cases :
    {M : Type 0} (u : User M) (addr : ℕ) (bytes : List ℕ) (mem : M)
    → 0 < length bytes
    → (copy_to_user u addr bytes mem ≡ all_stored (u.store addr bytes mem))
      ⊎ ((e : Error) × (copy_to_user u addr bytes mem ≡ (err e, mem)))
unfolding copy_to_user
copy_to_user-cases u addr bytes mem h =
    let some_bytes : (length bytes == 0) ≡ false = ground arith in
    elim (Bool-cases u.has_process) [
      | inr no_process ↦ inr (not_initialized, rw (copy_to_user, some_bytes, no_process) refl)
      | inl process ↦ elim (Bool-cases (u.is_user_range addr (length bytes) true)) [
        | inr outside ↦ inr (invalid_pointer, rw (copy_to_user, some_bytes, process, outside) refl)
        | inl inside ↦ inl (rw (copy_to_user, some_bytes, process, inside) refl)
      ]
    ]

pub all_stored_ok : {M : Type 0} (r : Bool × M) → (all_stored r).0 ≡ ok tt → r.0 ≡ true
unfolding all_stored
all_stored_ok (true, mem) h = refl
all_stored_ok (false, mem) h = absurd (cc)

pub all_stored_mem : {M : Type 0} (r : Bool × M) → (all_stored r).1 ≡ r.1
unfolding all_stored
all_stored_mem (true, mem) = refl
all_stored_mem (false, mem) = refl
