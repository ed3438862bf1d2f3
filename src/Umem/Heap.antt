-- ===== src/Umem/Heap.antt =====
-- The bounds of the heap under `umem_brk`.
use nyxis_os.Base.{
  ℕ, zero, suc, ◌+◌, ◌-◌, ◌/◌, ◌%◌, ◌^◌, ◌≤◌, ◌<◌, ◌≡◌, ◌⊎◌, refl, false, ltb, leb, ◌==◌, arith,
  inl, inr, Bool-cases,
}
use nyxis_os.Base.Words.{align_up, page_size}
use nyxis_os.Base.Status.{Error, Result, ok, err, invalid_arg, permission, out_of_memory}
use nyxis_os.Process.{Process}
use nyxis_os.Umem.{
  ℤ, pos, negsuc, Pages, grow_max, heap_max, stack_guard, rollback_pages, set_brk, grow, shrink,
  brk_by, umem_brk,
}

-- The heap starts below its end, is not too large and ends below the guard page of the stack.
pub record IsHeap (p : Process) : Type 0 where
  pub ordered : p.heap_start ≤ p.heap_brk
  pub small : p.heap_brk ≤ p.heap_start + heap_max
  pub below_stack : p.heap_brk < stack_guard

-- `b` is `old` plus the increment.
abbrev pub Moved : ℕ → ℤ → ℕ → Type 0
Moved old (pos n) b = b ≡ old + n
Moved old (negsuc n) b = b + n + 1 ≡ old

-- The call fails and leaves the process, or moves the brk by the increment, inside the bounds.
abbrev pub BrkOutcome : {S : Type 0} → Process → ℤ → Result ℕ × Process × S → Type 0
BrkOutcome p increment r =
    ((e : Error) × (r.0 ≡ err e) × (r.1 ≡ p))
    ⊎ ((b : ℕ) × (r.0 ≡ ok b)
        × (r.1 ≡ record p { heap_brk = b })
        × Moved p.heap_brk increment b
        × IsHeap (record p { heap_brk = b }))

le-of-ltb : (a b : ℕ) → ltb a b ≡ false → b ≤ a
le-of-ltb a b h = ground arith

lt-of-leb : (a b : ℕ) → leb a b ≡ false → b < a
lt-of-leb a b h = ground arith

-- The tests of the growth leave no wrap.
grown :
    (start brk n : ℕ)
    → start ≤ brk
    → brk < stack_guard
    → n ≤ grow_max
    → ((brk + n) % 2 ^ 64 ≡ brk + n)
      × (((brk + n) % 2 ^ 64 + 2 ^ 64 - start) % 2 ^ 64 ≡ brk + n - start)
grown start brk n ordered below small = (omega arith, omega arith)

shrunk :
    (start brk n : ℕ)
    → start ≤ brk
    → brk < stack_guard
    → (((brk + 2 ^ 64 - start) % 2 ^ 64) ≡ brk - start)
      × (n + 1 ≤ brk - start → (brk + 2 ^ 64 - (n + 1)) % 2 ^ 64 + n + 1 ≡ brk)
shrunk start brk n ordered below = (omega arith, λ h. omega arith)

module _ {S : Type 0} (m : Pages S) (p : Process) (heap : IsHeap p) where
  set_brk-BrkOutcome :
      (increment : ℤ) (b : ℕ) (r : Result (Unit {0}) × S)
      → Moved p.heap_brk increment b
      → IsHeap (record p { heap_brk = b })
      → BrkOutcome p increment (set_brk m p b r)
  unfolding set_brk
  set_brk-BrkOutcome increment b (ok u, s) moved fits = inr (b, refl, refl, moved, fits)
  set_brk-BrkOutcome increment b (err e, s) moved fits = inl (e, refl, refl)

  grow-BrkOutcome : (n : ℕ) (s : S) → BrkOutcome p (pos n) (grow m p n s)
  unfolding grow
  grow-BrkOutcome n s =
      let new_brk = (p.heap_brk + n) % 2 ^ 64 in
      elim (Bool-cases (ltb grow_max n)) [
        | inl a ↦ rw a (inl (invalid_arg, refl, refl))
        | inr a ↦
            rw a (elim (Bool-cases (ltb heap_max ((new_brk + 2 ^ 64 - p.heap_start) % 2 ^ 64))) [
              | inl b ↦ rw b (inl (out_of_memory, refl, refl))
              | inr b ↦ rw b (elim (Bool-cases (leb stack_guard new_brk)) [
                | inl c ↦ rw c (inl (out_of_memory, refl, refl))
                | inr c ↦
                    let (whole, total) =
                      grown p.heap_start p.heap_brk n heap.ordered heap.below_stack
                        (le-of-ltb grow_max n a) in
                    let room = le-of-ltb heap_max ((new_brk + 2 ^ 64 - p.heap_start) % 2 ^ 64) b in
                    let below = lt-of-leb stack_guard new_brk c in
                    let start_le : p.heap_start ≤ new_brk = omega (arith, whole, heap.ordered) in
                    let small : new_brk ≤ p.heap_start + heap_max =
                      omega (arith, whole, total, room) in
                    rw c (
                      set_brk-BrkOutcome (pos n) new_brk _ whole
                        (record { ordered = start_le; small = small; below_stack = below }))
              ])
            ])
      ]

  shrink-BrkOutcome : (n : ℕ) (s : S) → BrkOutcome p (negsuc n) (shrink m p (n + 1) s)
  unfolding shrink
  shrink-BrkOutcome n s =
      let new_brk = (p.heap_brk + 2 ^ 64 - (n + 1)) % 2 ^ 64 in
      let (size, moves) = shrunk p.heap_start p.heap_brk n heap.ordered heap.below_stack in
      elim (Bool-cases (ltb ((p.heap_brk + 2 ^ 64 - p.heap_start) % 2 ^ 64) (n + 1))) [
        | inl a ↦ rw a (inl (invalid_arg, refl, refl))
        | inr a ↦
            let room = le-of-ltb ((p.heap_brk + 2 ^ 64 - p.heap_start) % 2 ^ 64) (n + 1) a in
            let fits : n + 1 ≤ p.heap_brk - p.heap_start = omega (arith, size, room) in
            let moved = moves fits in
            let start_le : p.heap_start ≤ new_brk = omega (arith, moved, fits, heap.ordered) in
            let small : new_brk ≤ p.heap_start + heap_max = omega (arith, moved, heap.small) in
            let below : new_brk < stack_guard = omega (arith, moved, heap.below_stack) in
            rw a (
              set_brk-BrkOutcome (negsuc n) new_brk
                (
                  ok tt,
                  rollback_pages m (align_up p.heap_brk page_size / page_size)
                      (align_up new_brk page_size) (align_up p.heap_brk page_size) s,
                )
                moved (record { ordered = start_le; small = small; below_stack = below }))
      ]

  brk_by-BrkOutcome : (increment : ℤ) (s : S) → BrkOutcome p increment (brk_by m p increment s)
  unfolding brk_by
  brk_by-BrkOutcome (pos zero) s = inr (p.heap_brk, refl, refl, omega arith, heap)
  brk_by-BrkOutcome (pos (suc n)) s = grow-BrkOutcome (suc n) s
  brk_by-BrkOutcome (negsuc n) s = elim (Bool-cases (n == 2 ^ 63 - 1)) [
    | inl e ↦ rw e (inl (invalid_arg, refl, refl))
    | inr e ↦ rw e (shrink-BrkOutcome n s)
  ]

  -- `umem_brk` either fails and leaves the process as it was, or moves the brk by exactly the
  -- increment, without a wrap; and the heap stays above its start, within its maximal size and below
  -- the guard page of the stack.
  pub umem_brk-BrkOutcome :
      (increment : ℤ) (s : S) → BrkOutcome p increment (umem_brk m p increment s)
  unfolding umem_brk
  umem_brk-BrkOutcome increment s = elim (Bool-cases (p.pml4 == 0)) [
    | inl e ↦ rw e (inl (permission, refl, refl))
    | inr e ↦ rw e (brk_by-BrkOutcome increment s)
  ]
