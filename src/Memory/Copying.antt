-- ===== src/Memory/Copying.antt =====
-- When memcpy copies what stood at the source before the call.
use nyxis_os.Base.{
  ℕ, zero, suc, ◌+◌, ◌-◌, ◌*◌, ◌/◌, ◌%◌, ◌≤◌, ◌≡◌, ◌⊎◌, refl, ap, sym, ◌∙◌, subst, inl, inr, true,
  false, ◌&&◌, ltb, leb, ◌==◌, if◌then◌else◌, bit_and, bit_or, arith, Bool-cases,
}
use nyxis_os.Memory.{Memory, word_size, copy_bytes, copy_word, copy_words, memcpy}

-- The bytes of the old memory at the source stand at the destination, and nothing else has changed.
abbrev pub Moved : ℕ → ℕ → ℕ → Memory → Memory → Type 0
Moved n dest src mem mem' =
    (a : ℕ) → mem' a ≡ (if leb dest a && ltb a (dest + n) then mem (src + (a - dest)) else mem a)

-- The destination does not begin inside the source, behind its first byte.
abbrev pub Safe : ℕ → ℕ → ℕ → Type 0
Safe n dest src = (dest ≤ src) ⊎ (src + n ≤ dest)

not_yet :
    (m n dest src a : ℕ)
    → Safe (m + n) dest src
    → (leb (dest + m) a && ltb a (dest + m + n)) ≡ true
    → (leb dest (src + m + (a - (dest + m))) && ltb (src + m + (a - (dest + m))) (dest + m)) ≡ false
not_yet m n dest src a (inl h) e = ground arith
not_yet m n dest src a (inr h) e = ground arith

whole :
    (m n dest a : ℕ)
    → (leb (dest + m) a && ltb a (dest + m + n)) ≡ true
    → (leb dest a && ltb a (dest + (m + n))) ≡ true
whole m n dest a e = ground arith

part :
    (m n dest a : ℕ)
    → (leb (dest + m) a && ltb a (dest + m + n)) ≡ false
    → (leb dest a && ltb a (dest + (m + n))) ≡ (leb dest a && ltb a (dest + m))
part m n dest a e = ground arith

same_place :
    (m n dest src a : ℕ)
    → (leb (dest + m) a && ltb a (dest + m + n)) ≡ true
    → src + m + (a - (dest + m)) ≡ src + (a - dest)
same_place m n dest src a e = ground arith

nowhere : (dest a : ℕ) → (leb dest a && ltb a (dest + 0)) ≡ false
nowhere dest a = ground arith

first_byte :
    (dest src : ℕ) (mem : Memory) (b : ℕ)
    → (if b == dest then mem src else mem b)
      ≡ (if leb dest b && ltb b (dest + 1) then mem (src + (b - dest)) else mem b)
first_byte dest src mem b = elim (Bool-cases (b == dest)) [
  | inl e ↦
      let place : src ≡ src + (b - dest) = ground arith in
      let inside : (leb dest b && ltb b (dest + 1)) ≡ true = ground arith in
      rw (e, inside) (ap mem place)
  | inr e ↦
      let outside : (leb dest b && ltb b (dest + 1)) ≡ false = ground arith in rw (e, outside) refl
]

-- A first part has been moved, and then the rest.
Moved-append :
    (m n dest src : ℕ) (mem mem1 mem2 : Memory)
    → Safe (m + n) dest src
    → Moved m dest src mem mem1
    → Moved n (dest + m) (src + m) mem1 mem2
    → Moved (m + n) dest src mem mem2
Moved-append m n dest src mem mem1 mem2 safe first then_rest a =
    elim (Bool-cases (leb (dest + m) a && ltb a (dest + m + n))) [
      | inl e ↦
          let old = src + m + (a - (dest + m)) in
          then_rest a
          ∙ rw e (
              first old
              ∙ rw (not_yet m n dest src a safe e, whole m n dest a e)
                  (ap mem (same_place m n dest src a e)))
      | inr e ↦ then_rest a ∙ rw e (first a ∙ rw (part m n dest a e) refl)
    ]

Safe-rest : (m n k dest src : ℕ) → m + n ≡ k → Safe k dest src → Safe n (dest + m) (src + m)
Safe-rest m n k dest src size (inl h) = inl (omega arith)
Safe-rest m n k dest src size (inr h) = inr (omega arith)

Safe-first : (m n k dest src : ℕ) → m + n ≡ k → Safe k dest src → Safe m dest src
Safe-first m n k dest src size (inl h) = inl h
Safe-first m n k dest src size (inr h) = inr (omega arith)

copy_bytes-Moved :
    (n dest src : ℕ) (mem : Memory)
    → Safe n dest src
    → Moved n dest src mem (copy_bytes n dest src mem)
unfolding copy_bytes
copy_bytes-Moved zero dest src mem safe = λ a. rw (nowhere dest a) refl
copy_bytes-Moved (suc n) dest src mem safe =
    let next = λ (b : ℕ). if b == dest then mem src else mem b in
    let size : 1 + n ≡ suc n = omega arith in
    subst (λ k. Moved k dest src mem (copy_bytes (suc n) dest src mem)) size
      (Moved-append 1 n dest src mem next (copy_bytes n (dest + 1) (src + 1) next)
        (subst (λ k. Safe k dest src) (sym size) safe) (first_byte dest src mem)
        (copy_bytes-Moved n (dest + 1) (src + 1) next (Safe-rest 1 n (suc n) dest src size safe)))

copy_words-Moved :
    (n dest src : ℕ) (mem : Memory)
    → Safe (word_size * n) dest src
    → Moved (word_size * n) dest src mem (copy_words n dest src mem)
unfolding copy_words copy_word
copy_words-Moved zero dest src mem safe = λ a. rw (nowhere dest a) refl
copy_words-Moved (suc n) dest src mem safe =
    let next = copy_word dest src mem in
    let size : word_size + word_size * n ≡ word_size * suc n = omega arith in
    subst (λ k. Moved k dest src mem (copy_words (suc n) dest src mem)) size
      (Moved-append word_size (word_size * n) dest src mem next
        (copy_words n (dest + word_size) (src + word_size) next)
        (subst (λ k. Safe k dest src) (sym size) safe) (λ b. refl)
        (copy_words-Moved n (dest + word_size) (src + word_size) next
          (Safe-rest word_size (word_size * n) (word_size * suc n) dest src size safe)))

-- `memcpy` copies what stood at the source before the call, where the destination does not begin inside
-- the source, and changes nothing else, by words or by bytes.
pub memcpy-Moved :
    (mem : Memory) (dest src n : ℕ) → Safe n dest src → Moved n dest src mem (memcpy mem dest src n)
unfolding memcpy
memcpy-Moved mem dest src n safe a =
    elim (Bool-cases (bit_and (bit_or dest src) (word_size - 1) == 0)) [
      | inl e ↦
          let m = word_size * (n / word_size) in
          let size : m + n % word_size ≡ n = omega arith in
          let words = copy_words (n / word_size) dest src mem in
          rw (memcpy, e)
            (subst
              (λ k. Moved k dest src mem (copy_bytes (n % word_size) (dest + m) (src + m) words))
              size
              (Moved-append m (n % word_size) dest src mem words
                (copy_bytes (n % word_size) (dest + m) (src + m) words)
                (subst (λ k. Safe k dest src) (sym size) safe)
                (copy_words-Moved (n / word_size) dest src mem
                  (Safe-first m (n % word_size) n dest src size safe))
                (copy_bytes-Moved (n % word_size) (dest + m) (src + m) words
                  (Safe-rest m (n % word_size) n dest src size safe)))
              a)
      | inr e ↦ rw (memcpy, e) (copy_bytes-Moved n dest src mem safe a)
    ]
