-- ===== src/Handles/Slots.antt =====
-- The parts of the handle table: the search for a free slot, and a handle taken apart.
use nyxis_os.Base.{
  ℕ, zero, suc, ◌+◌, ◌/◌, ◌%◌, ◌^◌, ◌≤◌, ◌<◌, ◌≡◌, refl, ◌∙◌, none, some, [], ◌∷◌, arith, ◌==◌,
  get_elem?, set, length, Bool-cases, inl, inr, lt_length-of-some, length-set,
}
use nyxis_os.Base.Members.{All, All-set}
use nyxis_os.Base.Words.{pack32-eq-add}
use nyxis_os.Handles.{
  Slot, Table, handle_free, max_handles, find_free, make_handle, nx_handle_lookup, check_slot,
  nx_handles_count,
}

-- The array has its size, and generations are u32.
pub record IsTable (t : Table) : Type 0 where
  pub size : length t ≡ max_handles
  pub words : All (λ (s : Slot). s.generation < 2 ^ 32) t

pub set-IsTable :
    (t : Table) (i : ℕ) (s : Slot) → IsTable t → s.generation < 2 ^ 32 → IsTable (set t i s)
set-IsTable t i s v h = record {
  size = length-set t i s ∙ v.size;
  words = All-set _ t i s v.words h;
}

-- The slot found lies in the table and is free.
pub find_free_found :
    (j : ℕ) (t : Table) {i : ℕ}
    → find_free j t ≡ some i
    → (k : ℕ) × (s : Slot) × (i ≡ j + k) × (get_elem? t k ≡ some s) × (s.kind ≡ handle_free)
unfolding find_free
find_free_found j [] h = absurd (cc)
find_free_found j (s ∷ t) {i} h = elim (Bool-cases (s.kind == handle_free)) [
  | inl e ↦ (0, s, ground arith, refl, ground arith)
  | inr e ↦
      let r = find_free_found (j + 1) t {i = i} (ground arith) in
      (suc r.0, r.1, omega arith, r.3, r.4)
]

-- A search that fails has passed a used slot in every place.
pub find_free_full : (j : ℕ) (t : Table) → find_free j t ≡ none → nx_handles_count t ≡ length t
unfolding find_free nx_handles_count
find_free_full j [] h = refl
find_free_full j (s ∷ t) h = ground (arith, find_free_full (j + 1) t)

pub count-le-length : (t : Table) → nx_handles_count t ≤ length t
unfolding nx_handles_count
count-le-length [] = omega arith
count-le-length (s ∷ t) = ground (arith, count-le-length t)

-- A free slot keeps the count below the size.
pub count-lt-length :
    (t : Table) (i : ℕ) {s : Slot}
    → get_elem? t i ≡ some s
    → s.kind ≡ handle_free
    → nx_handles_count t < length t
unfolding nx_handles_count
count-lt-length [] i h e = absurd (cc)
count-lt-length (x ∷ t) zero h e = ground (arith, count-le-length t)
count-lt-length (x ∷ t) (suc i) h e = ground (arith, count-lt-length t i h e)

pub handle_index : (g i : ℕ) → i < max_handles → make_handle g i % 2 ^ 32 ≡ i
unfolding make_handle
handle_index g i h = omega (arith, pack32-eq-add g i)

pub handle_generation :
    (g i : ℕ) → g < 2 ^ 32 → i < max_handles → make_handle g i / 2 ^ 32 % 2 ^ 32 ≡ g
unfolding make_handle
handle_generation g i hg h = omega (arith, pack32-eq-add g i)

-- A lookup by a handle of the table's making is the check of its slot.
pub lookup_at :
    (t : Table) (g i required : ℕ) {s : Slot}
    → IsTable t
    → g < 2 ^ 32
    → get_elem? t i ≡ some s
    → nx_handle_lookup t (make_handle g i) required ≡ check_slot s i g required
unfolding nx_handle_lookup
lookup_at t g i required v hg e =
    let i-lt : i < 32 = omega (arith, lt_length-of-some t i e) in
    ground (arith, handle_index g i i-lt, handle_generation g i hg i-lt)
