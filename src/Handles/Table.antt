-- ===== src/Handles/Table.antt =====
-- What `nx_handle_alloc` and `nx_handle_lookup` promise a process about its handles.
use nyxis_os.Base.{
  ℕ, ◌/◌, ◌%◌, ◌^◌, ◌<◌, ◌≡◌, ◌≢◌, ◌↔◌, refl, ap, subst, ◌∙◌, sym, none, some, arith, ◌==◌,
  if◌then◌else◌, get_elem?, set, Option-cases, inl, inr, lt_length-of-some, get_elem?-set_self,
  get_elem?-set_ne, bit_and,
}
use nyxis_os.Base.Members.{unsome, All-get_elem?}
use nyxis_os.Base.Status.{ok, err, invalid_arg, out_of_memory, permission}
use nyxis_os.Handles.{
  Slot, Table, handle_free, max_handles, find_free, make_handle, nx_handle_lookup, check_slot,
  nx_handles_count, nx_handle_alloc, fill_slot, right_all,
}
use nyxis_os.Handles.Slots.{
  IsTable, set-IsTable, find_free_found, find_free_full, count-lt-length, lookup_at,
}

-- A successful allocation fills a free slot and returns its handle.
pub record Allocated (t : Table) (kind rights : ℕ) (t' : Table) (h i : ℕ) : Type 0 where
  pub slot : Slot
  pub was : get_elem? t i ≡ some slot
  pub was_free : slot.kind ≡ handle_free
  pub table : t' ≡ set t i (fill_slot slot kind rights)
  pub handle : h ≡ make_handle slot.generation i

alloc_at :
    (t : Table) (kind rights i : ℕ) (s : Slot)
    → find_free 0 t ≡ some i
    → get_elem? t i ≡ some s
    → nx_handle_alloc t kind rights
      ≡ ok (set t i (fill_slot s kind rights), make_handle s.generation i, i)
unfolding nx_handle_alloc
alloc_at t kind rights i s e g = rw (e, g, nx_handle_alloc)

alloc_full :
    (t : Table) (kind rights : ℕ)
    → find_free 0 t ≡ none
    → nx_handle_alloc t kind rights ≡ err out_of_memory
unfolding nx_handle_alloc
alloc_full t kind rights e = rw (e, nx_handle_alloc)

free_at :
    (t : Table) {k : ℕ}
    → find_free 0 t ≡ some k
    → (s : Slot) × (get_elem? t k ≡ some s) × (s.kind ≡ handle_free)
free_at t {k} f =
    let (j, s, at_j, found, free) = find_free_found 0 t f in
    let same : j ≡ k = omega arith in (s, subst (λ n. get_elem? t n ≡ some s) same found, free)

pub alloc-Allocated :
    (t : Table) (kind rights : ℕ) {t' : Table} {h i : ℕ}
    → nx_handle_alloc t kind rights ≡ ok (t', h, i)
    → Allocated t kind rights t' h i
alloc-Allocated t kind rights {t'} {h} {i} e = elim (Option-cases (find_free 0 t)) [
  | inl n ↦ absurd (cc (alloc_full t kind rights n))
  | inr (k, f) ↦ found k f
]
  where
    found : (k : ℕ) → find_free 0 t ≡ some k → Allocated t kind rights t' h i
    found k f =
        let (s, at, free) = free_at t f in
        record {
          slot = s;
          was = ground (arith, alloc_at t kind rights k s f at);
          was_free = free;
          table = ground (arith, alloc_at t kind rights k s f at);
          handle = ground (arith, alloc_at t kind rights k s f at);
        }

pub alloc-IsTable :
    (t : Table) (kind rights : ℕ) {t' : Table} {h i : ℕ}
    → IsTable t
    → Allocated t kind rights t' h i
    → IsTable t'
alloc-IsTable t kind rights {t'} {h} {i} v a = subst IsTable (sym a.table) (
    set-IsTable t i (fill_slot a.slot kind rights) v
      (All-get_elem? (λ (s : Slot). s.generation < 2 ^ 32) t i v.words a.was))

check_filled :
    (s : Slot) (kind rights i required : ℕ)
    → kind ≢ handle_free
    → check_slot (fill_slot s kind rights) i s.generation required ≡ (
        if bit_and (bit_and rights right_all) required == required
        then ok (i, fill_slot s kind rights)
        else err permission)
unfolding check_slot
check_filled s kind rights i required used = ground arith

-- The handle that `nx_handle_alloc` returns leads to the slot it filled, if a right that is asked
-- for was granted; and otherwise to a refusal for want of permission.
pub lookup-alloc :
    (t : Table) (kind rights required : ℕ) {t' : Table} {h i : ℕ}
    → IsTable t
    → kind ≢ handle_free
    → nx_handle_alloc t kind rights ≡ ok (t', h, i)
    → (s : Slot) × (get_elem? t' i ≡ some s)
      × (s.kind ≡ kind)
      × (s.rights ≡ bit_and rights right_all)
      × (nx_handle_lookup t' h required ≡ (
          if bit_and (bit_and rights right_all) required == required
          then ok (i, s)
          else err permission))
lookup-alloc t kind rights required {t'} {h} {i} v used e =
    let a = alloc-Allocated t kind rights e in
    let small = All-get_elem? (λ (s : Slot). s.generation < 2 ^ 32) t i v.words a.was in
    let filled =
      subst (λ u. get_elem? u i ≡ some (fill_slot a.slot kind rights)) (sym a.table)
        (get_elem?-set_self t i (fill_slot a.slot kind rights) (lt_length-of-some t i a.was)) in
    (
      fill_slot a.slot kind rights,
      filled,
      refl,
      refl,
      rw
          (
            a.handle,
            lookup_at t' a.slot.generation i required (alloc-IsTable t kind rights v a) small
                filled,
          )
          (check_filled a.slot kind rights i required used),
    )

-- An allocation fails exactly when every slot is in use, and then for want of memory.
pub alloc_full_iff :
    (t : Table) (kind rights : ℕ)
    → IsTable t
    → (nx_handle_alloc t kind rights ≡ err out_of_memory) ↔ (nx_handles_count t ≡ max_handles)
alloc_full_iff t kind rights v = (forth, back)
  where
    forth : nx_handle_alloc t kind rights ≡ err out_of_memory → nx_handles_count t ≡ max_handles
    forth e = elim (Option-cases (find_free 0 t)) [
      | inl n ↦ find_free_full 0 t n ∙ v.size
      | inr (k, f) ↦ let r = free_at t f in absurd (cc (alloc_at t kind rights k r.0 f r.1))
    ]

    back : nx_handles_count t ≡ max_handles → nx_handle_alloc t kind rights ≡ err out_of_memory
    back e = elim (Option-cases (find_free 0 t)) [
      | inl n ↦ alloc_full t kind rights n
      | inr (k, f) ↦
          let r = find_free_found 0 t f in
          absurd (omega (arith, count-lt-length t r.0 r.3 r.4, v.size))
    ]

-- A lookup reads one slot.
pub lookup_cong :
    (t u : Table) (h required : ℕ)
    → get_elem? u (h % 2 ^ 32) ≡ get_elem? t (h % 2 ^ 32)
    → nx_handle_lookup u h required ≡ nx_handle_lookup t h required
unfolding nx_handle_lookup
lookup_cong t u h required e = rw (e, nx_handle_lookup)

-- What a successful lookup has checked.
pub record Grants (t : Table) (h required j : ℕ) (s : Slot) : Type 0 where
  pub index : j ≡ h % 2 ^ 32
  pub within : j < max_handles
  pub slot : get_elem? t (h % 2 ^ 32) ≡ some s
  pub in_use : s.kind ≢ handle_free
  pub current : s.generation ≡ h / 2 ^ 32 % 2 ^ 32
  pub permitted : bit_and s.rights required ≡ required

check_slot_ok :
    (x : Slot) (i g required : ℕ) {j : ℕ} {s : Slot}
    → check_slot x i g required ≡ ok (j, s)
    → (j ≡ i)
      × (x ≡ s)
      × (s.kind ≢ handle_free)
      × (s.generation ≡ g)
      × (bit_and s.rights required ≡ required)
unfolding check_slot
check_slot_ok x i g required e = ground arith

lookup_found :
    (t : Table) (h required : ℕ) {x : Slot} {j : ℕ} {s : Slot}
    → get_elem? t (h % 2 ^ 32) ≡ some x
    → nx_handle_lookup t h required ≡ ok (j, s)
    → (h % 2 ^ 32 < max_handles)
      × (check_slot x (h % 2 ^ 32) (h / 2 ^ 32 % 2 ^ 32) required ≡ ok (j, s))
unfolding nx_handle_lookup
lookup_found t h required g e = ground arith

lookup_absent :
    (t : Table) (h required : ℕ)
    → get_elem? t (h % 2 ^ 32) ≡ none
    → nx_handle_lookup t h required ≡ err invalid_arg
unfolding nx_handle_lookup
lookup_absent t h required g = ground arith

-- A lookup succeeds only on a slot in use, of the handle's own generation, that has every right
-- asked for.
pub lookup-Grants :
    (t : Table) (h required : ℕ) {j : ℕ} {s : Slot}
    → nx_handle_lookup t h required ≡ ok (j, s)
    → Grants t h required j s
lookup-Grants t h required {j} {s} e = elim (Option-cases (get_elem? t (h % 2 ^ 32))) [
  | inl n ↦ absurd (cc (lookup_absent t h required n))
  | inr (x, g) ↦ granted x g
]
  where
    granted : (x : Slot) → get_elem? t (h % 2 ^ 32) ≡ some x → Grants t h required j s
    granted x g =
        let (within, checked) = lookup_found t h required g e in
        let (same_index, same, in_use, current, permitted) =
          check_slot_ok x (h % 2 ^ 32) (h / 2 ^ 32 % 2 ^ 32) required checked in
        record {
          index = same_index;
          within = omega arith;
          slot = g ∙ ap some same;
          in_use = in_use;
          current = current;
          permitted = permitted;
        }

-- Another handle leads to the same slot after an allocation as before.
pub lookup-alloc_other :
    (t : Table) (kind rights h' required : ℕ) {t' : Table} {h i j : ℕ} {s : Slot}
    → nx_handle_alloc t kind rights ≡ ok (t', h, i)
    → nx_handle_lookup t h' required ≡ ok (j, s)
    → nx_handle_lookup t' h' required ≡ ok (j, s)
lookup-alloc_other t kind rights h' required {t'} {h} {i} {j} {s} e l =
    let a = alloc-Allocated t kind rights e in
    let g = lookup-Grants t h' required l in
    rw a.table (
      lookup_cong t (set t i (fill_slot a.slot kind rights)) h' required
        (get_elem?-set_ne t (fill_slot a.slot kind rights) (apart a g))
      ∙ l)
  where
    apart : (a : Allocated t kind rights t' h i) → Grants t h' required j s → i ≢ h' % 2 ^ 32
    apart a g same = g.in_use (
        ap (λ (x : Slot). x.kind)
          (unsome (sym g.slot ∙ subst (λ n. get_elem? t n ≡ some a.slot) same a.was))
        ∙ a.was_free)
