-- ===== src/Vfs/Slots.antt =====
-- The slots of the handle table of vfs.c, and what a careful file system does with them.
use nyxis_os.Base.Found.{plus_zero, plus_suc, none_or_some}
use nyxis_os.Base.{
  ℕ, zero, suc, ◌+◌, ◌≡◌, refl, ap, sym, ◌∙◌, inl, inr, true, Option, none, some, List, [], ◌∷◌,
  get_or, set, ◌==◌, Bool-cases, Option-cases, arith,
}
use nyxis_os.Base.Members.{unsome}
use nyxis_os.Base.Effect.{Eff}
use nyxis_os.Base.Steady.{Steady}
use nyxis_os.Vfs.Handle.{FileHandle}
use nyxis_os.Vfs.Tree.{Vfs, blank_vnode, free_handle_at}
use nyxis_os.Vfs.Resolve.{Drivers, Ops, op_of}

-- The reference counts of the slots.
unfoldable pub counts : List FileHandle → List ℕ
counts [] = []
counts (h ∷ hs) = h.refcnt ∷ counts hs

abbrev pub Counts : {D : Type 0} → List ℕ → Vfs D → Type 0
Counts rs v = counts v.handles ≡ rs

-- What the functions `lookup` and `open` of a file system keep: they give no slot away and take none.
pub record IsCareful {D : Type 0} (drivers : Drivers D) : Type 0 where
  pub lookup_keeps :
      (table : ℕ) (f : ℕ → List ℕ → Eff (Vfs D) (Option ℕ))
      → (drivers table).lookup ≡ some f
      → (rs : List ℕ) (node : ℕ) (name : List ℕ) → Steady (Counts rs) (f node name)
  pub open_keeps :
      (table : ℕ) (f : ℕ → ℕ → ℕ → Eff (Vfs D) (Unit {0}))
      → (drivers table).open_file ≡ some f
      → (rs : List ℕ) (node flags slot : ℕ) → Steady (Counts rs) (f node flags slot)

pub counts-set :
    (hs : List FileHandle) (i : ℕ) (h : FileHandle)
    → counts (set hs i h) ≡ set (counts hs) i h.refcnt
unfolding counts
counts-set [] i h = refl
counts-set (x ∷ hs) zero h = refl
counts-set (x ∷ hs) (suc i) h = ap (λ cs. x.refcnt ∷ cs) (counts-set hs i h)

pub set-set : (cs : List ℕ) (i a b : ℕ) → set (set cs i a) i b ≡ set cs i b
set-set [] i a b = refl
set-set (c ∷ cs) zero a b = refl
set-set (c ∷ cs) (suc i) a b = ap (λ ds. c ∷ ds) (set-set cs i a b)

pub is_zero : (n : ℕ) → (n == 0) ≡ true → n ≡ 0
is_zero n h = ground arith

pub found_here :
    (k j : ℕ) (h : FileHandle) (hs : List FileHandle)
    → free_handle_at k (h ∷ hs) ≡ some j
    → (h.refcnt == 0) ≡ true
    → j ≡ k + 0
unfolding free_handle_at
found_here k j h hs e z = sym (unsome (rw z at e)) ∙ plus_zero k

-- A slot that is found is free.
pub free_slot :
    (k j : ℕ) (hs : List FileHandle)
    → free_handle_at k hs ≡ some j
    → (i : ℕ) × (j ≡ k + i) × (set (counts hs) i 0 ≡ counts hs)
unfolding free_handle_at counts
free_slot k j [] e = absurd (cc)
free_slot k j (h ∷ hs) e = elim (Bool-cases (h.refcnt == 0)) [
  | inl z ↦ (0, found_here k j h hs e z, ap (λ c. c ∷ counts hs) (sym (is_zero h.refcnt z)))
  | inr nz ↦
      let r = free_slot (k + 1) j hs (rw nz at e) in
      (suc r.0, r.1 ∙ plus_suc k r.0, ap (λ cs. h.refcnt ∷ cs) r.2)
]

module _ {D : Type 0} (drivers : Drivers D) where
  pub op_of_source :
      {A : Type 0} (node : Option ℕ) (field : Ops D → Option A) (v : Vfs D) (n : ℕ) (f : A)
      → op_of drivers node field v ≡ some (n, f)
      → (table : ℕ) × (field (drivers table) ≡ some f)
  unfolding op_of
  op_of_source none field v n f e = absurd (cc)
  op_of_source (some i) field v n f e = elim (Option-cases ((get_or v.vnodes i blank_vnode).ops)) [
    | inl out ↦ absurd (none_or_some (rw (op_of, out) at e))
    | inr (table, has) ↦ elim (Option-cases (field (drivers table))) [
      | inl out ↦ absurd (none_or_some (rw (op_of, has, out) at e))
      | inr (g, g_is) ↦ (table, g_is ∙ ap (λ r. some r.1) (unsome (rw (op_of, has, g_is) at e)))
    ]
  ]
