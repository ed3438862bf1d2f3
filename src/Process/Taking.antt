-- ===== src/Process/Taking.antt =====
-- One round of `process_reap`: a process is taken out of the list and its slot cleared.
use mathlib.Core.List.{append_assoc}
use nyxis_os.Base.{
  ℕ, zero, suc, ◌<◌, ◌≡◌, ◌≢◌, refl, ap, subst, sym, ◌∙◌, Option, none, some, List, [], ◌∷◌, ◌++◌,
  ◌==◌, if◌then◌else◌, arith, inl, inr, length, length-set, Bool-cases,
}
use nyxis_os.Base.Members.{All, All-append}
use nyxis_os.Process.{Process, World, Machine, at, set_next, blank_process}
use nyxis_os.Process.Life.{is_dead, unlink, release}
use nyxis_os.Process.Queue.{
  Linked, Distinct, Distinct-split, Linked-set_other, Linked-set_next, get_or-set_self,
  get_or-set_ne,
}

-- The same process, but for its place in the list.
abbrev pub bare : Process → Process
bare p = record p { next = none }

abbrev pub Same : Process → Process → Type 0
Same p q = bare p ≡ bare q

-- The processes of `order` that stay, and those that are reaped.
abbrev pub kept : Option ℕ → List Process → List ℕ → List ℕ
kept current ps [] = []
kept current ps (i ∷ is) =
    if is_dead current i (at ps i) then kept current ps is else i ∷ kept current ps is

abbrev pub reaped : Option ℕ → List Process → List ℕ → List ℕ
reaped current ps [] = []
reaped current ps (i ∷ is) =
    if is_dead current i (at ps i) then i ∷ reaped current ps is else reaped current ps is

-- The address spaces of the processes `is` go back in this order.
abbrev pub destroyed : {Env : Type 0} → Machine Env → List Process → List ℕ → Env → Env
destroyed m ps [] env = env
destroyed m ps (i ∷ is) env =
    destroyed m ps is
      (if (at ps i).pml4 == 0 then env else m.paging_addrspace_destroy (at ps i).pml4 env)

pub Same-set_next :
    (ps : List Process) (i j : ℕ) (o : Option ℕ) → Same (at (set_next ps i o) j) (at ps j)
Same-set_next [] i j o = refl
Same-set_next (p ∷ ps) zero zero o = refl
Same-set_next (p ∷ ps) zero (suc j) o = refl
Same-set_next (p ∷ ps) (suc i) zero o = refl
Same-set_next (p ∷ ps) (suc i) (suc j) o = Same-set_next ps i j o

is_dead-Same :
    (current : Option ℕ) (i : ℕ) (p q : Process)
    → Same p q
    → is_dead current i p ≡ is_dead current i q
unfolding is_dead
is_dead-Same current i p q e = ap (λ r. is_dead current i r) e

module _ (current : Option ℕ) (ps qs : List Process) where
  pub kept-Same :
      (is : List ℕ)
      → All (λ i. Same (at ps i) (at qs i)) is
      → kept current ps is ≡ kept current qs is
  kept-Same [] h = refl
  kept-Same (i ∷ is) h = rw (is_dead-Same current i (at ps i) (at qs i) h.0, kept-Same is h.1) refl

  pub reaped-Same :
      (is : List ℕ)
      → All (λ i. Same (at ps i) (at qs i)) is
      → reaped current ps is ≡ reaped current qs is
  reaped-Same [] h = refl
  reaped-Same (i ∷ is) h =
      rw (is_dead-Same current i (at ps i) (at qs i) h.0, reaped-Same is h.1) refl

pub reaped-sub :
    (P : ℕ → Type 0) (current : Option ℕ) (ps : List Process) (is : List ℕ)
    → All P is
    → All P (reaped current ps is)
reaped-sub P current ps [] h = tt
reaped-sub P current ps (i ∷ is) h = elim (Bool-cases (is_dead current i (at ps i))) [
  | inl e ↦ rw e (h.0, reaped-sub P current ps is h.1)
  | inr e ↦ rw e (reaped-sub P current ps is h.1)
]

-- `prev` is the last of the processes that were passed.
abbrev pub Behind : Option ℕ → List ℕ → Type 0
Behind none done = done ≡ []
Behind (some y) done = (xs : List ℕ) × (done ≡ xs ++ y ∷ [])

module _ {Env : Type 0} (m : Machine Env) where
  unlink-Same :
      (prev o : Option ℕ) (w : World Env) (j : ℕ)
      → Same (at (unlink prev o w).procs j) (at w.procs j)
  unfolding unlink
  unlink-Same none o w j = refl
  unlink-Same (some y) o w j = Same-set_next w.procs y j o

  unlink-length :
      (prev o : Option ℕ) (w : World Env) → length (unlink prev o w).procs ≡ length w.procs
  unfolding unlink
  unlink-length none o w = refl
  unlink-length (some y) o w = length-set w.procs y (record (at w.procs y) { next = o })

  unlink_current : (prev o : Option ℕ) (w : World Env) → (unlink prev o w).current ≡ w.current
  unfolding unlink
  unlink_current none o w = refl
  unlink_current (some y) o w = refl

  unlink_pid : (prev o : Option ℕ) (w : World Env) → (unlink prev o w).next_pid ≡ w.next_pid
  unfolding unlink
  unlink_pid none o w = refl
  unlink_pid (some y) o w = refl

  unlink_env : (prev o : Option ℕ) (w : World Env) → (unlink prev o w).env ≡ w.env
  unfolding unlink
  unlink_env none o w = refl
  unlink_env (some y) o w = refl

  unlink-Linked :
      (prev : Option ℕ) (w : World Env) (i : ℕ) (is done : List ℕ)
      → Behind prev done
      → Linked w.procs w.head (done ++ i ∷ is)
      → Linked w.procs (at w.procs i).next is
      → Distinct (done ++ i ∷ is)
      → Linked
          (unlink prev (at w.procs i).next w).procs
          (unlink prev (at w.procs i).next w).head
          (done ++ is)
        × Linked (unlink prev (at w.procs i).next w).procs (at w.procs i).next is
  unfolding unlink
  unlink-Linked none w i is done b l l' d = (rw b l', l')
  unlink-Linked (some y) w i is done (xs, e) l l' d =
      let shape : (zs : List ℕ) → done ++ zs ≡ xs ++ y ∷ zs =
        λ zs. ap (λ ys. ys ++ zs) e ∙ append_assoc xs (y ∷ []) zs in
      let (out, out', rest) = Distinct-split xs (i ∷ is) y (subst Distinct (shape (i ∷ is)) d) in
      let next = (at w.procs i).next in
      (
        subst (Linked (set_next w.procs y next) w.head) (sym (shape is)) (
            Linked-set_next w.procs w.head next xs (i ∷ is) is y
              (subst (Linked w.procs w.head) (shape (i ∷ is)) l) out out'.1 l'),
        Linked-set_other w.procs next is y (record (at w.procs y) { next = next }) out'.1 l',
      )

  -- One round of the loop that takes process `i` out.
  module _ (w : World Env) (prev : Option ℕ) (i : ℕ) where
    unfoldable pub taken : World Env
    unfolding unlink release
    taken = release m i (unlink prev (at w.procs i).next w)

    pub taken-Same : (j : ℕ) → j ≢ i → Same (at taken.procs j) (at w.procs j)
    unfolding taken release
    taken-Same j ne =
        let u = unlink prev (at w.procs i).next w in
        ap bare (get_or-set_ne u.procs i j blank_process blank_process ne)
        ∙ unlink-Same prev (at w.procs i).next w j

    pub taken-blank : i < length w.procs → at taken.procs i ≡ blank_process
    unfolding taken release
    taken-blank lt =
        let u = unlink prev (at w.procs i).next w in
        get_or-set_self u.procs i blank_process blank_process
          (omega (arith, unlink-length prev (at w.procs i).next w))

    pub taken-Linked :
        (is done : List ℕ)
        → Behind prev done
        → Linked w.procs w.head (done ++ i ∷ is)
        → Linked w.procs (at w.procs i).next is
        → Distinct (done ++ i ∷ is)
        → Linked taken.procs taken.head (done ++ is) × Linked taken.procs (at w.procs i).next is
    unfolding taken release
    taken-Linked is done b l l' d =
        let u = unlink prev (at w.procs i).next w in
        let (k, k') = unlink-Linked prev w i is done b l l' d in
        let (out, out', rest) = Distinct-split done is i d in
        (
          Linked-set_other u.procs u.head (done ++ is) i blank_process
              (All-append (λ x. i ≢ x) done is out out') k,
          Linked-set_other u.procs (at w.procs i).next is i blank_process out' k',
        )

    pub taken_current : taken.current ≡ w.current
    unfolding taken release
    taken_current = unlink_current prev (at w.procs i).next w

    pub taken_pid : taken.next_pid ≡ w.next_pid
    unfolding taken release
    taken_pid = unlink_pid prev (at w.procs i).next w

    pub taken-length : length taken.procs ≡ length w.procs
    unfolding taken release
    taken-length =
        length-set (unlink prev (at w.procs i).next w).procs i blank_process
        ∙ unlink-length prev (at w.procs i).next w

    pub taken_env : taken.env ≡ (
        if (at w.procs i).pml4 == 0
        then w.env
        else m.paging_addrspace_destroy (at w.procs i).pml4 w.env)
    unfolding taken release
    taken_env =
        let same = ap (λ (q : Process). q.pml4) (unlink-Same prev (at w.procs i).next w i) in
        rw (unlink_env prev (at w.procs i).next w, same) refl
