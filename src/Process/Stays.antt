-- ===== src/Process/Stays.antt =====
-- Changes of the table that leave the list, the slots in use and the pids.
use nyxis_os.Base.{
  ℕ, zero, suc, ◌<◌, ◌≡◌, ◌≢◌, refl, ap, subst, sym, ◌∙◌, true, false, Option, none, some, List, [],
  ◌∷◌, set, arith, inl, inr, length, length-set, Bool-cases,
}
use nyxis_os.Base.Members.{All, In}
use nyxis_os.Process.{
  Process, State, ready, running, blocked, terminated, is_running, World, at, blank_process,
}
use nyxis_os.Process.Sched.{is_due, wake, put_back}
use nyxis_os.Process.Queue.{Linked, get_or-set_self, get_or-set_ne}
use nyxis_os.Process.Invariant.{WellFormed, not_running}

-- A change of one slot relates the tables where it relates the processes of the slot.
pub at-set-related :
    (R : Process → Process → Type 0) (ps : List Process) (i : ℕ) (q : Process)
    → ((p : Process) → R p p)
    → R q (at ps i)
    → (j : ℕ) → R (at (set ps i q) j) (at ps j)
at-set-related R [] i q same r j = same blank_process
at-set-related R (p ∷ ps) zero q same r zero = r
at-set-related R (p ∷ ps) zero q same r (suc j) = same (at ps j)
at-set-related R (p ∷ ps) (suc i) q same r zero = same p
at-set-related R (p ∷ ps) (suc i) q same r (suc j) = at-set-related R ps i q same r j

-- The same process in the same place, but for its state.
pub record Stays (p q : Process) : Type 0 where
  pub next : p.next ≡ q.next
  pub in_use : p.in_use ≡ q.in_use
  pub pid : p.pid ≡ q.pid

pub Stays-refl : (p : Process) → Stays p p
Stays-refl p = record { next = refl; in_use = refl; pid = refl }

pub Stays-trans : {p q r : Process} → Stays p q → Stays q r → Stays p r
Stays-trans a b = record {
  next = a.next ∙ b.next;
  in_use = a.in_use ∙ b.in_use;
  pid = a.pid ∙ b.pid;
}

pub Linked-Stays :
    (ps qs : List Process) (o : Option ℕ) (order : List ℕ)
    → length qs ≡ length ps
    → ((j : ℕ) → Stays (at qs j) (at ps j))
    → Linked ps o order
    → Linked qs o order
Linked-Stays ps qs o [] size s l = l
Linked-Stays ps qs o (i ∷ is) size s l = (
  l.0,
  omega (arith, l.1),
  subst (λ n. Linked qs n is) (sym ((s i).next)) (Linked-Stays ps qs (at ps i).next is size s l.2),
)

-- A table that changes only states keeps the invariant, if still only the current process runs.
pub WellFormed-Stays :
    {Env : Type 0} (w w' : World Env) (order : List ℕ) (c : ℕ)
    → WellFormed w order
    → length w'.procs ≡ length w.procs
    → ((j : ℕ) → Stays (at w'.procs j) (at w.procs j))
    → w'.head ≡ w.head
    → w'.current ≡ some c
    → In c order
    → ((j : ℕ) → (at w'.procs j).state ≡ running → j ≡ c)
    → WellFormed w' order
WellFormed-Stays w w' order c f size s head now in_order alone = record {
  linked =
      subst (λ o. Linked w'.procs o order) (sym head)
        (Linked-Stays w.procs w'.procs w.head order size s f.linked);
  distinct = f.distinct;
  used = still order f.used;
  unused = λ i out. (s i).in_use ∙ f.unused i out;
  idle = (s 0).pid ∙ f.idle;
  first = f.first;
  runs = (c, now, in_order);
  alone = λ i h. now ∙ ap some (sym (alone i h));
  size = size ∙ f.size;
}
  where
    still :
        (is : List ℕ)
        → All (λ i. (at w.procs i).in_use ≡ true) is
        → All (λ i. (at w'.procs i).in_use ≡ true) is
    still [] u = tt
    still (i ∷ is) u = ((s i).in_use ∙ u.0, still is u.1)

pub wake-Stays : (now : ℕ) (p : Process) → Stays (wake now p) p
unfolding wake
wake-Stays now p = elim (Bool-cases (is_due now p)) [
  | inl e ↦ rw e (record { next = refl; in_use = refl; pid = refl })
  | inr e ↦ rw e (record { next = refl; in_use = refl; pid = refl })
]

pub put_back-Stays :
    (o : Option ℕ) (ps : List Process) (j : ℕ) → Stays (at (put_back o ps) j) (at ps j)
unfolding put_back
put_back-Stays none ps j = Stays-refl (at ps j)
put_back-Stays (some i) ps j = elim (Bool-cases (is_running (at ps i).state)) [
  | inl e ↦ rw e (
      at-set-related Stays ps i (record (at ps i) { state = ready }) Stays-refl
        (record { next = refl; in_use = refl; pid = refl }) j)
  | inr e ↦ rw e (Stays-refl (at ps j))
]

pub length-put_back : (o : Option ℕ) (ps : List Process) → length (put_back o ps) ≡ length ps
unfolding put_back
length-put_back none ps = refl
length-put_back (some i) ps = elim (Bool-cases (is_running (at ps i).state)) [
  | inl e ↦ rw e (length-set ps i (record (at ps i) { state = ready }))
  | inr e ↦ rw e refl
]

pub put_back_other :
    (c : ℕ) (ps : List Process) (j : ℕ) → j ≢ c → at (put_back (some c) ps) j ≡ at ps j
unfolding put_back
put_back_other c ps j ne = elim (Bool-cases (is_running (at ps c).state)) [
  | inl e ↦ rw e (get_or-set_ne ps c j (record (at ps c) { state = ready }) blank_process ne)
  | inr e ↦ rw e refl
]

pub put_back_old :
    (c : ℕ) (ps : List Process)
    → c < length ps
    → (at ps c).state ≡ running
    → (at (put_back (some c) ps) c).state ≡ ready
unfolding put_back
put_back_old c ps lt h = rw (ap is_running h) (
    ap (λ (p : Process). p.state)
      (get_or-set_self ps c (record (at ps c) { state = ready }) blank_process lt))

pub put_back_rests :
    (c : ℕ) (ps : List Process) → c < length ps → (at (put_back (some c) ps) c).state ≢ running
put_back_rests c ps lt h = elim (Bool-cases (is_running (at ps c).state)) [
  | inl e ↦ not_running (sym h ∙ put_back_old c ps lt (really (at ps c).state e))
  | inr e ↦ not_true (sym (ap is_running h) ∙ unfold put_back in rw e e)
]
  where
    really : (s : State) → is_running s ≡ true → s ≡ running
    really running e = refl
    really ready e = cc
    really blocked e = cc
    really terminated e = cc

    not_true : true ≢ false
    not_true e = cc
