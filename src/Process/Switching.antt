-- ===== src/Process/Switching.antt =====
-- What `process_switch` does to the table when the scheduler goes on to another process.
use native.Mathlib.Decide.{ℕ_discrete}
use nyxis_os.Base.{
  ℕ, ◌+◌, ◌<◌, ◌≡◌, ◌≢◌, refl, ap, subst, sym, ◌∙◌, Bool, true, false, ◌&&◌, Option, none, some,
  List, [], ◌∷◌, set, ◌==◌, not-==-of-ne, if◌then◌else◌, arith, inl, inr, length, length-set,
  Bool-cases,
}
use nyxis_os.Base.Members.{In, unsome}
use nyxis_os.Base.Status.{ok}
use nyxis_os.Process.{
  Process, ready, running, is_ready, is_at, World, Machine, at, blank_process, kstack_size,
}
use nyxis_os.Process.Sched.{
  is_due, wake, sched_pick_next, put_back, set_running, process_switch, did_switch, run_next,
  schedule_with, schedule,
}
use nyxis_os.Process.Queue.{get_or-set_self, get_or-set_ne}
use nyxis_os.Process.Picking.{runnable, first_runnable, chosen, wake-runnable}
use nyxis_os.Process.Stays.{
  Stays, Stays-refl, Stays-trans, at-set-related, wake-Stays, put_back-Stays, length-put_back,
  put_back_other, put_back_old, put_back_rests,
}

pub first_runnable-In :
    (now : ℕ) (ps : List Process) (is : List ℕ) (i : ℕ)
    → first_runnable now ps is ≡ some i
    → In i is × (runnable now (at ps i) ≡ true)
first_runnable-In now ps [] i e = absurd (none-some e)
  where
    none-some : {k : ℕ} → ◌≢◌ {A = Option ℕ} none (some k)
    none-some e = cc
first_runnable-In now ps (j ∷ js) i e = elim (Bool-cases (runnable now (at ps j))) [
  | inl h ↦
      let same = unsome (rw h at e) in
      (inl (sym same), subst (λ k. runnable now (at ps k) ≡ true) same h)
  | inr h ↦ let (k, r) = first_runnable-In now ps js i (rw h at e) in (inr k, r)
]

-- The current process of `w` is `c`, and the scheduler has gone on to `i`.
pub record Switched {Env : Type 0} (m : Machine Env) (w : World Env) (c i : ℕ) (w' : World Env)
    : Type 0 where
  pub now_current : w'.current ≡ some i
  pub now_running : (at w'.procs i).state ≡ running
  pub put_back_ready : (at w.procs c).state ≡ running → (at w'.procs c).state ≡ ready
  pub others : (j : ℕ) → j ≢ i → j ≢ c → at w'.procs j ≡ at w.procs j
  pub address_space :
      w'.cr3
      ≡ (if (at w.procs i).pml4 == 0 then m.kernel_cr3 else m.virt_to_phys (at w.procs i).pml4)
  pub same_env : w'.env ≡ w.env

-- The table after a switch.
abbrev pub switched : ℕ → List Process → ℕ → ℕ → List Process
switched now ps c i = set_running i (put_back (some c) (set ps i (wake now (at ps i))))

module _ (now : ℕ) (ps : List Process) (c i : ℕ) (ne : i ≢ c) (lt : i < length ps)
    (lt_c : c < length ps) where
  pub switched-Stays : (j : ℕ) → Stays (at (switched now ps c i) j) (at ps j)
  unfolding set_running
  switched-Stays j =
      let woken = set ps i (wake now (at ps i)) in
      let back = put_back (some c) woken in
      Stays-trans
        (at-set-related Stays back i (record (at back i) { state = running }) Stays-refl
          (record { next = refl; in_use = refl; pid = refl }) j)
        (Stays-trans (put_back-Stays (some c) woken j)
          (at-set-related Stays ps i (wake now (at ps i)) Stays-refl (wake-Stays now (at ps i)) j))

  pub length-switched : length (switched now ps c i) ≡ length ps
  unfolding set_running
  length-switched =
      let woken = set ps i (wake now (at ps i)) in
      let back = put_back (some c) woken in
      length-set back i (record (at back i) { state = running })
      ∙ length-put_back (some c) woken
      ∙ length-set ps i (wake now (at ps i))

  pub switched_new : (at (switched now ps c i) i).state ≡ running
  unfolding set_running
  switched_new =
      let woken = set ps i (wake now (at ps i)) in
      let back = put_back (some c) woken in
      ap (λ (p : Process). p.state)
        (get_or-set_self back i (record (at back i) { state = running }) blank_process
          (omega (arith, length-put_back (some c) woken, length-set ps i (wake now (at ps i)))))

  pub switched_other : (j : ℕ) → j ≢ i → j ≢ c → at (switched now ps c i) j ≡ at ps j
  unfolding set_running
  switched_other j nj nc =
      let woken = set ps i (wake now (at ps i)) in
      let back = put_back (some c) woken in
      get_or-set_ne back i j (record (at back i) { state = running }) blank_process nj
      ∙ put_back_other c woken j nc
      ∙ get_or-set_ne ps i j (wake now (at ps i)) blank_process nj

  -- The old process is where `put_back` left it.
  switched_back :
      at (switched now ps c i) c ≡ at (put_back (some c) (set ps i (wake now (at ps i)))) c
  unfolding set_running
  switched_back =
      let back = put_back (some c) (set ps i (wake now (at ps i))) in
      get_or-set_ne back i c (record (at back i) { state = running }) blank_process
        (λ e. ne (sym e))

  below : c < length (set ps i (wake now (at ps i)))
  below = omega (arith, length-set ps i (wake now (at ps i)))

  pub switched_old : (at ps c).state ≡ running → (at (switched now ps c i) c).state ≡ ready
  switched_old h =
      let woken = set ps i (wake now (at ps i)) in
      ap (λ (p : Process). p.state) switched_back
      ∙ put_back_old c woken below (
          ap (λ (p : Process). p.state)
            (get_or-set_ne ps i c (wake now (at ps i)) blank_process (λ e. ne (sym e)))
          ∙ h)

  pub switched_alone :
      (j : ℕ)
      → ((at ps j).state ≡ running → j ≡ c)
      → (at (switched now ps c i) j).state ≡ running
      → j ≡ i
  switched_alone j alone h = elim (ℕ_discrete j i) [
    | yes e ↦ e
    | no nj ↦ elim (ℕ_discrete j c) [
      | yes e ↦ absurd (
          put_back_rests c (set ps i (wake now (at ps i))) below (
            sym (ap (λ (p : Process). p.state) switched_back)
            ∙ subst (λ k. (at (switched now ps c i) k).state ≡ running) e h))
      | no nc ↦
          absurd (nc (alone (sym (ap (λ (p : Process). p.state) (switched_other j nj nc)) ∙ h)))
    ]
  ]

switch_goes :
    {Env : Type 0} (m : Machine Env) (i : ℕ) (w : World Env)
    → (at w.procs i).in_use && is_ready (at w.procs i).state ≡ true
    → is_at w.current i ≡ false
    → process_switch m i w ≡ (
      ok true,
      record w {
        procs = set_running i (put_back w.current w.procs);
        current = some i;
        cr3 = if (at w.procs i).pml4 == 0 then m.kernel_cr3 else m.virt_to_phys (at w.procs i).pml4;
        ring0_stack =
            if (at w.procs i).kernel_stack == 0
            then w.ring0_stack
            else (at w.procs i).kernel_stack + kstack_size;
      },
    )
unfolding process_switch
switch_goes m i w can other =
    let (used, is) = both (at w.procs i).in_use (is_ready (at w.procs i).state) can in
    rw (used, is, other) refl
  where
    both : (a b : Bool) → a && b ≡ true → (a ≡ true) × (b ≡ true)
    both true true e = (refl, refl)
    both true false e = cc
    both false b e = cc

wake_keeps :
    (now : ℕ) (p : Process)
    → ((wake now p).pml4 ≡ p.pml4) × ((wake now p).kernel_stack ≡ p.kernel_stack)
unfolding wake
wake_keeps now p = elim (Bool-cases (is_due now p)) [
  | inl e ↦ rw e (refl, refl)
  | inr e ↦ rw e (refl, refl)
]

module _ {Env : Type 0} (m : Machine Env) (now : ℕ) (w : World Env) (c : ℕ)
    (here : w.current ≡ some c) where
  -- What `schedule` makes of the choice `i`.
  abbrev pub gone_on : ℕ → World Env
  gone_on i = record w {
    procs = switched now w.procs c i;
    current = some i;
    cr3 = if (at w.procs i).pml4 == 0 then m.kernel_cr3 else m.virt_to_phys (at w.procs i).pml4;
    ring0_stack =
        if (at w.procs i).kernel_stack == 0
        then w.ring0_stack
        else (at w.procs i).kernel_stack + kstack_size;
  }

  pub run_chosen :
      (i : ℕ)
      → i < length w.procs
      → i ≢ c
      → runnable now (at w.procs i) ≡ true
      → run_next m w (chosen now w.procs (some i)) ≡ (true, gone_on i)
  unfolding run_next
  run_chosen i lt ne can =
      let woken = set w.procs i (wake now (at w.procs i)) in
      let new : at woken i ≡ wake now (at w.procs i) =
        get_or-set_self w.procs i (wake now (at w.procs i)) blank_process lt in
      let able : (at woken i).in_use && is_ready (at woken i).state ≡ true =
        rw new (wake-runnable now (at w.procs i) ∙ can) in
      let other : is_at w.current i ≡ false = rw here (not-==-of-ne c i (λ e. ne (sym e))) in
      let (space, stack) = wake_keeps now (at w.procs i) in
      ap (λ s. (did_switch s.0, s.1)) (switch_goes m i (record w { procs = woken }) able other)
      ∙ rw (here, new, space, stack) refl

  pub schedule_is :
      (h : ℕ)
      → w.head ≡ some h
      → schedule m now w ≡ run_next m w (sched_pick_next now c w.head w.procs)
  unfolding schedule schedule_with
  schedule_is h e = rw (here, e) refl
