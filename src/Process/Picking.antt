-- ===== src/Process/Picking.antt =====
-- `sched_pick_next` goes once around the list behind the current process.
use nyxis_os.Base.{
  ℕ, zero, suc, ◌+◌, ◌<◌, ◌≡◌, ◌≢◌, refl, ap, sym, Bool, false, not, ◌&&◌, ◌||◌, Option, none, some,
  List, [], ◌∷◌, ◌++◌, set, get_or, arith, inl, inr, not-==-of-ne, ==_self, length, length-append,
  leb, ◌==◌, if◌then◌else◌, Bool-cases,
}
use nyxis_os.Base.Members.{NotIn}
use nyxis_os.Process.{Process, at, blank_process, is_ready, is_blocked}
use nyxis_os.Process.Sched.{next_or_head, is_due, wake, pick_from, sched_pick_next}
use nyxis_os.Process.Queue.{
  Linked, Distinct, get_or-set_self, Distinct-split, length-Linked, Linked-rest,
}

-- The process can run at tick `now`: it is ready, or asleep until a tick that has come.
abbrev pub runnable : ℕ → Process → Bool
runnable now p =
    p.in_use
    && (is_ready p.state || (is_blocked p.state && not (p.wake_tick == 0) && leb p.wake_tick now))

abbrev pub first_runnable : ℕ → List Process → List ℕ → Option ℕ
first_runnable now ps [] = none
first_runnable now ps (i ∷ is) = if runnable now (at ps i) then some i else first_runnable now ps is

-- The chosen process, woken in the table.
abbrev pub chosen : ℕ → List Process → Option ℕ → Option ℕ × List Process
chosen now ps none = (none, ps)
chosen now ps (some i) = (some i, set ps i (wake now (at ps i)))

pub wake-runnable :
    (now : ℕ) (p : Process) → ((wake now p).in_use && is_ready (wake now p).state) ≡ runnable now p
unfolding wake is_due
wake-runnable now p = ground arith

wake_asleep : (now : ℕ) (p : Process) → runnable now p ≡ false → wake now p ≡ p
unfolding wake is_due
wake_asleep now p h = ground arith

set-same {ℓ} : {A : Type ℓ} (xs : List A) (i : ℕ) (d : A) → set xs i (get_or xs i d) ≡ xs
set-same [] i d = refl
set-same (x ∷ xs) zero d = refl
set-same (x ∷ xs) (suc i) d = ap (λ ys. x ∷ ys) (set-same xs i d)

module _ (now : ℕ) (head : Option ℕ) (current : ℕ) (ps : List Process) where
  pick_step :
      (fuel i : ℕ)
      → i ≢ current
      → i < length ps
      → pick_from (suc fuel) now head current i ps ≡ (
          if runnable now (at ps i)
          then (some i, set ps i (wake now (at ps i)))
          else pick_from fuel now head current (next_or_head (at ps i).next head) ps)
  unfolding pick_from
  pick_step fuel i ne lt =
      let woken = set ps i (wake now (at ps i)) in
      let same : at woken i ≡ wake now (at ps i) =
        get_or-set_self ps i (wake now (at ps i)) blank_process lt in
      rw (not-==-of-ne i current ne, same, wake-runnable)
        (elim (Bool-cases (runnable now (at ps i))) [
          | inl h ↦ rw h refl
          | inr h ↦ rw (h, wake_asleep now (at ps i) h, set-same) refl
        ])

  -- From the start of the list up to the current process.
  pick_before :
      (fuel : ℕ) (xs zs : List ℕ) (o : Option ℕ)
      → Linked ps o (xs ++ current ∷ zs)
      → NotIn current xs
      → length xs < fuel
      → pick_from fuel now head current (next_or_head o head) ps
        ≡ chosen now ps (first_runnable now ps xs)
  pick_before zero xs zs o l out room = absurd (omega arith)
  pick_before (suc fuel) [] zs o l out room = rw l.0 (unfold pick_from in rw (==_self current) refl)
  pick_before (suc fuel) (x ∷ xs) zs o l out room =
      rw (l.0, pick_step fuel x (λ e. out.0 (sym e)) l.1)
        (elim (Bool-cases (runnable now (at ps x))) [
          | inl h ↦ rw h refl
          | inr h ↦ rw h (pick_before fuel xs zs (at ps x).next l.2 out.1 (omega arith))
        ])

  -- From behind the current process to the end of the list, and on from its start.
  pick_after :
      (fuel : ℕ) (before after zs : List ℕ) (o : Option ℕ)
      → Linked ps head (before ++ current ∷ after)
      → NotIn current before
      → Linked ps o zs
      → NotIn current zs
      → length zs + length before < fuel
      → pick_from fuel now head current (next_or_head o head) ps
        ≡ chosen now ps (first_runnable now ps (zs ++ before))
  pick_after zero before after zs o l out l' out' room = absurd (omega arith)
  pick_after (suc fuel) before after [] o l out l' out' room =
      rw (l', wraps before l) (pick_before (suc fuel) before after head l out (omega arith))
    where
      wraps :
          (xs : List ℕ)
          → Linked ps head (xs ++ current ∷ after)
          → next_or_head none head ≡ next_or_head head head
      wraps [] l = rw l.0 refl
      wraps (x ∷ xs) l = rw l.0 refl
  pick_after (suc fuel) before after (z ∷ zs) o l out l' out' room =
      rw (l'.0, pick_step fuel z (λ e. out'.0 (sym e)) l'.1)
        (elim (Bool-cases (runnable now (at ps z))) [
          | inl h ↦ rw h refl
          | inr h ↦
              rw h (pick_after fuel before after zs (at ps z).next l out l'.2 out'.1 (omega arith))
        ])

-- In a well-formed list with the current process in it, `sched_pick_next` takes the first process
-- that can run behind the current one, going on from the head at the end of the list, and wakes it
-- if it was asleep; it takes none, and changes nothing, if no other process can run.
pub sched_pick_next_lem :
    (now current : ℕ) (head : Option ℕ) (ps : List Process) (before after : List ℕ)
    → Linked ps head (before ++ current ∷ after)
    → Distinct (before ++ current ∷ after)
    → sched_pick_next now current head ps ≡ chosen now ps (first_runnable now ps (after ++ before))
unfolding sched_pick_next
sched_pick_next_lem now current head ps before after l d =
    let (out, out', rest) = Distinct-split before after current d in
    let fits = length-Linked ps head (before ++ current ∷ after) l d in
    pick_after now head current ps (length ps) before after after (at ps current).next l out
      (Linked-rest ps head before after current l).1 out'
      (omega (arith, fits, length-append before (current ∷ after)))
