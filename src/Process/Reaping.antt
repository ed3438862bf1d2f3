-- ===== src/Process/Reaping.antt =====
-- What `process_reap` does to the table and to the list.
use mathlib.Core.List.{append_assoc}
use nyxis_os.Base.{
  ℕ, zero, suc, ◌≤◌, ◌<◌, ◌≡◌, ◌≢◌, refl, ap, subst, sym, ◌∙◌, true, false, Option, none, some,
  List, [], ◌∷◌, ◌++◌, if◌then◌else◌, arith, inl, inr, length, Bool-cases,
}
use nyxis_os.Base.Members.{All, All-mono, NotIn}
use nyxis_os.Process.{Process, World, Machine, at, blank_process}
use nyxis_os.Process.Life.{is_dead, reap_from, process_reap}
use nyxis_os.Process.Queue.{Linked, Distinct, Distinct-split, length-Linked}
use nyxis_os.Process.Taking.{
  bare, Same, kept, reaped, destroyed, reaped-sub, Behind, kept-Same, reaped-Same, taken,
  taken_current, taken_pid, taken_env, taken-length, taken-Same, taken-blank, taken-Linked,
}

module _ {Env : Type 0} (m : Machine Env) where
  -- `w'` is `w` with the dead processes of `todo` reaped, where `done` stands before them.
  pub record Reaped (w : World Env) (done todo : List ℕ) (w' : World Env) : Type 0 where
    pub linked : Linked w'.procs w'.head (done ++ kept w.current w.procs todo)
    pub stays :
        (i : ℕ) → NotIn i (reaped w.current w.procs todo) → Same (at w'.procs i) (at w.procs i)
    pub cleared : All (λ i. Same (at w'.procs i) blank_process) (reaped w.current w.procs todo)
    pub freed : w'.env ≡ destroyed m w.procs (reaped w.current w.procs todo) w.env
    pub same_size : length w'.procs ≡ length w.procs
    pub same_current : w'.current ≡ w.current
    pub same_pid : w'.next_pid ≡ w.next_pid

  -- Nothing is taken out.
  Reaped-none :
      (w : World Env) (done : List ℕ) → Linked w.procs w.head (done ++ []) → Reaped w done [] w
  Reaped-none w done l = record {
    linked = l;
    stays = λ i out. refl;
    cleared = tt;
    freed = refl;
    same_size = refl;
    same_current = refl;
    same_pid = refl;
  }

  Reaped-keep :
      (w : World Env) (done is : List ℕ) (i : ℕ) (w' : World Env)
      → is_dead w.current i (at w.procs i) ≡ false
      → Reaped w (done ++ i ∷ []) is w'
      → Reaped w done (i ∷ is) w'
  Reaped-keep w done is i w' h r = record {
    linked = rw h (
        subst (Linked w'.procs w'.head) (append_assoc done (i ∷ []) (kept w.current w.procs is))
          r.linked);
    stays = λ j out. r.stays j (rw h at out);
    cleared = rw h r.cleared;
    freed = rw h r.freed;
    same_size = r.same_size;
    same_current = r.same_current;
    same_pid = r.same_pid;
  }

  destroyed-Same :
      (ps qs : List Process) (is : List ℕ) (env : Env)
      → All (λ i. Same (at ps i) (at qs i)) is
      → destroyed m ps is env ≡ destroyed m qs is env
  destroyed-Same ps qs [] env h = refl
  destroyed-Same ps qs (i ∷ is) env h =
      rw (ap (λ (q : Process). q.pml4) h.0) (destroyed-Same ps qs is _ h.1)

  Reaped-take :
      (w : World Env) (prev : Option ℕ) (done is : List ℕ) (i : ℕ) (w' : World Env)
      → is_dead w.current i (at w.procs i) ≡ true
      → i < length w.procs
      → NotIn i is
      → Reaped (taken m w prev i) done is w'
      → Reaped w done (i ∷ is) w'
  Reaped-take w prev done is i w' h lt out r =
      let t = taken m w prev i in
      let others =
        All-mono (λ j. i ≢ j) (λ j. Same (at t.procs j) (at w.procs j)) is
          (λ j ne. taken-Same m w prev i j (λ e. ne (sym e))) out in
      let gone : reaped t.current t.procs is ≡ reaped w.current w.procs is =
        ap (λ c. reaped c t.procs is) (taken_current m w prev i)
        ∙ reaped-Same w.current t.procs w.procs is others in
      let rest : kept t.current t.procs is ≡ kept w.current w.procs is =
        ap (λ c. kept c t.procs is) (taken_current m w prev i)
        ∙ kept-Same w.current t.procs w.procs is others in
      let not_again = reaped-sub (λ j. i ≢ j) w.current w.procs is out in
      record {
        linked = rw h (subst (λ k. Linked w'.procs w'.head (done ++ k)) rest r.linked);
        stays = λ j other.
            let o = (rw h at other) in
            r.stays j (subst (NotIn j) (sym gone) o.1) ∙ taken-Same m w prev i j o.0;
        cleared = rw h (
          r.stays i (subst (NotIn i) (sym gone) not_again) ∙ ap bare (taken-blank m w prev i lt),
          subst (All (λ j. Same (at w'.procs j) blank_process)) gone r.cleared,
        );
        freed = rw h (
            r.freed
            ∙ ap (λ k. destroyed m t.procs k t.env) gone
            ∙ ap (λ e. destroyed m t.procs (reaped w.current w.procs is) e) (taken_env m w prev i)
            ∙ destroyed-Same t.procs w.procs (reaped w.current w.procs is) _
                (reaped-sub (λ j. Same (at t.procs j) (at w.procs j)) w.current w.procs is others));
        same_size = r.same_size ∙ taken-length m w prev i;
        same_current = r.same_current ∙ taken_current m w prev i;
        same_pid = r.same_pid ∙ taken_pid m w prev i;
      }

  reap_step :
      (fuel : ℕ) (prev : Option ℕ) (i : ℕ) (w : World Env)
      → reap_from (suc fuel) m prev (some i) w ≡ (
          if is_dead w.current i (at w.procs i)
          then reap_from fuel m prev (at w.procs i).next (taken m w prev i)
          else reap_from fuel m (some i) (at w.procs i).next w)
  unfolding reap_from taken
  reap_step fuel prev i w = refl

  reap_from-Reaped :
      (fuel : ℕ) (prev p : Option ℕ) (w : World Env) (done todo : List ℕ)
      → Behind prev done
      → Linked w.procs w.head (done ++ todo)
      → Linked w.procs p todo
      → Distinct (done ++ todo)
      → length todo ≤ fuel
      → Reaped w done todo (reap_from fuel m prev p w)
  reap_from-Reaped zero prev p w done [] b l l' d room = unfold reap_from in Reaped-none w done l
  reap_from-Reaped zero prev p w done (i ∷ is) b l l' d room = absurd (omega arith)
  reap_from-Reaped (suc fuel) prev p w done [] b l l' d room =
      rw l' (unfold reap_from in Reaped-none w done l)
  reap_from-Reaped (suc fuel) prev p w done (i ∷ is) b l (e, lt, l') d room =
      let next = (at w.procs i).next in
      let (out, out', rest) = Distinct-split done is i d in
      let (k, k') = taken-Linked m w prev i is done b l l' d in
      let shape = append_assoc done (i ∷ []) is in
      rw (e, reap_step fuel prev i w)
        (elim (Bool-cases (is_dead w.current i (at w.procs i))) [
          | inl h ↦ rw h (
              Reaped-take w prev done is i _ h lt out' (
                reap_from-Reaped fuel prev next (taken m w prev i) done is b k k' rest
                  (omega arith)))
          | inr h ↦ rw h (
              Reaped-keep w done is i _ h (
                reap_from-Reaped fuel (some i) next w (done ++ i ∷ []) is (done, refl)
                  (subst (Linked w.procs w.head) (sym shape) l) l' (subst Distinct (sym shape) d)
                  (omega arith)))
        ])

  -- `process_reap` takes out of the list exactly the terminated processes with a pid other than 0,
  -- save the current one: the others stay in order and unchanged, the slots of the reaped ones are
  -- cleared, and their address spaces go back once each, in the order of the list.
  pub process_reap_lem :
      (w : World Env) (order : List ℕ)
      → Linked w.procs w.head order
      → Distinct order
      → Reaped w [] order (process_reap m w)
  unfolding process_reap
  process_reap_lem w order l d =
      reap_from-Reaped (length w.procs) none w.head w [] order refl l l d
        (length-Linked w.procs w.head order l d)
