-- ===== src/Vfs/Parents.antt =====
-- What the search for the directory of a path's last name does in vfs.c, along the names of the path.
use mathlib.Core.Path.{fun_ext}
use nyxis_os.Base.{
  ℕ, zero, suc, ◌≤◌, ◌<◌, ◌≡◌, refl, ap, sym, ◌∙◌, subst, inl, inr, List, [], ◌∷◌, ltb,
  if◌then◌else◌, arith, length, Bool-cases, not-ltb-of-le, ltb-of-lt,
}
use nyxis_os.Base.Status.{ok, err, path_too_long, not_found}
use nyxis_os.Base.Effect.{Eff, after, ◌>>=◌, return, lift}
use nyxis_os.Vfs.Path.{name_max, skip_slashes}
use nyxis_os.Vfs.Tree.{Vfs, Namespace}
use nyxis_os.Vfs.Resolve.{Drivers, enter, parent_loop, resolve_parent_ns, start_of, past_slash}
use nyxis_os.Vfs.Naming.{
  names, first_of, rest_of, names-nil, parse_segment_fits, parse_segment_long, behind, head_name,
  skip_slashes_head, skip_slashes_same, first_of_cons,
}
use nyxis_os.Vfs.Walking.{
  first_name, length_not_zero, rest_less, names-past_slash, length-past_slash,
}

first_of_nil : first_of [] ≡ []
unfolding head_name skip_slashes
first_of_nil = refl

module _ {D : Type 0} (drivers : Drivers D) where
  -- All names but the last are entered; the last only has to fit.
  unfoldable pub parent_walk : ℕ → List (List ℕ) → Eff (Vfs D) (ℕ × List ℕ)
  parent_walk current [] = lift (err not_found)
  parent_walk current (n ∷ []) =
      if ltb name_max (length n) then lift (err path_too_long) else return (current, n)
  parent_walk current (n ∷ m ∷ ms) =
      let next = enter drivers not_found current n >>= λ child. parent_walk child (m ∷ ms) in
      if ltb name_max (length n) then lift (err path_too_long) else next

  parent_loop_end :
      (fuel current c : ℕ) (cs : List ℕ) (v : Vfs D)
      → first_of (c ∷ cs) ≡ []
      → parent_loop drivers (suc fuel) current (c ∷ cs) v ≡ (err not_found, v)
  unfolding parent_loop
  parent_loop_end fuel current c cs v e =
      rw (parse_segment_fits 256 (c ∷ cs) (rw e (omega arith)), e) refl

  parent_loop_long :
      (fuel current c : ℕ) (cs : List ℕ) (v : Vfs D)
      → 256 ≤ length (first_of (c ∷ cs))
      → parent_loop drivers (suc fuel) current (c ∷ cs) v ≡ (err path_too_long, v)
  unfolding parent_loop
  parent_loop_long fuel current c cs v h = rw (parse_segment_long 256 (c ∷ cs) (omega arith) h) refl

  parent_loop_last :
      (fuel current c : ℕ) (cs : List ℕ) (v : Vfs D) (a : ℕ) (as' : List ℕ)
      → first_of (c ∷ cs) ≡ a ∷ as'
      → length (a ∷ as') < 256
      → rest_of (c ∷ cs) ≡ []
      → parent_loop drivers (suc fuel) current (c ∷ cs) v ≡ (ok (current, a ∷ as'), v)
  unfolding parent_loop skip_slashes
  parent_loop_last fuel current c cs v a as' e h end =
      rw (parse_segment_fits 256 (c ∷ cs) (rw e h), e, end, length_not_zero drivers a as') refl

  parent_loop_step :
      (fuel current c : ℕ) (cs : List ℕ) (v : Vfs D) (a : ℕ) (as' : List ℕ) (d : ℕ) (ds : List ℕ)
      → first_of (c ∷ cs) ≡ a ∷ as'
      → length (a ∷ as') < 256
      → rest_of (c ∷ cs) ≡ d ∷ ds
      → parent_loop drivers (suc fuel) current (c ∷ cs) v
        ≡ after
            (enter drivers not_found current (a ∷ as') v)
            (λ child. parent_loop drivers fuel child (d ∷ ds))
  unfolding parent_loop
  parent_loop_step fuel current c cs v a as' d ds e h more =
      rw
        (
          parse_segment_fits 256 (c ∷ cs) (rw e h),
          e,
          more,
          skip_slashes_same d ds (skip_slashes_head (behind (skip_slashes (c ∷ cs))) d ds more),
          length_not_zero drivers a as',
          length_not_zero drivers d ds,
        )
        refl

  parent_walk_long :
      (current : ℕ) (n : List ℕ) (ns : List (List ℕ)) (v : Vfs D)
      → 256 ≤ length n
      → parent_walk current (n ∷ ns) v ≡ (err path_too_long, v)
  unfolding parent_walk
  parent_walk_long current n [] v h = rw (ltb-of-lt name_max (length n) h) refl
  parent_walk_long current n (m ∷ ms) v h = rw (ltb-of-lt name_max (length n) h) refl

  parent_walk_last :
      (current : ℕ) (n : List ℕ) (v : Vfs D)
      → length n < 256
      → parent_walk current (n ∷ []) v ≡ (ok (current, n), v)
  unfolding parent_walk
  parent_walk_last current n v h = rw (not-ltb-of-le name_max (length n) (omega arith)) refl

  parent_walk_step :
      (current : ℕ) (n m : List ℕ) (ms : List (List ℕ)) (v : Vfs D)
      → length n < 256
      → parent_walk current (n ∷ m ∷ ms) v
        ≡ after (enter drivers not_found current n v) (λ child. parent_walk child (m ∷ ms))
  unfolding parent_walk
  parent_walk_step current n m ms v h = rw (not-ltb-of-le name_max (length n) (omega arith)) refl

  -- A round that reads the name `a ∷ as'`, of the path from `c` on, before `rest`.
  name_round :
      (fuel current c : ℕ) (cs : List ℕ) (v : Vfs D) (a : ℕ) (as' rest : List ℕ)
      → length (c ∷ cs) ≤ suc fuel
      → first_of (c ∷ cs) ≡ a ∷ as'
      → length (a ∷ as') < 256
      → rest_of (c ∷ cs) ≡ rest
      → ((child : ℕ) (w : Vfs D)
          → length rest ≤ fuel
          → parent_loop drivers fuel child rest w ≡ parent_walk child (names rest) w)
      → parent_loop drivers (suc fuel) current (c ∷ cs) v ≡ parent_walk current (names (c ∷ cs)) v
  name_round fuel current c cs v a as' [] l e fits end ih =
      parent_loop_last fuel current c cs v a as' e fits end
      ∙ sym (
          ap (λ ns. parent_walk current ns v)
            (first_name drivers (c ∷ cs) a as' e
              ∙ ap (λ r. (a ∷ as') ∷ names r) end
              ∙ ap (λ r. (a ∷ as') ∷ r) (names-nil [] first_of_nil))
          ∙ parent_walk_last current (a ∷ as') v fits)
  name_round fuel current c cs v a as' (d ∷ ds) l e fits more ih =
      let head =
        first_of_cons d ds (skip_slashes_head (behind (skip_slashes (c ∷ cs))) d ds more) in
      let next = first_name drivers (d ∷ ds) d (head_name ds) head in
      let whole =
        first_name drivers (c ∷ cs) a as' e
        ∙ ap (λ r. (a ∷ as') ∷ names r) more
        ∙ ap (λ r. (a ∷ as') ∷ r) next in
      let less : length (d ∷ ds) ≤ fuel =
        subst (λ r. length r ≤ fuel) more (rest_less drivers fuel c cs a as' l e) in
      parent_loop_step fuel current c cs v a as' d ds e fits more
      ∙ ap (after (enter drivers not_found current (a ∷ as') v)) (
          fun_ext
            (λ child. fun_ext (λ w. ih child w less ∙ ap (λ ns. parent_walk child ns w) next)))
      ∙ sym (
          ap (λ ns. parent_walk current ns v) whole
          ∙ parent_walk_step current (a ∷ as') (d ∷ head_name ds) (names (rest_of (d ∷ ds))) v fits)

  parent_round :
      (fuel current c : ℕ) (cs : List ℕ) (v : Vfs D) (first : List ℕ)
      → length (c ∷ cs) ≤ suc fuel
      → first_of (c ∷ cs) ≡ first
      → ((child : ℕ) (w : Vfs D)
          → length (rest_of (c ∷ cs)) ≤ fuel
          → parent_loop drivers fuel child (rest_of (c ∷ cs)) w
            ≡ parent_walk child (names (rest_of (c ∷ cs))) w)
      → parent_loop drivers (suc fuel) current (c ∷ cs) v ≡ parent_walk current (names (c ∷ cs)) v
  unfolding parent_walk
  parent_round fuel current c cs v [] l e ih =
      parent_loop_end fuel current c cs v e
      ∙ sym (ap (λ ns. parent_walk current ns v) (names-nil (c ∷ cs) e))
  parent_round fuel current c cs v (a ∷ as') l e ih =
      elim (Bool-cases (ltb (length (a ∷ as')) 256)) [
        | inl fits ↦
            name_round fuel current c cs v a as' (rest_of (c ∷ cs)) l e (ground arith) refl ih
        | inr long ↦
            parent_loop_long fuel current c cs v (rw e (ground arith))
            ∙ sym (
                ap (λ ns. parent_walk current ns v) (first_name drivers (c ∷ cs) a as' e)
                ∙ parent_walk_long current (a ∷ as') (names (rest_of (c ∷ cs))) v (ground arith))
      ]

  parent_loop_lem :
      (fuel current : ℕ) (cs : List ℕ) (v : Vfs D)
      → length cs ≤ fuel
      → parent_loop drivers fuel current cs v ≡ parent_walk current (names cs) v
  unfolding parent_loop parent_walk names
  parent_loop_lem zero current [] v l = refl
  parent_loop_lem zero current (c ∷ cs) v l = absurd (omega arith)
  parent_loop_lem (suc fuel) current [] v l = refl
  parent_loop_lem (suc fuel) current (c ∷ cs) v l =
      parent_round fuel current c cs v (first_of (c ∷ cs)) l refl
        (λ child w h. parent_loop_lem fuel child (rest_of (c ∷ cs)) w h)

  -- The search for the directory of a path's last name enters all names but the last from the root of the
  -- namespace, for a path with a slash in front, or else from its current directory; it returns the last
  -- name with the directory it has come to, ends for every path and fails for one that is made of
  -- slashes only. For the empty path it returns the current directory and no name.
  pub resolve_parent_ns_lem :
      (ns : Namespace) (c : ℕ) (cs : List ℕ) (v : Vfs D)
      → (resolve_parent_ns drivers ns (c ∷ cs) v
          ≡ parent_walk (start_of drivers ns (c ∷ cs)) (names (c ∷ cs)) v)
        × (resolve_parent_ns drivers ns [] v ≡ (ok (ns.cwd, []), v))
  unfolding resolve_parent_ns
  resolve_parent_ns_lem ns c cs v =
      let path = c ∷ cs in
      let start = start_of drivers ns path in
      (
        rw (resolve_parent_ns, length_not_zero drivers c cs)
            (parent_loop_lem (length path) start (past_slash drivers path) v
                (length-past_slash drivers path)
              ∙ ap (λ n. parent_walk start n v) (names-past_slash drivers path)),
        refl,
      )
