-- ===== src/Vfs/Walking.antt =====
-- What following a path does, as a walk along the names of the path.
use mathlib.Core.Path.{fun_ext}
use nyxis_os.Base.{
  ℕ, zero, suc, ◌≤◌, ◌<◌, ◌≡◌, refl, ap, sym, ◌∙◌, inl, inr, false, List, [], ◌∷◌, ltb, ◌==◌,
  if◌then◌else◌, arith, length, Bool-cases, not-ltb-of-le, ltb-of-lt,
}
use nyxis_os.Base.Status.{ok, err, path_too_long, file_not_found}
use nyxis_os.Base.Effect.{Eff, after, ◌>>=◌, return, lift}
use nyxis_os.Vfs.Path.{name_max, is_slash}
use nyxis_os.Vfs.Tree.{Vfs, Namespace}
use nyxis_os.Vfs.Resolve.{
  Drivers, enter, resolve_loop, resolve_path_internal_ns, start_of, past_slash,
}
use nyxis_os.Vfs.Naming.{
  emit, names, first_of, rest_of, names-first_of, names-nil, names-slash, length-rest_of,
  parse_segment_fits, parse_segment_long,
}

module _ {D : Type 0} (drivers : Drivers D) where
  -- One directory after the other is entered; a name of more than 255 bytes ends the walk.
  unfoldable pub walk : ℕ → List (List ℕ) → Eff (Vfs D) ℕ
  walk current [] = return current
  walk current (n ∷ ns) =
      let next = enter drivers file_not_found current n >>= λ child. walk child ns in
      if ltb name_max (length n) then lift (err path_too_long) else next

  pub length_not_zero : (a : ℕ) (as' : List ℕ) → (length (a ∷ as') == 0) ≡ false
  length_not_zero a as' = ground arith

  -- One round of the loop.
  resolve_loop_end :
      (fuel current c : ℕ) (cs : List ℕ) (v : Vfs D)
      → first_of (c ∷ cs) ≡ []
      → resolve_loop drivers (suc fuel) current (c ∷ cs) v ≡ (ok current, v)
  unfolding resolve_loop
  resolve_loop_end fuel current c cs v e =
      rw (parse_segment_fits 256 (c ∷ cs) (rw e (omega arith)), e) refl

  resolve_loop_long :
      (fuel current c : ℕ) (cs : List ℕ) (v : Vfs D)
      → 256 ≤ length (first_of (c ∷ cs))
      → resolve_loop drivers (suc fuel) current (c ∷ cs) v ≡ (err path_too_long, v)
  unfolding resolve_loop
  resolve_loop_long fuel current c cs v h =
      rw (parse_segment_long 256 (c ∷ cs) (omega arith) h) refl

  resolve_loop_step :
      (fuel current c : ℕ) (cs : List ℕ) (v : Vfs D) (a : ℕ) (as' : List ℕ)
      → first_of (c ∷ cs) ≡ a ∷ as'
      → length (a ∷ as') < 256
      → resolve_loop drivers (suc fuel) current (c ∷ cs) v
        ≡ after
            (enter drivers file_not_found current (a ∷ as') v)
            (λ child. resolve_loop drivers fuel child (rest_of (c ∷ cs)))
  unfolding resolve_loop
  resolve_loop_step fuel current c cs v a as' e h =
      rw (parse_segment_fits 256 (c ∷ cs) (rw e h), e, length_not_zero a as') refl

  pub first_name :
      (cs : List ℕ) (a : ℕ) (as' : List ℕ)
      → first_of cs ≡ a ∷ as'
      → names cs ≡ (a ∷ as') ∷ names (rest_of cs)
  unfolding emit
  first_name cs a as' e = names-first_of cs ∙ ap (λ n. emit n (names (rest_of cs))) e

  walk_end : (current : ℕ) (v : Vfs D) → walk current [] v ≡ (ok current, v)
  unfolding walk
  walk_end current v = refl

  -- A step of the walk.
  walk_step :
      (current a : ℕ) (as' : List ℕ) (ns : List (List ℕ)) (v : Vfs D)
      → length (a ∷ as') < 256
      → walk current ((a ∷ as') ∷ ns) v
        ≡ after (enter drivers file_not_found current (a ∷ as') v) (λ child. walk child ns)
  unfolding walk
  walk_step current a as' ns v h = rw (not-ltb-of-le name_max (length (a ∷ as')) (omega arith)) refl

  walk_long :
      (current : ℕ) (n : List ℕ) (ns : List (List ℕ)) (v : Vfs D)
      → 256 ≤ length n
      → walk current (n ∷ ns) v ≡ (err path_too_long, v)
  unfolding walk
  walk_long current n ns v h = rw (ltb-of-lt name_max (length n) h) refl

  pub rest_less :
      (fuel c : ℕ) (cs : List ℕ) (a : ℕ) (as' : List ℕ)
      → length (c ∷ cs) ≤ suc fuel
      → first_of (c ∷ cs) ≡ a ∷ as'
      → length (rest_of (c ∷ cs)) ≤ fuel
  rest_less fuel c cs a as' l e =
      let all = length-rest_of (c ∷ cs) in let first = ap (λ n. length n) e in omega arith

  resolve_round :
      (fuel current c : ℕ) (cs : List ℕ) (v : Vfs D) (first : List ℕ)
      → length (c ∷ cs) ≤ suc fuel
      → first_of (c ∷ cs) ≡ first
      → ((child : ℕ) (w : Vfs D)
          → length (rest_of (c ∷ cs)) ≤ fuel
          → resolve_loop drivers fuel child (rest_of (c ∷ cs)) w
            ≡ walk child (names (rest_of (c ∷ cs))) w)
      → resolve_loop drivers (suc fuel) current (c ∷ cs) v ≡ walk current (names (c ∷ cs)) v
  resolve_round fuel current c cs v [] l e ih =
      resolve_loop_end fuel current c cs v e
      ∙ sym (ap (λ ns. walk current ns v) (names-nil (c ∷ cs) e) ∙ walk_end current v)
  resolve_round fuel current c cs v (a ∷ as') l e ih =
      elim (Bool-cases (ltb (length (a ∷ as')) 256)) [
        | inl fits ↦
            resolve_loop_step fuel current c cs v a as' e (ground arith)
            ∙ ap (after (enter drivers file_not_found current (a ∷ as') v))
                (fun_ext (λ child. fun_ext (λ w. ih child w (rest_less fuel c cs a as' l e))))
            ∙ sym (walk_step current a as' (names (rest_of (c ∷ cs))) v (ground arith))
            ∙ sym (ap (λ ns. walk current ns v) (first_name (c ∷ cs) a as' e))
        | inr long ↦
            resolve_loop_long fuel current c cs v (rw e (ground arith))
            ∙ sym (walk_long current (a ∷ as') (names (rest_of (c ∷ cs))) v (ground arith))
            ∙ sym (ap (λ ns. walk current ns v) (first_name (c ∷ cs) a as' e))
      ]

  resolve_loop_lem :
      (fuel current : ℕ) (cs : List ℕ) (v : Vfs D)
      → length cs ≤ fuel
      → resolve_loop drivers fuel current cs v ≡ walk current (names cs) v
  unfolding resolve_loop walk names
  resolve_loop_lem zero current [] v l = refl
  resolve_loop_lem zero current (c ∷ cs) v l = absurd (omega arith)
  resolve_loop_lem (suc fuel) current [] v l = refl
  resolve_loop_lem (suc fuel) current (c ∷ cs) v l =
      resolve_round fuel current c cs v (first_of (c ∷ cs)) l refl
        (λ child w h. resolve_loop_lem fuel child (rest_of (c ∷ cs)) w h)

  pub names-past_slash : (path : List ℕ) → names (past_slash drivers path) ≡ names path
  names-past_slash [] = refl
  names-past_slash (c ∷ cs) = elim (Bool-cases (is_slash c)) [
    | inl e ↦ rw e (sym (names-slash c cs e))
    | inr e ↦ rw e refl
  ]

  pub length-past_slash : (path : List ℕ) → length (past_slash drivers path) ≤ length path
  length-past_slash [] = omega arith
  length-past_slash (c ∷ cs) = elim (Bool-cases (is_slash c)) [
    | inl e ↦ rw e (omega arith)
    | inr e ↦ rw e (omega arith)
  ]

  -- Following a path is the walk along its names from the root of the namespace, for a path with a slash
  -- in front, or else from its current directory: slashes in a row, in front and at the end change
  -- nothing, the loop ends for every path, and the first name of more than 255 bytes makes the call
  -- fail after the names before it have been entered.
  pub resolve_path_internal_ns_lem :
      (ns : Namespace) (path : List ℕ) (v : Vfs D)
      → resolve_path_internal_ns drivers ns path v ≡ walk (start_of drivers ns path) (names path) v
  unfolding resolve_path_internal_ns
  resolve_path_internal_ns_lem ns path v =
      resolve_loop_lem (length path) (start_of drivers ns path) (past_slash drivers path) v
        (length-past_slash path)
      ∙ ap (λ n. walk (start_of drivers ns path) n v) (names-past_slash path)
