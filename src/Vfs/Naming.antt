-- ===== src/Vfs/Naming.antt =====
-- Paths as lists of names.
use mathlib.Core.List.{append_assoc, append-nil}
use nyxis_os.Base.{
  ℕ, suc, ◌+◌, ◌≤◌, ◌<◌, ◌≡◌, ◌≢◌, refl, ap, sym, ◌∙◌, subst, inl, inr, true, false, List, [], ◌∷◌,
  ◌++◌, leb, if◌then◌else◌, arith, length, length-append, Bool-cases, not-leb-of-lt,
}
use nyxis_os.Base.Status.{ok, err, path_too_long}
use nyxis_os.Vfs.Path.{is_slash, skip_slashes, copy_name, parse_segment}

-- A name that has ended, if it is one.
unfoldable pub emit : List ℕ → List (List ℕ) → List (List ℕ)
emit [] rest = rest
emit (a ∷ as') rest = (a ∷ as') ∷ rest

-- The names between slashes, where `name` has been read of the first.
unfoldable split : List ℕ → List ℕ → List (List ℕ)
unfolding emit
split name [] = emit name []
split name (c ∷ cs) =
    let rest = split [] cs in
    let more = split (name ++ c ∷ []) cs in if is_slash c then emit name rest else more

-- The names of a path; slashes in a row, in front and at the end make none.
unfoldable pub names : List ℕ → List (List ℕ)
unfolding split
names path = split [] path

-- A name up to the next slash, and what stands from there on.
unfoldable pub head_name : List ℕ → List ℕ
head_name [] = []
head_name (c ∷ cs) = if is_slash c then [] else c ∷ head_name cs

unfoldable pub behind : List ℕ → List ℕ
behind [] = []
behind (c ∷ cs) = if is_slash c then c ∷ cs else behind cs

-- A step of each at a slash, and at another character.
split_at_slash :
    (name : List ℕ) (c : ℕ) (cs : List ℕ)
    → is_slash c ≡ true
    → split name (c ∷ cs) ≡ emit name (split [] cs)
unfolding split
split_at_slash name c cs e = rw e refl

split_at_other :
    (name : List ℕ) (c : ℕ) (cs : List ℕ)
    → is_slash c ≡ false
    → split name (c ∷ cs) ≡ split (name ++ c ∷ []) cs
unfolding split
split_at_other name c cs e = rw e refl

split-skip : (cs : List ℕ) → split [] (skip_slashes cs) ≡ split [] cs
unfolding skip_slashes emit
split-skip [] = refl
split-skip (c ∷ cs) = elim (Bool-cases (is_slash c)) [
  | inl e ↦ rw e (split-skip cs ∙ sym (split_at_slash [] c cs e))
  | inr e ↦ rw e refl
]

-- A name that has been begun goes on to the next slash.
split_at_end : (name : List ℕ) → split name [] ≡ emit name (split [] [])
unfolding split emit
split_at_end [] = refl
split_at_end (a ∷ as') = refl

split_lem : (name cs : List ℕ) → split name cs ≡ emit (name ++ head_name cs) (split [] (behind cs))
unfolding head_name behind emit
split_lem name [] = rw (append-nil name) (split_at_end name)
split_lem name (c ∷ cs) = elim (Bool-cases (is_slash c)) [
  | inl e ↦ rw (e, split_at_slash name c cs e, split_at_slash [] c cs e, append-nil name) refl
  | inr e ↦ rw e (
      split_at_other name c cs e
      ∙ split_lem (name ++ c ∷ []) cs
      ∙ ap (λ n. emit n (split [] (behind cs))) (append_assoc name (c ∷ []) (head_name cs)))
]

not_only_slashes :
    (c : ℕ) (cs : List ℕ) → is_slash c ≡ false → head_name (skip_slashes (c ∷ cs)) ≢ []
unfolding head_name skip_slashes
not_only_slashes c cs e h =
    let k : c ∷ head_name cs ≡ [] = simp (skip_slashes, head_name, e) at h in cc

-- There is no name where only slashes are left.
head_name-nil : (cs : List ℕ) → head_name (skip_slashes cs) ≡ [] → split [] cs ≡ []
unfolding head_name skip_slashes emit split
head_name-nil [] h = refl
head_name-nil (c ∷ cs) h = elim (Bool-cases (is_slash c)) [
  | inl e ↦ split_at_slash [] c cs e ∙ head_name-nil cs (rw e at h)
  | inr e ↦ absurd (not_only_slashes c cs e h)
]

-- The parts of a text are as long as it is.
length-skip_slashes : (cs : List ℕ) → length (skip_slashes cs) ≤ length cs
unfolding skip_slashes
length-skip_slashes [] = omega arith
length-skip_slashes (c ∷ cs) = elim (Bool-cases (is_slash c)) [
  | inl e ↦ let ih = length-skip_slashes cs in rw e (omega arith)
  | inr e ↦ rw e (omega arith)
]

length_parts : (cs : List ℕ) → length (head_name cs) + length (behind cs) ≡ length cs
unfolding head_name behind
length_parts [] = refl
length_parts (c ∷ cs) = elim (Bool-cases (is_slash c)) [
  | inl e ↦ rw e (omega arith)
  | inr e ↦ let ih = length_parts cs in rw e (omega arith)
]

head_name_at_slash : (c : ℕ) (cs : List ℕ) → is_slash c ≡ true → head_name (c ∷ cs) ≡ []
unfolding head_name
head_name_at_slash c cs e = rw e refl

head_name_goes_on :
    (c : ℕ) (cs : List ℕ) → is_slash c ≡ false → head_name (c ∷ cs) ≡ c ∷ head_name cs
unfolding head_name
head_name_goes_on c cs e = rw e refl

parts_go_on :
    (name : List ℕ) (c : ℕ) (cs : List ℕ)
    → is_slash c ≡ false
    → ◌≡◌ {A = List ℕ × List ℕ}
        (name ++ c ∷ head_name cs, behind cs)
        (name ++ head_name (c ∷ cs), behind (c ∷ cs))
unfolding head_name behind
parts_go_on name c cs e = rw e refl

copy_name_goes_on :
    (max : ℕ) (name : List ℕ) (c : ℕ) (cs : List ℕ)
    → is_slash c ≡ false
    → length name + 1 < max
    → copy_name max name (c ∷ cs) ≡ copy_name max (name ++ c ∷ []) cs
unfolding copy_name
copy_name_goes_on max name c cs e h = rw (e, not-leb-of-lt max (length name + 1) h) refl

-- The copy of a name that fits, and of one that does not.
copy_name_fits :
    (max : ℕ) (name cs : List ℕ)
    → length name + length (head_name cs) < max
    → copy_name max name cs ≡ ok (name ++ head_name cs, behind cs)
unfolding copy_name head_name behind
copy_name_fits max name [] h = rw (append-nil name) refl
copy_name_fits max name (c ∷ cs) h = elim (Bool-cases (is_slash c)) [
  | inl e ↦ rw (e, append-nil name) refl
  | inr e ↦
      let part : length name + suc (length (head_name cs)) < max =
        subst (λ n. length name + length n < max) (head_name_goes_on c cs e) h in
      let len = length-append name (c ∷ []) in
      copy_name_goes_on max name c cs e (omega arith)
      ∙ copy_name_fits max (name ++ c ∷ []) cs (omega arith)
      ∙ ap (λ n. ok (n, behind cs)) (append_assoc name (c ∷ []) (head_name cs))
      ∙ ap (λ n. ok n) (parts_go_on name c cs e)
]

copy_name_long :
    (max : ℕ) (name cs : List ℕ)
    → length name < max
    → max ≤ length name + length (head_name cs)
    → copy_name max name cs ≡ err path_too_long
unfolding copy_name head_name
copy_name_long max name [] h l = absurd (omega arith)
copy_name_long max name (c ∷ cs) h l = elim (Bool-cases (is_slash c)) [
  | inl e ↦
      let none_left : max ≤ length name + 0 =
        subst (λ n. max ≤ length name + length n) (head_name_at_slash c cs e) l in
      absurd (omega arith)
  | inr e ↦
      let part : max ≤ length name + suc (length (head_name cs)) =
        subst (λ n. max ≤ length name + length n) (head_name_goes_on c cs e) l in
      let len = length-append name (c ∷ []) in
      elim (Bool-cases (leb max (length name + 1))) [
        | inl full ↦ rw (e, full) refl
        | inr fits ↦
            copy_name_goes_on max name c cs e (ground arith)
            ∙ copy_name_long max (name ++ c ∷ []) cs (ground arith) (omega arith)
      ]
]

-- The first name of a path, and the path behind it.
abbrev pub first_of : List ℕ → List ℕ
first_of cs = head_name (skip_slashes cs)

abbrev pub rest_of : List ℕ → List ℕ
rest_of cs = skip_slashes (behind (skip_slashes cs))

pub names-first_of : (cs : List ℕ) → names cs ≡ emit (first_of cs) (names (rest_of cs))
unfolding names
names-first_of cs =
    sym (split-skip cs)
    ∙ split_lem [] (skip_slashes cs)
    ∙ ap (emit (first_of cs)) (sym (split-skip (behind (skip_slashes cs))))

pub names-nil : (cs : List ℕ) → first_of cs ≡ [] → names cs ≡ []
unfolding names
names-nil cs h = head_name-nil cs h

pub names-slash : (c : ℕ) (cs : List ℕ) → is_slash c ≡ true → names (c ∷ cs) ≡ names cs
unfolding names emit
names-slash c cs e = split_at_slash [] c cs e

pub length-rest_of : (cs : List ℕ) → length (first_of cs) + length (rest_of cs) ≤ length cs
length-rest_of cs =
    let a = length-skip_slashes cs in
    let b = length_parts (skip_slashes cs) in
    let c = length-skip_slashes (behind (skip_slashes cs)) in omega arith

pub parse_segment_fits :
    (max : ℕ) (cs : List ℕ)
    → length (first_of cs) < max
    → parse_segment max cs ≡ ok (first_of cs, rest_of cs)
unfolding parse_segment
parse_segment_fits max cs h =
    rw (parse_segment, copy_name_fits max [] (skip_slashes cs) (omega arith)) refl

pub parse_segment_long :
    (max : ℕ) (cs : List ℕ)
    → 0 < max
    → max ≤ length (first_of cs)
    → parse_segment max cs ≡ err path_too_long
unfolding parse_segment
parse_segment_long max cs m h =
    rw (parse_segment, copy_name_long max [] (skip_slashes cs) m (omega arith)) refl

abbrev head_or : List ℕ → ℕ
head_or [] = 0
head_or (c ∷ cs) = c

-- Behind the slashes there is none in front.
pub skip_slashes_head :
    (cs : List ℕ) (d : ℕ) (ds : List ℕ) → skip_slashes cs ≡ d ∷ ds → is_slash d ≡ false
unfolding skip_slashes
skip_slashes_head [] d ds e = absurd (cc)
skip_slashes_head (c ∷ cs) d ds e = elim (Bool-cases (is_slash c)) [
  | inl is ↦ skip_slashes_head cs d ds (rw (skip_slashes, is) at e)
  | inr other ↦ subst (λ k. is_slash k ≡ false) (ap head_or (rw (skip_slashes, other) at e)) other
]

pub skip_slashes_same : (d : ℕ) (ds : List ℕ) → is_slash d ≡ false → skip_slashes (d ∷ ds) ≡ d ∷ ds
unfolding skip_slashes
skip_slashes_same d ds e = rw e refl

pub first_of_cons :
    (d : ℕ) (ds : List ℕ) → is_slash d ≡ false → first_of (d ∷ ds) ≡ d ∷ head_name ds
first_of_cons d ds e = ap head_name (skip_slashes_same d ds e) ∙ head_name_goes_on d ds e
