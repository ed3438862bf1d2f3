-- ===== src/Fat16/NameScan.antt =====
-- What the two loops of `fat16_name_matches` make of a request: its 8.3 name in upper case.
use mathlib.Core.List.{append_assoc, append-nil}
use nyxis_os.Base.{
  ℕ, zero, suc, ◌+◌, ◌-◌, ◌≤◌, ◌<◌, ◌≡◌, ◌≢◌, refl, ap, sym, ◌∙◌, none, some, List, [], ◌∷◌, ◌++◌,
  map, set, replicate, leb, if◌then◌else◌, arith, length, length-append, set-append,
  length-replicate, leb-of-le, leb-suc, not-leb-of-lt,
}
use nyxis_os.Base.Members.{All}
use nyxis_os.Fat16.Name.{fat16_toupper, space, dot, scan_name, scan_extension}

-- No dot stands in the text.
abbrev pub NoDot : List ℕ → Type 0
NoDot = All (λ c. c ≢ dot)

-- `xs` filled up with blanks to `n` bytes.
abbrev pub padded : ℕ → List ℕ → List ℕ
padded n xs = xs ++ replicate (n - length xs) space

-- The eleven bytes of a short name.
abbrev pub short_name : List ℕ → List ℕ → List ℕ
short_name base ext = padded 8 (map fat16_toupper base) ++ padded 3 (map fat16_toupper ext)

-- The next blank is overwritten.
fill :
    (done rest : List ℕ) (k c : ℕ)
    → set (done ++ (replicate (suc k) space ++ rest)) (length done) c
      ≡ (done ++ c ∷ []) ++ (replicate k space ++ rest)
fill done rest k c =
    set-append done (replicate k space ++ rest) space c
    ∙ sym (append_assoc done (c ∷ []) (replicate k space ++ rest))

-- What follows the name in a request: nothing, or a dot.
abbrev pub Ends : List ℕ → Type 0
Ends [] = Unit {0}
Ends (c ∷ cs) = c ≡ dot

scan_end :
    (tail : List ℕ) (len : ℕ) (norm : List ℕ)
    → Ends tail
    → scan_name tail len norm ≡ some (tail, len, norm)
unfolding scan_name
scan_end [] len norm e = refl
scan_end (c ∷ cs) len norm e = ground arith

scan_more :
    (c : ℕ) (cs : List ℕ) (len : ℕ) (norm : List ℕ)
    → c ≢ dot
    → len < 8
    → scan_name (c ∷ cs) len norm ≡ scan_name cs (len + 1) (set norm len (fat16_toupper c))
unfolding scan_name
scan_more c cs len norm h lt = ground arith

scan_stop :
    (c : ℕ) (cs : List ℕ) (len : ℕ) (norm : List ℕ)
    → c ≢ dot
    → 8 ≤ len
    → scan_name (c ∷ cs) len norm ≡ none
unfolding scan_name
scan_stop c cs len norm h le = ground arith

-- A name that fits is copied in upper case; a longer one is refused.
scan_base :
    (base tail done rest : List ℕ) (k : ℕ)
    → NoDot base
    → Ends tail
    → length done + k ≡ 8
    → scan_name (base ++ tail) (length done) (done ++ (replicate k space ++ rest)) ≡ (
        if leb (length base) k
        then some (
          tail,
          length done + length base,
          (done ++ map fat16_toupper base) ++ (replicate (k - length base) space ++ rest),
        )
        else none)
scan_base [] tail done rest k nd e room =
    let same_k : k - 0 ≡ k = omega arith in
    let same_length : length done + 0 ≡ length done = omega arith in
    scan_end tail (length done) (done ++ (replicate k space ++ rest)) e
    ∙ rw (leb-of-le 0 k (omega arith), same_k, same_length, append-nil)
scan_base (c ∷ base) tail done rest zero nd e room =
    scan_stop c (base ++ tail) (length done) (done ++ (replicate 0 space ++ rest)) nd.0
      (omega arith)
    ∙ rw (not-leb-of-lt (suc (length base)) 0 (omega arith))
scan_base (c ∷ base) tail done rest (suc k) nd e room =
    let longer : length (done ++ fat16_toupper c ∷ []) ≡ length done + 1 =
      length-append done (fat16_toupper c ∷ []) in
    let ih =
      scan_base base tail (done ++ fat16_toupper c ∷ []) rest k nd.1 e (omega (arith, longer)) in
    let same_sum : length done + suc (length base) ≡ length done + 1 + length base = omega arith in
    let same_k : suc k - suc (length base) ≡ k - length base = omega arith in
    scan_more c (base ++ tail) (length done) (done ++ (replicate (suc k) space ++ rest)) nd.0
      (omega arith)
    ∙ rw
        (
          fill done rest k (fat16_toupper c),
          leb-suc,
          same_sum,
          same_k,
          ← append_assoc done (fat16_toupper c ∷ []) (map fat16_toupper base),
        )
        (rw longer at ih)

extension_more :
    (c : ℕ) (cs : List ℕ) (len : ℕ) (norm : List ℕ)
    → c ≢ dot
    → len < 3
    → scan_extension (c ∷ cs) len norm
      ≡ scan_extension cs (len + 1) (set norm (8 + len) (fat16_toupper c))
unfolding scan_extension
extension_more c cs len norm h lt = ground arith

extension_stop :
    (c : ℕ) (cs : List ℕ) (len : ℕ) (norm : List ℕ)
    → 3 ≤ len
    → scan_extension (c ∷ cs) len norm ≡ none
unfolding scan_extension
extension_stop c cs len norm le = ground arith

-- An extension that fits is copied in upper case; a longer one is refused.
scan_ext :
    (ext done : List ℕ) (k len : ℕ)
    → NoDot ext
    → length done ≡ 8 + len
    → len + k ≡ 3
    → scan_extension ext len (done ++ replicate k space) ≡ (
        if leb (length ext) k
        then some ((done ++ map fat16_toupper ext) ++ replicate (k - length ext) space)
        else none)
unfolding scan_extension
scan_ext [] done k len nd place room =
    let same_k : k - 0 ≡ k = omega arith in rw (leb-of-le 0 k (omega arith), same_k, append-nil)
scan_ext (c ∷ ext) done zero len nd place room =
    extension_stop c ext len (done ++ replicate 0 space) (omega arith)
    ∙ rw (not-leb-of-lt (suc (length ext)) 0 (omega arith))
scan_ext (c ∷ ext) done (suc k) len nd place room =
    let longer = length-append done (fat16_toupper c ∷ []) in
    let same_k : suc k - suc (length ext) ≡ k - length ext = omega arith in
    let ih =
      scan_ext ext (done ++ fat16_toupper c ∷ []) k (len + 1) nd.1 (omega (arith, longer))
        (omega arith) in
    extension_more c ext len (done ++ replicate (suc k) space) nd.0 (omega arith)
    ∙ rw
        (
          ← place,
          set-append done (replicate k space) space (fat16_toupper c),
          leb-suc,
          same_k,
          ← append_assoc done (fat16_toupper c ∷ []) (map fat16_toupper ext),
          ← append_assoc done (fat16_toupper c ∷ []) (replicate k space),
        )
        ih

-- A second dot is refused.
pub scan_dot :
    (a b : List ℕ) (len : ℕ) (norm : List ℕ) → scan_extension (a ++ dot ∷ b) len norm ≡ none
unfolding scan_extension
scan_dot [] b len norm = refl
scan_dot (c ∷ a) b len norm =
    ground (arith, scan_dot a b (len + 1) (set norm (8 + len) (fat16_toupper c)))

length-map_upper : (xs : List ℕ) → length (map fat16_toupper xs) ≡ length xs
length-map_upper [] = refl
length-map_upper (x ∷ xs) = ap suc (length-map_upper xs)

length-padded : (n : ℕ) (xs : List ℕ) → length xs ≤ n → length (padded n xs) ≡ n
length-padded n xs h = omega (
  arith,
  length-append xs (replicate (n - length xs) space),
  length-replicate (n - length xs) space,
)

-- What the two loops make of a request.
pub scanned :
    (base tail : List ℕ)
    → NoDot base
    → Ends tail
    → scan_name (base ++ tail) 0 (replicate 11 space) ≡ (
        if leb (length base) 8
        then some (tail, length base, padded 8 (map fat16_toupper base) ++ replicate 3 space)
        else none)
scanned base tail nd e =
    let same : 0 + length base ≡ length base = omega arith in
    rw (length-map_upper base, append_assoc)
      (scan_base base tail [] (replicate 3 space) 8 nd e (omega arith) ∙ rw same)

pub extended :
    (base ext : List ℕ)
    → length base ≤ 8
    → NoDot ext
    → scan_extension ext 0 (padded 8 (map fat16_toupper base) ++ replicate 3 space)
      ≡ (if leb (length ext) 3 then some (short_name base ext) else none)
extended base ext h nd =
    rw (length-map_upper ext, ← append_assoc (padded 8 (map fat16_toupper base)))
      (scan_ext ext (padded 8 (map fat16_toupper base)) 3 0 nd
        (length-padded 8 (map fat16_toupper base) (omega (arith, length-map_upper base)))
        (omega arith))
