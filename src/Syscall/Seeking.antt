-- ===== src/Syscall/Seeking.antt =====
-- What a seek does to a handle, and what a refused handle is refused.
use nyxis_os.Base.{
  ℕ, ◌+◌, ◌^◌, ◌≤◌, ◌<◌, ◌≡◌, ◌⊎◌, ◌↔◌, refl, ap, sym, ◌∙◌, subst, inl, inr, Bool, false, not, some,
  ltb, ◌==◌, if◌then◌else◌, arith, Bool-cases, min, length,
}
use nyxis_os.Base.Status.{Error, Result, ok, err, unsupported, overflow}
use nyxis_os.Base.Effect.{
  Eff, after, ◌>>=◌, ◌>>◌, fail_if, modify, return, lift, after-eq-ok, fail_if-eq-ok,
}
use nyxis_os.Base.Steady.{Outcome, OutcomeOf, Ends, Gives-after, Ends-fail_if, Ends-lift}
use nyxis_os.Process.{Process}
use nyxis_os.Umem.{ℤ, pos, negsuc}
use nyxis_os.Vfs.Handle.{FileHandle, VfsStat}
use nyxis_os.Handles.{Slot, handle_file, right_read, right_seek, nx_handle_lookup}
use nyxis_os.Syscall.State.{
  Kernel, Calls, find_slot, set_file, put_file, on_fs, user_of, cur_handles_lem,
}
use nyxis_os.Syscall.Objects.{sys_seek, seek_base, seek_target, seek_max, to_i64}
use nyxis_os.Syscall.Transfer.{sys_read, read_loop, on_slot, stream_of, io_max, Stream}
use nyxis_os.Syscall.Reading.{View, IsReading, Delivered, read_loop_lem}

-- `target` is `base` moved by the integer, and `base` and the distance are at most `seek_max`.
abbrev pub MovedBy : ℕ → ℤ → ℕ → Type 0
MovedBy base (pos n) target = (n ≤ seek_max) × (target ≡ base + n)
MovedBy base (negsuc n) target = (n < seek_max) × (target + n + 1 ≡ base)

seek_target-MovedBy :
    (base : ℕ) (z : ℤ) {target : ℕ} → seek_target base z ≡ ok target → MovedBy base z target
unfolding seek_target
seek_target-MovedBy base (pos n) h = ground arith
seek_target-MovedBy base (negsuc n) h = ground arith

seek_target_back :
    (base : ℕ) (z : ℤ) (target : ℕ) → MovedBy base z target → seek_target base z ≡ ok target
unfolding seek_target
seek_target_back base (pos n) target h = ground arith
seek_target_back base (negsuc n) target h = ground arith

ok_same : {a b : ℕ} → ok a ≡ ok b → a ≡ b
ok_same e = cc

err_or_ok : {e : Error} {a : ℕ} → err e ≡ ok a → ⊥
err_or_ok e = cc

abbrev size_result : Result VfsStat → Result ℕ
size_result (ok st) = ok st.size
size_result (err e) = err e

size_of :
    {K : Type 0} (r : Result VfsStat × K) (base : ℕ)
    → (after r (λ st. return st.size)).0 ≡ ok base
    → (st : VfsStat) × (r.0 ≡ ok st) × (base ≡ st.size)
size_of (ok st, k) base h = (st, refl, sym (ok_same h))
size_of (err e, k) base h = absurd (err_or_ok h)

size_back :
    {K : Type 0} (r : Result VfsStat × K) (st : VfsStat)
    → r.0 ≡ ok st
    → (after r (λ st. return st.size)).0 ≡ ok st.size
size_back (ok st', k) st h = ap (λ x. size_result x) h
size_back (err e, k) st h = absurd (cc)

module _ {K A B : Type 0} (c : Result A × K) (k : K) {a : A} (found : c ≡ (ok a, k)) where
  -- A call that leaves the state.
  with_slot : (next : A → Eff K B) {r : Result B × K} → after c next ≡ r → next a k ≡ r
  with_slot next h = ap (λ x. after x next) (sym found) ∙ h

  with_slot_back : (next : A → Eff K B) → after c next ≡ next a k
  with_slot_back next = ap (λ x. after x next) found

neither :
    {K B : Type 0} (b c : Bool) (x y z : Eff K B) (k : K)
    → b ≡ false
    → c ≡ false
    → (if b then x else if c then y else z) k ≡ z k
neither b c x y z k e f = rw (e, f) refl

module _ {M Fs : Type 0} (m : Calls M Fs) where
  -- A slot that was found.
  pub find_slot_ok :
      (handle right : ℕ) (k : Kernel M Fs) {p : Process} {r : ℕ × Slot}
      → k.current ≡ some p
      → nx_handle_lookup p.handles handle right ≡ ok r
      → find_slot handle right k ≡ (ok r, k)
  unfolding find_slot
  find_slot_ok handle right k cur look =
      ap (λ c. after c (λ t. lift (nx_handle_lookup t handle right))) (cur_handles_lem k cur)
      ∙ ap (λ x. (x, k)) look

  seek_base_keeps :
      (whence : ℕ) (file : FileHandle) (k : Kernel M Fs)
      → (seek_base m whence file k).1.current ≡ k.current
  unfolding seek_base
  seek_base_keeps whence file k = elim (Bool-cases (whence == 0)) [
    | inl e ↦ rw e refl
    | inr e ↦ elim (Bool-cases (whence == 1)) [
      | inl e1 ↦ rw (e, e1) refl
      | inr e1 ↦ elim (Bool-cases (whence == 2)) [
        | inr e2 ↦ rw (e, e1, e2) refl
        | inl e2 ↦ rw (e, e1, e2) (size_keeps (on_fs (m.vfs_fstat file) k) refl)
      ]
    ]
  ]
    where
      size_keeps :
          (r : Result VfsStat × Kernel M Fs)
          → r.1.current ≡ k.current
          → (after r (λ st. return st.size)).1.current ≡ k.current
      size_keeps (ok st, k1) e = e
      size_keeps (err x, k1) e = e

  put_file_lem :
      (i : ℕ) (file : FileHandle) (k : Kernel M Fs) {p : Process}
      → k.current ≡ some p
      → (put_file i file k).current ≡ some (record p { handles = set_file p.handles i file })
  put_file_lem i file k e = simp (put_file, e)

  put_file_mem :
      (i : ℕ) (file : FileHandle) (k : Kernel M Fs) {p : Process}
      → k.current ≡ some p
      → (put_file i file k).mem ≡ k.mem
  put_file_mem i file k e = simp (put_file, e)

  -- The start, the place or the end of the file, by the number of `NX_SEEK_SET` and so on.
  abbrev pub IsBase : ℕ → FileHandle → Fs → ℕ → Type 0
  IsBase whence file fs base =
      ((whence ≡ 0) × (base ≡ 0))
      ⊎ (((whence ≡ 1) × (base ≡ file.offset))
          ⊎ ((whence ≡ 2) × (st : VfsStat) × ((m.vfs_fstat file fs).0 ≡ ok st) × (base ≡ st.size)))

  seek_base-IsBase :
      (whence : ℕ) (file : FileHandle) (k : Kernel M Fs) (base : ℕ)
      → (seek_base m whence file k).0 ≡ ok base
      → IsBase whence file k.fs base
  unfolding seek_base
  seek_base-IsBase whence file k base h = elim (Bool-cases (whence == 0)) [
    | inl e ↦ inl (ground arith, sym (ok_same (rw (seek_base, e) at h)))
    | inr e ↦ elim (Bool-cases (whence == 1)) [
      | inl e1 ↦ inr (inl (ground arith, sym (ok_same (rw (seek_base, e, e1) at h))))
      | inr e1 ↦ elim (Bool-cases (whence == 2)) [
        | inr e2 ↦ absurd (err_or_ok (rw (seek_base, e, e1, e2) at h))
        | inl e2 ↦
            let (st, is, same) =
              size_of (on_fs (m.vfs_fstat file) k) base (rw (seek_base, e, e1, e2) at h) in
            inr (inr (ground arith, st, is, same))
      ]
    ]
  ]

  seek_base_lem :
      (whence : ℕ) (file : FileHandle) (k : Kernel M Fs) (base : ℕ)
      → IsBase whence file k.fs base
      → (seek_base m whence file k).0 ≡ ok base
  unfolding seek_base
  seek_base_lem whence file k base (inl (w, b)) = rw (seek_base, w) (ap (λ x. ok x) (sym b))
  seek_base_lem whence file k base (inr (inl (w, b))) = rw (seek_base, w) (ap (λ x. ok x) (sym b))
  seek_base_lem whence file k base (inr (inr (w, st, is, b))) =
      rw (seek_base, w) (size_back (on_fs (m.vfs_fstat file) k) st is ∙ ap (λ x. ok x) (sym b))

  -- What a seek leaves: the handle at its target, or all of the process as it was.
  abbrev pub Sought : Process → ℕ → Slot → Result ℕ × Kernel M Fs → Type 0
  Sought p i s (ok t, k) =
      k.current ≡ some (record p { handles = set_file p.handles i (record s.file { offset = t }) })
  Sought p i s (err e, k) = k.current ≡ some p

  -- `target` is the offset, as a signed number, away from the base; base and distance are bounded.
  abbrev pub SeeksTo : ℕ → ℕ → Slot → Fs → ℕ → Type 0
  SeeksTo whence offset s fs target =
      (s.kind ≡ handle_file)
      × ((base : ℕ) × IsBase whence s.file fs base
          × (base ≤ seek_max)
          × MovedBy base (to_i64 offset) target)

  -- `sys_seek` from its slot on.
  abbrev seek_found : ℕ → ℕ → ℕ × Slot → Eff (Kernel M Fs) ℕ
  seek_found offset whence found = do
    fail_if (not (found.1.kind == handle_file)) unsupported
    base ← seek_base m whence found.1.file
    fail_if (ltb seek_max base) overflow
    target ← lift (seek_target base (to_i64 offset))
    modify (put_file found.0 (record found.1.file { offset = target }))
    return target

  seek_found-Sought :
      (offset whence i : ℕ) (s : Slot) (k : Kernel M Fs) (p : Process)
      → k.current ≡ some p
      → Sought p i s (seek_found offset whence (i, s) k)
  seek_found-Sought offset whence i s k p cur = sought p i s (seek_found offset whence (i, s) k) (
      (Gives-after (Ends-fail_if (not (s.kind == handle_file)) unsupported) λ (u : Unit {0}).
          Gives-after (base_keeps p whence s.file) λ (base : ℕ).
            Gives-after (Ends-fail_if (ltb seek_max base) overflow) λ (u : Unit {0}).
              Gives-after (Ends-lift (seek_target base (to_i64 offset))) λ (target : ℕ). record {
                gives = λ k1 e. put_file_lem i (record s.file { offset = target }) k1 e;
              }).gives
        k cur)
    where
      ended :
          (p : Process) (r : Result ℕ × Kernel M Fs)
          → r.1.current ≡ some p
          → Outcome (λ k. k.current ≡ some p) (λ k. k.current ≡ some p) r
      ended p (ok a, k) e = e
      ended p (err x, k) e = e

      base_keeps :
          (p : Process) (whence : ℕ) (file : FileHandle)
          → Ends
              (λ k. k.current ≡ some p)
              (λ k. k.current ≡ some p)
              (λ k. k.current ≡ some p)
              (seek_base m whence file)
      base_keeps p whence file = record {
        runs = λ k e. ended p (seek_base m whence file k) (seek_base_keeps whence file k ∙ e);
      }

      sought :
          (p : Process) (i : ℕ) (s : Slot) (r : Result ℕ × Kernel M Fs)
          → OutcomeOf
              (λ t k.
                k.current
                ≡ some (record p { handles = set_file p.handles i (record s.file { offset = t }) }))
              (λ k. k.current ≡ some p)
              r
          → Sought p i s r
      sought p i s (ok t, k) h = h
      sought p i s (err e, k) h = h

  seek_forth :
      (offset whence target i : ℕ) (s : Slot) (k k' : Kernel M Fs)
      → seek_found offset whence (i, s) k ≡ (ok target, k')
      → SeeksTo whence offset s k.fs target
  seek_forth offset whence target i s k k' h0 =
      let (is_file, h1) = fail_if-eq-ok (not (s.kind == handle_file)) unsupported k _ h0 in
      let (base, e2, h2) = after-eq-ok (seek_base m whence s.file k) _ h1 in
      let k1 = (seek_base m whence s.file k).1 in
      let (fits, h3) = fail_if-eq-ok (ltb seek_max base) overflow k1 _ h2 in
      let (t, e4, h4) = after-eq-ok (lift (seek_target base (to_i64 offset)) k1) _ h3 in
      let same : t ≡ target = ground arith in
      let moved = seek_target-MovedBy base (to_i64 offset) (ap (λ r. r.0) e4) in
      (
        ground arith,
        (
          base,
          seek_base-IsBase whence s.file k base (ap (λ r. r.0) e2),
          not_above base fits,
          subst (MovedBy base (to_i64 offset)) same moved,
        ),
      )
    where
      not_above : (base : ℕ) → ltb seek_max base ≡ false → base ≤ seek_max
      not_above base e = ground arith

  seek_back :
      (offset whence target i : ℕ) (s : Slot) (k : Kernel M Fs)
      → SeeksTo whence offset s k.fs target
      → (seek_found offset whence (i, s) k).0 ≡ ok target
  seek_back offset whence target i s k (kind, (base, is, le, moved)) =
      let file_test : not (s.kind == handle_file) ≡ false = ground arith in
      rw file_test (
        based (seek_base m whence s.file k) base target (seek_base_lem whence s.file k base is) le
          moved)
    where
      based :
          (r : Result ℕ × Kernel M Fs) (base target : ℕ)
          → r.0 ≡ ok base
          → base ≤ seek_max
          → MovedBy base (to_i64 offset) target
          → (after r (λ b.
              fail_if (ltb seek_max b) overflow
              >> (lift (seek_target b (to_i64 offset)) >>= λ t.
                  modify (put_file i (record s.file { offset = t })) >> return t))).0
            ≡ ok target
      based (err e, k1) base target h le moved = absurd (cc)
      based (ok b, k1) base target h le moved =
          let same : b ≡ base = ok_same h in
          let small : ltb seek_max b ≡ false = ground arith in
          rw (small, same, seek_target_back base (to_i64 offset) target moved) refl

  -- A seek through a handle of a file with the right to seek succeeds with a target exactly if the target
  -- is the offset, as a signed number, away from the start, the place or the end of the file, as
  -- `whence` says, where neither the base nor the distance is above `seek_max`, so that nothing
  -- wraps. A success moves the handle to the target, and a failure changes nothing of the process.
  pub sys_seek_lem :
      (handle offset whence target i : ℕ) (s : Slot) (k : Kernel M Fs) (p : Process)
      → k.current ≡ some p
      → nx_handle_lookup p.handles handle right_seek ≡ ok (i, s)
      → (((sys_seek m handle offset whence k).0 ≡ ok target) ↔ SeeksTo whence offset s k.fs target)
        × Sought p i s (sys_seek m handle offset whence k)
  unfolding sys_seek
  sys_seek_lem handle offset whence target i s k p cur look =
      let found = find_slot_ok handle right_seek k cur look in
      let is : sys_seek m handle offset whence k ≡ seek_found offset whence (i, s) k =
        with_slot_back (find_slot handle right_seek k) k found (seek_found offset whence) in
      (
        (
          λ h.
              seek_forth offset whence target i s k (seek_found offset whence (i, s) k).1
                (ap (λ x. (x, (seek_found offset whence (i, s) k).1)) (ap (λ x. x.0) (sym is) ∙ h)),
          λ h. ap (λ x. x.0) is ∙ seek_back offset whence target i s k h,
        ),
        subst (Sought p i s) (sym is) (seek_found-Sought offset whence i s k p cur),
      )

  -- A read through a handle of a file with the right to read delivers what the loop delivers, of at
  -- most `io_max` bytes, from the place of the handle on, and leaves the handle at the end of it.
  pub sys_read_lem :
      (v : View M) (handle buf len i : ℕ) (s : Slot) (k : Kernel M Fs) (p : Process)
      → k.current ≡ some p
      → nx_handle_lookup p.handles handle right_read ≡ ok (i, s)
      → s.kind ≡ handle_file
      → s.file.vnode ≡ some v.vnode
      → (laws : IsReading m (user_of m k) v) → 0 < len
      → buf + len < 2 ^ 64
      → s.file.offset + length v.content < 2 ^ 64
      → (r : Result ℕ × Stream M Fs) × Delivered m
          (user_of m k)
          v
          laws
          buf
          (min len io_max)
          s.file.offset
          0
          k.mem
          r
        × ((sys_read m handle buf len k).0 ≡ r.0)
        × ((sys_read m handle buf len k).1.mem ≡ r.1.mem)
        × ((sys_read m handle buf len k).1.current
            ≡ some (record p { handles = set_file p.handles i r.1.file }))
  unfolding sys_read on_slot
  sys_read_lem v handle buf len i s k p cur look kind vn laws more room in_file =
      let len' = min len io_max in
      let r = read_loop m (user_of m k) len' buf len' 0 (stream_of s.file k) in
      let k1 = record k { mem = r.1.mem; fs = r.1.fs; log = r.1.log } in
      let is : sys_read m handle buf len k ≡ (r.0, put_file i r.1.file k1) =
        with_slot_back (find_slot handle right_read k) k (find_slot_ok handle right_read k cur look)
          _
        ∙ neither (len == 0) (not (s.kind == handle_file)) (return 0) (lift (err unsupported))
            (on_slot i s.file (read_loop m (user_of m k) len' buf len' 0)) k (ground arith)
            (ground arith) in
      (
        r,
        read_loop_lem m (user_of m k) v laws buf len' s.file.offset (omega arith) in_file
            (omega arith) (stream_of s.file k) refl vn,
        ap (λ c. c.0) is,
        ap (λ c. c.1.mem) is ∙ put_file_mem i r.1.file k1 cur,
        ap (λ c. c.1.current) is ∙ put_file_lem i r.1.file k1 cur,
      )
