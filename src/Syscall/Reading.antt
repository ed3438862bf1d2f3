-- ===== src/Syscall/Reading.antt =====
-- What a read through a handle delivers.
use nyxis_os.Base.{
  ℕ, zero, suc, ◌+◌, ◌-◌, ◌%◌, ◌^◌, ◌≤◌, ◌<◌, ◌≡◌, ◌⊎◌, refl, ap, sym, ◌∙◌, subst, inl, inr, true,
  false, ◌&&◌, some, List, [], ◌∷◌, min, length, take, drop, get_or, ltb, leb, if◌then◌else◌, arith,
  Bool-cases,
}
use nyxis_os.Base.Status.{Error, Result, ok, err}
use nyxis_os.Vfs.Handle.{FileHandle}
use native.Mathlib.Nat.{mod-eq_of_lt}
use nyxis_os.Uaccess.{User, copy_to_user}
use nyxis_os.Uaccess.Copies.{copy_to_user-cases, all_stored_ok, all_stored_mem}
use nyxis_os.Base.Found.{plus_zero}
use nyxis_os.Syscall.Slices.{length-take-drop, get_or-take-drop}
use nyxis_os.Syscall.State.{Calls}
use nyxis_os.Syscall.Transfer.{Stream, after_copy, after_read, read_loop, total_or, io_chunk}

nothing : (b a : ℕ) → (leb b a && ltb a (b + 0)) ≡ false
nothing b a = ground arith

err_or_ok : {A : Type 0} {e : Error} {a : A} → err e ≡ ok a → ⊥
err_or_ok e = cc

-- The bytes of a file, and of user memory by their address.
pub record View (M : Type 0) : Type 0 where
  pub vnode : ℕ
  pub content : List ℕ
  pub peek : M → ℕ → ℕ

-- A read gives the bytes from the offset of the handle on and moves it behind them, or fails and leaves
-- the handle where it was.
abbrev pub ReadOf :
    {M Fs : Type 0} → View M → FileHandle → ℕ → Result (List ℕ) × FileHandle × Fs → Type 0
ReadOf v file n r =
    ((r.0 ≡ ok (take n (drop file.offset v.content)))
      × (r.1.offset ≡ file.offset + length (take n (drop file.offset v.content)))
      × (r.1.vnode ≡ some v.vnode))
    ⊎ ((e : Error) × (r.0 ≡ err e) × (r.1.offset ≡ file.offset) × (r.1.vnode ≡ some v.vnode))

-- What a read relies on: what the file system gives, and that a copy puts bytes at the address, all of
-- them or the first ones up to a fault, and changes no other.
pub record IsReading {M Fs : Type 0} (m : Calls M Fs) (u : User M) (v : View M) : Type 0 where
  pub reads :
      (file : FileHandle) (n : ℕ) (fs : Fs)
      → file.vnode ≡ some v.vnode
      → ReadOf v file n (m.vfs_read file n fs)
  pub stores :
      (addr : ℕ) (bytes : List ℕ) (mem : M)
      → (k : ℕ) × (k ≤ length bytes)
        × ((u.store addr bytes mem).0 ≡ true → k ≡ length bytes)
        × ((a : ℕ)
            → v.peek (u.store addr bytes mem).1 a ≡ (
                if leb addr a && ltb a (addr + k) then get_or bytes (a - addr) 0 else v.peek mem a))

module _ {M Fs : Type 0} (m : Calls M Fs) (u : User M) (v : View M) (laws : IsReading m u v)
    (buf len start : ℕ) where
  -- As many bytes as were asked for, or as there are up to the end of the file.
  abbrev pub goal : ℕ
  goal = min len (length v.content - start)

  -- How a read ends with `n` bytes counted and the memory changed up to byte `reach`: all bytes that
  -- there are were delivered; or the file system failed at the next one; or the copy of the next ones
  -- did, and may have written some of them.
  abbrev pub Ending : ℕ → ℕ → Result ℕ × Stream M Fs → Type 0
  Ending n reach r =
      ((r.0 ≡ ok n) × (n ≡ goal) × (reach ≡ n))
      ⊎ (((e : Error) × (file : FileHandle) × (want : ℕ) × (fs : Fs) × (file.offset ≡ start + n)
            × (file.vnode ≡ some v.vnode)
            × ((m.vfs_read file want fs).0 ≡ err e)
            × (r.0 ≡ total_or n e)
            × (reach ≡ n))
          ⊎ ((e : Error) × (want : ℕ) × (mem : M) × (copy_to_user u ((buf + n) % 2 ^ 64)
                  (take want (drop (start + n) v.content)) mem
                ≡ (err e, r.1.mem))
              × (r.0 ≡ total_or n e)))

  -- From `mem`, where `total` bytes had been delivered, to `r`: in all `n` bytes have been, and the
  -- offset of the handle stands behind them. User memory shows the bytes of the file up to `reach`.
  pub record Delivered (total : ℕ) (mem : M) (r : Result ℕ × Stream M Fs) : Type 0 where
    pub n : ℕ
    pub reach : ℕ
    pub more : total ≤ n
    pub beyond : n ≤ reach
    pub most : reach ≤ goal
    pub at_offset : r.1.file.offset ≡ start + n
    pub bytes_at :
        (a : ℕ)
        → v.peek r.1.mem a ≡ (
            if leb (buf + total) a && ltb a (buf + reach)
            then get_or v.content (start + (a - buf)) 0
            else v.peek mem a)
    pub ending : Ending n reach r

  -- `k` bytes from the buffer's place `total` on are those of the file.
  abbrev Shows : ℕ → ℕ → M → M → Type 0
  Shows total k mem mem' =
      (a : ℕ)
      → v.peek mem' a ≡ (
          if leb (buf + total) a && ltb a (buf + total + k)
          then get_or v.content (start + (a - buf)) 0
          else v.peek mem a)

  -- Nothing more is counted, and `k` bytes were written.
  ends :
      (total k : ℕ) (mem : M) (r : Result ℕ × Stream M Fs)
      → total + k ≤ goal
      → r.1.file.offset ≡ start + total
      → Shows total k mem r.1.mem
      → Ending total (total + k) r
      → Delivered total mem r
  ends total k mem r le offset shows ending = record {
    n = total;
    reach = total + k;
    more = omega arith;
    beyond = omega arith;
    most = le;
    at_offset = offset;
    bytes_at = λ a. ground (arith, shows a);
    ending = ending;
  }

  -- Nothing more was written either.
  stays :
      (total : ℕ) (mem : M) (r : Result ℕ × Stream M Fs)
      → total ≤ goal
      → r.1.file.offset ≡ start + total
      → r.1.mem ≡ mem
      → Ending total total r
      → Delivered total mem r
  stays total mem r le offset same ending =
      ends total 0 mem r (omega arith) offset
        (λ a. rw (nothing (buf + total) a) (ap (λ t. v.peek t a) same))
        (subst (λ k. Ending total k r) (plus_zero total) ending)

  -- `got` bytes were delivered, and then the rest.
  joined :
      (total got : ℕ) (mem mem' : M) (r : Result ℕ × Stream M Fs)
      → 0 < got
      → total + got ≤ goal
      → Shows total got mem mem'
      → Delivered (total + got) mem' r
      → Delivered total mem r
  joined total got mem mem' r some_bytes le step d = record {
    n = d.n;
    reach = d.reach;
    more = omega (arith, d.more);
    beyond = d.beyond;
    most = d.most;
    at_offset = d.at_offset;
    bytes_at = λ a. ground (arith, d.bytes_at a, step a, d.more, d.beyond);
    ending = d.ending;
  }

  -- What a chunk shows at its addresses, as far as it was stored.
  chunk-Shows :
      (total want k : ℕ) (mem mem' : M)
      → k ≤ length (take want (drop (start + total) v.content))
      → ((a : ℕ)
          → v.peek mem' a ≡ (
              if leb (buf + total) a && ltb a (buf + total + k)
              then get_or (take want (drop (start + total) v.content)) (a - (buf + total)) 0
              else v.peek mem a))
      → Shows total k mem mem'
  chunk-Shows total want k mem mem' few shown a =
      elim (Bool-cases (leb (buf + total) a && ltb a (buf + total + k))) [
        | inr e ↦ rw e (shown a ∙ rw e refl)
        | inl e ↦
            let small : a - (buf + total) < want =
              ground (arith, length-take-drop want (start + total) v.content) in
            let place : start + total + (a - (buf + total)) ≡ start + (a - buf) = ground arith in
            rw e (
              shown a
              ∙ rw e (
                  get_or-take-drop want (start + total) v.content (a - (buf + total)) small
                  ∙ ap (λ t. get_or v.content t 0) place))
      ]

  -- The copy of a chunk: what is written of it, and that a success has written all.
  copied :
      (total want : ℕ) (mem : M)
      → buf + len < 2 ^ 64
      → total ≤ goal
      → 0 < length (take want (drop (start + total) v.content))
      → (k : ℕ) × (k ≤ length (take want (drop (start + total) v.content)))
        × ((copy_to_user u
                ((buf + total) % 2 ^ 64)
                (take want (drop (start + total) v.content))
                mem).0
              ≡ ok tt
            → k ≡ length (take want (drop (start + total) v.content)))
        × Shows total k mem
            (copy_to_user u
              ((buf + total) % 2 ^ 64)
              (take want (drop (start + total) v.content))
              mem).1
  copied total want mem room le some_bytes =
      let bytes = take want (drop (start + total) v.content) in
      let addr = (buf + total) % 2 ^ 64 in
      let addr_is : addr ≡ buf + total = mod-eq_of_lt (omega arith) in
      elim (copy_to_user-cases u addr bytes mem some_bytes) [
        | inl is ↦
            let (k, few, whole, shown) = laws.stores addr bytes mem in
            (
              k,
              few,
              (λ h. whole (all_stored_ok (u.store addr bytes mem) (ap (λ c. c.0) (sym is) ∙ h))),
              chunk-Shows total want k mem (copy_to_user u addr bytes mem).1 few λ a.
                  ap (λ c. v.peek c.1 a) is
                  ∙ ap (λ t. v.peek t a) (all_stored_mem (u.store addr bytes mem))
                  ∙ subst
                      (λ b. v.peek (u.store addr bytes mem).1 a ≡ (
                        if leb b a && ltb a (b + k) then get_or bytes (a - b) 0 else v.peek mem a))
                      addr_is (shown a),
            )
        | inr (e, is) ↦ (
          0,
          omega arith,
          (λ h. absurd (err_or_ok (ap (λ c. c.0) (sym is) ∙ h))),
          λ a. rw (nothing (buf + total) a) (ap (λ c. v.peek c.1 a) is),
        )
      ]

  -- What the next round makes sure of.
  abbrev GoesOn : ℕ → (ℕ → Stream M Fs → Result ℕ × Stream M Fs) → Type 0
  GoesOn before next =
      (total : ℕ) (x : Stream M Fs)
      → before < total
      → total ≤ goal
      → x.file.offset ≡ start + total
      → x.file.vnode ≡ some v.vnode
      → Delivered total x.mem (next total x)

  module _ (room : buf + len < 2 ^ 64) (in_file : start + length v.content < 2 ^ 64)
      (begins : start < 2 ^ 64) where
    -- `k` bytes of the chunk were written.
    after_copy-Delivered :
        (total want k : ℕ) (next : ℕ → Stream M Fs → Result ℕ × Stream M Fs) (x : Stream M Fs)
        (bytes : List ℕ) (r : Result (Unit {0}) × M)
        → bytes ≡ take want (drop (start + total) v.content)
        → 0 < length bytes
        → want ≤ len - total
        → total ≤ goal
        → x.file.offset ≡ start + total + length bytes
        → x.file.vnode ≡ some v.vnode
        → GoesOn total next
        → k ≤ length bytes
        → (r.0 ≡ ok tt → k ≡ length bytes)
        → Shows total k x.mem r.1
        → copy_to_user u ((buf + total) % 2 ^ 64) (take want (drop (start + total) v.content)) x.mem
          ≡ r
        → Delivered total x.mem (after_copy m u total (length bytes) want next r x)
    unfolding after_copy
    after_copy-Delivered total want k next x bytes (err e, mem) is some_bytes most le offset vn go
          few whole shows copy =
        let length_is : length bytes ≡ min want (length v.content - (start + total)) =
          ap length is ∙ length-take-drop want (start + total) v.content in
        ends total k x.mem (after_copy m u total (length bytes) want next (err e, mem) x)
          (ground arith) (ground arith) shows (inr (inr (e, want, x.mem, copy, refl)))
    after_copy-Delivered total want k next x bytes (ok w, mem) is some_bytes most le offset vn go
          few whole shows copy =
        let y = record x { mem = mem } in
        let got = length bytes in
        let length_is : got ≡ min want (length v.content - (start + total)) =
          ap length is ∙ length-take-drop want (start + total) v.content in
        let le' : total + got ≤ goal = ground arith in
        let at' : y.file.offset ≡ start + (total + got) = omega arith in
        joined total got x.mem mem (after_copy m u total got want next (ok w, mem) x) some_bytes le'
          (subst (λ n. Shows total n x.mem mem) (whole refl) shows)
          (elim (Bool-cases (ltb got want)) [
            | inl e ↦
                let done : total + got ≡ goal = ground arith in
                rw e (
                  stays (total + got) mem (ok (total + got), y) le' at' refl
                    (inl (refl, done, refl)))
            | inr e ↦ rw e (go (total + got) y (omega arith) le' at' vn)
          ])

    after_read-Delivered :
        (total want : ℕ) (next : ℕ → Stream M Fs → Result ℕ × Stream M Fs) (x : Stream M Fs)
        (bytes : List ℕ)
        → bytes ≡ take want (drop (start + total) v.content)
        → 0 < want
        → want ≤ len - total
        → total ≤ goal
        → x.file.offset ≡ start + total + length bytes
        → x.file.vnode ≡ some v.vnode
        → GoesOn total next
        → Delivered total x.mem (after_read m u buf total want next (ok bytes) x)
    unfolding after_read
    after_read-Delivered total want next x [] is more most le offset vn go =
        let length_is : 0 ≡ min want (length v.content - (start + total)) =
          ap length is ∙ length-take-drop want (start + total) v.content in
        let done : total ≡ goal = omega arith in
        stays total x.mem (ok total, x) le (omega (arith, offset)) refl (inl (refl, done, refl))
    after_read-Delivered total want next x (b ∷ bs) is more most le offset vn go =
        let some_bytes : 0 < length (take want (drop (start + total) v.content)) =
          subst (λ t. 0 < length t) is (omega arith) in
        let (k, few, whole, shows) = copied total want x.mem room le some_bytes in
        let same = ap (λ t. copy_to_user u ((buf + total) % 2 ^ 64) t x.mem) (sym is) in
        after_copy-Delivered total want k next x (b ∷ bs)
          (copy_to_user u ((buf + total) % 2 ^ 64) (b ∷ bs) x.mem) is (omega arith) most le offset
          vn go (subst (λ t. k ≤ length t) (sym is) few)
          (λ h. whole (ap (λ c. c.0) same ∙ h) ∙ ap length (sym is))
          (subst (λ c. Shows total k x.mem c.1) same shows) same

    read_loop-Delivered :
        (fuel total : ℕ) (x : Stream M Fs)
        → len - total ≤ fuel
        → total ≤ goal
        → x.file.offset ≡ start + total
        → x.file.vnode ≡ some v.vnode
        → Delivered total x.mem (read_loop m u fuel buf len total x)
    unfolding read_loop
    read_loop-Delivered zero total x enough le offset vn =
        stays total x.mem (ok total, x) le offset refl (inl (refl, omega arith, refl))
    read_loop-Delivered (suc fuel) total x enough le offset vn = elim (Bool-cases (ltb total len)) [
      | inr e ↦
          let done : total ≡ goal = ground arith in
          rw e (stays total x.mem (ok total, x) le offset refl (inl (refl, done, refl)))
      | inl e ↦
          let want = min (len - total) io_chunk in
          let lt : total < len = ground arith in
          let bytes = take want (drop x.file.offset v.content) in
          let y = record x {
            file = (m.vfs_read x.file want x.fs).1;
            fs = (m.vfs_read x.file want x.fs).2;
          } in
          elim (laws.reads x.file want x.fs vn) [
            | inr (x_err, is, offset', vn') ↦
                rw (e, is)
                  (stays total x.mem (total_or total x_err, y) le (offset' ∙ offset) refl
                    (inr (inl (x_err, x.file, want, x.fs, offset, vn, is, refl, refl))))
            | inl (is, offset', vn') ↦
                rw (e, is)
                  (after_read-Delivered total want (read_loop m u fuel buf len) y bytes
                    (ap (λ o. take want (drop o v.content)) offset) (omega arith) (omega arith) le
                    (offset' ∙ ap (λ o. o + length bytes) offset) vn'
                    (λ total' z lt' le' at' vz.
                      read_loop-Delivered fuel total' z (omega arith) le' at' vz))
          ]
    ]

    -- The loop of `sys_read` ends with the handle's offset behind the bytes that were delivered, and these
    -- stand at the buffer in user memory, which has changed nowhere else but for bytes of the file
    -- right behind them, where their copy failed halfway. They are as many as were asked for or as
    -- there are to the end of the file, and the result is their number; or a read or a copy failed
    -- at the next one, and the result is their number, or the status if there are none.
    pub read_loop_lem :
        (x : Stream M Fs)
        → x.file.offset ≡ start
        → x.file.vnode ≡ some v.vnode
        → Delivered 0 x.mem (read_loop m u len buf len 0 x)
    read_loop_lem x offset vn =
        read_loop-Delivered len 0 x (omega arith) (omega arith) (omega arith) vn
