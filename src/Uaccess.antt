-- ===== src/Uaccess.antt =====
-- nxkernel/kernel/syscall/uaccess.c: copies from and to the memory of a user process.
use nyxis_os.Base.{
  ℕ, zero, suc, ◌+◌, ◌-◌, ◌%◌, ◌^◌, Bool, true, false, not, Option, none, some, List, [], ◌∷◌, ◌++◌,
  get_or, set, ltb, ◌==◌, if◌then◌else◌, length,
}
use nyxis_os.Base.Status.{
  Result, ok, err, ◌>>◌, ◌>>=◌, fail_if, invalid_arg, not_initialized, invalid_pointer,
  path_too_long,
}
pub mod Copies
mod Tests

-- What uaccess.c uses: whether there is a current process, `paging_is_user_range` for its address
-- space, and `nx_uaccess_copy` in either direction, which stops at a fault. A store tells whether it
-- came to its end, and what it wrote before a fault stays written.
pub record User (M : Type 0) : Type 0 where
  pub has_process : Bool
  pub is_user_range : ℕ → ℕ → Bool → Bool
  pub load : ℕ → ℕ → M → Option (List ℕ)
  pub store : ℕ → List ℕ → M → Bool × M

-- A fault is an invalid pointer.
unfoldable pub no_fault : {A : Type 0} → Option A → Result A
no_fault none = err invalid_pointer
no_fault (some a) = ok a

unfoldable pub all_stored : {M : Type 0} → Bool × M → Result (Unit {0}) × M
all_stored (true, mem) = (ok tt, mem)
all_stored (false, mem) = (err invalid_pointer, mem)

module _ {M : Type 0} (u : User M) where
  unfoldable pub copy_from_user : ℕ → ℕ → M → Result (List ℕ)
  unfolding no_fault
  copy_from_user user_src len mem =
      if len == 0
      then ok []
      else fail_if (not u.has_process) not_initialized
        >> fail_if (not (u.is_user_range user_src len false)) invalid_pointer
        >> no_fault (u.load user_src len mem)

  -- The status, and the memory after the call.
  unfoldable pub copy_to_user : ℕ → List ℕ → M → Result (Unit {0}) × M
  unfolding all_stored
  copy_to_user user_dst bytes mem =
      if length bytes == 0
      then (ok tt, mem)
      else if not u.has_process
      then (err not_initialized, mem)
      else if not (u.is_user_range user_dst (length bytes) true)
      then (err invalid_pointer, mem)
      else all_stored (u.store user_dst bytes mem)

  -- The end of a round that has its byte: `next` is the next round.
  pub after_byte :
      List ℕ → (List ℕ → Result (Unit {0}) × List ℕ) → Result (List ℕ) → Result (Unit {0}) × List ℕ
  after_byte done next (err e) = (err e, done)
  after_byte done next (ok bytes) =
      let more = done ++ get_or bytes 0 0 ∷ [] in
      let rest = next more in if get_or bytes 0 0 == 0 then (ok tt, more) else rest

  -- The loop of `copy_string_from_user`, with the rounds left and the bytes that are in the buffer.
  pub string_from : ℕ → ℕ → ℕ → M → List ℕ → Result (Unit {0}) × List ℕ
  unfolding after_byte copy_from_user
  string_from zero i user_src mem done = (err path_too_long, set done (length done - 1) 0)
  string_from (suc n) i user_src mem done =
      let addr = (user_src + i) % 2 ^ 64 in
      let step = after_byte done (string_from n (i + 1) user_src mem) (copy_from_user addr 1 mem) in
      if ltb addr user_src then (err invalid_pointer, done) else step

  -- The status and what stands in the buffer.
  pub copy_string_from_user : ℕ → ℕ → M → Result (Unit {0}) × List ℕ
  unfolding string_from
  copy_string_from_user user_src max mem =
      if max == 0
      then (err invalid_arg, [])
      else if user_src == 0
      then (err invalid_pointer, [])
      else string_from max 0 user_src mem []
