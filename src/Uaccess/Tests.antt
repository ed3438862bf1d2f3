-- ===== src/Uaccess/Tests.antt =====
-- A string in the memory of a process.
use nyxis_os.Base.{ℕ, ◌≡◌, refl, true, some, [], ◌∷◌, leb, ◌==◌, if◌then◌else◌}
use nyxis_os.Base.Status.{ok}
use nyxis_os.Uaccess.{
  User, no_fault, copy_from_user, after_byte, string_from, copy_string_from_user,
}
use nyxis_os.Uaccess.Copies.{Copied, copy_string_from_user-Copied}

-- "hi" stands at 4096; the memory holds nothing else.
abbrev memory : ℕ → ℕ
memory a = if a == 4096 then 104 else if a == 4097 then 105 else 0

abbrev user : User (ℕ → ℕ)
user = record {
  has_process = true;
  is_user_range = λ a n w. leb 4096 a;
  load = λ a n mem. some (mem a ∷ []);
  store = λ a bytes mem. (true, mem);
}

copy_string_from_user-Copied_example : Copied 16 [] (copy_string_from_user user 4096 16 memory)
copy_string_from_user-Copied_example = copy_string_from_user-Copied user 4096 16 memory

copies_hi : copy_string_from_user user 4096 16 memory ≡ (ok tt, 104 ∷ 105 ∷ 0 ∷ [])
unfolding copy_string_from_user string_from after_byte copy_from_user no_fault
copies_hi = refl
