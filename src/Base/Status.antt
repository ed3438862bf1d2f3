-- ===== src/Base/Status.antt =====
-- The status codes of `include/types.h`. A function of the source that returns an `Nstatus` and
-- writes results through pointers returns a `Result` here: `ok` with those results for NSTATUS_OK.
use Prim.Native.Nat.{ℕ}
use mathlib.Core.Bool.{Bool, true, false}
use mathlib.Core.Path.{◌≡◌, refl}
use mathlib.Core.Logic.{◌⊎◌, inl, inr}

-- `Nerror`, without the leading N.
pub data Error : Type 0 where
  not_found invalid_arg out_of_memory permission timeout busy already_exists overflow : Error
  underflow io disconnected unsupported corrupted interrupted unknown divide_by_zero : Error
  arithmetic overflow_math underflow_math nan null_pointer invalid_pointer double_free : Error
  use_after_free stack_overflow heap_corruption buffer_overflow buffer_underflow : Error
  file_not_found path_too_long read_only disk_full bad_filesystem file_corrupted : Error
  too_many_file_system process_failed thread_failed deadlock race_condition connection_lost : Error
  connection_refused host_unreachable protocol_error unauthorized authentication encryption : Error
  invalid_format parse_error syntax_error encoding_error device_failure device_missing : Error
  device_busy hardware_fault not_initialized already_initialized invalid_state : Error
  syscall_failed kernel_fault panic fatal reserved1 reserved2 : Error

-- The code without its error flag (`NSTATUS_CODE`).
abbrev pub code : Error → ℕ
code not_found = 1
code invalid_arg = 2
code out_of_memory = 3
code permission = 4
code timeout = 5
code busy = 6
code already_exists = 7
code overflow = 8
code underflow = 9
code io = 10
code disconnected = 11
code unsupported = 12
code corrupted = 13
code interrupted = 14
code unknown = 15
code divide_by_zero = 16
code arithmetic = 17
code overflow_math = 18
code underflow_math = 19
code nan = 20
code null_pointer = 21
code invalid_pointer = 22
code double_free = 23
code use_after_free = 24
code stack_overflow = 25
code heap_corruption = 26
code buffer_overflow = 27
code buffer_underflow = 28
code file_not_found = 29
code path_too_long = 30
code read_only = 31
code disk_full = 32
code bad_filesystem = 33
code file_corrupted = 34
code too_many_file_system = 35
code process_failed = 36
code thread_failed = 37
code deadlock = 38
code race_condition = 39
code connection_lost = 40
code connection_refused = 41
code host_unreachable = 42
code protocol_error = 43
code unauthorized = 44
code authentication = 45
code encryption = 46
code invalid_format = 47
code parse_error = 48
code syntax_error = 49
code encoding_error = 50
code device_failure = 51
code device_missing = 52
code device_busy = 53
code hardware_fault = 54
code not_initialized = 55
code already_initialized = 56
code invalid_state = 57
code syscall_failed = 58
code kernel_fault = 59
code panic = 60
code fatal = 61
code reserved1 = 62
code reserved2 = 63

pub data Result {ℓ} (A : Type ℓ) : Type ℓ where
  ok : A → Result A
  err : Error → Result A

-- The calls after a failed one are not made.
infixl 5 ◌>>=◌ ◌>>◌
abbrev pub ◌>>=◌ {k ℓ} : {Out : Type ℓ} {In : Type k} → Result In → (In → Result Out) → Result Out
err e >>= _ = err e
ok value >>= next = next value

abbrev pub ◌>>◌ {ℓ} : {Out : Type ℓ} → Result (Unit {0}) → Result Out → Result Out
err e >> _ = err e
ok _ >> next = next

-- An early return: the call goes on if the test fails.
abbrev pub fail_if : Bool → Error → Result (Unit {0})
fail_if true e = err e
fail_if false e = ok tt

-- A call fails with a code or succeeds.
pub Result-cases {ℓ} :
    {Out : Type ℓ} (call : Result Out)
    → ((value : Out) × (call ≡ ok value)) ⊎ ((status : Error) × (call ≡ err status))
Result-cases (err status) = inr (status, refl)
Result-cases (ok value) = inl (value, refl)
