-- ===== src/Ramdisk.antt =====
-- drivers/ramdisk/ramdisk.c: disks in memory.
use nyxis_os.Base.{
  ℕ, zero, suc, ◌+◌, ◌-◌, ◌%◌, ◌^◌, Bool, true, false, not, ◌&&◌, ◌||◌, Option, none, some, List,
  [], ◌∷◌, get_or, set, replicate, ltb, leb, ◌==◌, if◌then◌else◌,
}
use nyxis_os.Memory.{Memory, memcpy}
use nyxis_os.Base.Status.{
  Result, ok, err, ◌>>◌, fail_if, invalid_arg, already_exists, too_many_file_system, not_found,
  overflow, invalid_pointer,
}
pub mod Access
pub mod Registry
pub mod Registration
mod Tests

-- `ramdisk_t`
pub record Ramdisk : Type 0 where
  pub is_used : Bool
  pub diskno : ℕ
  pub offset : ℕ
  pub size : ℕ

abbrev pub blank_disk : Ramdisk
blank_disk = record { is_used = false; diskno = 0; offset = 0; size = 0 }

-- `g_ramdisks`
abbrev pub Disks : Type 0
Disks = List Ramdisk

abbrev pub ramdisk_max : ℕ
ramdisk_max = 16

abbrev pub u64_max : ℕ
u64_max = 2 ^ 64 - 1

-- The effect of memset.
pub memset : Memory → ℕ → ℕ → ℕ → Memory
memset mem dest value n a = if leb dest a && ltb a (dest + n) then value else mem a

-- The index of the disk, from `i` on.
pub find_disk : ℕ → ℕ → Disks → Option ℕ
find_disk i diskno [] = none
find_disk i diskno (d ∷ ds) =
    if d.is_used && d.diskno == diskno then some i else find_disk (i + 1) diskno ds

pub ramdisk_find : ℕ → Disks → Option ℕ
unfolding find_disk
ramdisk_find diskno ds = find_disk 0 diskno ds

pub range_within : ℕ → ℕ → ℕ → Bool
range_within start size limit = if ltb limit start then false else leb size (limit - start)

-- The index of the first slot that is not in use, from `i` on.
pub free_disk : ℕ → Disks → Option ℕ
free_disk i [] = none
free_disk i (d ∷ ds) = if d.is_used then free_disk (i + 1) ds else some i

-- The last loop of `ramdisk_init`.
pub take_slot : Disks → Ramdisk → Option ℕ → Result Disks
take_slot ds d none = err too_many_file_system
take_slot ds d (some i) = ok (set ds i d)

abbrev pub is_some : Option ℕ → Bool
is_some none = false
is_some (some i) = true

pub ramdisk_init : ℕ → ℕ → ℕ → Disks → Result Disks
unfolding ramdisk_find range_within free_disk take_slot
ramdisk_init diskno start size ds =
    fail_if (size == 0 || start == 0) invalid_arg
    >> fail_if (not (range_within start size u64_max)) invalid_arg
    >> fail_if (is_some (ramdisk_find diskno ds)) already_exists
    >> take_slot ds (record { is_used = true; diskno = diskno; offset = start; size = size })
        (free_disk 0 ds)

-- The checks that reading and writing share.
pub check_access : Ramdisk → ℕ → ℕ → ℕ → Result (Unit {0})
unfolding range_within
check_access d offset buffer size =
    fail_if (buffer == 0 || size == 0) invalid_arg
    >> fail_if (not (range_within offset size d.size)) overflow
    >> fail_if (not (range_within buffer size u64_max)) invalid_pointer

-- `g_ramdisks[i]`, for an index that `ramdisk_find` found.
abbrev pub disk_at : Disks → ℕ → Ramdisk
disk_at ds i = get_or ds i blank_disk

-- `(usize)(rd->offset + offset)`
abbrev pub place_of : Ramdisk → ℕ → ℕ
place_of d offset = (d.offset + offset) % 2 ^ 64

-- The transfer to and from the disk that was found.
pub read_found : Disks → ℕ → ℕ → ℕ → Memory → Option ℕ → Result Memory
unfolding check_access
read_found ds offset buffer size mem none = err not_found
read_found ds offset buffer size mem (some i) =
    check_access (disk_at ds i) offset buffer size
    >> ok (memcpy mem buffer (place_of (disk_at ds i) offset) size)

pub write_found : Disks → ℕ → ℕ → ℕ → Memory → Option ℕ → Result Memory
unfolding check_access
write_found ds offset buffer size mem none = err not_found
write_found ds offset buffer size mem (some i) =
    check_access (disk_at ds i) offset buffer size
    >> ok (memcpy mem (place_of (disk_at ds i) offset) buffer size)

pub ramdisk_read : ℕ → ℕ → ℕ → ℕ → Disks → Memory → Result Memory
ramdisk_read diskno offset buffer size ds mem =
    read_found ds offset buffer size mem (ramdisk_find diskno ds)

pub ramdisk_write : ℕ → ℕ → ℕ → ℕ → Disks → Memory → Result Memory
ramdisk_write diskno offset buffer size ds mem =
    write_found ds offset buffer size mem (ramdisk_find diskno ds)

pub format_found : Disks → Memory → Option ℕ → Result Memory
unfolding memset
format_found ds mem none = err not_found
format_found ds mem (some i) = ok (memset mem (disk_at ds i).offset 0 (disk_at ds i).size)

pub ramdisk_format : ℕ → Disks → Memory → Result Memory
ramdisk_format diskno ds mem = format_found ds mem (ramdisk_find diskno ds)

pub remove_found : Disks → Option ℕ → Result Disks
remove_found ds none = err not_found
remove_found ds (some i) = ok (set ds i blank_disk)

pub ramdisk_deinit : ℕ → Disks → Result Disks
ramdisk_deinit diskno ds = remove_found ds (ramdisk_find diskno ds)
