-- ===== src/Ramdisk/Tests.antt =====
-- The table of the disks and the transfers at concrete values.
use nyxis_os.Base.{ℕ, zero, suc, ◌<◌, ◌≡◌, ◌≢◌, ◌↔◌, refl, inl, inr, true, ◌∷◌, replicate, arith}
use nyxis_os.Base.Status.{ok}
use nyxis_os.Ramdisk.{
  Ramdisk, Disks, blank_disk, disk_at, find_disk, ramdisk_find, range_within, free_disk, take_slot,
  ramdisk_init, ramdisk_read, ramdisk_write,
}
use nyxis_os.Ramdisk.Access.{
  Has, InSpace, Fits, access_iff, Written, write_lem, ReadBack, read-write,
}
use nyxis_os.Ramdisk.Registry.{IsValid, Holds}
use nyxis_os.Ramdisk.Registration.{ramdisk_init_lem, Removed, ramdisk_deinit_lem}

abbrev disk : Ramdisk
disk = record { is_used = true; diskno = 7; offset = 0x1000; size = 512 }

abbrev no_disks : Disks
no_disks = replicate 16 blank_disk

abbrev one_disk : Disks
one_disk = disk ∷ replicate 15 blank_disk

registers : ramdisk_init 7 0x1000 512 no_disks ≡ ok one_disk
unfolding ramdisk_init ramdisk_find find_disk range_within free_disk take_slot
registers = refl

has_disk : Has one_disk 7 disk
unfolding ramdisk_find find_disk
has_disk = (0, refl, refl)

fits : (buffer : ℕ) → buffer ≢ 0 → buffer < 1000000 → Fits disk 16 buffer 32
fits buffer some_buffer lt =
    (some_buffer, (λ e. absurd (omega (arith, e))), omega arith, omega arith)

unused : (n k : ℕ) → (disk_at (replicate n blank_disk) k).is_used ≡ true → ⊥
unused zero k e = cc
unused (suc n) zero e = cc
unused (suc n) (suc k) e = unused n k e

no_disks-IsValid : IsValid no_disks
no_disks-IsValid = record {
  unique = λ diskno k l hk hl. absurd (unused 16 k hk.0);
  placed = λ k u. absurd (unused 16 k u);
}

one_disk-IsValid : IsValid one_disk
one_disk-IsValid = record { unique = unique; placed = placed }
  where
    only : (diskno k : ℕ) → Holds one_disk diskno k → k ≡ 0
    only diskno zero h = refl
    only diskno (suc k) h = absurd (unused 15 k h.0)

    unique : (diskno k l : ℕ) → Holds one_disk diskno k → Holds one_disk diskno l → k ≡ l
    unique diskno k l hk hl = omega (arith, only diskno k hk, only diskno l hl)

    placed : (k : ℕ) → (disk_at one_disk k).is_used ≡ true → InSpace (disk_at one_disk k)
    placed zero u = omega arith
    placed (suc k) u = absurd (unused 15 k u)

access_iff_example :
    (((mem' : ℕ → ℕ) × (ramdisk_write 7 16 5000 32 one_disk (λ a. a) ≡ ok mem'))
      ↔ Fits disk 16 5000 32)
    × (((mem' : ℕ → ℕ) × (ramdisk_read 7 16 5000 32 one_disk (λ a. a) ≡ ok mem'))
        ↔ Fits disk 16 5000 32)
access_iff_example = access_iff one_disk 7 disk has_disk 16 5000 32 (λ a. a)

write_lem_example : Written one_disk 7 disk has_disk 16 9000 32 (λ a. a)
write_lem_example =
    write_lem one_disk 7 disk has_disk (omega arith) 16 9000 32 (λ a. a)
      (fits 9000 (λ e. absurd (omega (arith, e))) (omega arith)) (inl (omega arith))

read-write_example : ReadBack one_disk 7 disk has_disk 16 9000 20000 32 (λ a. a)
read-write_example =
    read-write one_disk 7 disk has_disk (omega arith) 16 9000 20000 32 (λ a. a)
      (fits 9000 (λ e. absurd (omega (arith, e))) (omega arith))
      (fits 20000 (λ e. absurd (omega (arith, e))) (omega arith)) (inl (omega arith))
      (inr (omega arith))

ramdisk_init_lem_example :
    IsValid one_disk
    × Has one_disk 7 disk
    × ((other : ℕ) (d : Ramdisk) → other ≢ 7 → Has no_disks other d → Has one_disk other d)
ramdisk_init_lem_example =
    ramdisk_init_lem 7 0x1000 512 no_disks one_disk no_disks-IsValid registers

ramdisk_deinit_lem_example : Removed 7 one_disk
ramdisk_deinit_lem_example = ramdisk_deinit_lem 7 one_disk one_disk-IsValid
