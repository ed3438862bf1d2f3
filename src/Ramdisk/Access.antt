-- ===== src/Ramdisk/Access.antt =====
-- Reading and writing: what is copied, and that it stays inside the disk.
use nyxis_os.Base.{
  ℕ, ◌+◌, ◌-◌, ◌≤◌, ◌<◌, ◌≡◌, ◌≢◌, ◌⊎◌, ◌↔◌, refl, ap, sym, ◌∙◌, subst, true, false, ◌&&◌, leb, ltb,
  some, arith,
}
use nyxis_os.Base.Status.{Result, ok, err, ◌>>◌, ◌>>=◌}
use nyxis_os.Memory.{Memory, memcpy}
use nyxis_os.Memory.Copying.{Safe, memcpy-Moved}
use nyxis_os.Ramdisk.{
  Ramdisk, Disks, u64_max, ramdisk_find, range_within, check_access, disk_at, place_of, read_found,
  write_found, ramdisk_read, ramdisk_write,
}

-- The disk `diskno` is `d`.
abbrev pub Has : Disks → ℕ → Ramdisk → Type 0
Has ds diskno d = (i : ℕ) × (ramdisk_find diskno ds ≡ some i) × (disk_at ds i ≡ d)

-- The bytes lie on the disk and the buffer does not wrap.
abbrev pub Fits : Ramdisk → ℕ → ℕ → ℕ → Type 0
Fits d offset buffer size =
    (buffer ≢ 0) × (size ≢ 0) × (offset + size ≤ d.size) × (buffer + size ≤ u64_max)

-- The disk lies in the address space.
abbrev pub InSpace : Ramdisk → Type 0
InSpace d = d.offset + d.size ≤ u64_max

access-Fits :
    (d : Ramdisk) (offset buffer size : ℕ)
    → Fits d offset buffer size
    → check_access d offset buffer size ≡ ok tt
unfolding check_access range_within
access-Fits d offset buffer size (b, s, o, w) = ground arith

Fits-of_access :
    (d : Ramdisk) (offset buffer size : ℕ)
    → check_access d offset buffer size ≡ ok tt
    → Fits d offset buffer size
unfolding check_access range_within
Fits-of_access d offset buffer size e = ground arith

memcpy_inside :
    (mem : Memory) (dest src n k : ℕ)
    → Safe n dest src
    → k < n
    → memcpy mem dest src n (dest + k) ≡ mem (src + k)
memcpy_inside mem dest src n k safe lt =
    let same : dest + k - dest ≡ k = omega arith in
    let inside : (leb dest (dest + k) && ltb (dest + k) (dest + n)) ≡ true = ground arith in
    memcpy-Moved mem dest src n safe (dest + k) ∙ rw (inside, same) refl

memcpy_outside :
    (mem : Memory) (dest src n a : ℕ)
    → Safe n dest src
    → (a < dest) ⊎ (dest + n ≤ a)
    → memcpy mem dest src n a ≡ mem a
memcpy_outside mem dest src n a safe out =
    let outside : (leb dest a && ltb a (dest + n)) ≡ false = ground arith in
    memcpy-Moved mem dest src n safe a ∙ rw outside refl

-- What succeeds behind the checks has passed them.
passed :
    (d : Ramdisk) (offset buffer size : ℕ) (after : Memory) {mem' : Memory}
    → (check_access d offset buffer size >> ok after) ≡ ok mem'
    → Fits d offset buffer size
passed d offset buffer size after {mem' = mem'} h = go (check_access d offset buffer size) refl h
  where
    go :
        (r : Result (Unit {0}))
        → check_access d offset buffer size ≡ r
        → (r >> ok after) ≡ ok mem'
        → Fits d offset buffer size
    go (ok u) e h = Fits-of_access d offset buffer size e
    go (err x) e h = absurd (cc)

module _ (ds : Disks) (diskno : ℕ) (d : Ramdisk) (has : Has ds diskno d) where
  write_is :
      (offset buffer size : ℕ) (mem : Memory)
      → ramdisk_write diskno offset buffer size ds mem
        ≡ (check_access d offset buffer size >> ok (memcpy mem (place_of d offset) buffer size))
  unfolding ramdisk_write write_found
  write_is offset buffer size mem = let (i, e, same) = has in rw (e, same) refl

  read_is :
      (offset buffer size : ℕ) (mem : Memory)
      → ramdisk_read diskno offset buffer size ds mem
        ≡ (check_access d offset buffer size >> ok (memcpy mem buffer (place_of d offset) size))
  unfolding ramdisk_read read_found
  read_is offset buffer size mem = let (i, e, same) = has in rw (e, same) refl

  -- A transfer from or to a registered disk succeeds exactly if it has a buffer that does not wrap
  -- and at least one byte, and its bytes lie on the disk.
  pub access_iff :
      (offset buffer size : ℕ) (mem : Memory)
      → (((mem' : Memory) × (ramdisk_write diskno offset buffer size ds mem ≡ ok mem'))
          ↔ Fits d offset buffer size)
        × (((mem' : Memory) × (ramdisk_read diskno offset buffer size ds mem ≡ ok mem'))
            ↔ Fits d offset buffer size)
  access_iff offset buffer size mem = (
    (
      (λ h. passed d offset buffer size _ (sym (write_is offset buffer size mem) ∙ h.1)),
      λ f. (
        memcpy mem (place_of d offset) buffer size,
        write_is offset buffer size mem ∙ rw (access-Fits d offset buffer size f) refl,
      ),
    ),
    (
      (λ h. passed d offset buffer size _ (sym (read_is offset buffer size mem) ∙ h.1)),
      λ f. (
        memcpy mem buffer (place_of d offset) size,
        read_is offset buffer size mem ∙ rw (access-Fits d offset buffer size f) refl,
      ),
    ),
  )

  -- The disk has the bytes of the buffer, and all else is as it was.
  abbrev pub Written : ℕ → ℕ → ℕ → Memory → Type 0
  Written offset buffer size mem =
      (mem' : Memory) × (ramdisk_write diskno offset buffer size ds mem ≡ ok mem')
      × ((k : ℕ) → k < size → mem' (d.offset + offset + k) ≡ mem (buffer + k))
      × ((a : ℕ) → (a < d.offset + offset) ⊎ (d.offset + offset + size ≤ a) → mem' a ≡ mem a)

  abbrev pub ReadBack : ℕ → ℕ → ℕ → ℕ → Memory → Type 0
  ReadBack offset buffer buffer' size mem =
      (mem' : Memory) × ((ramdisk_write diskno offset buffer size ds mem >>= λ m.
      ramdisk_read diskno offset buffer' size ds m)
        ≡ ok mem')
      × ((k : ℕ) → k < size → mem' (buffer' + k) ≡ mem (buffer + k))

  module _ (space : InSpace d) where
    plain_place :
        (offset size : ℕ)
        → size ≢ 0
        → offset + size ≤ d.size
        → place_of d offset ≡ d.offset + offset
    plain_place offset size some_bytes fits = omega arith

    -- A write that fits puts the bytes of the buffer on the disk, from the offset on, and changes
    -- no other byte; so it stays inside the disk. The place on the disk does not begin inside the
    -- buffer, behind its first byte.
    pub write_lem :
        (offset buffer size : ℕ) (mem : Memory)
        → Fits d offset buffer size
        → Safe size (d.offset + offset) buffer
        → Written offset buffer size mem
    write_lem offset buffer size mem f safe =
        let place = plain_place offset size f.1 f.2 in
        (
          memcpy mem (place_of d offset) buffer size,
          write_is offset buffer size mem ∙ rw (access-Fits d offset buffer size f) refl,
          (λ k lt. rw place (memcpy_inside mem (d.offset + offset) buffer size k safe lt)),
          λ a out. rw place (memcpy_outside mem (d.offset + offset) buffer size a safe out),
        )

    -- What was written to a place of the disk is read back from there, also into another buffer. The
    -- place on the disk does not begin inside the first buffer, behind its first byte, and the second
    -- buffer does not begin so inside the place.
    pub read-write :
        (offset buffer buffer' size : ℕ) (mem : Memory)
        → Fits d offset buffer size
        → Fits d offset buffer' size
        → Safe size (d.offset + offset) buffer
        → Safe size buffer' (d.offset + offset)
        → ReadBack offset buffer buffer' size mem
    read-write offset buffer buffer' size mem f f' safe safe' =
        let (mem', wrote, inside, outside) = write_lem offset buffer size mem f safe in
        let place = plain_place offset size f.1 f.2 in
        (
          memcpy mem' buffer' (place_of d offset) size,
          ap (λ r. r >>= λ m. ramdisk_read diskno offset buffer' size ds m) wrote
              ∙ read_is offset buffer' size mem'
              ∙ rw (access-Fits d offset buffer' size f') refl,
          λ k lt.
              memcpy_inside mem' buffer' (place_of d offset) size k
                (subst (Safe size buffer') (sym place) safe') lt
              ∙ ap (λ p. mem' (p + k)) place
              ∙ inside k lt,
        )
