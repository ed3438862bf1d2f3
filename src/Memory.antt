-- ===== src/Memory.antt =====
-- nxkernel/lib/memory.c: memcpy over a memory that is a function from an address to the byte there.
pub mod Copying
use nyxis_os.Base.{
  ℕ, zero, suc, ◌+◌, ◌-◌, ◌*◌, ◌/◌, ◌%◌, ◌&&◌, ltb, leb, ◌==◌, if◌then◌else◌, bit_and, bit_or,
}

abbrev pub Memory : Type 0
Memory = ℕ → ℕ

-- `sizeof(nx_word_t)`
abbrev pub word_size : ℕ
word_size = 8

-- The loop over bytes, with the rounds left: `*d8++ = *s8++`.
unfoldable pub copy_bytes : ℕ → ℕ → ℕ → Memory → Memory
copy_bytes zero d8 s8 mem = mem
copy_bytes (suc n) d8 s8 mem =
    copy_bytes n (d8 + 1) (s8 + 1) (λ a. if a == d8 then mem s8 else mem a)

-- A word is read as a whole before it is written.
unfoldable pub copy_word : ℕ → ℕ → Memory → Memory
copy_word d8 s8 mem a = if leb d8 a && ltb a (d8 + word_size) then mem (s8 + (a - d8)) else mem a

-- The loop over words, with the rounds left.
unfoldable pub copy_words : ℕ → ℕ → ℕ → Memory → Memory
unfolding copy_word
copy_words zero d8 s8 mem = mem
copy_words (suc n) d8 s8 mem = copy_words n (d8 + word_size) (s8 + word_size) (copy_word d8 s8 mem)

-- Words first where both pointers are aligned, and the bytes that are left.
unfoldable pub memcpy : Memory → ℕ → ℕ → ℕ → Memory
unfolding copy_bytes copy_words
memcpy mem dest src n =
    let words = n / word_size in
    let done = word_size * words in
    if bit_and (bit_or dest src) (word_size - 1) == 0
    then copy_bytes (n % word_size) (dest + done) (src + done) (copy_words words dest src mem)
    else copy_bytes n dest src mem
