-- ===== src/Pfa.antt =====
-- nxkernel/kernel/mm/pfa.c: the allocator of physical frames. The free frames form a linked list
-- that runs through their own first words, which the HHDM alias reaches: `word a` is the u64 at
-- the physical address `a`. Words of addresses that are no multiple of 8 are never read, and what they
-- would hold says nothing of the memory. The lock is not modelled: the code runs on one core.
pub mod FreeList
pub mod Calls
pub mod Owners
pub mod Range
pub mod Init
pub mod Safety
mod Tests
use nyxis_os.Base.{
  ℕ, zero, suc, ◌+◌, ◌-◌, ◌*◌, ◌/◌, ◌%◌, ◌^◌, Bool, true, false, not, ◌&&◌, ◌||◌, List, [], ◌∷◌,
  ltb, leb, ◌==◌, if◌then◌else◌, bit_and,
}
use nyxis_os.Base.Words.{page_size, align_up, align_down, add64}
use nyxis_os.Base.Status.{Result, ok, err, invalid_arg, out_of_memory, already_initialized}

-- `PFA_LOW_RESERVED`
abbrev pub low_reserved : ℕ
low_reserved = 0x100000

-- The static variables of the file, with the memory that they lead into.
pub record Pfa : Type 0 where
  pub free_head : ℕ
  pub free_count : ℕ
  pub initialized : Bool
  pub word : ℕ → ℕ

abbrev pub update : (ℕ → ℕ) → ℕ → ℕ → ℕ → ℕ
update f a v b = if b == a then v else f b

-- memset of the frame at `phys` to 0
abbrev pub clear_frame : (ℕ → ℕ) → ℕ → ℕ → ℕ
clear_frame f phys a = if leb phys a && ltb a (phys + page_size) then 0 else f a

pub ranges_overlap : ℕ → ℕ → ℕ → ℕ → Bool
ranges_overlap a_start a_end b_start b_end =
    if leb a_end a_start || leb b_end b_start then false else ltb a_start b_end && ltb b_start a_end

pub push_free_locked : Pfa → ℕ → Pfa
push_free_locked p phys = record p {
  free_head = phys;
  free_count = (p.free_count + 1) % 2 ^ 64;
  word = update p.word phys p.free_head;
}

-- The frame, and the allocator after it.
pub pfa_alloc : Pfa → Result (ℕ × Pfa)
pfa_alloc p =
    if p.free_head == 0
    then err out_of_memory
    else ok (
      p.free_head,
      record p {
        free_head = p.word p.free_head;
        free_count = (p.free_count + 2 ^ 64 - 1) % 2 ^ 64;
        word = clear_frame p.word p.free_head;
      },
    )

pub pfa_free : Pfa → ℕ → Result Pfa
pfa_free p phys =
    if phys == 0 || not (bit_and phys (page_size - 1) == 0)
    then err invalid_arg
    else ok (push_free_locked p phys)

pub pfa_free_count : Pfa → ℕ
pfa_free_count p = p.free_count

-- What `pfa_init` reads of a `ntbli_memdesc_t`; `conventional` is its test of the type.
pub record MemDesc : Type 0 where
  pub conventional : Bool
  pub phys_start : ℕ
  pub num_pages : ℕ

-- The other arguments of `pfa_init`.
pub record Layout : Type 0 where
  pub kernel_start : ℕ
  pub kernel_end : ℕ
  pub initrd_start : ℕ
  pub initrd_end : ℕ
  pub hhdm_limit : ℕ

-- The tests that make the inner loop of `pfa_init` skip a frame.
pub is_reserved : Layout → ℕ → Bool
unfolding ranges_overlap
is_reserved l start =
    ltb start low_reserved
    || ranges_overlap start (add64 start page_size) l.kernel_start l.kernel_end
    || (ltb l.initrd_start l.initrd_end
        && ranges_overlap start (add64 start page_size) l.initrd_start l.initrd_end)

-- One round of the inner loop.
pub add_one : Layout → ℕ → Pfa → Pfa
add_one l start p = if is_reserved l start then p else push_free_locked p start

-- The inner loop of `pfa_init`, with fuel.
pub add_frames : ℕ → Layout → ℕ → ℕ → Pfa → Pfa
add_frames zero l start end p = p
add_frames (suc fuel) l start end p =
    let rest = add_frames fuel l (add64 start page_size) end (add_one l start p) in
    if ltb start end then rest else p

-- The bounds of a descriptor before alignment.
abbrev pub desc_end : Layout → MemDesc → ℕ
desc_end l d =
    let end = add64 d.phys_start ((d.num_pages * page_size) % 2 ^ 64) in
    if ltb l.hhdm_limit end then l.hhdm_limit else end

-- The tests that make the outer loop of `pfa_init` skip a descriptor.
pub is_skipped : Layout → MemDesc → Bool
is_skipped l d =
    not d.conventional
    || ltb (0x1000000000000 / page_size) d.num_pages
    || ltb (add64 d.phys_start ((d.num_pages * page_size) % 2 ^ 64)) d.phys_start
    || leb (desc_end l d) d.phys_start

-- One round of the outer loop. The fuel is a round for each page below the end, and one more.
pub add_desc : Layout → MemDesc → Pfa → Pfa
add_desc l d p =
    let start = align_up d.phys_start page_size in
    let end = align_down (desc_end l d) page_size in
    if is_skipped l d then p else add_frames (suc (end / page_size)) l start end p

pub add_descs : Layout → List MemDesc → Pfa → Pfa
add_descs l [] p = p
add_descs l (d ∷ ds) p = add_descs l ds (add_desc l d p)

pub pfa_init : Layout → List MemDesc → Pfa → Result Pfa
pfa_init l ds p =
    if p.initialized
    then err already_initialized
    else ok (record (add_descs l ds (record p { free_head = 0; free_count = 0 })) {
      initialized = true;
    })
