-- ===== src/Umem.antt =====
-- nxkernel/kernel/process/umem.c: the heap of a user process.
use nyxis_os.Base.{
  ℕ, zero, suc, ◌+◌, ◌-◌, ◌*◌, ◌/◌, ◌%◌, ◌^◌, Bool, true, false, if◌then◌else◌, ltb, leb, ◌==◌,
}
use nyxis_os.Base.Words.{align_up, page_size}
use nyxis_os.Base.Status.{Error, Result, ok, err, invalid_arg, permission, out_of_memory}
use nyxis_os.Process.{Process}
pub mod Heap
pub mod Mapping
mod Tests

-- An i64: `pos n` is n, and `negsuc n` is -(n + 1).
pub data ℤ : Type 0 where
  pos negsuc : ℕ → ℤ

-- What umem.c calls for the address space of the process. `S` is the state of the frames and of the
-- page tables.
pub record Pages (S : Type 0) : Type 0 where
  pub pfa_alloc : S → Result (ℕ × S)
  pub pfa_free : ℕ → S → S
  pub paging_map_page : ℕ → ℕ → S → Result (Unit {0}) × S
  pub paging_unmap_free_page : ℕ → S → S

-- `NX_HEAP_GROW_MAX_PER_CALL`, `NX_HEAP_MAX_TOTAL` and `NX_USER_STACK_GUARD`
abbrev pub grow_max : ℕ
grow_max = 256 * 1024 * 1024

abbrev pub heap_max : ℕ
heap_max = 512 * 1024 * 1024

abbrev pub stack_guard : ℕ
stack_guard = 0x00007ff800000000 - 64 * 1024 - 4096

module _ {S : Type 0} (m : Pages S) where
  -- `rollback_pages`, and the loop that shrinks the heap, with fuel.
  pub rollback_pages : ℕ → ℕ → ℕ → S → S
  rollback_pages zero page to_page s = s
  rollback_pages (suc fuel) page to_page s =
      let rest = rollback_pages fuel (page + page_size) to_page (m.paging_unmap_free_page page s) in
      if ltb page to_page then rest else s

  -- The pages that an unfinished growth mapped are given back.
  pub give_up : Error → ℕ → ℕ → S → Result (Unit {0}) × S
  unfolding rollback_pages
  give_up e first page s = (err e, rollback_pages (page / page_size) first page s)

  -- What a round of the growth does with the outcome of its mapping, where `next` is the next round.
  pub after_map :
      ℕ → ℕ → ℕ → (S → Result (Unit {0}) × S) → Result (Unit {0}) × S → Result (Unit {0}) × S
  unfolding give_up
  after_map first page phys next (ok u, s) = next s
  after_map first page phys next (err e, s) = give_up e first page (m.pfa_free phys s)

  pub after_alloc : ℕ → ℕ → (S → Result (Unit {0}) × S) → S → Result (ℕ × S) → Result (Unit {0}) × S
  unfolding give_up after_map
  after_alloc first page next s (err e) = give_up e first page s
  after_alloc first page next s (ok r) =
      after_map first page r.0 next (m.paging_map_page r.0 page r.1)

  -- The loop that maps the new pages, with fuel.
  pub map_pages : ℕ → ℕ → ℕ → ℕ → S → Result (Unit {0}) × S
  unfolding after_alloc
  map_pages zero first page last s = (ok tt, s)
  map_pages (suc fuel) first page last s =
      let rest =
        after_alloc first page (map_pages fuel first (page + page_size) last) s (m.pfa_alloc s) in
      if ltb page last then rest else (ok tt, s)

  -- The result is the new brk; `heap_brk` changes on success only.
  pub set_brk : Process → ℕ → Result (Unit {0}) × S → Result ℕ × Process × S
  set_brk p new_brk (ok u, s) = (ok new_brk, record p { heap_brk = new_brk }, s)
  set_brk p new_brk (err e, s) = (err e, p, s)

  pub grow : Process → ℕ → S → Result ℕ × Process × S
  unfolding map_pages set_brk
  grow p inc s =
      let new_brk = (p.heap_brk + inc) % 2 ^ 64 in
      let first = align_up p.heap_brk page_size in
      let last = align_up new_brk page_size in
      if ltb grow_max inc
      then (err invalid_arg, p, s)
      else if ltb heap_max ((new_brk + 2 ^ 64 - p.heap_start) % 2 ^ 64)
      then (err out_of_memory, p, s)
      else if leb stack_guard new_brk
      then (err out_of_memory, p, s)
      else set_brk p new_brk (map_pages (last / page_size) first first last s)

  pub shrink : Process → ℕ → S → Result ℕ × Process × S
  unfolding rollback_pages set_brk
  shrink p dec s =
      let new_brk = (p.heap_brk + 2 ^ 64 - dec) % 2 ^ 64 in
      let first = align_up new_brk page_size in
      let last = align_up p.heap_brk page_size in
      if ltb ((p.heap_brk + 2 ^ 64 - p.heap_start) % 2 ^ 64) dec
      then (err invalid_arg, p, s)
      else set_brk p new_brk (ok tt, rollback_pages (last / page_size) first last s)

  -- The cases of the increment.
  pub brk_by : Process → ℤ → S → Result ℕ × Process × S
  unfolding grow shrink
  brk_by p (pos zero) s = (ok p.heap_brk, p, s)
  brk_by p (pos (suc n)) s = grow p (suc n) s
  brk_by p (negsuc n) s = if n == 2 ^ 63 - 1 then (err invalid_arg, p, s) else shrink p (n + 1) s

  pub umem_brk : Process → ℤ → S → Result ℕ × Process × S
  unfolding brk_by
  umem_brk p increment s = if p.pml4 == 0 then (err permission, p, s) else brk_by p increment s
