-- ===== src/Spawn.antt =====
-- nxkernel/kernel/process/spawn.c: the creation of a user process from a file.
pub mod Balance
mod Tests
use nyxis_os.Base.{ℕ, zero, suc, ◌+◌, ◌-◌, ◌*◌, List, ltb, ◌==◌, if◌then◌else◌, bit_or}
use nyxis_os.Base.Words.{page_size}
use nyxis_os.Base.Effect.{Eff, after, ◌>>=◌, ◌>>◌, return, modify, undone, on_error, finally}
use nyxis_os.Base.Status.{Result, ok, err}
use nyxis_os.Elf.{Loader, elf_load, page_rw, page_user, page_nx}

-- `NX_USER_STACK_TOP`, `NX_USER_STACK_BASE` and `NX_USER_STACK_INIT`
abbrev pub stack_top : ℕ
stack_top = 0x00007ff800000000

abbrev pub stack_base : ℕ
stack_base = stack_top - 64 * 1024

abbrev pub stack_init : ℕ
stack_init = 48

-- What spawn.c calls. The open file `file` is part of the state, as for the loader.
pub record Spawner (S : Type 0) : Type 0 where
  pub loader : Loader S
  pub vfs_open : List ℕ → ℕ → Eff S (Unit {0})
  pub vfs_close : S → S
  pub paging_addrspace_create : Eff S ℕ
  pub paging_addrspace_destroy : ℕ → S → S
  pub clear_bytes : ℕ → ℕ → ℕ → S → S
  pub process_create_user : ℕ → ℕ → ℕ → ℕ → Eff S ℕ

-- `PAGE_USER | PAGE_RW | PAGE_NX`
abbrev pub stack_flags : ℕ
stack_flags = bit_or (bit_or page_user page_rw) page_nx

module _ {S : Type 0} (m : Spawner S) where
  -- One round of the loop of `map_user_stack`: the frame.
  pub map_stack_page : ℕ → ℕ → Eff S ℕ
  map_stack_page space page = do
    phys ← m.loader.pfa_alloc
    on_error (m.loader.pfa_free phys) (m.loader.paging_map_page space phys page stack_flags)
    return phys

  -- The loop, with the rounds left and the frame of the topmost page.
  pub map_stack_pages : ℕ → ℕ → ℕ → ℕ → Eff S ℕ
  unfolding map_stack_page
  map_stack_pages zero space page top_phys = return top_phys
  map_stack_pages (suc n) space page top_phys =
      let round = map_stack_page space page >>= λ phys.
      map_stack_pages n space (page + page_size)
        (if page + page_size == stack_top then phys else top_phys) in
      if ltb page stack_top then round else return top_phys

  pub map_user_stack : ℕ → Eff S (Unit {0})
  unfolding map_stack_pages
  map_user_stack space = do
    top_phys ← map_stack_pages 16 space stack_base 0
    modify (m.clear_bytes top_phys (page_size - stack_init) stack_init)

  -- The pid.
  pub process_spawn : List ℕ → Eff S ℕ
  unfolding elf_load map_user_stack
  process_spawn path = do
    m.vfs_open path 1
    space ← on_error m.vfs_close m.paging_addrspace_create
    p ← on_error (m.paging_addrspace_destroy space) (finally m.vfs_close (elf_load m.loader space))
    on_error (m.paging_addrspace_destroy space) (map_user_stack space)
    on_error (m.paging_addrspace_destroy space)
        (m.process_create_user space p.0 (stack_top - stack_init) p.1)
