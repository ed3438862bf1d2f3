-- ===== src/Spawn/Balance.antt =====
-- What the creation of a process takes and gives back.
use nyxis_os.Base.{ℕ, zero, suc, ◌+◌, ◌-◌, List}
use nyxis_os.Base.Words.{page_size}
use nyxis_os.Base.Steady.{
  Ends, Steady, Ends-return, Ends-if, Ends-modify, Ends-bind, Ends-then, Ends-on_error,
  Ends-finally, same_outcome, Gives, Gives-bind, Gives-on_error,
}
use nyxis_os.Elf.Borrowing.{Ledger, plus, Out, IsLoan, elf_load-Steady}
use nyxis_os.Spawn.{
  Spawner, map_stack_page, map_stack_pages, map_user_stack, process_spawn, stack_base, stack_init,
}

-- What the calls of spawn.c take and give back: to create an address space takes the one that is
-- returned, and to destroy one that is out, or to hand it over to a new process, gives it back.
pub record IsSpawnLoan {S : Type 0} (m : Spawner S) (l : Ledger S) : Type 0 where
  pub loading : IsLoan m.loader l
  pub open_out :
      (f : ℕ) (a p : ℕ → ℕ) (path : List ℕ) (flags : ℕ)
      → Ends (Out l f a p) (Out l (suc f) a p) (Out l f a p) (m.vfs_open path flags)
  pub close_out : (f : ℕ) (a p : ℕ → ℕ) (s : S) → Out l (suc f) a p s → Out l f a p (m.vfs_close s)
  pub create_out :
      (f : ℕ) (a p : ℕ → ℕ)
      → Gives
          (Out l f a p)
          (λ space. Out l f (plus space a) p)
          (Out l f a p)
          m.paging_addrspace_create
  pub destroy_out :
      (f : ℕ) (a p : ℕ → ℕ) (space : ℕ) (s : S)
      → Out l f (plus space a) p s
      → Out l f a p (m.paging_addrspace_destroy space s)
  pub clear_out :
      (f : ℕ) (a p : ℕ → ℕ) (phys from len : ℕ) (s : S)
      → Out l f a p s
      → Out l f a p (m.clear_bytes phys from len s)
  pub user_out :
      (f : ℕ) (a p : ℕ → ℕ) (space entry top end : ℕ)
      → Ends
          (Out l f (plus space a) p)
          (Out l f a p)
          (Out l f (plus space a) p)
          (m.process_create_user space entry top end)

module _ {S : Type 0} (m : Spawner S) (l : Ledger S) (loan : IsSpawnLoan m l) (f : ℕ)
    (a p : ℕ → ℕ) where
  map_stack_page-Steady : (space page : ℕ) → Steady (Out l f a p) (map_stack_page m space page)
  unfolding map_stack_page
  map_stack_page-Steady space page = Gives-bind (loan.loading.alloc_out f a p) λ phys.
      Ends-then
        (Ends-on_error (m.loader.pfa_free phys) (loan.loading.map_out f a p space phys page _)
          (loan.loading.free_out f a p phys))
        (Ends-return _)

  map_stack_pages-Steady :
      (n space page top_phys : ℕ) → Steady (Out l f a p) (map_stack_pages m n space page top_phys)
  unfolding map_stack_pages
  map_stack_pages-Steady zero space page top_phys = Ends-return _
  map_stack_pages-Steady (suc n) space page top_phys =
      Ends-if _
        (Ends-bind (map_stack_page-Steady space page)
          λ phys. map_stack_pages-Steady n space (page + page_size) _)
        (Ends-return _)

  map_user_stack-Steady : (space : ℕ) → Steady (Out l f a p) (map_user_stack m space)
  unfolding map_user_stack
  map_user_stack-Steady space = Ends-bind (map_stack_pages-Steady 16 space stack_base 0) λ phys.
      Ends-modify (m.clear_bytes phys (page_size - stack_init) stack_init)
        (loan.clear_out f a p phys (page_size - stack_init) stack_init)

process_spawn-Steady :
    {S : Type 0} (m : Spawner S) (l : Ledger S) (loan : IsSpawnLoan m l) (f : ℕ) (a p : ℕ → ℕ)
    (path : List ℕ)
    → Steady (Out l f a p) (process_spawn m path)
unfolding process_spawn
process_spawn-Steady m l loan f a p path = Ends-then (loan.open_out f a p path 1) (
    Gives-bind (Gives-on_error m.vfs_close (loan.create_out (suc f) a p) (loan.close_out f a p))
      λ space.
        let destroys = loan.destroy_out f a p space in
        Ends-bind
          (Ends-on_error (m.paging_addrspace_destroy space)
            (Ends-finally m.vfs_close
              (elf_load-Steady m.loader l loan.loading (suc f) (plus space a) p space)
              (loan.close_out f (plus space a) p) (loan.close_out f (plus space a) p))
            destroys)
          λ r.
            Ends-then
              (Ends-on_error (m.paging_addrspace_destroy space)
                (map_user_stack-Steady m l loan f (plus space a) p space) destroys)
              (Ends-on_error (m.paging_addrspace_destroy space) (loan.user_out f a p space _ _ _)
                destroys))

-- However `process_spawn` ends, as many files are open as before, and the address spaces that belong to
-- no process and the frames that were taken and are mapped nowhere are the same ones as before: it has
-- closed its file, and a failure has destroyed the address space that it had created and freed the
-- frame that it had taken.
pub process_spawn-Out :
    {S : Type 0} (m : Spawner S) (l : Ledger S) (f : ℕ) (a p : ℕ → ℕ) (path : List ℕ) (s : S)
    → IsSpawnLoan m l
    → Out l f a p s
    → Out l f a p (process_spawn m path s).1
process_spawn-Out m l f a p path s loan out =
    same_outcome (Out l f a p) (process_spawn m path s)
      ((process_spawn-Steady m l loan f a p path).runs s out)
