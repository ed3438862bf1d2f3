-- ===== src/Spawn/Tests.antt =====
-- The creation of a process where the calls only count.
use nyxis_os.Base.{ℕ, suc, ◌+◌, ◌-◌, ◌≡◌, refl, ap, ◌∙◌, ◌==◌, if◌then◌else◌, [], ◌∷◌, arith}
use nyxis_os.Base.Status.{ok, err, out_of_memory, file_corrupted}
use nyxis_os.Elf.{Loader, elf_load}
use nyxis_os.Elf.Borrowing.{Ledger, plus, Out}
use nyxis_os.Spawn.{Spawner, process_spawn}
use nyxis_os.Spawn.Balance.{IsSpawnLoan, process_spawn-Out}

record Counts : Type 0 where
  files : ℕ
  spaces : ℕ → ℕ
  frames : ℕ → ℕ

abbrev minus : ℕ → (ℕ → ℕ) → ℕ → ℕ
minus x count y = if y == x then count y - 1 else count y

-- A file of one byte, that reads short.
abbrev counting : Loader Counts
counting = record {
  vfs_fstat = λ s. (ok (record { size = 1; kind = 1 }), s);
  set_offset = λ n s. s;
  vfs_read = λ n s. (ok (0 ∷ []), s);
  pfa_alloc = λ s. (ok 1, record s { frames = plus 1 s.frames });
  pfa_free = λ p s. record s { frames = minus p s.frames };
  put_bytes = λ p bytes s. s;
  paging_map_page = λ space p page flags s. (ok tt, record s { frames = minus p s.frames });
}

abbrev spawner : Spawner Counts
spawner = record {
  loader = counting;
  vfs_open = λ path flags s. (ok tt, record s { files = s.files + 1 });
  vfs_close = λ s. record s { files = s.files - 1 };
  paging_addrspace_create = λ s. (ok 1, record s { spaces = plus 1 s.spaces });
  paging_addrspace_destroy = λ space s. record s { spaces = minus space s.spaces };
  clear_bytes = λ phys from len s. s;
  process_create_user = λ space entry top end s. (err out_of_memory, s);
}

abbrev counts : Ledger Counts
counts = record { files = λ s. s.files; spaces = λ s. s.spaces; frames = λ s. s.frames }

given_back :
    (n x old new : ℕ)
    → new ≡ (if x == n then suc old else old)
    → (if x == n then new - 1 else new) ≡ old
given_back n x old new h = ground arith

minus_one : (f : ℕ) → suc f - 1 ≡ f
minus_one f = omega arith

plus_one : (f : ℕ) → f + 1 ≡ suc f
plus_one f = omega arith

spawner-IsSpawnLoan : IsSpawnLoan spawner counts
spawner-IsSpawnLoan = record {
  loading = record {
    stat_out = λ f a p. record { runs = λ s h. h };
    set_out = λ f a p n s h. h;
    read_out = λ f a p n. record { runs = λ s h. h };
    put_out = λ f a p n bytes s h. h;
    alloc_out = λ f a p. record {
      gives = λ s h. (h.0, h.1, λ x. ap (λ n. if x == 1 then suc n else n) (h.2 x));
    };
    free_out = λ f a p n s h. (h.0, h.1, λ x. given_back n x (p x) (s.frames x) (h.2 x));
    map_out = λ f a p space phys page flags. record {
      runs = λ s h. (h.0, h.1, λ x. given_back phys x (p x) (s.frames x) (h.2 x));
    };
  };
  open_out =
      λ f a p path flags. record { runs = λ s h. (ap (λ n. n + 1) h.0 ∙ plus_one f, h.1, h.2) };
  close_out = λ f a p s h. (ap (λ n. n - 1) h.0 ∙ minus_one f, h.1, h.2);
  create_out = λ f a p. record {
    gives = λ s h. (h.0, (λ x. ap (λ n. if x == 1 then suc n else n) (h.1 x)), h.2);
  };
  destroy_out = λ f a p space s h. (h.0, (λ x. given_back space x (a x) (s.spaces x) (h.1 x)), h.2);
  clear_out = λ f a p phys from len s h. h;
  user_out = λ f a p space entry top end. record { runs = λ s h. h };
}

abbrev before : Counts
before = record { files = 3; spaces = plus 9 (λ x. 0); frames = λ x. 0 }

process_spawn-Out_example :
    Out counts 3 (plus 9 (λ x. 0)) (λ x. 0) (process_spawn spawner [] before).1
process_spawn-Out_example =
    process_spawn-Out spawner counts 3 (plus 9 (λ x. 0)) (λ x. 0) [] before spawner-IsSpawnLoan
      (refl, (λ x. refl), λ x. refl)

-- The header does not fit the file.
short_file : (process_spawn spawner [] before).0 ≡ err file_corrupted
unfolding process_spawn elf_load
short_file = refl
