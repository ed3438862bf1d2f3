-- ===== src/Umem/Tests.antt =====
-- The heap of a process at concrete values.
use nyxis_os.Base.{
  Bool, false, zero, suc, ap, sym, not, ◌&&◌, ◌||◌, ℕ, ◌≡◌, refl, List, [], ◌∷◌, arith, ◌==◌,
  if◌then◌else◌,
}
use nyxis_os.Base.Words.{align_up}
use nyxis_os.Base.Status.{Result, ok, err, out_of_memory}
use nyxis_os.Process.{Process, blank_process}
use nyxis_os.Umem.{pos, Pages, after_map, after_alloc, map_pages, set_brk, grow, brk_by, umem_brk}
use nyxis_os.Umem.Mapping.{IsPaging, AllOrNone, map_pages-AllOrNone}
use nyxis_os.Umem.Heap.{IsHeap, BrkOutcome, umem_brk-BrkOutcome}

-- The state is the list of the mapped pages; there are three frames.
abbrev pages : Pages (List ℕ)
pages = record {
  pfa_alloc = alloc;
  pfa_free = λ phys s. s;
  paging_map_page = λ phys page s. (ok tt, page ∷ s);
  paging_unmap_free_page = λ page s. unmap page s;
}
  where
    alloc : List ℕ → Result (ℕ × List ℕ)
    alloc (a ∷ b ∷ c ∷ s) = err out_of_memory
    alloc s = ok (1, s)

    unmap : ℕ → List ℕ → List ℕ
    unmap page [] = []
    unmap page (p ∷ s) = if p == page then s else p ∷ unmap page s

abbrev user : Process
user = record blank_process { pml4 = 1; heap_start = 65536; heap_brk = 65636 }

user-IsHeap : IsHeap user
user-IsHeap = record { ordered = omega arith; small = omega arith; below_stack = omega arith }

umem_brk-BrkOutcome_example : BrkOutcome user (pos 5000) (umem_brk pages user (pos 5000) [])
umem_brk-BrkOutcome_example = umem_brk-BrkOutcome pages user user-IsHeap (pos 5000) []

grows : (umem_brk pages user (pos 5000) []).2 ≡ 69632 ∷ []
unfolding umem_brk brk_by grow map_pages after_alloc after_map set_brk align_up
grows = refl

-- A page table as the test for a mapped page, with the number of free frames.
abbrev Bitmap : Type 0
Bitmap = (ℕ → Bool) × ℕ

abbrev take_frame : Bitmap → Result (ℕ × Bitmap)
take_frame (t, zero) = err out_of_memory
take_frame (t, suc n) = ok (n, (t, n))

abbrev bitmap : Pages Bitmap
bitmap = record {
  pfa_alloc = take_frame;
  pfa_free = λ phys s. (s.0, suc s.1);
  paging_map_page = λ phys page s. (ok tt, ((λ q. q == page || s.0 q), s.1));
  paging_unmap_free_page = λ page s. ((λ q. not (q == page) && s.0 q), suc s.1);
}

abbrev is_mapped : Bitmap → ℕ → Bool
is_mapped s q = s.0 q

bitmap-IsPaging : IsPaging bitmap is_mapped
bitmap-IsPaging = record {
  alloc_keeps = keeps;
  free_keeps = λ phys s q. refl;
  maps = λ phys page s q e. refl;
  fails = λ phys page s q x e. cc;
  unmaps = λ page s q. refl;
}
  where
    keeps : (s : Bitmap) (r : ℕ × Bitmap) (q : ℕ) → take_frame s ≡ ok r → r.1.0 q ≡ s.0 q
    keeps (t, zero) r q e = cc
    keeps (t, suc n) r q e = ap (λ (z : Result (ℕ × Bitmap)). value (t, n) z q) (sym e)
      where
        value : Bitmap → Result (ℕ × Bitmap) → ℕ → Bool
        value d (ok z) = z.1.0
        value d (err x) = d.0

abbrev nothing : Bitmap
nothing = ((λ q. false), 1)

map_pages-AllOrNone_example :
    AllOrNone bitmap is_mapped bitmap-IsPaging 4096 12288 nothing refl
      (λ q h. refl)
      (map_pages bitmap 3 4096 4096 12288 nothing)
map_pages-AllOrNone_example =
    map_pages-AllOrNone bitmap is_mapped bitmap-IsPaging 4096 12288 nothing refl (λ q h. refl)
      (omega arith)
