-- ===== src/Pfa/Safety.antt =====
-- Which frames `pfa_init` does not touch.
use nyxis_os.Base.{
  ℕ, ◌+◌, ◌*◌, ◌%◌, ◌^◌, ◌≤◌, ◌<◌, ◌≡◌, ◌⊎◌, inl, inr, true, false, List, [], ◌∷◌, ◌&&◌, leb, ltb,
  if◌then◌else◌, arith,
}
use native.Mathlib.Decide.{ℕ_discrete}
use nyxis_os.Base.Members.{All, count}
use nyxis_os.Base.Words.{page_size}
use nyxis_os.Base.Status.{ok}
use nyxis_os.Pfa.{Pfa, Layout, MemDesc, low_reserved, pfa_init}
use nyxis_os.Pfa.FreeList.{Holds}
use nyxis_os.Pfa.Range.{Apart}
use nyxis_os.Pfa.Init.{offers, offered, init_lem, offered_safe}

-- How many descriptors of the map cover an address, of whatever type they are.
abbrev pub covered : List MemDesc → ℕ → ℕ
covered [] a = 0
covered (d ∷ ds) a =
    (if leb d.phys_start a && ltb a (d.phys_start + d.num_pages * page_size) then 1 else 0)
    + covered ds a

-- The whole frame lies in a descriptor of conventional memory.
abbrev pub IsConventional : List MemDesc → ℕ → Type 0
IsConventional [] a = ⊥
IsConventional (d ∷ ds) a =
    ((d.conventional ≡ true)
      × (d.phys_start ≤ a)
      × (a + page_size ≤ d.phys_start + d.num_pages * page_size))
    ⊎ IsConventional ds a

-- A frame that may be handed out: conventional memory in the HHDM, above the first megabyte and clear
-- of the kernel image and the initrd.
abbrev pub IsSafe : Layout → List MemDesc → ℕ → Type 0
IsSafe l ds a =
    IsConventional ds a
    × (a % page_size ≡ 0)
    × (low_reserved ≤ a)
    × (a + page_size ≤ l.hhdm_limit)
    × Apart a (a + page_size) l.kernel_start l.kernel_end
    × Apart a (a + page_size) l.initrd_start l.initrd_end

offers_covered :
    (l : Layout) (d : MemDesc) (a : ℕ)
    → offers l d a
      ≤ (if leb d.phys_start a && ltb a (d.phys_start + d.num_pages * page_size) then 1 else 0)
offers_covered l d a = ground arith

offered-covered : (l : Layout) (ds : List MemDesc) (a : ℕ) → offered l ds a ≤ covered ds a
offered-covered l [] a = omega arith
offered-covered l (d ∷ ds) a = omega (arith, offers_covered l d a, offered-covered l ds a)

offered-IsConventional :
    (l : Layout) (ds : List MemDesc) (a : ℕ) → 0 < offered l ds a → IsConventional ds a
offered-IsConventional l [] a h = absurd (omega arith)
offered-IsConventional l (d ∷ ds) a h = elim (ℕ_discrete (offers l d a) 0) [
  | yes z ↦ inr (offered-IsConventional l ds a (omega arith))
  | no nz ↦ inl (ground arith, ground arith, ground arith)
]

All-of-count : (P : ℕ → Type 0) (xs : List ℕ) → ((a : ℕ) → 0 < count a xs → P a) → All P xs
All-of-count P [] h = tt
All-of-count P (x ∷ xs) h = (h x (ground arith), All-of-count P xs (λ a c. h a (ground (arith, c))))

-- On a memory map whose descriptors do not overlap, `pfa_init` succeeds, and every frame of the free list
-- that it leaves lies at a page boundary, as a whole in a descriptor of conventional memory and below
-- the limit of the HHDM, above the first megabyte, and clear of the kernel image and the initrd.
pub pfa_init-IsSafe :
    (l : Layout) (ds : List MemDesc) (p : Pfa)
    → p.initialized ≡ false
    → l.hhdm_limit ≤ 2 ^ 48
    → ((a : ℕ) → covered ds a ≤ 1)
    → (p' : Pfa) × (free : List ℕ) × (pfa_init l ds p ≡ ok p')
      × Holds p' free
      × All (IsSafe l ds) free
pfa_init-IsSafe l ds p e h once =
    let (p', free, runs, holds, exact) =
      init_lem l ds p e h (λ a. omega (arith, offered-covered l ds a, once a)) in
    (
      p',
      free,
      runs,
      holds,
      All-of-count (IsSafe l ds) free λ a c.
          let offer : 0 < offered l ds a = omega (arith, exact a) in
          let (aligned, low, high, kernel, initrd) = offered_safe l ds a h offer in
          (offered-IsConventional l ds a offer, aligned, low, high, kernel, initrd),
    )
