-- ===== src/Pfa/Calls.antt =====
-- `pfa_alloc` and `pfa_free` against the list of the free frames.
use nyxis_os.Base.{
  ℕ, ◌+◌, ◌-◌, ◌%◌, ◌^◌, ◌≤◌, ◌<◌, ◌≡◌, ◌≢◌, ◌⊎◌, refl, ap, subst, sym, List, [], ◌∷◌, arith,
}
use nyxis_os.Base.Members.{NotIn, NotIn-of-count, count, count-of-NotIn}
use native.Mathlib.Decide.{ℕ_discrete}
use nyxis_os.Base.Bits.{bit_and-ones}
use nyxis_os.Base.Words.{page_size}
use nyxis_os.Base.Status.{ok, err, out_of_memory, invalid_arg}
use nyxis_os.Pfa.{Pfa, update, clear_frame, pfa_alloc, pfa_free, push_free_locked}
use nyxis_os.Pfa.FreeList.{Chain, IsFrame, Holds, Chain-update, Chain-clear}

-- `pfa_alloc` on an empty list.
pub alloc_empty : (p : Pfa) → Holds p [] → pfa_alloc p ≡ err out_of_memory
unfolding pfa_alloc
alloc_empty p v = ground arith

-- `pfa_alloc` gives out the first free frame and keeps the others; the frame comes back cleared,
-- and no word outside it has changed.
pub alloc_lem :
    (p : Pfa) (x : ℕ) (free : List ℕ)
    → Holds p (x ∷ free)
    → (p' : Pfa) × (pfa_alloc p ≡ ok (x, p'))
      × Holds p' free
      × ((a : ℕ) → x ≤ a → a < x + page_size → p'.word a ≡ 0)
      × ((a : ℕ) → (a < x) ⊎ (x + page_size ≤ a) → p'.word a ≡ p.word a)
unfolding pfa_alloc
alloc_lem p x free v = (
  record p {
    free_head = p.word x;
    free_count = (p.free_count + 2 ^ 64 - 1) % 2 ^ 64;
    word = clear_frame p.word x;
  },
  ground arith,
  record {
    chain =
        Chain-clear p.word x (p.word x) free v.chain.1.1
          (NotIn-of-count x free (ground (arith, v.once x))) v.chain.2;
    once = λ a. ground (arith, v.once a);
    counted = omega arith;
  },
  (λ a lo hi. ground arith),
  (λ a out. ground arith),
)

update_self : (w : ℕ → ℕ) (a v : ℕ) → update w a v a ≡ v
update_self w a v = ground arith

push_other : (p : Pfa) (x a : ℕ) → a ≢ x → (push_free_locked p x).word a ≡ p.word a
unfolding push_free_locked
push_other p x a h = ground arith

pub push-Holds :
    (p : Pfa) (x : ℕ) (free : List ℕ)
    → Holds p free
    → IsFrame x
    → NotIn x free
    → Holds (push_free_locked p x) (x ∷ free)
unfolding push_free_locked
push-Holds p x free v frame fresh = record {
  chain = (
    refl,
    frame,
    subst (λ h. Chain (update p.word x p.free_head) h free) (sym (update_self p.word x p.free_head))
        (Chain-update p.word x p.free_head p.free_head free fresh v.chain),
  );
  once = λ a. once_more a (v.once a) (count-of-NotIn x free fresh);
  counted = omega arith;
}
  where
    once_more : (a : ℕ) → count a free ≤ 1 → count x free ≡ 0 → count a (x ∷ free) ≤ 1
    once_more a h k = elim (ℕ_discrete x a) [
      | yes e ↦ ground (arith, ap (λ (b : ℕ). count b free) e)
      | no e ↦ ground arith
    ]

-- `pfa_free` puts a frame that is not free in front of the list; outside the frame's first word
-- nothing changes.
pub free_lem :
    (p : Pfa) (x : ℕ) (free : List ℕ)
    → Holds p free
    → IsFrame x
    → NotIn x free
    → (p' : Pfa) × (pfa_free p x ≡ ok p')
      × Holds p' (x ∷ free)
      × ((a : ℕ) → a ≢ x → p'.word a ≡ p.word a)
unfolding pfa_free
free_lem p x free v frame fresh = (
  push_free_locked p x,
  ground (arith, bit_and-ones 12 x),
  push-Holds p x free v frame fresh,
  (λ a other. push_other p x a other),
)

-- What is no frame address is refused.
pub free_refused : (p : Pfa) (x : ℕ) → ¬ IsFrame x → pfa_free p x ≡ err invalid_arg
unfolding pfa_free
free_refused p x bad = ground (arith, bit_and-ones 12 x)
