-- ===== src/Pfa/FreeList.antt =====
-- The free list as a list: what the words of the free frames spell out.
use nyxis_os.Base.{ℕ, ◌%◌, ◌^◌, ◌≤◌, ◌≡◌, ◌≢◌, subst, sym, List, [], ◌∷◌, arith, length}
use nyxis_os.Base.Members.{All, NotIn, count}
use nyxis_os.Base.Words.{page_size}
use nyxis_os.Pfa.{Pfa, update, clear_frame}

-- The address of a frame that can be free: page-aligned, and not the null of the list.
abbrev pub IsFrame : ℕ → Type 0
IsFrame x = (x ≢ 0) × (x % page_size ≡ 0)

-- From `head` on, the words lead through the frames of the list, and then to 0.
abbrev pub Chain : (ℕ → ℕ) → ℕ → List ℕ → Type 0
Chain w head [] = head ≡ 0
Chain w head (x ∷ xs) = (head ≡ x) × IsFrame x × Chain w (w x) xs

-- The allocator holds exactly the frames of the list, the next to be given out first.
pub record Holds (p : Pfa) (free : List ℕ) : Type 0 where
  pub chain : Chain p.word p.free_head free
  pub once : (a : ℕ) → count a free ≤ 1
  pub counted : p.free_count ≡ length free % 2 ^ 64

-- Words that agree at the frames of the list spell it out alike.
pub Chain-agree :
    (w u : ℕ → ℕ) (head : ℕ) (xs : List ℕ)
    → All (λ x. u x ≡ w x) xs
    → Chain w head xs
    → Chain u head xs
Chain-agree w u head [] same c = c
Chain-agree w u head (x ∷ xs) same c =
    (c.0, c.1, subst (λ k. Chain u k xs) (sym same.0) (Chain-agree w u (w x) xs same.1 c.2))

update_agree : (w : ℕ → ℕ) (a v : ℕ) (xs : List ℕ) → NotIn a xs → All (λ x. update w a v x ≡ w x) xs
update_agree w a v [] h = tt
update_agree w a v (x ∷ xs) h = (ground arith, update_agree w a v xs h.1)

-- A write to another frame's first word leaves the list.
pub Chain-update :
    (w : ℕ → ℕ) (a v head : ℕ) (xs : List ℕ)
    → NotIn a xs
    → Chain w head xs
    → Chain (update w a v) head xs
Chain-update w a v head xs h = Chain-agree w (update w a v) head xs (update_agree w a v xs h)

clear_agree :
    (w : ℕ → ℕ) (a head : ℕ) (xs : List ℕ)
    → a % page_size ≡ 0
    → NotIn a xs
    → Chain w head xs
    → All (λ x. clear_frame w a x ≡ w x) xs
clear_agree w a head [] aligned h c = tt
clear_agree w a head (x ∷ xs) aligned h c = (ground arith, clear_agree w a (w x) xs aligned h.1 c.2)

-- Clearing another frame leaves the list.
pub Chain-clear :
    (w : ℕ → ℕ) (a head : ℕ) (xs : List ℕ)
    → a % page_size ≡ 0
    → NotIn a xs
    → Chain w head xs
    → Chain (clear_frame w a) head xs
Chain-clear w a head xs aligned h c =
    Chain-agree w (clear_frame w a) head xs (clear_agree w a head xs aligned h c) c
