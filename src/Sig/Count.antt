-- ===== src/Sig/Count.antt =====
-- How many distinct values of a list pass a test, whatever the order of the list.
use xgossip.Prelude.{
  ℕ, ◌+◌, ◌≤◌, ◌<◌, ◌≡◌, refl, [], ◌∷◌, Bool, true, false, not, ◌&&◌, ◌||◌, ◌==◌, if◌then◌else◌,
  arith, All,
}
use xgossip.Sig.{Sig}

unfoldable pub elem : ℕ → Sig → Bool
elem a [] = false
elem a (x ∷ s) = (a == x) || elem a s

-- A value is counted where it stands last.
unfoldable pub distinct : (ℕ → Bool) → Sig → ℕ
distinct p [] = 0
distinct p (x ∷ s) = (if p x && not (elem x s) then 1 else 0) + distinct p s

abbrev pub IsSorted : Sig → Type 0
IsSorted [] = Unit
IsSorted (x ∷ s) = All (λ y. x ≤ y) s × IsSorted s

pub elem_below : (a b : ℕ) (s : Sig) → All (λ y. b ≤ y) s → a < b → elem a s ≡ false
unfolding elem
elem_below a b [] h l = refl
elem_below a b (x ∷ s) h l = ground (arith, elem_below a b s h.1 l)

-- Tests that agree on the values of the list count alike.
pub distinct_ext :
    (p q : ℕ → Bool) (s : Sig)
    → ((v : ℕ) → elem v s ≡ true → p v ≡ q v)
    → distinct p s ≡ distinct q s
unfolding distinct elem
distinct_ext p q [] h = refl
distinct_ext p q (x ∷ s) h = ground (arith, h x, distinct_ext p q s (λ v m. ground (arith, h v)))

-- One value taken out of the count.
pub distinct_without :
    (p : ℕ → Bool) (a : ℕ) (s : Sig)
    → distinct p s ≡ distinct (λ v. p v && not (v == a)) s + (if p a && elem a s then 1 else 0)
unfolding distinct elem
distinct_without p a [] = ground arith
distinct_without p a (x ∷ s) = ground (arith, distinct_without p a s, p a, p x)

pub elem-All : (a v : ℕ) (s : Sig) → All (λ y. a ≤ y) s → elem v s ≡ true → a ≤ v
unfolding elem
elem-All a v [] h m = ground arith
elem-All a v (x ∷ s) h m = ground (arith, elem-All a v s h.1)

pub All-le : (a b : ℕ) (s : Sig) → a ≤ b → All (λ y. b ≤ y) s → All (λ y. a ≤ y) s
All-le a b [] l h = tt
All-le a b (x ∷ s) l h = (omega arith, All-le a b s l h.1)
