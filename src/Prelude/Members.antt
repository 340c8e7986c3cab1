-- ===== src/Prelude/Members.antt =====
-- Lists of process numbers without repetition: membership, removal, and how long they can be.
use Prim.Native.Nat.{ℕ, zero, suc, ◌≤◌, ◌<◌}
use mathlib.Core.Path.{◌≡◌, refl}
use mathlib.Core.Logic.{◌≢◌, inl, inr}
use mathlib.Core.Bool.{Bool, true, false, ◌||◌}
use mathlib.Core.List.{List, [], ◌∷◌, ◌++◌}
use native.Mathlib.Omega.{arith}
use minx.Prelude.Tests.{◌==◌, if◌then◌else◌, Bool-cases}
use minx.Prelude.Lists.{length}

abbrev pub has : ℕ → List ℕ → Bool
has p [] = false
has p (x ∷ xs) = (p == x) || has p xs

abbrev pub Distinct : List ℕ → Type 0
Distinct [] = Unit
Distinct (x ∷ xs) = (has x xs ≡ false) × Distinct xs

-- Without the first occurrence of `p`.
abbrev pub remove : ℕ → List ℕ → List ℕ
remove p [] = []
remove p (x ∷ xs) = if p == x then xs else x ∷ remove p xs

pub has-append : (p x : ℕ) (xs : List ℕ) → has p (xs ++ x ∷ []) ≡ (has p xs || (p == x))
has-append p x [] = ground arith
has-append p x (y ∷ xs) = ground (arith, has-append p x xs)

pub Distinct-append :
    (x : ℕ) (xs : List ℕ) → Distinct xs → has x xs ≡ false → Distinct (xs ++ x ∷ [])
Distinct-append x [] d h = (refl, tt)
Distinct-append x (y ∷ xs) d h = ground (arith, has-append y x xs, Distinct-append x xs d.1)

pub has-remove_ne : (p x : ℕ) (xs : List ℕ) → p ≢ x → has p (remove x xs) ≡ has p xs
has-remove_ne p x [] ne = refl
has-remove_ne p x (y ∷ xs) ne = ground (arith, has-remove_ne p x xs)

pub has-remove_self : (x : ℕ) (xs : List ℕ) → Distinct xs → has x (remove x xs) ≡ false
has-remove_self x [] d = refl
has-remove_self x (y ∷ xs) d = ground (arith, has-remove_self x xs d.1)

pub Distinct-remove : (x : ℕ) (xs : List ℕ) → Distinct xs → Distinct (remove x xs)
Distinct-remove x [] d = tt
Distinct-remove x (y ∷ xs) d = elim (Bool-cases (x == y)) [
  | inl e ↦ rw e d.1
  | inr e ↦ rw e (rw (has-remove_ne y x xs (ground arith)) d.0, Distinct-remove x xs d.1)
]

length-remove : (x : ℕ) (xs : List ℕ) → length xs ≤ suc (length (remove x xs))
length-remove x [] = omega arith
length-remove x (y ∷ xs) = ground (arith, length-remove x xs)

below_of_remove :
    (n : ℕ) (xs : List ℕ)
    → Distinct xs
    → ((p : ℕ) → has p xs ≡ true → p < suc n)
    → (p : ℕ) → has p (remove n xs) ≡ true
    → p < n
below_of_remove n xs d all p h = ground (arith, all p, has-remove_ne p n xs, has-remove_self n xs d)

-- Distinct numbers below `n` are at most `n` many.
pub length-le_of_Distinct :
    (n : ℕ) (xs : List ℕ) → Distinct xs → ((p : ℕ) → has p xs ≡ true → p < n) → length xs ≤ n
length-le_of_Distinct n [] d all = omega arith
length-le_of_Distinct zero (x ∷ xs) d all = absurd (omega (arith, all x (ground arith)))
length-le_of_Distinct (suc n) (x ∷ xs) d all = omega (
  arith,
  length-remove n (x ∷ xs),
  length-le_of_Distinct n (remove n (x ∷ xs)) (Distinct-remove n (x ∷ xs) d)
      (below_of_remove n (x ∷ xs) d all),
)
