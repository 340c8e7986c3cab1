-- ===== src/Fs/Scan.antt =====
-- What a search of a table finds: the first index that passes the test, or that none does.
use minx.Prelude.{
  ℕ, zero, suc, ◌+◌, ◌≤◌, ◌<◌, ◌≡◌, ◌⊎◌, inl, inr, sym, ap, ◌∙◌, Bool, true, false, ◌==◌,
  if◌then◌else◌, Option, none, some, arith, Bool-cases,
}
use minx.Fs.State.{first_from}

-- No index from `j` up to `m` passes the test.
abbrev pub NoneBefore : (ℕ → Bool) → ℕ → ℕ → Type 0
NoneBefore test j m = (i : ℕ) → j ≤ i → i < m → test i ≡ false

pub data Found (test : ℕ → Bool) (j m : ℕ) : Option ℕ → Type 0 where
  absent : NoneBefore test j m → Found test j m none
  first_at : {r : ℕ} → j ≤ r → r < m → test r ≡ true → NoneBefore test j r → Found test j m (some r)

pub NoneBefore-extend :
    (test : ℕ → Bool) (j m : ℕ) → test j ≡ false → NoneBefore test (j + 1) m → NoneBefore test j m
NoneBefore-extend test j m e h i a b = elim (Bool-cases (j == i)) [
  | inl here ↦ let same : j ≡ i = ground (arith, here) in ap test (sym same) ∙ e
  | inr there ↦ h i (ground (arith, there, a)) b
]

pub first_from-Found :
    (left : ℕ) (test : ℕ → Bool) (j m : ℕ) → j + left ≡ m → Found test j m (first_from left test j)
unfolding first_from
first_from-Found zero test j m e = absent (λ i a b. absurd (omega (arith, a, b, e)))
first_from-Found (suc left) test j m e =
    next (first_from-Found left test (j + 1) m (omega (arith, e))) (Bool-cases (test j))
  where
    next :
        {rest : Option ℕ}
        → Found test (j + 1) m rest
        → (test j ≡ true) ⊎ (test j ≡ false)
        → Found test j m (if test j then some j else rest)
    next s (inl passes) =
        rw passes
          (first_at (omega arith) (omega (arith, e)) passes (λ i a b. absurd (omega (arith, a, b))))
    next (absent h) (inr fails) = rw fails (absent (NoneBefore-extend test j m fails h))
    next (first_at a l t h) (inr fails) =
        rw fails (first_at (omega (arith, a)) l t (NoneBefore-extend test j _ fails h))
