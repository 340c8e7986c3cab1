-- ===== src/Format/Digits.antt =====
-- `itoa` writes no zero.
use minx.Prelude.{
  ℕ, zero, suc, ◌/◌, ◌%◌, ◌<◌, ◌≢◌, inl, inr, false, List, [], ◌∷◌, arith, ◌==◌, Result, ok, stop,
  ◌>>=◌, if◌then◌else◌, map, Bool-cases,
}
use minx.Prelude.Int.{ℤ, pos}
use minx.Strings.{digits, digit_char, copied_back, with_prefix, itoa}
use minx.Strings.Number.{IsMode}
use minx.Format.{byte_of}
use minx.Format.Pieces.{bytes_of}

-- None of the characters is stored as 0.
abbrev pub NonZero : List ℕ → Type 0
NonZero [] = Unit
NonZero (x ∷ xs) = (x ≢ 0) × NonZero xs

digit-nonzero : (base n : ℕ) → IsMode base → byte_of (digit_char false (n % base)) ≢ 0
digit-nonzero base n (inl e) = rw e (let l : n % 10 < 10 = omega arith in ground (arith, l))
digit-nonzero base n (inr e) = rw e (let l : n % 16 < 16 = omega arith in ground (arith, l))

cons-NonZero :
    (rest : Result (List ℤ)) (c : ℤ)
    → byte_of c ≢ 0
    → NonZero (bytes_of rest)
    → NonZero (bytes_of (rest >>= λ r. ok (c ∷ r)))
cons-NonZero (stop fault) c nz h = tt
cons-NonZero (ok r) c nz h = (nz, h)

digits-NonZero : (fuel base n : ℕ) → IsMode base → NonZero (bytes_of (digits fuel false n base))
unfolding digits
digits-NonZero zero base n mode = tt
digits-NonZero (suc fuel) base n mode = elim (Bool-cases (n == 0)) [
  | inl e ↦ rw e tt
  | inr e ↦ rw e (
      cons-NonZero (digits fuel false (n / base) base) (digit_char false (n % base))
        (digit-nonzero base n mode) (digits-NonZero fuel base (n / base) mode))
]

copied_back-NonZero :
    (p q : List ℤ)
    → NonZero (map byte_of p)
    → NonZero (map byte_of q)
    → NonZero (map byte_of (copied_back p q))
unfolding copied_back
copied_back-NonZero [] q a b = b
copied_back-NonZero (c ∷ p) q (nz, a) b = copied_back-NonZero p (c ∷ q) a (nz, b)

with_prefix-NonZero :
    (base : ℕ) (q : List ℤ)
    → IsMode base
    → NonZero (map byte_of q)
    → NonZero (map byte_of (with_prefix base q))
with_prefix-NonZero base q (inl e) h = rw e h
with_prefix-NonZero base q (inr e) h = rw e (omega arith, (omega arith, h))

written-NonZero :
    (base n : ℕ) (p : Result (List ℤ))
    → IsMode base
    → NonZero (bytes_of p)
    → NonZero (
        bytes_of
          (p >>= λ r. ok (with_prefix base (if n == 0 then pos 48 ∷ [] else copied_back r []))))
written-NonZero base n (stop fault) mode h = tt
written-NonZero base n (ok r) mode h = elim (Bool-cases (n == 0)) [
  | inl e ↦ rw e (with_prefix-NonZero base (pos 48 ∷ []) mode (omega arith, tt))
  | inr e ↦ rw e (with_prefix-NonZero base (copied_back r []) mode (copied_back-NonZero r [] h tt))
]

pub bytes_of-itoa : (base n : ℕ) → IsMode base → NonZero (bytes_of (itoa 32 (pos n) base))
unfolding itoa
bytes_of-itoa base n mode =
    written-NonZero base n (digits 32 false n base) mode (digits-NonZero 32 base n mode)
