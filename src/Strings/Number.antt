-- ===== src/Strings/Number.antt =====
-- `itoa` of a number that is not negative.

use minx.Prelude.{
  ℕ, zero, suc, ◌+◌, ◌-◌, ◌*◌, ◌/◌, ◌%◌, ◌^◌, ◌≤◌, ◌<◌, ◌≡◌, refl, ap, ◌∙◌, ◌⊎◌, inl, inr, false,
  List, [], ◌∷◌, arith, length, ◌==◌, ok, if◌then◌else◌, ltb, bind-ok, ne→==,
}
use minx.Prelude.Int.{ℤ, pos, pos_part}
use minx.Strings.{digits, digit_char, copied_back, with_prefix, itoa}

-- The digit that a character stands for.
abbrev pub digit_of : ℤ → ℕ
digit_of c = if ltb 57 (pos_part c) then pos_part c - 55 else pos_part c - 48

-- The number that digits stand for, the last digit first.
abbrev pub value_back : ℕ → List ℤ → ℕ
value_back base [] = 0
value_back base (c ∷ p) = digit_of c + base * value_back base p

-- The same with the first digit first, after digits that stand for `n`.
abbrev pub value_after : ℕ → ℕ → List ℤ → ℕ
value_after base n [] = n
value_after base n (c ∷ q) = value_after base (n * base + digit_of c) q

digit-back : (d : ℕ) → d < 36 → digit_of (digit_char false d) ≡ d
digit-back d h = ground arith

-- The two bases that the source uses.
abbrev pub IsMode : ℕ → Type 0
IsMode base = (base ≡ 10) ⊎ (base ≡ 16)

-- 2 to the power `f`.
abbrev pub twice : ℕ → ℕ
twice zero = 1
twice (suc f) = 2 * twice f

pub shrinks : (base n t : ℕ) → IsMode base → n < 2 * t → n / base < t
shrinks base n t (inl e) h = rw e (omega (arith, h))
shrinks base n t (inr e) h = rw e (omega (arith, h))

split-digit :
    (base n : ℕ) → IsMode base → digit_of (digit_char false (n % base)) + base * (n / base) ≡ n
split-digit base n (inl e) = rw (digit-back (n % base) (rw e (omega arith))) (rw e (omega arith))
split-digit base n (inr e) = rw (digit-back (n % base) (rw e (omega arith))) (rw e (omega arith))

-- The characters of `n`, the last digit first.
record IsWritten (base n f : ℕ) (p : List ℤ) : Type 0 where
  runs : digits (suc f) false n base ≡ ok p
  value : value_back base p ≡ n
  short : length p ≤ f

digits-IsWritten : (f base n : ℕ) → IsMode base → n < twice f → (p : List ℤ) × IsWritten base n f p
unfolding digits
digits-IsWritten f base zero mode h =
    ([], record { runs = refl; value = refl; short = omega arith })
digits-IsWritten zero base (suc n) mode h = absurd (omega (arith, h))
digits-IsWritten (suc f) base (suc n) mode h =
    let (p, w) =
      digits-IsWritten f base (suc n / base) mode (shrinks base (suc n) (twice f) mode h) in
    let c = digit_char false (suc n % base) in
    let no : (suc n == 0) ≡ false = ne→== _ _ (omega arith) in
    (
      c ∷ p,
      record {
        runs = rw (no, w.runs) refl;
        value = ap (λ v. digit_of c + base * v) w.value ∙ split-digit base (suc n) mode;
        short = omega (arith, w.short);
      },
    )

mul_comm-mode : (base v d : ℕ) → IsMode base → v * base + d ≡ d + base * v
mul_comm-mode base v d (inl e) = rw e (omega arith)
mul_comm-mode base v d (inr e) = rw e (omega arith)

value_after-back :
    (base : ℕ)
    → IsMode base
    → (p q : List ℤ) → value_after base 0 (copied_back p q) ≡ value_after base (value_back base p) q
unfolding copied_back
value_after-back base mode [] q = refl
value_after-back base mode (c ∷ p) q =
    value_after-back base mode p (c ∷ q)
    ∙ ap (λ v. value_after base v q) (mul_comm-mode base (value_back base p) (digit_of c) mode)

length-back : (p q : List ℤ) → length (copied_back p q) ≡ length p + length q
unfolding copied_back
length-back [] q = omega arith
length-back (c ∷ p) q = omega (arith, length-back p (c ∷ q))

-- `itoa` of a number below 2 to the power 31 that is not negative, in base 10 or 16, writes digits
-- that stand for the number, after `0x` in base 16. There are at most 31 digits, which the 32
-- characters of `p` hold, and 32 rounds of fuel are enough.
pub itoa-value :
    (base n : ℕ)
    → IsMode base
    → n < 2 ^ 31
    → (q : List ℤ) × (itoa 32 (pos n) base ≡ ok (with_prefix base q))
      × (value_after base 0 q ≡ n)
      × (length q ≤ 31)
unfolding itoa
itoa-value base zero mode h =
    let (p, w) = digits-IsWritten 31 base 0 mode (omega arith) in
    (
      pos 48 ∷ [],
      bind-ok _ (λ r. ok (with_prefix base (if zero == 0 then pos 48 ∷ [] else copied_back r []))) p
          w.runs,
      omega arith,
      omega arith,
    )
itoa-value base (suc n) mode h =
    let (p, w) = digits-IsWritten 31 base (suc n) mode (omega (arith, h)) in
    let no : (suc n == 0) ≡ false = ne→== _ _ (omega arith) in
    (
      copied_back p [],
      rw no (bind-ok _ (λ r. ok (with_prefix base (copied_back r []))) p w.runs),
      value_after-back base mode p [] ∙ w.value,
      omega (arith, length-back p [], w.short),
    )
