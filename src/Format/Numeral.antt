-- ===== src/Format/Numeral.antt =====
-- The text that `itoa` of lib/string.c writes, against the digits of the number.
use mathlib.Core.List.{append_assoc, append-nil}
use minx.Prelude.{
  ℕ, zero, suc, ◌/◌, ◌%◌, ◌^◌, ◌<◌, ◌≡◌, refl, ap, sym, ◌∙◌, inl, inr, true, false, List, [], ◌∷◌,
  ◌++◌, arith, ◌==◌, ok, if◌then◌else◌, map, Bool-cases, ltb, bind-ok, ne→==,
}
use minx.Prelude.Int.{ℤ, pos}
use minx.Strings.{digits, digit_char, copied_back, with_prefix, itoa}
use minx.Strings.Number.{IsMode, twice, shrinks}
use minx.Format.{byte_of}
use minx.Format.Pieces.{bytes_of, digit_text, numeral, number_text}

byte_of-digit_char :
    (base n : ℕ) → IsMode base → byte_of (digit_char false (n % base)) ≡ digit_text (n % base)
byte_of-digit_char base n (inl e) = rw e (let l : n % 10 < 10 = omega arith in ground (arith, l))
byte_of-digit_char base n (inr e) = rw e (let l : n % 16 < 16 = omega arith in ground (arith, l))

-- The characters that `digits` finds for `n` are its digits when they are copied back.
record IsNumeral (base n f : ℕ) (p : List ℤ) : Type 0 where
  runs : digits (suc f) false n base ≡ ok p
  text : (q : List ℤ) → map byte_of (copied_back p q) ≡ numeral f base n ++ map byte_of q

one_digit : (base n : ℕ) → IsMode base → ltb n base ≡ true → (n / base ≡ 0) × (n % base ≡ n)
one_digit base n (inl e) = rw e λ l. (ground (arith, l), ground (arith, l))
one_digit base n (inr e) = rw e λ l. (ground (arith, l), ground (arith, l))

more_digits : (base n : ℕ) → IsMode base → ltb n base ≡ false → 0 < n / base
more_digits base n (inl e) = rw e λ l. ground (arith, l)
more_digits base n (inr e) = rw e λ l. ground (arith, l)

digits-IsNumeral :
    (f base n : ℕ) → IsMode base → 0 < n → n < twice f → (p : List ℤ) × IsNumeral base n f p
unfolding digits copied_back numeral
digits-IsNumeral zero base n mode nz h = absurd (omega (arith, nz, h))
digits-IsNumeral (suc f) base n mode nz h =
    let c = digit_char false (n % base) in
    let no : (n == 0) ≡ false = ne→== _ _ (omega (arith, nz)) in
    let same = byte_of-digit_char base n mode in
    elim (Bool-cases (ltb n base)) [
      | inl e ↦
          let (none, all) = one_digit base n mode e in
          (
            c ∷ [],
            record {
              runs = rw (no, none) refl;
              text = λ q. rw e (ap (λ x. x ∷ map byte_of q) (same ∙ ap digit_text all));
            },
          )
      | inr e ↦
          let (p, w) =
            digits-IsNumeral f base (n / base) mode (more_digits base n mode e)
              (shrinks base n (twice f) mode h) in
          (
            c ∷ p,
            record {
              runs = rw (no, w.runs) refl;
              text = λ q. rw e (
                  w.text (c ∷ q)
                  ∙ ap (λ x. numeral f base (n / base) ++ (x ∷ map byte_of q)) same
                  ∙ sym (
                      append_assoc (numeral f base (n / base)) (digit_text (n % base) ∷ [])
                        (map byte_of q)));
            },
          )
    ]

digits-zero : (base : ℕ) → digits 32 false 0 base ≡ ok []
unfolding digits
digits-zero base = refl

with_prefix-bytes :
    (base : ℕ) (q : List ℤ) (xs : List ℕ)
    → IsMode base
    → map byte_of q ≡ xs
    → map byte_of (with_prefix base q) ≡ (if base == 16 then b'0' ∷ b'x' ∷ xs else xs)
with_prefix-bytes base q xs (inl e) h = rw e h
with_prefix-bytes base q xs (inr e) h = rw e (ap (λ ys. b'0' ∷ b'x' ∷ ys) h)

numeral-zero : (base : ℕ) → IsMode base → b'0' ∷ [] ≡ numeral 31 base 0
unfolding numeral
numeral-zero base (inl e) = rw e refl
numeral-zero base (inr e) = rw e refl

-- The text that `itoa` writes for a number of 31 bits.
pub itoa-number_text :
    (base n : ℕ) → IsMode base → n < 2 ^ 31 → bytes_of (itoa 32 (pos n) base) ≡ number_text base n
unfolding itoa
itoa-number_text base zero mode h =
    ap bytes_of (
      bind-ok _ (λ r. ok (with_prefix base (if zero == 0 then pos 48 ∷ [] else copied_back r [])))
        [] (digits-zero base))
    ∙ with_prefix-bytes base (pos 48 ∷ []) _ mode (numeral-zero base mode)
itoa-number_text base (suc n) mode h =
    let (p, w) = digits-IsNumeral 31 base (suc n) mode (omega arith) (omega (arith, h)) in
    let no : (suc n == 0) ≡ false = ne→== _ _ (omega arith) in
    let run : itoa 32 (pos (suc n)) base ≡ ok (with_prefix base (copied_back p [])) =
      rw no (bind-ok _ (λ r. ok (with_prefix base (copied_back r []))) p w.runs) in
    ap bytes_of run
    ∙ with_prefix-bytes base (copied_back p []) _ mode
        (w.text [] ∙ append-nil (numeral 31 base (suc n)))
