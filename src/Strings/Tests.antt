-- ===== src/Strings/Tests.antt =====
-- The string routines at two short texts.
use minx.Prelude.{
  ℕ, ◌+◌, ◌≤◌, ◌<◌, ◌≡◌, refl, List, [], ◌∷◌, ◌++◌, arith, length, ◌==◌, if◌then◌else◌, ok, inl,
  inr,
}
use minx.Prelude.Int.{ℤ, pos}
use minx.Strings.{Bytes, strcat, strcmp, itoa, with_prefix}
use minx.Strings.Text.{IsText, strcat-IsText}
use minx.Strings.Compare.{Compares, strcmp-Compares}
use minx.Strings.Number.{value_after, itoa-value}

-- The text ab at 10 and the text c at 20.
abbrev texts : Bytes
texts i = if i == 10 then 97 else if i == 11 then 98 else if i == 20 then 99 else 0

texts-byte : (i : ℕ) → texts i < 256
texts-byte i = ground arith

texts-IsText_10 : IsText texts 10 (97 ∷ 98 ∷ [])
texts-IsText_10 = (refl, omega arith, (refl, omega arith, refl))

texts-IsText_20 : IsText texts 20 (99 ∷ [])
texts-IsText_20 = (refl, omega arith, refl)

strcat-IsText_case :
    (m' : Bytes) × (strcat 3 10 20 texts ≡ ok m')
    × IsText m' 10 ((97 ∷ 98 ∷ []) ++ (99 ∷ []))
    × ((i : ℕ) → i < 10 → m' i ≡ texts i)
    × ((i : ℕ) → 10 + 2 + 1 < i → m' i ≡ texts i)
strcat-IsText_case =
    strcat-IsText texts (97 ∷ 98 ∷ []) (99 ∷ []) 3 10 20 (omega arith) (omega arith) texts-IsText_10
      texts-IsText_20 (inl (omega arith))

strcmp-Compares_case : (d : ℤ) × (strcmp 3 10 20 texts ≡ ok d) × Compares d (97 ∷ 98 ∷ []) (99 ∷ [])
strcmp-Compares_case =
    strcmp-Compares texts texts-byte (97 ∷ 98 ∷ []) (99 ∷ []) 3 10 20 (omega arith) (omega arith)
      (omega arith) texts-IsText_10 texts-IsText_20

itoa-value_case :
    (q : List ℤ) × (itoa 32 (pos 2026) 16 ≡ ok (with_prefix 16 q))
    × (value_after 16 0 q ≡ 2026)
    × (length q ≤ 31)
itoa-value_case = itoa-value 16 2026 (inr refl) (omega arith)
