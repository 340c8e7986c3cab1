-- ===== src/Strings/Compare.antt =====
-- `strcmp` and `memcmp` decide whether the two are equal.

use minx.Prelude.{
  ℕ, zero, suc, ◌+◌, ◌<◌, ◌≡◌, ◌≢◌, refl, sym, ap, ◌∙◌, ◌⊎◌, inl, inr, true, false, not, ◌&&◌, List,
  [], ◌∷◌, arith, length, ◌==◌, Bool-cases, ok, ne→==, eq→==,
}
use minx.Prelude.Int.{ℤ, pos}
use minx.Strings.{Bytes, char_diff, memcmp, memcmp_from, strcmp, strcmp_from}
use minx.Strings.Text.{IsText}

-- Two bytes have no difference just when they are equal.
char_diff-zero : (a b : ℕ) → a < 256 → b < 256 → char_diff a b ≡ pos 0 → a ≡ b
char_diff-zero a b la lb h = ground (arith, h)

-- The `n` bytes at the two places are the same.
abbrev pub SameBytes : Bytes → ℕ → ℕ → ℕ → Type 0
SameBytes m p1 p2 n = (i : ℕ) → i < n → m (p1 + i) ≡ m (p2 + i)

module _ (m : Bytes) (byte : (i : ℕ) → m i < 256) where
  memcmp_from-same : (n p1 p2 : ℕ) → SameBytes m p1 p2 n → memcmp_from n p1 p2 m ≡ pos 0
  unfolding memcmp_from
  memcmp_from-same zero p1 p2 h = refl
  memcmp_from-same (suc n) p1 p2 h =
      let here : (m p1 == m p2) ≡ true =
        eq→== (m p1) (m p2) (ap m (omega arith) ∙ h 0 (omega arith) ∙ ap m (omega arith)) in
      let rest =
        memcmp_from-same n (p1 + 1) (p2 + 1)
          (λ i l. ap m (omega arith) ∙ h (suc i) (omega (arith, l)) ∙ ap m (omega arith)) in
      rw here rest

  memcmp_from-zero : (n p1 p2 : ℕ) → memcmp_from n p1 p2 m ≡ pos 0 → SameBytes m p1 p2 n
  unfolding memcmp_from
  memcmp_from-zero zero p1 p2 h i l = absurd (omega (arith, l))
  memcmp_from-zero (suc n) p1 p2 h i l = elim (Bool-cases (m p1 == m p2)) [
    | inl same ↦
        let rest : memcmp_from n (p1 + 1) (p2 + 1) m ≡ pos 0 = rw same at h in
        at i l (ground (arith, same)) (memcmp_from-zero n (p1 + 1) (p2 + 1) rest)
    | inr apart ↦
        let d : char_diff (m p1) (m p2) ≡ pos 0 = rw apart at h in
        let e : m p1 ≡ m p2 = char_diff-zero (m p1) (m p2) (byte p1) (byte p2) d in
        absurd (ground (arith, e, apart))
  ]
    where
      at :
          (i : ℕ)
          → i < suc n
          → m p1 ≡ m p2
          → SameBytes m (p1 + 1) (p2 + 1) n
          → m (p1 + i) ≡ m (p2 + i)
      at zero l e r = ap m (omega arith) ∙ e ∙ ap m (omega arith)
      at (suc i) l e r = ap m (omega arith) ∙ r i (omega (arith, l)) ∙ ap m (omega arith)

  -- In a memory of bytes, `memcmp` of two places that are not null is 0 just when the bytes there
  -- are the same.
  pub memcmp-SameBytes :
      (n s1 s2 : ℕ)
      → s1 ≢ 0
      → s2 ≢ 0
      → ((memcmp s1 s2 n m ≡ pos 0) → SameBytes m s1 s2 n)
        × (SameBytes m s1 s2 n → memcmp s1 s2 n m ≡ pos 0)
  unfolding memcmp
  memcmp-SameBytes n s1 s2 n1 n2 =
      let go : memcmp s1 s2 n m ≡ memcmp_from n s1 s2 m = rw (ne→== _ _ n1, ne→== _ _ n2) refl in
      ((λ h. memcmp_from-zero n s1 s2 (sym go ∙ h)), λ h. go ∙ memcmp_from-same n s1 s2 h)

-- The result of a comparison of two texts.
abbrev pub Compares : ℤ → List ℕ → List ℕ → Type 0
Compares d xs ys = ((d ≡ pos 0) → xs ≡ ys) × (xs ≡ ys → d ≡ pos 0)

module _ (m : Bytes) (byte : (i : ℕ) → m i < 256) where
  strcmp_from-stop :
      (fuel p1 p2 : ℕ)
      → (m p1 ≡ 0) ⊎ ((m p2 ≡ 0) ⊎ (m p1 ≢ m p2))
      → strcmp_from (suc fuel) p1 p2 m ≡ ok (char_diff (m p1) (m p2))
  unfolding strcmp_from
  strcmp_from-stop fuel p1 p2 (inl z) =
      let t : (not (m p1 == 0) && not (m p2 == 0) && (m p1 == m p2)) ≡ false = ground (arith, z) in
      rw t refl
  strcmp_from-stop fuel p1 p2 (inr (inl z)) =
      let t : (not (m p1 == 0) && not (m p2 == 0) && (m p1 == m p2)) ≡ false = ground (arith, z) in
      rw t refl
  strcmp_from-stop fuel p1 p2 (inr (inr ne)) =
      let t : (not (m p1 == 0) && not (m p2 == 0) && (m p1 == m p2)) ≡ false = ground (arith, ne) in
      rw t refl

  strcmp_from-next :
      (fuel p1 p2 : ℕ)
      → m p1 ≢ 0
      → m p1 ≡ m p2
      → strcmp_from (suc fuel) p1 p2 m ≡ strcmp_from fuel (p1 + 1) (p2 + 1) m
  unfolding strcmp_from
  strcmp_from-next fuel p1 p2 nz e =
      let t : (not (m p1 == 0) && not (m p2 == 0) && (m p1 == m p2)) ≡ true =
        ground (arith, nz, e) in
      rw t refl

  strcmp_from-Compares :
      (xs ys : List ℕ) (fuel p1 p2 : ℕ)
      → length xs < fuel
      → IsText m p1 xs
      → IsText m p2 ys
      → (d : ℤ) × (strcmp_from fuel p1 p2 m ≡ ok d) × Compares d xs ys
  strcmp_from-Compares xs ys zero p1 p2 h t u = absurd (omega (arith, h))
  strcmp_from-Compares [] [] (suc fuel) p1 p2 h t u = (
    char_diff (m p1) (m p2),
    strcmp_from-stop fuel p1 p2 (inl t),
    ((λ _. refl), λ _. rw (t, u) refl),
  )
  strcmp_from-Compares [] (y ∷ ys) (suc fuel) p1 p2 h t (here, nz, rest) = (
    char_diff (m p1) (m p2),
    strcmp_from-stop fuel p1 p2 (inl t),
    ((λ d. absurd (nz (sym here ∙ sym (char_diff-zero _ _ (byte p1) (byte p2) d) ∙ t))), λ e. cc),
  )
  strcmp_from-Compares (x ∷ xs) [] (suc fuel) p1 p2 h (here, nz, rest) u = (
    char_diff (m p1) (m p2),
    strcmp_from-stop fuel p1 p2 (inr (inl u)),
    ((λ d. absurd (nz (sym here ∙ char_diff-zero _ _ (byte p1) (byte p2) d ∙ u))), λ e. cc),
  )
  strcmp_from-Compares (x ∷ xs) (y ∷ ys) (suc fuel) p1 p2 h (here, nz, rest) (here', nz', rest') =
      let next = strcmp_from-Compares xs ys fuel (p1 + 1) (p2 + 1) (omega (arith, h)) rest rest' in
      elim (Bool-cases (m p1 == m p2)) [
        | inl same ↦
            let e : m p1 ≡ m p2 = ground (arith, same) in
            let (d, run, c) = next in
            (
              d,
              strcmp_from-next fuel p1 p2 (λ z. nz (sym here ∙ z)) e ∙ run,
              (
                (λ z. let tail = c.0 z in let head : x ≡ y = sym here ∙ e ∙ here' in cc),
                λ both. c.1 (let tail : xs ≡ ys = cc in tail),
              ),
            )
        | inr apart ↦
            let ne : m p1 ≢ m p2 = ground (arith, apart) in
            (
              char_diff (m p1) (m p2),
              strcmp_from-stop fuel p1 p2 (inr (inr ne)),
              (
                (λ z. absurd (ne (char_diff-zero _ _ (byte p1) (byte p2) z))),
                λ both. let head : x ≡ y = cc in absurd (ne (here ∙ head ∙ sym here')),
              ),
            )
      ]

  -- In a memory of bytes, `strcmp` of two texts whose addresses are not null returns, with more
  -- fuel than the first has characters; the result is 0 just when the texts are equal.
  pub strcmp-Compares :
      (xs ys : List ℕ) (fuel s1 s2 : ℕ)
      → s1 ≢ 0
      → s2 ≢ 0
      → length xs < fuel
      → IsText m s1 xs
      → IsText m s2 ys
      → (d : ℤ) × (strcmp fuel s1 s2 m ≡ ok d) × Compares d xs ys
  unfolding strcmp
  strcmp-Compares xs ys fuel s1 s2 n1 n2 h t u =
      let (d, run, c) = strcmp_from-Compares xs ys fuel s1 s2 h t u in
      (d, rw (ne→== _ _ n1, ne→== _ _ n2) run, c)
