-- ===== src/Strings/Text.antt =====
-- What the routines do to texts that end with a zero.
use mathlib.Core.Path.{subst}
use minx.Prelude.{
  bind-ok, ℕ, zero, suc, ◌+◌, ◌≤◌, ◌<◌, ◌≡◌, ◌≢◌, refl, sym, ap, ◌∙◌, ◌⊎◌, false, List, [], ◌∷◌,
  ◌++◌, arith, length, ◌==◌, update, update_ne, update_self, ok, ne→==,
}
use minx.Strings.{Bytes, strlen, strcpy, strcat}

-- At `s` stand the characters `xs` and a zero.
abbrev pub IsText : Bytes → ℕ → List ℕ → Type 0
IsText m s [] = m s ≡ 0
IsText m s (x ∷ xs) = (m s ≡ x) × (x ≢ 0) × IsText m (s + 1) xs

-- `strlen` counts the characters before the zero, with more fuel than there are characters.
pub strlen-length :
    (m : Bytes) (xs : List ℕ) (fuel s : ℕ)
    → length xs < fuel
    → IsText m s xs
    → strlen fuel m s ≡ ok (length xs)
unfolding strlen
strlen-length m xs zero s h t = absurd (omega (arith, h))
strlen-length m [] (suc fuel) s h t = rw t refl
strlen-length m (x ∷ xs) (suc fuel) s h (here, nz, rest) =
    let go = strlen-length m xs fuel (s + 1) (omega (arith, h)) rest in
    let no : (m s == 0) ≡ false = ne→== _ _ (λ e. nz (sym here ∙ e)) in
    rw (no, go) (ap ok (omega arith))

pub IsText-frame :
    (xs : List ℕ) (s : ℕ) (m m' : Bytes)
    → ((i : ℕ) → s ≤ i → i ≤ s + length xs → m' i ≡ m i)
    → IsText m s xs
    → IsText m' s xs
IsText-frame [] s m m' same t = same s (omega arith) (omega arith) ∙ t
IsText-frame (x ∷ xs) s m m' same (here, nz, rest) = (
  same s (omega arith) (omega arith) ∙ here,
  nz,
  IsText-frame xs (s + 1) m m' (λ i a b. same i (omega arith) (omega arith)) rest,
)

-- `m'` is `m` with the text `xs` at `des`.
pub record IsCopied (m m' : Bytes) (des : ℕ) (xs : List ℕ) : Type 0 where
  pub text : IsText m' des xs
  pub below : (i : ℕ) → i < des → m' i ≡ m i
  pub above : (i : ℕ) → des + length xs < i → m' i ≡ m i

-- The source begins after the place of the first write, or ends before it.
abbrev pub Apart : ℕ → ℕ → ℕ → Type 0
Apart des src n = (des ≤ src) ⊎ (src + n < des)

pub strcpy-end : (m : Bytes) (des : ℕ) → IsCopied m (update m des 0) des []
strcpy-end m des = record {
  text = update_self m des 0;
  below = λ i h. update_ne m des i 0 (omega arith);
  above = λ i h. update_ne m des i 0 (omega arith);
}

pub strcpy-next :
    (m m' : Bytes) (des x : ℕ) (xs : List ℕ)
    → x ≢ 0
    → IsCopied (update m des x) m' (des + 1) xs
    → IsCopied m m' des (x ∷ xs)
strcpy-next m m' des x xs nz c = record {
  text = (c.below des (omega arith) ∙ update_self m des x, nz, c.text);
  below = λ i h. c.below i (omega arith) ∙ update_ne m des i x (omega arith);
  above = λ i h. c.above i (omega arith) ∙ update_ne m des i x (omega arith);
}

-- `strcpy` writes the text of the source and its zero at the destination and nothing else, if the
-- destination begins no later than the source or after its end, with more fuel than there are
-- characters.
pub strcpy-IsCopied :
    (m : Bytes) (xs : List ℕ) (fuel des src : ℕ)
    → length xs < fuel
    → IsText m src xs
    → Apart des src (length xs)
    → (m' : Bytes) × (strcpy fuel des src m ≡ ok m') × IsCopied m m' des xs
unfolding strcpy
strcpy-IsCopied m xs zero des src h t apart = absurd (omega (arith, h))
strcpy-IsCopied m [] (suc fuel) des src h t apart = (update m des 0, rw t refl, strcpy-end m des)
strcpy-IsCopied m (x ∷ xs) (suc fuel) des src h (here, nz, rest) apart =
    let no : (m src == 0) ≡ false = ne→== _ _ (λ e. nz (sym here ∙ e)) in
    let written = update m des (m src) in
    let t : IsText written (src + 1) xs =
      IsText-frame xs (src + 1) m written
        (λ i a b. update_ne m des i (m src) (omega (arith, apart))) rest in
    let (m', run, c) =
      strcpy-IsCopied written xs fuel (des + 1) (src + 1) (omega (arith, h)) t
        (omega (arith, apart)) in
    (
      m',
      rw no run,
      strcpy-next m m' des x xs nz (subst (λ y. IsCopied (update m des y) m' (des + 1) xs) here c),
    )

-- The first text with another in the place of its zero.
IsText-append :
    (xs ys : List ℕ) (m m' : Bytes) (s : ℕ)
    → IsText m s xs
    → ((i : ℕ) → i < s + length xs → m' i ≡ m i)
    → IsText m' (s + length xs) ys
    → IsText m' s (xs ++ ys)
IsText-append [] ys m m' s t same t' = subst (λ p. IsText m' p ys) (omega arith) t'
IsText-append (x ∷ xs) ys m m' s (here, nz, rest) same t' = (
  same s (omega arith) ∙ here,
  nz,
  IsText-append xs ys m m' (s + 1) rest (λ i h. same i (omega (arith, h)))
      (subst (λ p. IsText m' p ys) (omega arith) t'),
)

-- `strcat` puts the second text behind the first and changes nothing outside the place of the two,
-- if the second text begins behind the end of the first, or ends before it, with more fuel than
-- either has characters.
pub strcat-IsText :
    (m : Bytes) (xs ys : List ℕ) (fuel des src : ℕ)
    → length xs < fuel
    → length ys < fuel
    → IsText m des xs
    → IsText m src ys
    → Apart (des + length xs) src (length ys)
    → (m' : Bytes) × (strcat fuel des src m ≡ ok m')
      × IsText m' des (xs ++ ys)
      × ((i : ℕ) → i < des → m' i ≡ m i)
      × ((i : ℕ) → des + length xs + length ys < i → m' i ≡ m i)
unfolding strcat
strcat-IsText m xs ys fuel des src h h' t u apart =
    let len = strlen-length m xs fuel des h t in
    let (m', run, c) = strcpy-IsCopied m ys fuel (des + length xs) src h' u apart in
    (
      m',
      bind-ok _ (λ n. strcpy fuel (des + n) src m) (length xs) len ∙ run,
      IsText-append xs ys m m' des t c.below c.text,
      (λ i l. c.below i (omega (arith, l))),
      c.above,
    )
