-- ===== src/Format/Cases.antt =====
-- What each conversion of `vsprintf` writes.
use mathlib.Core.Path.{subst}
use minx.Prelude.{
  ℕ, ◌+◌, ◌%◌, ◌^◌, ◌≤◌, ◌<◌, ◌≡◌, ◌≢◌, ◌⊎◌, inl, inr, refl, ap, sym, ◌∙◌, List, [], ◌∷◌, ◌++◌, map,
  length, length-append, arith, update, update_ne, update_self, Result, ok, lt→ltb, ne→==,
}
use minx.Strings.{Bytes, with_prefix}
use minx.Strings.Number.{IsMode, itoa-value}
use minx.Strings.Text.{
  IsText, IsText-frame, IsCopied, strcpy-end, strcpy-next, strcpy-IsCopied, strlen-length,
}
use minx.Format.{byte_of, Output, convert, put_text, put_number, put_char, write_chars}
use minx.Format.Pieces.{
  Piece, IsConversion, kind, lit, percent, text, number, chr, skip, argument, rendering, bytes_of,
  number_text, Outside, IsUnknown, Fits,
}
use minx.Format.Numeral.{itoa-number_text}
use minx.Format.Digits.{NonZero, bytes_of-itoa}

-- At `s` stand these characters, none of which ends a text.
abbrev pub At : Bytes → ℕ → List ℕ → Type 0
At m s [] = Unit
At m s (x ∷ xs) = (m s ≡ x) × (x ≢ 0) × At m (s + 1) xs

At-of_IsText : (m : Bytes) (s : ℕ) (xs : List ℕ) → IsText m s xs → At m s xs
At-of_IsText m s [] t = tt
At-of_IsText m s (x ∷ xs) (here, nz, rest) = (here, nz, At-of_IsText m (s + 1) xs rest)

-- `m'` is `m` with the characters `xs` at `p`, and perhaps another byte behind them.
pub record IsPut (m m' : Bytes) (p : ℕ) (xs : List ℕ) : Type 0 where
  pub put_at : At m' p xs
  pub below : (i : ℕ) → i < p → m' i ≡ m i
  pub above : (i : ℕ) → p + length xs < i → m' i ≡ m i

pub IsPut-of_IsCopied : (m m' : Bytes) (p : ℕ) (xs : List ℕ) → IsCopied m m' p xs → IsPut m m' p xs
IsPut-of_IsCopied m m' p xs c = record {
  put_at = At-of_IsText m' p xs c.text;
  below = c.below;
  above = c.above;
}

IsText-join :
    (xs ys : List ℕ) (m m' : Bytes) (s : ℕ)
    → At m s xs
    → ((i : ℕ) → i < s + length xs → m' i ≡ m i)
    → IsText m' (s + length xs) ys
    → IsText m' s (xs ++ ys)
IsText-join [] ys m m' s a same t = subst (λ q. IsText m' q ys) (omega arith) t
IsText-join (x ∷ xs) ys m m' s (here, nz, rest) same t = (
  same s (omega arith) ∙ here,
  nz,
  IsText-join xs ys m m' (s + 1) rest (λ i h. same i (omega (arith, h)))
      (subst (λ q. IsText m' q ys) (omega arith) t),
)

-- Characters, and then a text behind them.
pub IsCopied-join :
    (xs ys : List ℕ) (m m1 m2 : Bytes) (p : ℕ)
    → IsPut m m1 p xs
    → IsCopied m1 m2 (p + length xs) ys
    → IsCopied m m2 p (xs ++ ys)
IsCopied-join xs ys m m1 m2 p a c = record {
  text = IsText-join xs ys m1 m2 p a.put_at c.below c.text;
  below = λ i h. c.below i (omega (arith, h)) ∙ a.below i h;
  above = λ i h.
      let l : p + length xs + length ys < i = omega (arith, h, length-append xs ys) in
      c.above i l ∙ a.above i (omega (arith, l));
}

pub char-IsPut : (m : Bytes) (p c : ℕ) → c ≢ 0 → IsPut m (update m p c) p (c ∷ [])
char-IsPut m p c nz = record {
  put_at = (update_self m p c, nz, tt);
  below = λ i h. update_ne m p i c (omega (arith, h));
  above = λ i h. update_ne m p i c (omega (arith, h));
}

none-IsPut : (m : Bytes) (p : ℕ) → IsPut m m p []
none-IsPut m p = record { put_at = tt; below = λ i h. refl; above = λ i h. refl }

-- A place outside of `lo` to `hi` is not written.
IsPut-outside :
    (m m1 : Bytes) (lo hi p : ℕ) (xs : List ℕ)
    → IsPut m m1 p xs
    → lo ≤ p
    → p + length xs ≤ hi
    → (i : ℕ) → (i < lo) ⊎ (hi < i)
    → m1 i ≡ m i
IsPut-outside m m1 lo hi p xs w l h i (inl e) = w.below i (omega (arith, e, l))
IsPut-outside m m1 lo hi p xs w l h i (inr e) = w.above i (omega (arith, e, h))

-- Nor is a text there.
pub IsText-Outside :
    (m m1 : Bytes) (lo hi p s : ℕ) (xs ys : List ℕ)
    → IsPut m m1 p xs
    → lo ≤ p
    → p + length xs ≤ hi
    → Outside lo hi s (length ys)
    → IsText m s ys
    → IsText m1 s ys
IsText-Outside m m1 lo hi p s xs ys w l h out t =
    IsText-frame ys s m m1
      (λ i a b. IsPut-outside m m1 lo hi p xs w l h i (ground (arith, out, a, b))) t

-- What a case of the `switch` leaves.
pub record IsDone (m : Bytes) (p : ℕ) (xs args : List ℕ) (run : Result Output) : Type 0 where
  pub m1 : Bytes
  pub runs : run ≡ ok (record { p = p + length xs; args = args; mem = m1 })
  pub put : IsPut m m1 p xs

put_text-IsDone :
    (m : Bytes) (fuel lo hi p s : ℕ) (xs args : List ℕ)
    → length xs < fuel
    → lo ≤ p
    → p + length xs ≤ hi
    → IsText m s xs
    → Outside lo hi s (length xs)
    → IsDone m p xs args (put_text fuel p (s ∷ args) m)
unfolding put_text
put_text-IsDone m fuel lo hi p s xs args f l h t out =
    let (m1, run, c) = strcpy-IsCopied m xs fuel p s f t (ground (arith, out, l, h)) in
    let same : IsText m1 s xs =
      IsText-Outside m m1 lo hi p s xs xs (IsPut-of_IsCopied m m1 p xs c) l h out t in
    let len = strlen-length m1 xs fuel s f same in
    record { m1 = m1; runs = rw (run, len) refl; put = IsPut-of_IsCopied m m1 p xs c }

write_chars-IsCopied :
    (m : Bytes) (p : ℕ) (cs : List ℕ) → NonZero cs → IsCopied m (write_chars p cs m) p cs
unfolding write_chars
write_chars-IsCopied m p [] nz = strcpy-end m p
write_chars-IsCopied m p (c ∷ cs) (nz, rest) =
    strcpy-next m (write_chars (p + 1) cs (update m p c)) p c cs nz
      (write_chars-IsCopied (update m p c) (p + 1) cs rest)

put_number-IsDone :
    (m : Bytes) (base p n : ℕ) (args : List ℕ)
    → IsMode base
    → n < 2 ^ 31
    → IsDone m p (number_text base n) args (put_number base p (n ∷ args) m)
unfolding put_number
put_number-IsDone m base p n args mode l =
    let (q, run, v, short) = itoa-value base n mode l in
    let cs = map byte_of (with_prefix base q) in
    let same : number_text base n ≡ cs = sym (itoa-number_text base n mode l) ∙ ap bytes_of run in
    record {
      m1 = write_chars p cs m;
      runs =
          rw (lt→ltb n (2 ^ 31) l, run)
            (ap (λ xs. ok (record { p = p + length xs; args = args; mem = write_chars p cs m }))
              (sym same));
      put = IsPut-of_IsCopied m (write_chars p cs m) p (number_text base n) (
          subst (IsCopied m (write_chars p cs m) p) (sym same) (
            write_chars-IsCopied m p cs
              (subst NonZero (ap bytes_of run) (bytes_of-itoa base n mode))));
    }

convert-skip :
    (m : Bytes) (fuel p c : ℕ) (args : List ℕ)
    → IsUnknown c
    → convert fuel c p args m ≡ ok (record { p = p + 0; args = args; mem = m })
unfolding convert
convert-skip m fuel p c args u =
    rw
      (
        ne→== c b'%' u.not_percent,
        ne→== c b's' u.not_s,
        ne→== c b'd' u.not_d,
        ne→== c b'x' u.not_x,
        ne→== c b'c' u.not_c,
      )
      (ap (λ q. ok (record { p = q; args = args; mem = m })) (omega arith))

-- A conversion writes its piece and takes its argument.
pub convert-IsDone :
    (x : Piece) (m : Bytes) (fuel lo hi p : ℕ) (args : List ℕ)
    → IsConversion x
    → length (rendering x) < fuel
    → lo ≤ p
    → p + length (rendering x) ≤ hi
    → Fits m lo hi x
    → IsDone m p (rendering x) args (convert fuel (kind x) p (argument x args) m)
unfolding convert put_char
convert-IsDone (lit c) m fuel lo hi p args v f l h t = elim v [ ]
convert-IsDone percent m fuel lo hi p args v f l h t = record {
  m1 = update m p b'%';
  runs = refl;
  put = char-IsPut m p b'%' (omega arith);
}
convert-IsDone (text s xs) m fuel lo hi p args v f l h (t, out) =
    put_text-IsDone m fuel lo hi p s xs args f l h t out
convert-IsDone (number base n) m fuel lo hi p args v f l h (inl e, b) =
    rw e (put_number-IsDone m 10 p n args (inl refl) b)
convert-IsDone (number base n) m fuel lo hi p args v f l h (inr e, b) =
    rw e (put_number-IsDone m 16 p n args (inr refl) b)
convert-IsDone (chr c) m fuel lo hi p args v f l h t = record {
  m1 = update m p (c % 256);
  runs = refl;
  put = char-IsPut m p (c % 256) t;
}
convert-IsDone (skip c) m fuel lo hi p args v f l h t = record {
  m1 = m;
  runs = convert-skip m fuel p c args t;
  put = none-IsPut m p;
}
