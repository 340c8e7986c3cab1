-- ===== src/Format/Render.antt =====
-- `vsprintf` writes the text that its format stands for.
use mathlib.Core.Path.{subst}
use minx.Prelude.{
  ℕ, zero, suc, ◌+◌, ◌≤◌, ◌<◌, ◌≡◌, ◌≢◌, refl, ap, ◌∙◌, false, List, [], ◌∷◌, ◌++◌, length,
  length-append, arith, ◌==◌, update, ok, ◌>>=◌, ne→==, bind-ok,
}
use minx.Strings.{Bytes}
use minx.Strings.Text.{IsText, IsCopied, strcpy-end, strcpy-next}
use minx.Format.{convert, print_from, vsprintf}
use minx.Format.Pieces.{
  Piece, IsConversion, kind, lit, percent, text, number, chr, skip, spelling, argument, rendering,
  format_of, arguments, rendered, Outside, AllFit,
}
use minx.Format.Cases.{IsPut, char-IsPut, IsText-Outside, IsCopied-join, IsDone, convert-IsDone}

-- From `fmt` on the `for` writes these characters at `p` and ends.
abbrev Renders : ℕ → ℕ → ℕ → List ℕ → Bytes → List ℕ → Type 0
Renders fuel fmt p args m xs =
    (m' : Bytes) × (print_from fuel fmt p args m ≡ ok (p + length xs, m')) × IsCopied m m' p xs

print_from-lit :
    (m : Bytes) (fuel fmt p : ℕ) (args : List ℕ)
    → (m fmt == 0) ≡ false
    → (m fmt == b'%') ≡ false
    → print_from (suc fuel) fmt p args m
      ≡ print_from fuel (fmt + 1) (p + 1) args (update m p (m fmt))
unfolding print_from
print_from-lit m fuel fmt p args e e' = rw (e, print_from) (rw e' refl)

print_from-conversion :
    (m : Bytes) (fuel fmt p k : ℕ) (args : List ℕ)
    → m fmt ≡ b'%'
    → m (fmt + 1) ≡ k
    → print_from (suc fuel) fmt p args m
      ≡ (convert fuel k p args m >>= λ o. print_from fuel (fmt + 2) o.p o.args o.mem)
unfolding print_from
print_from-conversion m fuel fmt p k args here next =
    rw (here, print_from)
      (rw here (
        ap (λ c. convert fuel c p args m >>= λ o. print_from fuel (fmt + 2) o.p o.args o.mem) next))

end-Renders :
    (m : Bytes) (fuel fmt p : ℕ) (args : List ℕ) → m fmt ≡ 0 → Renders (suc fuel) fmt p args m []
unfolding print_from
end-Renders m fuel fmt p args e = (
  update m p 0,
  rw (e, print_from) (ap (λ q. ok (q, update m p 0)) (omega arith)),
  strcpy-end m p,
)

lit-Renders :
    (m : Bytes) (fuel fmt p c : ℕ) (args ys : List ℕ)
    → m fmt ≡ c
    → c ≢ 0
    → c ≢ b'%'
    → Renders fuel (fmt + 1) (p + 1) args (update m p c) ys
    → Renders (suc fuel) fmt p args m (c ∷ ys)
lit-Renders m fuel fmt p c args ys here nz np (m', run, cp) = (
  m',
  print_from-lit m fuel fmt p args (ap (λ x. x == 0) here ∙ ne→== c 0 nz)
        (ap (λ x. x == b'%') here ∙ ne→== c b'%' np)
      ∙ ap (λ x. print_from fuel (fmt + 1) (p + 1) args (update m p x)) here
      ∙ run
      ∙ ap (λ q. ok (q, m')) (omega arith),
  strcpy-next m m' p c ys nz cp,
)

conversion-Renders :
    (m : Bytes) (fuel fmt p k : ℕ) (xs ys before args : List ℕ)
    → m fmt ≡ b'%'
    → m (fmt + 1) ≡ k
    → (d : IsDone m p xs args (convert fuel k p before m))
    → Renders fuel (fmt + 1 + 1) (p + length xs) args d.m1 ys
    → Renders (suc fuel) fmt p before m (xs ++ ys)
conversion-Renders m fuel fmt p k xs ys before args here next d (m', run, cp) = (
  m',
  print_from-conversion m fuel fmt p k before here next
      ∙ ap (λ r. r >>= λ o. print_from fuel (fmt + 2) o.p o.args o.mem) d.runs
      ∙ ap (λ a. print_from fuel a (p + length xs) args d.m1) (omega arith)
      ∙ run
      ∙ ap (λ q. ok (q, m')) (omega (arith, length-append xs ys)),
  IsCopied-join xs ys m d.m1 m' p d.put cp,
)

-- What stands outside of the buffer is the same after a piece.
AllFit-outside :
    (m m1 : Bytes) (lo hi p : ℕ) (xs : List ℕ)
    → IsPut m m1 p xs
    → lo ≤ p
    → p + length xs ≤ hi
    → (ps : List Piece) → AllFit m lo hi ps
    → AllFit m1 lo hi ps
AllFit-outside m m1 lo hi p xs w l h [] t = tt
AllFit-outside m m1 lo hi p xs w l h (text s ys ∷ ps) ((t, out), rest) = (
  (IsText-Outside m m1 lo hi p s xs ys w l h out t, out),
  AllFit-outside m m1 lo hi p xs w l h ps rest,
)
AllFit-outside m m1 lo hi p xs w l h (lit c ∷ ps) (t, rest) =
    (t, AllFit-outside m m1 lo hi p xs w l h ps rest)
AllFit-outside m m1 lo hi p xs w l h (percent ∷ ps) (t, rest) =
    (t, AllFit-outside m m1 lo hi p xs w l h ps rest)
AllFit-outside m m1 lo hi p xs w l h (number base n ∷ ps) (t, rest) =
    (t, AllFit-outside m m1 lo hi p xs w l h ps rest)
AllFit-outside m m1 lo hi p xs w l h (chr c ∷ ps) (t, rest) =
    (t, AllFit-outside m m1 lo hi p xs w l h ps rest)
AllFit-outside m m1 lo hi p xs w l h (skip c ∷ ps) (t, rest) =
    (t, AllFit-outside m m1 lo hi p xs w l h ps rest)

-- With more fuel than they and their text have characters, the pieces are written between `lo` and
-- `hi`, if the format and the texts are in the memory outside of that.
abbrev RendersAll : List Piece → ℕ → Type 0
RendersAll ps fuel =
    (m : Bytes) (lo hi fmt p : ℕ) (more : List ℕ)
    → length (format_of ps) + length (rendered ps) < fuel
    → lo ≤ p
    → p + length (rendered ps) ≤ hi
    → Outside lo hi fmt (length (format_of ps))
    → IsText m fmt (format_of ps)
    → AllFit m lo hi ps
    → Renders fuel fmt p (arguments ps more) m (rendered ps)

lit-first :
    (c : ℕ) (ps : List Piece) (fuel : ℕ) → RendersAll ps fuel → RendersAll (lit c ∷ ps) (suc fuel)
lit-first c ps fuel rest m lo hi fmt p more f l h out (t, nz, after) ((_, np), fits) =
    let m1 = update m p c in
    let w = char-IsPut m p c nz in
    let e : p + 1 ≤ hi = omega (arith, h) in
    let out' : Outside lo hi (fmt + 1) (length (format_of ps)) = ground (arith, out) in
    lit-Renders m fuel fmt p c (arguments ps more) (rendered ps) t nz np (
      rest m1 lo hi (fmt + 1) (p + 1) more (omega (arith, f)) (omega (arith, l)) (omega (arith, h))
        out' (IsText-Outside m m1 lo hi p (fmt + 1) (c ∷ []) (format_of ps) w l e out' after)
        (AllFit-outside m m1 lo hi p (c ∷ []) w l e ps fits))

conversion-first :
    (x : Piece) (ps : List Piece) (fuel : ℕ)
    → IsConversion x
    → spelling x ≡ b'%' ∷ kind x ∷ []
    → RendersAll ps fuel
    → RendersAll (x ∷ ps) (suc fuel)
conversion-first x ps fuel v e rest m lo hi fmt p more f l h out t (fit, fits) =
    let xs = rendering x in
    let len = length-append xs (rendered ps) in
    let len' = length-append (spelling x) (format_of ps) in
    let two : length (spelling x) ≡ 2 = ap length e in
    let (here, nz, (next, nz', after)) = subst (λ k. IsText m fmt (k ++ format_of ps)) e t in
    let d =
      convert-IsDone x m fuel lo hi p (arguments ps more) v (omega (arith, f, len, len', two)) l
        (omega (arith, h, len)) fit in
    let e' : p + length xs ≤ hi = omega (arith, h, len) in
    let out' : Outside lo hi (fmt + 1 + 1) (length (format_of ps)) =
      ground (arith, out, len', two) in
    conversion-Renders m fuel fmt p (kind x) xs (rendered ps) (argument x (arguments ps more))
      (arguments ps more) here next d
      (rest d.m1 lo hi (fmt + 1 + 1) (p + length xs) more (omega (arith, f, len, len', two))
        (omega (arith, l)) (omega (arith, h, len)) out'
        (IsText-Outside m d.m1 lo hi p (fmt + 1 + 1) xs (format_of ps) d.put l e' out' after)
        (AllFit-outside m d.m1 lo hi p xs d.put l e' ps fits))

print_from-Renders : (ps : List Piece) (fuel : ℕ) → RendersAll ps fuel
print_from-Renders ps zero = λ m lo hi fmt p more f. absurd (omega (arith, f))
print_from-Renders [] (suc fuel) =
    λ m lo hi fmt p more f l h out t fits. end-Renders m fuel fmt p more t
print_from-Renders (lit c ∷ ps) (suc fuel) = lit-first c ps fuel (print_from-Renders ps fuel)
print_from-Renders (percent ∷ ps) (suc fuel) =
    conversion-first percent ps fuel tt refl (print_from-Renders ps fuel)
print_from-Renders (text s xs ∷ ps) (suc fuel) =
    conversion-first (text s xs) ps fuel tt refl (print_from-Renders ps fuel)
print_from-Renders (number base n ∷ ps) (suc fuel) =
    conversion-first (number base n) ps fuel tt refl (print_from-Renders ps fuel)
print_from-Renders (chr c ∷ ps) (suc fuel) =
    conversion-first (chr c) ps fuel tt refl (print_from-Renders ps fuel)
print_from-Renders (skip c ∷ ps) (suc fuel) =
    conversion-first (skip c) ps fuel tt refl (print_from-Renders ps fuel)

-- `vsprintf` of a format of characters, `%%`, `%s`, `%d`, `%x`, `%c` and unknown conversions, with an
-- argument for each that takes one and with more fuel than the format and the text it stands for have
-- characters, writes that text and its zero to the buffer and changes nothing else; it returns the
-- length of the text. A number is written with its digits, the first one first, in base 10 for `%d`, and
-- for `%x` in base 16 with capital letters behind `0x`. The texts of `%s` and the format lie outside of
-- the buffer, the numbers are not negative and below 2 to the power 31, and no `%c` is a zero.
pub vsprintf-IsRendered :
    (ps : List Piece) (m : Bytes) (fuel fmt buf : ℕ) (more : List ℕ)
    → length (format_of ps) + length (rendered ps) < fuel
    → IsText m fmt (format_of ps)
    → Outside buf (buf + length (rendered ps)) fmt (length (format_of ps))
    → AllFit m buf (buf + length (rendered ps)) ps
    → (m' : Bytes) × (vsprintf fuel buf fmt (arguments ps more) m ≡ ok (length (rendered ps), m'))
      × IsCopied m m' buf (rendered ps)
unfolding vsprintf
vsprintf-IsRendered ps m fuel fmt buf more f t out fits =
    let n = length (rendered ps) in
    let (m', run, c) =
      print_from-Renders ps fuel m buf (buf + n) fmt buf more f (omega arith) (omega arith) out t
        fits in
    (m', bind-ok _ _ (buf + n, m') run ∙ ap (λ q. ok (q, m')) (omega arith), c)
