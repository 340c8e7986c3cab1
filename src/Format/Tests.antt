-- ===== src/Format/Tests.antt =====
-- `vsprintf` at short formats.
use minx.Prelude.{
  ℕ, ◌+◌, ◌≡◌, refl, List, [], ◌∷◌, arith, length, ◌==◌, if◌then◌else◌, ok, inl, inr,
}
use minx.Strings.{Bytes}
use minx.Strings.Text.{IsText, IsCopied}
use minx.Format.{vsprintf, print_from, convert}
use minx.Format.Pieces.{Piece, lit, percent, text, number, numeral, format_of, rendered, AllFit}
use minx.Format.Render.{vsprintf-IsRendered}

-- `%s=%d%%` at 50 and the text ab at 70.
abbrev formats : Bytes
formats i =
    if i == 50
    then b'%'
    else if i == 51
    then b's'
    else if i == 52
    then b'='
    else if i == 53
    then b'%'
    else if i == 54
    then b'd'
    else if i == 55
    then b'%'
    else if i == 56
    then b'%'
    else if i == 70
    then b'a'
    else if i == 71
    then b'b'
    else 0

abbrev pieces : List Piece
pieces = text 70 (b'a' ∷ b'b' ∷ []) ∷ lit b'=' ∷ number 10 42 ∷ percent ∷ []

pieces-IsText : IsText formats 50 (format_of pieces)
pieces-IsText = omega arith

pieces-AllFit : AllFit formats 10 (10 + length (rendered pieces)) pieces
unfolding numeral
pieces-AllFit = (
  (omega arith, inr (omega arith)),
  ((omega arith, omega arith), ((inl refl, omega arith), (tt, tt))),
)

vsprintf-IsRendered_example :
    (m' : Bytes) × (vsprintf 20 10 50 (70 ∷ 42 ∷ 7 ∷ []) formats
      ≡ ok (length (rendered pieces), m'))
    × IsCopied formats m' 10 (rendered pieces)
unfolding numeral
vsprintf-IsRendered_example =
    vsprintf-IsRendered pieces formats 20 50 10 (7 ∷ []) (omega arith) pieces-IsText
      (inr (omega arith)) pieces-AllFit

-- The number of characters of `%8d`, and the first of them: the width is not known, so it is the
-- letter `d`, whatever the argument.
abbrev width : Bytes
width i = if i == 50 then b'%' else if i == 51 then b'8' else if i == 52 then b'd' else 0

width-vsprintf :
    (n : ℕ) → (m' : Bytes) × (vsprintf 5 10 50 (n ∷ []) width ≡ ok (1, m')) × (m' 10 ≡ b'd')
unfolding vsprintf print_from convert
width-vsprintf n = (_, refl, refl)
