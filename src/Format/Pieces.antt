-- ===== src/Format/Pieces.antt =====
-- What a format asks for, as a list of pieces: the characters of the format, the arguments behind it,
-- and the text that is to be written.
use minx.Prelude.{
  ℕ, zero, suc, ◌+◌, ◌-◌, ◌/◌, ltb, ◌%◌, ◌^◌, ◌<◌, ◌≢◌, ◌⊎◌, List, [], ◌∷◌, ◌++◌, map, length,
  Result, ok, stop, ◌==◌, if◌then◌else◌,
}
use minx.Prelude.Int.{ℤ}
use minx.Strings.{Bytes}
use minx.Strings.Text.{IsText}
use minx.Strings.Number.{IsMode}
use minx.Format.{byte_of}

-- `lit c` is a character of its own and `percent` is `%%`; `text s xs` is `%s` with the address `s`
-- of the text `xs`, `number base n` is `%d` or `%x`, `chr c` is `%c`, and `skip c` is a `%` with a
-- character that means nothing.
pub data Piece : Type 0 where
  lit : ℕ → Piece
  percent : Piece
  text : ℕ → List ℕ → Piece
  number : ℕ → ℕ → Piece
  chr : ℕ → Piece
  skip : ℕ → Piece

-- The letter of a base.
abbrev pub letter : ℕ → ℕ
letter base = if base == 16 then b'x' else b'd'

-- The character behind the `%`, and that of a `lit`.
abbrev pub kind : Piece → ℕ
kind (lit c) = c
kind percent = b'%'
kind (text s xs) = b's'
kind (number base n) = letter base
kind (chr c) = b'c'
kind (skip c) = c

abbrev pub IsConversion : Piece → Type 0
IsConversion (lit c) = ⊥
IsConversion x = Unit

abbrev pub spelling : Piece → List ℕ
spelling (lit c) = c ∷ []
spelling x = b'%' ∷ kind x ∷ []

abbrev pub argument : Piece → List ℕ → List ℕ
argument (lit c) args = args
argument percent args = args
argument (text s xs) args = s ∷ args
argument (number base n) args = n ∷ args
argument (chr c) args = c ∷ args
argument (skip c) args = args

-- The character of a digit, and the digits of `n`, which has at most `places` of them, the first one
-- first.
abbrev pub digit_text : ℕ → ℕ
digit_text d = if ltb d 10 then b'0' + d else b'A' + (d - 10)

unfoldable pub numeral : ℕ → ℕ → ℕ → List ℕ
numeral zero base n = []
numeral (suc places) base n =
    let before = numeral places base (n / base) in
    if ltb n base then digit_text n ∷ [] else before ++ (digit_text (n % base) ∷ [])

-- A number in base 10, or in base 16 behind `0x`, with as many digits as a number of 31 bits can have.
abbrev pub number_text : ℕ → ℕ → List ℕ
number_text base n = let text = numeral 31 base n in if base == 16 then b'0' ∷ b'x' ∷ text else text

-- The bytes of what `itoa` writes.
abbrev pub bytes_of : Result (List ℤ) → List ℕ
bytes_of (stop fault) = []
bytes_of (ok cs) = map byte_of cs

abbrev pub rendering : Piece → List ℕ
rendering (lit c) = c ∷ []
rendering percent = b'%' ∷ []
rendering (text s xs) = xs
rendering (number base n) = number_text base n
rendering (chr c) = (c % 256) ∷ []
rendering (skip c) = []

-- The format, its arguments with those that are not asked for, and the text to be written.
abbrev pub format_of : List Piece → List ℕ
format_of [] = []
format_of (x ∷ ps) = spelling x ++ format_of ps

abbrev pub arguments : List Piece → List ℕ → List ℕ
arguments [] more = more
arguments (x ∷ ps) more = argument x (arguments ps more)

abbrev pub rendered : List Piece → List ℕ
rendered [] = []
rendered (x ∷ ps) = rendering x ++ rendered ps

-- `n` characters from `s` on and one more are outside of `lo` to `hi`.
abbrev pub Outside : ℕ → ℕ → ℕ → ℕ → Type 0
Outside lo hi s n = (s + n < lo) ⊎ (hi < s)

-- The character behind a `%` is none of those that the `switch` knows, nor the end of the format.
pub record IsUnknown (c : ℕ) : Type 0 where
  pub not_end : c ≢ 0
  pub not_percent : c ≢ b'%'
  pub not_s : c ≢ b's'
  pub not_d : c ≢ b'd'
  pub not_x : c ≢ b'x'
  pub not_c : c ≢ b'c'

-- A piece can be written to `lo` to `hi`: its text is in the memory and outside, its number is not
-- negative.
abbrev pub Fits : Bytes → ℕ → ℕ → Piece → Type 0
Fits m lo hi (lit c) = (c ≢ 0) × (c ≢ b'%')
Fits m lo hi percent = Unit
Fits m lo hi (text s xs) = IsText m s xs × Outside lo hi s (length xs)
Fits m lo hi (number base n) = IsMode base × (n < 2 ^ 31)
Fits m lo hi (chr c) = c % 256 ≢ 0
Fits m lo hi (skip c) = IsUnknown c

abbrev pub AllFit : Bytes → ℕ → ℕ → List Piece → Type 0
AllFit m lo hi [] = Unit
AllFit m lo hi (x ∷ ps) = Fits m lo hi x × AllFit m lo hi ps
