-- ===== src/Format.antt =====
-- `vsprintf` and `sprintf` of lib/printf.c, on the memory of Strings. The arguments behind the format
-- are the 32-bit words on the stack; a read past those that were passed is an overrun. The proofs are
-- in the child modules.
pub mod Pieces
mod Digits
mod Numeral
mod Cases
pub mod Render
mod Tests
use minx.Prelude.{
  ℕ, zero, suc, true, false, ◌+◌, ◌-◌, ◌%◌, ◌==◌, if◌then◌else◌, update, List, [], ◌∷◌, map, length,
  Result, ok, stop, hang, overrun, ◌>>=◌,
}
use minx.Prelude.Int.{ℤ, int_of, pattern_of}
use minx.Strings.{Bytes, strlen, strcpy, itoa}

-- The byte that a `char` is stored as.
abbrev pub byte_of : ℤ → ℕ
byte_of c = pattern_of c % 256

-- `strcpy(p, tmp)` from a buffer that holds these characters and a zero.
unfoldable pub write_chars : ℕ → List ℕ → Bytes → Bytes
write_chars p [] m = update m p 0
write_chars p (c ∷ cs) m = write_chars (p + 1) cs (update m p c)

-- Where the output and the arguments are after a conversion, and the memory.
pub record Output : Type 0 where
  pub p : ℕ
  pub args : List ℕ
  pub mem : Bytes

-- The case `s`, with the first argument left.
unfoldable pub put_text : ℕ → ℕ → List ℕ → Bytes → Result Output
put_text fuel p [] m = stop overrun
put_text fuel p (s ∷ args) m = do
  m1 ← strcpy fuel p s m
  len ← strlen fuel m1 s
  ok (record { p = p + len; args = args; mem = m1 })

-- The cases `d` and `x`: `itoa` to a buffer of its own, then a copy.
unfoldable pub put_number : ℕ → ℕ → List ℕ → Bytes → Result Output
put_number show_mode p [] m = stop overrun
put_number show_mode p (n ∷ args) m = do
  tmp ← itoa 32 (int_of n) show_mode
  let cs = map byte_of tmp
  ok (record { p = p + length cs; args = args; mem = write_chars p cs m })

-- The case `c`.
unfoldable pub put_char : ℕ → List ℕ → Bytes → Result Output
put_char p [] m = stop overrun
put_char p (c ∷ args) m = ok (record { p = p + 1; args = args; mem = update m p (c % 256) })

-- The `switch`, for the character behind the `%`.
unfoldable pub convert : ℕ → ℕ → ℕ → List ℕ → Bytes → Result Output
convert fuel c p args m =
    if c == b'%'
    then ok (record { p = p + 1; args = args; mem = update m p b'%' })
    else if c == b's'
    then put_text fuel p args m
    else if c == b'd'
    then put_number 10 p args m
    else if c == b'x'
    then put_number 16 p args m
    else if c == b'c'
    then put_char p args m
    else ok (record { p = p; args = args; mem = m })

-- The `for`: where the text ends, and the memory. A `%` takes the character behind it whatever that
-- is, also the zero at the end of the format.
unfoldable pub print_from : ℕ → ℕ → ℕ → List ℕ → Bytes → Result (ℕ × Bytes)
print_from zero fmt p args m = stop hang
print_from (suc fuel) fmt p args m = elim (m fmt == 0) [
  | true ↦ ok (p, update m p 0)
  | false ↦ elim (m fmt == b'%') [
    | true ↦ convert fuel (m (fmt + 1)) p args m >>= λ o. print_from fuel (fmt + 2) o.p o.args o.mem
    | false ↦ print_from fuel (fmt + 1) (p + 1) args (update m p (m fmt))
  ]
]

-- The number of characters written, and the memory.
unfoldable pub vsprintf : ℕ → ℕ → ℕ → List ℕ → Bytes → Result (ℕ × Bytes)
vsprintf fuel buf fmt args m = do (p, m1) ← print_from fuel fmt buf args m; ok (p - buf, m1)
