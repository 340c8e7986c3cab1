-- ===== src/Strings.antt =====
-- The string routines of lib/mystring_c.c. Memory is a table of bytes; a `char` is its byte, and
-- signed where it is computed with. Loops over a text run on fuel. The proofs are in the child
-- modules.
pub mod Text
pub mod Compare
pub mod Number
mod Tests
use minx.Prelude.{
  ℕ, zero, suc, ◌+◌, ◌-◌, ◌*◌, ◌/◌, ◌%◌, Bool, true, false, not, ◌&&◌, ◌||◌, ◌==◌, ltb, leb,
  if◌then◌else◌, update, List, [], ◌∷◌, ◌++◌, Result, ok, stop, hang, ◌>>=◌,
}
use minx.Prelude.Int.{ℤ, pos, negsuc, pos_part, neg_part, sub_ℕ}

abbrev pub Bytes : Type 0
Bytes = ℕ → ℕ

-- `while(*s++) i++;`
unfoldable pub strlen : ℕ → Bytes → ℕ → Result ℕ
strlen zero m s = stop hang
strlen (suc fuel) m s =
    let rest = strlen fuel m (s + 1) in if m s == 0 then ok 0 else (do n ← rest; ok (n + 1))

pub strcpy : ℕ → ℕ → ℕ → Bytes → Result Bytes
strcpy zero des src m = stop hang
strcpy (suc fuel) des src m =
    let rest = strcpy fuel (des + 1) (src + 1) (update m des (m src)) in
    if m src == 0 then ok (update m des 0) else rest

pub strcat : ℕ → ℕ → ℕ → Bytes → Result Bytes
strcat fuel des src m = do len ← strlen fuel m des; strcpy fuel (des + len) src m

-- The value of a `char` minus that of another; a `char` is signed.
abbrev pub signed_part : ℕ → ℕ
signed_part c = if ltb c 128 then c + 256 else c

abbrev pub char_diff : ℕ → ℕ → ℤ
char_diff a b = sub_ℕ (signed_part a) (signed_part b)

-- The `for` of `memcmp`, with `n` rounds left.
pub memcmp_from : ℕ → ℕ → ℕ → Bytes → ℤ
memcmp_from zero p1 p2 m = pos 0
memcmp_from (suc n) p1 p2 m =
    let rest = memcmp_from n (p1 + 1) (p2 + 1) m in
    if m p1 == m p2 then rest else char_diff (m p1) (m p2)

-- A null pointer gives the difference of the addresses.
pub memcmp : ℕ → ℕ → ℕ → Bytes → ℤ
memcmp s1 s2 n m = if s1 == 0 || s2 == 0 then sub_ℕ s1 s2 else memcmp_from n s1 s2 m

-- The `for` of `strcmp`.
pub strcmp_from : ℕ → ℕ → ℕ → Bytes → Result ℤ
strcmp_from zero p1 p2 m = stop hang
strcmp_from (suc fuel) p1 p2 m =
    let rest = strcmp_from fuel (p1 + 1) (p2 + 1) m in
    if not (m p1 == 0) && not (m p2 == 0) && (m p1 == m p2)
    then rest
    else ok (char_diff (m p1) (m p2))

pub strcmp : ℕ → ℕ → ℕ → Bytes → Result ℤ
strcmp fuel s1 s2 m = if s1 == 0 || s2 == 0 then ok (sub_ℕ s1 s2) else strcmp_from fuel s1 s2 m

-- The character of a remainder of `num`, which is negative where `num` is.
abbrev pub digit_char : Bool → ℕ → ℤ
digit_char negative d =
    if negative then sub_ℕ 48 d else if ltb 9 d then pos (d + 55) else pos (d + 48)

-- The `while(num)`, for a number of the size `n`: the characters in the order in which they are
-- written to `p`, the last digit first.
unfoldable pub digits : ℕ → Bool → ℕ → ℕ → Result (List ℤ)
digits zero negative n show_mode = stop hang
digits (suc fuel) negative n show_mode =
    let rest = digits fuel negative (n / show_mode) show_mode in
    if n == 0 then ok [] else (do r ← rest; ok (digit_char negative (n % show_mode) ∷ r))

-- The `while(q1 != p)`, which copies them to the end of `q` from the last to the first.
unfoldable pub copied_back : List ℤ → List ℤ → List ℤ
copied_back [] q = q
copied_back (c ∷ p) q = copied_back p (c ∷ q)

abbrev pub is_negative : ℤ → Bool
is_negative (pos n) = false
is_negative (negsuc n) = true

-- How far a number is from 0.
abbrev pub size : ℤ → ℕ
size (pos n) = n
size (negsuc n) = suc n

-- The characters `0x` before a number in base 16.
abbrev pub with_prefix : ℕ → List ℤ → List ℤ
with_prefix show_mode number = if show_mode == 16 then pos 48 ∷ pos 120 ∷ number else number

-- The characters that `itoa` writes to `str`, before the zero.
unfoldable pub itoa : ℕ → ℤ → ℕ → Result (List ℤ)
itoa fuel num show_mode = do
  p ← digits fuel (is_negative num) (size num) show_mode
  let number = if size num == 0 then pos 48 ∷ [] else copied_back p []
  ok (with_prefix show_mode number)
