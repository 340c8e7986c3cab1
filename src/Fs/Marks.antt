-- ===== src/Fs/Marks.antt =====
-- The bits that `alloc_smap_bit` sets in a sector of the map of sectors.
use mathlib.Core.Path.{subst}
use minx.Prelude.{
  ℕ, zero, suc, ◌+◌, ◌-◌, ◌^◌, ◌<◌, ◌≤◌, ◌≡◌, inl, inr, refl, sym, ◌∙◌, Bool, true, false, not,
  ◌&&◌, ◌||◌, ◌==◌, leb, ltb, Bool-cases, update, update_ne, bit_or, Result, ok, stop, assertion,
  Yields, check-Yields, Yields-map, all_below, all_below-at, ==→eq, ltb→lt, leb→le, &&-true, arith,
}
use minx.Const.{sector_size}
use minx.Fs.Alloc.{bit, skip_bits, set_bits}

-- How many bits of a byte are set, and of the first `n` bytes of a buffer.
unfoldable pub ones : ℕ → ℕ
ones b = bit b 0 + bit b 1 + bit b 2 + bit b 3 + bit b 4 + bit b 5 + bit b 6 + bit b 7

unfoldable pub ones_in : ℕ → (ℕ → ℕ) → ℕ
ones_in zero buf = 0
ones_in (suc n) buf = ones_in n buf + ones (buf n)

-- Setting bit `k` of a byte whose bit `k` is clear.
marks : ℕ → ℕ → Bool
marks k b =
    let b' = bit_or b (2 ^ k) in
    not (bit b k == 0)
    || (ltb b' 256 && (ones b' == ones b + 1 && all_below 8 (λ i. leb (bit b i) (bit b' i))))

marks_table : all_below 8 (λ k. all_below 256 (marks k)) ≡ true
unfolding marks ones
marks_table = refl

-- From a byte and a count to a byte with more bits and a count that is as much smaller.
pub record IsMarked (b n : ℕ) (r : ℕ × ℕ) : Type 0 where
  byte : r.0 < 256
  count : ones r.0 + r.1 ≡ ones b + n
  kept : (i : ℕ) → i < 8 → bit b i ≤ bit r.0 i

or_taken : (a b : Bool) → (not a || b) ≡ true → a ≡ true → b ≡ true
or_taken true b h e = h
or_taken false b h e = cc

mark-IsMarked :
    (k b n : ℕ)
    → k < 8
    → b < 256
    → 0 < n
    → (bit b k == 0) ≡ true
    → IsMarked b n (bit_or b (2 ^ k), n - 1)
unfolding marks
mark-IsMarked k b n l h m clear =
    let b' = bit_or b (2 ^ k) in
    let more = all_below 8 (λ i. leb (bit b i) (bit b' i)) in
    let t = all_below-at 8 (λ k. all_below 256 (marks k)) k l marks_table in
    let u = or_taken (bit b k == 0) _ (all_below-at 256 (marks k) b h t) clear in
    let (small, v) = &&-true (ltb b' 256) _ u in
    let (one, kept) = &&-true (ones b' == ones b + 1) _ v in
    let e : ones b' ≡ ones b + 1 = ==→eq _ _ one in
    record {
      byte = ltb→lt _ _ small;
      count = rw e (omega (arith, m));
      kept = λ i j. leb→le _ _ (all_below-at 8 (λ i. leb (bit b i) (bit b' i)) i j kept);
    }

IsMarked-trans : (b n : ℕ) (r r' : ℕ × ℕ) → IsMarked b n r → IsMarked r.0 r.1 r' → IsMarked b n r'
IsMarked-trans b n r r' h h' = record {
  byte = h'.byte;
  count = h'.count ∙ h.count;
  kept = λ i l. let a = h.kept i l in let c = h'.kept i l in omega (arith, a, c);
}

-- `set_bits` fails its assertion, or takes off from the count as many as it sets.
pub set_bits-IsMarked :
    (left byte k n : ℕ)
    → byte < 256
    → k + left ≤ 8
    → 0 < n
    → Yields assertion (IsMarked byte n) (set_bits left byte k n)
unfolding set_bits
set_bits-IsMarked zero byte k n h l m = record { byte = h; count = refl; kept = λ i j. omega arith }
set_bits-IsMarked (suc left) byte k n h l m =
    let byte' = bit_or byte (2 ^ k) in
    check-Yields (IsMarked byte n) (bit byte k == 0) _ λ clear.
      let first = mark-IsMarked k byte n (omega (arith, l)) h m clear in
      elim (Bool-cases (n - 1 == 0)) [
        | inl e ↦
            let last : n - 1 ≡ 0 = ==→eq _ _ e in
            rw e (subst (λ c. IsMarked byte n (byte', c)) last first)
        | inr e ↦ rw e (
            Yields-map assertion (IsMarked byte' (n - 1)) (IsMarked byte n)
              (set_bits left byte' (k + 1) (n - 1))
              (λ r h'. IsMarked-trans byte n (byte', n - 1) r first h')
              (set_bits-IsMarked left byte' (k + 1) (n - 1) first.byte (omega (arith, l))
                (ground (arith, e, m))))
      ]

-- A byte that is not full has a clear bit.
finds : ℕ → Bool
finds b = elim (skip_bits 8 b 0) [ stop f ↦ false | ok k ↦ ltb k 8 ]

finds_table : all_below 255 finds ≡ true
unfolding finds skip_bits
finds_table = refl

finds-Yields :
    (r : Result ℕ)
    → elim r [ stop f ↦ false | ok k ↦ ltb k 8 ] ≡ true
    → Yields assertion (λ k. k < 8) r
finds-Yields (stop f) h = cc
finds-Yields (ok k) h = ground (arith, h)

pub skip_bits-Yields : (b : ℕ) → b < 255 → Yields assertion (λ k. k < 8) (skip_bits 8 b 0)
unfolding finds
skip_bits-Yields b l = finds-Yields (skip_bits 8 b 0) (all_below-at 255 finds b l finds_table)

-- From a buffer and a count to a buffer with more bits and a count that is as much smaller.
pub record IsFilled (buf : ℕ → ℕ) (n : ℕ) (buf' : ℕ → ℕ) (n' : ℕ) : Type 0 where
  pub bytes : (j : ℕ) → buf' j < 256
  pub count : ones_in sector_size buf' + n' ≡ ones_in sector_size buf + n
  pub kept : (j i : ℕ) → i < 8 → bit (buf j) i ≤ bit (buf' j) i

swap : (a b c : ℕ) → a + b + c ≡ a + c + b
swap a b c = omega arith

carry : (a b x o v : ℕ) → a + o ≡ b + v → a + x + o ≡ b + x + v
carry a b x o v h = omega (arith, h)

-- A byte of a buffer is exchanged.
ones_in-other : (m : ℕ) (buf : ℕ → ℕ) (j v : ℕ) → m ≤ j → ones_in m (update buf j v) ≡ ones_in m buf
unfolding ones_in
ones_in-other zero buf j v l = refl
ones_in-other (suc m) buf j v l =
    rw (ones_in-other m buf j v (omega (arith, l)), update_ne buf j m v (omega (arith, l))) refl

ones_in-update :
    (m : ℕ) (buf : ℕ → ℕ) (j v : ℕ)
    → j < m
    → ones_in m (update buf j v) + ones (buf j) ≡ ones_in m buf + ones v
unfolding ones_in
ones_in-update zero buf j v l = absurd (omega (arith, l))
ones_in-update (suc m) buf j v l = elim (Bool-cases (j == m)) [
  | inl e ↦
      let same : m ≡ j = sym (==→eq j m e) in
      rw (ones_in-other m buf j v (omega (arith, same)), e, same)
        (swap (ones_in j buf) (ones v) (ones (buf j)))
  | inr e ↦ rw e (carry _ _ (ones (buf m)) _ _ (ones_in-update m buf j v (ground (arith, e, l))))
]

pub none-IsFilled : (buf : ℕ → ℕ) (n : ℕ) → ((j : ℕ) → buf j < 256) → IsFilled buf n buf n
none-IsFilled buf n small = record { bytes = small; count = refl; kept = λ j i l. omega arith }

pub IsFilled-trans :
    (buf : ℕ → ℕ) (n : ℕ) (buf1 : ℕ → ℕ) (n1 : ℕ) (buf2 : ℕ → ℕ) (n2 : ℕ)
    → IsFilled buf n buf1 n1
    → IsFilled buf1 n1 buf2 n2
    → IsFilled buf n buf2 n2
IsFilled-trans buf n buf1 n1 buf2 n2 h h' = record {
  bytes = h'.bytes;
  count = h'.count ∙ h.count;
  kept = λ j i l. let a = h.kept j i l in let c = h'.kept j i l in omega (arith, a, c);
}

counted : (a b o v n n' : ℕ) → a + o ≡ b + v → v + n' ≡ o + n → a + n' ≡ b + n
counted a b o v n n' h e = omega (arith, h, e)

-- A byte of the sector with more bits.
pub byte-IsFilled :
    (buf : ℕ → ℕ) (n j : ℕ) (r : ℕ × ℕ)
    → ((j : ℕ) → buf j < 256)
    → j < sector_size
    → IsMarked (buf j) n r
    → IsFilled buf n (update buf j r.0) r.1
byte-IsFilled buf n j r small l h = record {
  bytes = λ m. elim (Bool-cases (j == m)) [ inl e ↦ rw e h.byte | inr e ↦ rw e (small m) ];
  count =
      counted _ _ (ones (buf j)) (ones r.0) n r.1 (ones_in-update sector_size buf j r.0 l) h.count;
  kept = λ m i k. elim (Bool-cases (j == m)) [
    | inl e ↦ rw (e, sym (==→eq j m e)) (h.kept i k)
    | inr e ↦ rw e (omega arith)
  ];
}
