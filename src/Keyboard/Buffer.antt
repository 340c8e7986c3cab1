-- ===== src/Keyboard/Buffer.antt =====
-- The buffer of scan codes is a queue of at most 32.
use minx.Prelude.{
  ℕ, zero, suc, ◌+◌, ◌-◌, ◌<◌, ◌≤◌, ◌≡◌, refl, sym, ap, ◌∙◌, true, false, List, [], ◌∷◌, ◌++◌,
  Option, some, arith, length, length-append, get_elem?, ◌==◌, ltb, if◌then◌else◌, Bool-cases,
  update, inl, inr, ok,
}
use minx.Keyboard.{KbBuf, ke_in_count, advance, put_scan_code, get_scan_code_from_kb_buf, init_buf}

-- The place of the code that is `i` places behind the first.
abbrev pub place : ℕ → ℕ → ℕ
place first i = if ltb (first + i) ke_in_count then first + i else first + i - ke_in_count

-- The buffer holds the codes `xs`, oldest first.
pub record Holds (b : KbBuf) (xs : List ℕ) : Type 0 where
  pub first : b.p_pending < ke_in_count
  pub fits : length xs ≤ ke_in_count
  pub counted : b.count ≡ length xs
  pub free : b.p_usable ≡ place b.p_pending (length xs)
  pub stored : (i x : ℕ) → get_elem? xs i ≡ some x → b.buf (place b.p_pending i) ≡ x

get_elem?-lt : (xs : List ℕ) (i x : ℕ) → get_elem? xs i ≡ some x → i < length xs
get_elem?-lt [] i x h = cc
get_elem?-lt (a ∷ xs) zero x h = omega arith
get_elem?-lt (a ∷ xs) (suc i) x h = omega (arith, get_elem?-lt xs i x h)

-- An entry of a list with `x` at its end.
get_elem?-append :
    (xs : List ℕ) (x i y : ℕ)
    → get_elem? (xs ++ x ∷ []) i ≡ some y
    → minx.Prelude.◌⊎◌ ((i < length xs) × (get_elem? xs i ≡ some y)) ((i ≡ length xs) × (x ≡ y))
get_elem?-append [] x zero y h = inr (refl, ground (arith, h))
get_elem?-append [] x (suc i) y h = cc
get_elem?-append (a ∷ xs) x zero y h = inl (omega arith, h)
get_elem?-append (a ∷ xs) x (suc i) y h = elim (get_elem?-append xs x i y h) [
  | inl e ↦ inl (omega (arith, e.0), e.1)
  | inr e ↦ inr (ap suc e.0, e.1)
]

advance-place :
    (p n : ℕ) → p < ke_in_count → n < ke_in_count → advance (place p n) ≡ place p (n + 1)
advance-place p n h l = ground arith

place-advance :
    (p n : ℕ) → p < ke_in_count → n < ke_in_count → place (advance p) n ≡ place p (suc n)
place-advance p n h l = ground arith

place-ne :
    (p i n : ℕ)
    → p < ke_in_count
    → i < n
    → n < ke_in_count
    → minx.Prelude.◌≢◌ (place p n) (place p i)
place-ne p i n h l m = ground arith

-- The queue that the buffer stands for, after one more code: a full queue loses it.
abbrev pub pushed : List ℕ → ℕ → List ℕ
pushed xs c = if ltb (length xs) ke_in_count then xs ++ c ∷ [] else xs

put-full :
    (b : KbBuf) (xs : List ℕ) (c : ℕ)
    → Holds b xs
    → ltb (length xs) ke_in_count ≡ false
    → put_scan_code c b ≡ b
unfolding put_scan_code
put-full b xs c h full = rw (h.counted, full) refl

put-room :
    (b : KbBuf) (xs : List ℕ) (c : ℕ)
    → Holds b xs
    → length xs < ke_in_count
    → Holds (put_scan_code c b) (xs ++ c ∷ [])
unfolding put_scan_code
put-room b xs c h room =
    rw (h.counted, minx.Prelude.lt→ltb _ _ room)
      (record {
        first = h.first;
        fits = omega (arith, length-append xs (c ∷ []));
        counted = omega (arith, length-append xs (c ∷ []), h.counted);
        free =
            ap advance h.free
            ∙ advance-place b.p_pending (length xs) h.first room
            ∙ ap (place b.p_pending) (sym (length-append xs (c ∷ [])));
        stored = λ i x e. elim (get_elem?-append xs c i x e) [
          | inl old ↦
              let apart = place-ne b.p_pending i (length xs) h.first old.0 room in
              rw h.free (
                minx.Prelude.update_ne b.buf (place b.p_pending (length xs)) (place b.p_pending i) c
                  apart
                ∙ h.stored i x old.1)
          | inr new ↦ rw (h.free, new.0) (minx.Prelude.update_self b.buf _ c ∙ new.1)
        ];
      })

-- A keyboard interrupt puts its scan code at the end of the queue; when 32 codes wait it is lost,
-- and those that wait are kept.
pub put_scan_code-Holds :
    (b : KbBuf) (xs : List ℕ) (c : ℕ) → Holds b xs → Holds (put_scan_code c b) (pushed xs c)
put_scan_code-Holds b xs c h = elim (Bool-cases (ltb (length xs) ke_in_count)) [
  | inl room ↦ rw room (put-room b xs c h (ground arith))
  | inr full ↦ rw (full, put-full b xs c h full) h
]

-- A read takes the oldest scan code, and leaves the others in their order.
pub get_scan_code-Holds :
    (b : KbBuf) (x : ℕ) (xs : List ℕ)
    → Holds b (x ∷ xs)
    → (b' : KbBuf) × (get_scan_code_from_kb_buf b ≡ ok (x, b')) × Holds b' xs
unfolding get_scan_code_from_kb_buf
get_scan_code-Holds b x xs h =
    let head : b.buf b.p_pending ≡ x = ap b.buf (ground (arith, h.first)) ∙ h.stored 0 x refl in
    (
      record b { p_pending = advance b.p_pending; count = b.count - 1 },
      rw (h.counted, head, minx.Prelude.ne→== (suc (length xs)) 0 (omega arith)) refl,
      record {
        first = ground (arith, h.first);
        fits = omega (arith, h.fits);
        counted = omega (arith, h.counted);
        free = h.free ∙ sym (place-advance b.p_pending (length xs) h.first (omega (arith, h.fits)));
        stored = λ i y e.
            ap b.buf
              (place-advance b.p_pending i h.first (omega (arith, get_elem?-lt xs i y e, h.fits)))
            ∙ h.stored (suc i) y e;
      },
    )

-- `init_keyboard` leaves an empty queue.
pub init_buf-Holds : (b : KbBuf) → Holds (init_buf b) []
unfolding init_buf
init_buf-Holds b = record {
  first = omega arith;
  fits = omega arith;
  counted = refl;
  free = refl;
  stored = λ i x e. cc;
}
