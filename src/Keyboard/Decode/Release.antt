-- ===== src/Keyboard/Decode/Release.antt =====
-- Keys that go down and up again.

use minx.Prelude.{
  ℕ, zero, suc, ◌≡◌, refl, sym, ap, ◌∙◌, ◌⊎◌, inl, inr, Bool, true, false, not, ◌&&◌, ◌||◌, ◌==◌,
  Bool-cases, arith, List, [], ◌∷◌, none, bit_and,
}
use minx.Keyboard.{Held}
use minx.Keyboard.Keys.{
  shift_l, shift_r, ctrl_l, ctrl_r, alt_l, alt_r, caps_lock, num_lock, scroll_lock,
}
use minx.Keyboard.Keymap.{Row, row_at, keymap}
use minx.Keyboard.Decode.{is_make_code, caps, column, press, interpret}

-- The tests of `press`.
abbrev pub is_modifier : ℕ → Bool
is_modifier k =
    k == shift_l || k == shift_r || k == ctrl_l || k == ctrl_r || k == alt_l || k == alt_r

abbrev pub is_lock : ℕ → Bool
is_lock k = k == caps_lock || k == num_lock || k == scroll_lock

pub press-other :
    (k : ℕ) (make : Bool) (h : Held)
    → is_modifier k ≡ false
    → is_lock k ≡ false
    → press k make h ≡ h
unfolding press
press-other k make h m l =
    let s1 : (k == shift_l) ≡ false = ground (arith, m) in
    let s2 : (k == shift_r) ≡ false = ground (arith, m) in
    let s3 : (k == ctrl_l) ≡ false = ground (arith, m) in
    let s4 : (k == ctrl_r) ≡ false = ground (arith, m) in
    let s5 : (k == alt_l) ≡ false = ground (arith, m) in
    let s6 : (k == alt_r) ≡ false = ground (arith, m) in
    let s7 : (k == caps_lock) ≡ false = ground (arith, l) in
    let s8 : (k == num_lock) ≡ false = ground (arith, l) in
    let s9 : (k == scroll_lock) ≡ false = ground (arith, l) in
    rw (s1, s2, s3, s4, s5, s6, s7, s8, s9) refl

press-twice :
    (k : ℕ) (h : Held) → is_lock k ≡ false → press k false (press k true h) ≡ press k false h
unfolding press
press-twice k h l = elim (Bool-cases (k == shift_l)) [
  | inl e ↦ rw e refl
  | inr e1 ↦ elim (Bool-cases (k == shift_r)) [
    | inl e ↦ rw (e1, e) refl
    | inr e2 ↦ elim (Bool-cases (k == ctrl_l)) [
      | inl e ↦ rw (e1, e2, e) refl
      | inr e3 ↦ elim (Bool-cases (k == ctrl_r)) [
        | inl e ↦ rw (e1, e2, e3, e) refl
        | inr e4 ↦ elim (Bool-cases (k == alt_l)) [
          | inl e ↦ rw (e1, e2, e3, e4, e) refl
          | inr e5 ↦ elim (Bool-cases (k == alt_r)) [
            | inl e ↦ rw (e1, e2, e3, e4, e5, e) refl
            | inr e6 ↦
                let m : is_modifier k ≡ false = rw (e1, e2, e3, e4, e5, e6) refl in
                ap (press k false) (press-other k true h m l)
          ]
        ]
      ]
    ]
  ]
]

-- A break code changes no lock.
press-locks :
    (k : ℕ) (h : Held)
    → ((press k false h).has_caps_lock ≡ h.has_caps_lock)
      × ((press k false h).has_num_lock ≡ h.has_num_lock)
      × ((press k false h).has_scroll_lock ≡ h.has_scroll_lock)
unfolding press
press-locks k h = (ground arith, ground arith, ground arith)

-- Both columns of a row are the same modifier or lock, or neither is one.
abbrev steady : Row → Bool
steady r =
    r.plain == r.shifted
    || not (is_modifier r.plain || is_lock r.plain)
      && not (is_modifier r.shifted || is_lock r.shifted)

abbrev pub all_rows : (Row → Bool) → List Row → Bool
all_rows f [] = true
all_rows f (r ∷ rs) = f r && all_rows f rs

pub all_rows-at :
    (f : Row → Bool) (rs : List Row) (i : ℕ)
    → f (row_at [] 0) ≡ true
    → all_rows f rs ≡ true
    → f (row_at rs i) ≡ true
all_rows-at f [] i d h = d
all_rows-at f (r ∷ rs) zero d h = ground arith
all_rows-at f (r ∷ rs) (suc i) d h = all_rows-at f rs i d (ground arith)

keymap-steady : (i : ℕ) → steady (row_at keymap i) ≡ true
keymap-steady i = all_rows-at steady keymap i refl refl

-- The code of a key that goes up passes no key to `in_process` and leaves the locks as they are.
pub interpret-break :
    (c : ℕ) (h : Held)
    → is_make_code c ≡ false
    → ((interpret c h).1 ≡ none)
      × ((interpret c h).0.has_caps_lock ≡ h.has_caps_lock)
      × ((interpret c h).0.has_num_lock ≡ h.has_num_lock)
      × ((interpret c h).0.has_scroll_lock ≡ h.has_scroll_lock)
unfolding interpret
interpret-break c h up =
    let key = column h (row_at keymap (bit_and c 0x7f)) in
    let (caps_same, num_same, scroll_same) = press-locks key (record h { code_with_e0 = false }) in
    rw up (refl, caps_same, num_same, scroll_same)

column-either :
    (r : Row) (h : Held)
    → h.code_with_e0 ≡ false
    → (column h r ≡ r.plain) ⊎ (column h r ≡ r.shifted)
column-either r h e = elim (Bool-cases (caps h r)) [
  | inl up ↦ inr (rw (e, up) refl)
  | inr low ↦ inl (rw (e, low) refl)
]

-- Without the code 0xE0, whichever column a key is read from acts as the first.
press-column :
    (r : Row) (h : Held) (make : Bool) (g : Held)
    → steady r ≡ true
    → h.code_with_e0 ≡ false
    → press (column h r) make g ≡ press r.plain make g
press-column r h make g s e = elim (column-either r h e) [
  | inl plain ↦ ap (λ k. press k make g) plain
  | inr shifted ↦ elim (Bool-cases (r.plain == r.shifted)) [
    | inl same ↦ ap (λ k. press k make g) (shifted ∙ ground (arith, same))
    | inr apart ↦
        let none_of_them : (is_modifier r.plain ≡ false)
            × (is_lock r.plain ≡ false)
            × (is_modifier r.shifted ≡ false)
            × (is_lock r.shifted ≡ false) =
          not-acting (r.plain == r.shifted) _ _ _ _ s apart in
        ap (λ k. press k make g) shifted
        ∙ press-other r.shifted make g none_of_them.2 none_of_them.3
        ∙ sym (press-other r.plain make g none_of_them.0 none_of_them.1)
  ]
]
  where
    not-acting :
        (same m l m' l' : Bool)
        → (same || not (m || l) && not (m' || l')) ≡ true
        → same ≡ false
        → (m ≡ false) × (l ≡ false) × (m' ≡ false) × (l' ≡ false)
    not-acting same m l m' l' h e = ground (arith, h, e)

press-e0 : (k : ℕ) (make : Bool) (h : Held) → (press k make h).code_with_e0 ≡ h.code_with_e0
unfolding press
press-e0 k make h = ground arith

interpret-press :
    (c : ℕ) (h : Held)
    → h.code_with_e0 ≡ false
    → (interpret c h).0 ≡ press (row_at keymap (bit_and c 0x7f)).plain (is_make_code c) h
unfolding interpret
interpret-press c h e =
    let same : record h { code_with_e0 = false } ≡ h =
      ap (λ b. record h { code_with_e0 = b }) (sym e) in
    let row = row_at keymap (bit_and c 0x7f) in
    press-column row h (is_make_code c) (record h { code_with_e0 = false })
      (keymap-steady (bit_and c 0x7f)) e
    ∙ ap (press row.plain (is_make_code c)) same

-- A key that goes down and up again, with no code 0xE0, leaves the modifiers and the locks as they
-- were, unless it is a lock or a modifier that was held already; also where the column of the key
-- map changes in between, because the key is a shift key.
pub interpret-release :
    (down up : ℕ) (h : Held)
    → is_make_code down ≡ true
    → is_make_code up ≡ false
    → bit_and down 0x7f ≡ bit_and up 0x7f
    → h.code_with_e0 ≡ false
    → is_lock (row_at keymap (bit_and down 0x7f)).plain ≡ false
    → press (row_at keymap (bit_and down 0x7f)).plain false h ≡ h
    → (interpret up (interpret down h).0).0 ≡ h
interpret-release down up h d u same e l free =
    let key = (row_at keymap (bit_and down 0x7f)).plain in
    let first : (interpret down h).0 ≡ press key true h =
      interpret-press down h e ∙ ap (λ b. press key b h) d in
    let e' : (press key true h).code_with_e0 ≡ false = press-e0 key true h ∙ e in
    ap (λ x. (interpret up x).0) first
    ∙ interpret-press up (press key true h) e'
    ∙ ap (λ i. press (row_at keymap i).plain (is_make_code up) (press key true h)) (sym same)
    ∙ ap (λ b. press key b (press key true h)) u
    ∙ press-twice key h l
    ∙ free
