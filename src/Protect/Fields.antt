-- ===== src/Protect/Fields.antt =====
-- What the processor reads from the fields.
use minx.Prelude.{
  ℕ, ◌+◌, ◌*◌, ◌/◌, ◌%◌, ◌^◌, ◌<◌, ◌≡◌, refl, true, Bool, ◌&&◌, bit_and, bit_or, ◌==◌, all_below,
  all_below-at, ==→eq, &&-true, arith,
}
use minx.Protect.{Descriptor, init_descriptor, Gate, idt_desc}

-- The base, the limit and the attributes of a segment, as the processor puts them together.
abbrev pub base_of : Descriptor → ℕ
base_of d = d.base_high * 2 ^ 24 + d.base_mid * 2 ^ 16 + d.base_low

abbrev pub limit_of : Descriptor → ℕ
limit_of d = d.attr_high % 2 ^ 4 * 2 ^ 16 + d.limit_low

abbrev pub attr_of : Descriptor → ℕ
attr_of d = d.attr_high / 2 ^ 4 * 2 ^ 12 + d.attr_low

-- A byte of two halves.
halves : ℕ → ℕ → Bool
halves lo b = (bit_or lo (bit_and b 0xf0) % 16 == lo) && (bit_or lo (bit_and b 0xf0) / 16 == b / 16)

halves_table : all_below 16 (λ lo. all_below 256 (halves lo)) ≡ true
unfolding halves
halves_table = refl

halves_lem :
    (lo b : ℕ)
    → lo < 16
    → b < 256
    → (bit_or lo (bit_and b 0xf0) % 16 ≡ lo) × (bit_or lo (bit_and b 0xf0) / 16 ≡ b / 16)
unfolding halves
halves_lem lo b l h =
    let t = all_below-at 16 (λ lo. all_below 256 (halves lo)) lo l halves_table in
    let u = all_below-at 256 (halves lo) b h t in
    let (a, c) = &&-true (bit_or lo (bit_and b 0xf0) % 16 == lo) _ u in (==→eq _ _ a, ==→eq _ _ c)

-- `init_descriptor` makes a descriptor with the base of 32 bits, the low 20 bits of the limit, and the
-- attributes of 16 bits without bits 8 to 11, which belong to the limit.
pub init_descriptor-fields :
    (base limit attr : ℕ)
    → base < 2 ^ 32
    → attr < 2 ^ 16
    → (base_of (init_descriptor base limit attr) ≡ base)
      × (limit_of (init_descriptor base limit attr) ≡ limit % 2 ^ 20)
      × (attr_of (init_descriptor base limit attr) ≡ attr / 2 ^ 12 * 2 ^ 12 + attr % 2 ^ 8)
unfolding init_descriptor
init_descriptor-fields base limit attr b a =
    let (low, high) =
      halves_lem (limit / 2 ^ 16 % 2 ^ 4) (attr / 2 ^ 8) (omega arith) (omega (arith, a)) in
    (omega (arith, b), omega (arith, low), omega (arith, high, a))

-- The address of a gate, and the privilege that a program must have to call it.
abbrev pub offset_of : Gate → ℕ
offset_of g = g.offset_high * 2 ^ 16 + g.offset_low

abbrev pub privilege_of : Gate → ℕ
privilege_of g = g.gate_attr / 2 ^ 5 % 4

-- The bit P.
abbrev pub is_present : Gate → Bool
is_present g = g.gate_attr / 2 ^ 7 % 2 == 1

pub idt_desc-offset :
    (desc_type handler privilege : ℕ)
    → handler < 2 ^ 32
    → offset_of (idt_desc desc_type handler privilege) ≡ handler
unfolding idt_desc
idt_desc-offset desc_type handler privilege h = omega (arith, h)
