-- ===== src/Protect.antt =====
-- Segment descriptors and interrupt gates: `DESCRIPTOR` and `GATE` of include/sys/protect.h,
-- `init_descriptor` of lib/protect.c and `init_idt_desc` of lib/interrupt.c. An address is a number
-- of 32 bits.
pub mod Fields
pub mod Idt
mod Tests
use minx.Prelude.{ℕ, ◌+◌, ◌*◌, ◌/◌, ◌%◌, ◌^◌, bit_and, bit_or, update}

-- `DESCRIPTOR`
pub record Descriptor : Type 0 where
  pub limit_low : ℕ
  pub base_low : ℕ
  pub base_mid : ℕ
  pub attr_low : ℕ
  pub attr_high : ℕ
  pub base_high : ℕ

-- The fields keep 8 or 16 bits of what is assigned to them.
unfoldable pub init_descriptor : ℕ → ℕ → ℕ → Descriptor
init_descriptor base limit attr = record {
  base_high = base / 2 ^ 24 % 2 ^ 8;
  base_mid = base / 2 ^ 16 % 2 ^ 8;
  base_low = base % 2 ^ 16;
  limit_low = limit % 2 ^ 16;
  attr_high = bit_or (limit / 2 ^ 16 % 2 ^ 4) (bit_and (attr / 2 ^ 8) 0xf0);
  attr_low = attr % 2 ^ 8;
}

-- `GATE`
pub record Gate : Type 0 where
  pub offset_low : ℕ
  pub selector : ℕ
  pub dcount : ℕ
  pub gate_attr : ℕ
  pub offset_high : ℕ

-- SELECTOR_CORE_CODE_4G
abbrev pub selector_core_code_4g : ℕ
selector_core_code_4g = 16

-- The gate that `init_idt_desc` makes.
unfoldable pub idt_desc : ℕ → ℕ → ℕ → Gate
idt_desc desc_type handler privilege = record {
  offset_low = handler % 2 ^ 16;
  selector = selector_core_code_4g;
  dcount = 0;
  gate_attr = bit_or desc_type (privilege * 2 ^ 5) % 2 ^ 8;
  offset_high = handler / 2 ^ 16 % 2 ^ 16;
}

unfoldable pub init_idt_desc : ℕ → ℕ → ℕ → ℕ → (ℕ → Gate) → ℕ → Gate
init_idt_desc vector desc_type handler privilege idt =
    update idt vector (idt_desc desc_type handler privilege)
