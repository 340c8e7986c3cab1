-- ===== src/Protect/Tests.antt =====
-- A descriptor, and the table of interrupts with routines at made-up addresses.
use minx.Prelude.{ℕ, ◌+◌, ◌*◌, ◌/◌, ◌%◌, ◌^◌, ◌<◌, ◌≡◌, true, ◌&&◌, ◌==◌, arith}
use minx.Protect.{init_descriptor}
use minx.Protect.Fields.{
  base_of, limit_of, attr_of, privilege_of, is_present, init_descriptor-fields,
}
use minx.Protect.Idt.{
  Routine, hwint, system_call, LeadsTo, set_idt, is_filled, is_callable, set_idt_lem,
}

init_descriptor-fields_example :
    (base_of (init_descriptor 0x12_3456 0xf_ffff 0xc092) ≡ 0x12_3456)
    × (limit_of (init_descriptor 0x12_3456 0xf_ffff 0xc092) ≡ 0xf_ffff % 2 ^ 20)
    × (attr_of (init_descriptor 0x12_3456 0xf_ffff 0xc092)
        ≡ 0xc092 / 2 ^ 12 * 2 ^ 12 + 0xc092 % 2 ^ 8)
init_descriptor-fields_example =
    init_descriptor-fields 0x12_3456 0xf_ffff 0xc092 (omega arith) (omega arith)

-- Routines of 16 bytes, one behind the other.
abbrev place_of : Routine → ℕ
place_of (hwint n) = n % 16 * 16 + 8192
place_of system_call = 4096
place_of r = 12288

place_of-lt : (r : Routine) → place_of r < 2 ^ 32
place_of-lt (hwint n) = omega arith
place_of-lt system_call = omega arith
place_of-lt r = omega arith

set_idt_lem_example :
    (is_present (set_idt place_of 33) ≡ is_filled 33)
    × ((is_present (set_idt place_of 33) && privilege_of (set_idt place_of 33) == 3)
        ≡ is_callable 33)
    × (is_present (set_idt place_of 33) ≡ true → LeadsTo 8208 (set_idt place_of 33))
set_idt_lem_example = set_idt_lem place_of 33 place_of-lt (omega arith)
