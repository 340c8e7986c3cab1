-- ===== src/Hd/Address.antt =====
-- The address and the count that a command of kernel/hd.c carries.
use minx.Prelude.{ℕ, ◌+◌, ◌*◌, ◌/◌, ◌%◌, ◌^◌, Bool, ◌&&◌, ◌==◌}
use minx.Hd.{HdCmd, Hd, make_device_reg}

-- The sector that the drive takes from the registers: 28 bits, of which the highest four are in the
-- device register.
abbrev pub lba_of : HdCmd → ℕ
lba_of cmd = cmd.lba_low + cmd.lba_mid * 2 ^ 8 + cmd.lba_high * 2 ^ 16 + cmd.device % 2 ^ 4 * 2 ^ 24

-- The drive that the device register selects.
abbrev pub drive_of : HdCmd → ℕ
drive_of cmd = cmd.device / 2 ^ 4 % 2

-- Both fields of the device register are read back.
reg_keeps : ℕ → ℕ → Bool
reg_keeps drive x =
    (make_device_reg drive x % 2 ^ 8 % 2 ^ 4 == x)
    && (make_device_reg drive x % 2 ^ 8 / 2 ^ 4 % 2 == drive)
