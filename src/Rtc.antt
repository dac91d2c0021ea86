-- ===== src/Rtc.antt =====
-- drivers/rtc/pcf85063a/pcf85063a.c: the driver of the clock chip. The I2C bus and the chip behind it
-- are a parameter; a register is known by its bits.
pub mod Alarm
pub mod Chip
mod Tests
use pyrinas_zephyr.Common.{
  ℕ, ◌+◌, ◌-◌, ◌/◌, ◌%◌, ◌^◌, ◌≡◌, ◌⊎◌, Bool, true, false, ◌&&◌, ◌||◌, List, [], ◌∷◌, ◌==◌,
  if◌then◌else◌, ℤ, pos, negsuc, is_error, eio, einval,
}

-- Is bit `i` set in the number?
abbrev pub test_bit : ℕ → ℕ → Bool
test_bit n i = n / 2 ^ i % 2 == 1

-- The masks of the driver, as the bits that they have.
abbrev pub has : List ℕ → ℕ → Bool
has [] i = false
has (b ∷ bs) i = (b == i) || has bs i

-- Zephyr's calls `i2c_reg_update_byte`, `i2c_reg_write_byte` and `i2c_reg_read_byte` for the address of
-- the chip, with what their documentation says of a call that returns 0.
pub record Bus (C : Type 0) : Type 0 where
  pub bit : C → ℕ → ℕ → Bool
  pub update_byte : ℕ → (ℕ → Bool) → (ℕ → Bool) → C → C × ℤ
  pub write_byte : ℕ → ℕ → C → C × ℤ
  pub read_byte : ℕ → C → (ℕ → Bool) × ℤ
  pub update_byte_lem :
      (r : ℕ) (mask value : ℕ → Bool) (c : C)
      → is_error (update_byte r mask value c).1 ≡ false
      → (s i : ℕ)
      → bit (update_byte r mask value c).0 s i ≡ (if (s == r) && mask i then value i else bit c s i)
  pub write_byte_lem :
      (r n : ℕ) (c : C)
      → is_error (write_byte r n c).1 ≡ false
      → (s i : ℕ) → bit (write_byte r n c).0 s i ≡ (if s == r then test_bit n i else bit c s i)

abbrev pub ctrl1 : ℕ
ctrl1 = 0

abbrev pub ctrl2 : ℕ
ctrl2 = 1

abbrev pub timer_value : ℕ
timer_value = 16

abbrev pub timer_mode : ℕ
timer_mode = 17

-- PCF85063A_CTRL1_STOP, PCF85063A_CTRL2_TF, and the bits of PCF85063A_TIMER_MODE.
abbrev pub ctrl1_stop : ℕ
ctrl1_stop = 5

abbrev pub ctrl2_tf : ℕ
ctrl2_tf = 3

abbrev pub mode_en : ℕ
mode_en = 2

abbrev pub mode_int_en : ℕ
mode_int_en = 1

abbrev pub mode_int_ti_tp : ℕ
mode_int_ti_tp = 0

-- PCF85063A_TIMER_MODE_FREQ_MASK; PCF85063A_TIMER_MODE_FREQ_1, shifted, is bit 4 of it.
abbrev pub mode_freq_mask : List ℕ
mode_freq_mask = 4 ∷ 3 ∷ []

-- `if (ret) return ret; return 0;`
abbrev pub result_of : ℤ → ℤ
result_of ret = if is_error ret then ret else pos 0

module _ {C : Type 0} (B : Bus C) where
  pub pcf85063a_start : C → C × ℤ
  pcf85063a_start c =
      let (c', ret) = B.update_byte ctrl1 (has (ctrl1_stop ∷ [])) (has []) c in (c', result_of ret)

  pub pcf85063a_stop : C → C × ℤ
  pcf85063a_stop c =
      let (c', ret) = B.update_byte ctrl1 (has (ctrl1_stop ∷ [])) (has (ctrl1_stop ∷ [])) c in
      (c', result_of ret)

  pub pcf85063a_set_alarm : ℕ → C → C × ℤ
  pcf85063a_set_alarm ticks c =
      let (c1, ret1) = B.update_byte ctrl2 (has (ctrl2_tf ∷ [])) (has []) c in
      let (c2, ret2) = B.write_byte timer_value (ticks % 256) c1 in
      let (c3, ret3) =
        B.update_byte timer_mode (has (4 ∷ 3 ∷ mode_en ∷ mode_int_en ∷ []))
          (has (4 ∷ mode_en ∷ mode_int_en ∷ [])) c2 in
      if is_error ret1
      then (c1, ret1)
      else if is_error ret2
      then (c2, ret2)
      else (c3, result_of ret3)

  pub pcf85063a_cancel_alarm : C → C × ℤ
  pcf85063a_cancel_alarm c =
      let (c1, ret1) = B.update_byte ctrl2 (has (ctrl2_tf ∷ [])) (has []) c in
      let (c2, ret2) =
        B.update_byte timer_mode (has (mode_en ∷ mode_int_en ∷ mode_int_ti_tp ∷ [])) (has []) c1 in
      if is_error ret1 then (c1, ret1) else (c2, result_of ret2)

  -- The result as a `uint32_t`: an error is one too.
  abbrev pub to_u32 : ℤ → ℕ
  to_u32 (pos n) = n % 2 ^ 32
  to_u32 (negsuc n) = (2 ^ 32 - 1 - n % 2 ^ 32) % 2 ^ 32

  pub pcf85063a_get_pending_int : C → ℕ
  pcf85063a_get_pending_int c =
      let (reg, ret) = B.read_byte ctrl2 c in
      if is_error ret then to_u32 ret else if reg ctrl2_tf then 1 else 0

  -- Whether `device_get_binding` finds the bus.
  pub pcf85063a_init : Bool → C → ℤ
  pcf85063a_init bound c =
      if bound then if is_error (B.read_byte ctrl1 c).1 then eio else pos 0 else einval
