-- ===== src/Rtc/Alarm.antt =====
-- The alarm of the clock chip.
use pyrinas_zephyr.Common.{
  ℕ, ◌%◌, ◌≡◌, refl, Bool, false, ◌&&◌, [], ◌∷◌, ◌==◌, if◌then◌else◌, ℤ, pos, is_error, arith,
}
use pyrinas_zephyr.Rtc.{
  test_bit, has, Bus, ctrl2, timer_value, timer_mode, ctrl2_tf, mode_en, mode_int_en,
  mode_int_ti_tp, mode_freq_mask, result_of, pcf85063a_set_alarm, pcf85063a_cancel_alarm,
}

chain3 :
    {C : Type 0} (c1 c2 c3 : C) (r1 r2 r3 : ℤ)
    → let end : C × ℤ =
        (if is_error r1 then (c1, r1) else if is_error r2 then (c2, r2) else (c3, result_of r3)) in
      end.1 ≡ pos 0
      → (is_error r1 ≡ false) × (is_error r2 ≡ false) × (is_error r3 ≡ false) × (end.0 ≡ c3)
chain3 c1 c2 c3 r1 r2 r3 ok = ground arith

chain2 :
    {C : Type 0} (c1 c2 : C) (r1 r2 : ℤ)
    → let end : C × ℤ = (if is_error r1 then (c1, r1) else (c2, result_of r2)) in
      end.1 ≡ pos 0 → (is_error r1 ≡ false) × (is_error r2 ≡ false) × (end.0 ≡ c2)
chain2 c1 c2 r1 r2 ok = ground arith

module _ {C : Type 0} (B : Bus C) where
  -- The bits of the chip with an alarm, or after it was cancelled, in terms of those before.
  unfoldable pub armed : ℕ → C → ℕ → ℕ → Bool
  armed ticks c s i =
      if s == timer_mode && has (4 ∷ 3 ∷ mode_en ∷ mode_int_en ∷ []) i
      then has (4 ∷ mode_en ∷ mode_int_en ∷ []) i
      else if s == timer_value
      then test_bit (ticks % 256) i
      else if s == ctrl2 && has (ctrl2_tf ∷ []) i
      then false
      else B.bit c s i

  unfoldable pub disarmed : (ℕ → ℕ → Bool) → ℕ → ℕ → Bool
  disarmed before s i =
      if s == timer_mode && has (mode_en ∷ mode_int_en ∷ mode_int_ti_tp ∷ []) i
      then false
      else if s == ctrl2 && has (ctrl2_tf ∷ []) i
      then false
      else before s i

  -- An alarm that was set without an error: the timer counts the ticks, modulo 256, once a second,
  -- with its interrupt on, its flag is clear, and no other bit of the chip has changed.
  pub set_alarm-bits :
      (ticks : ℕ) (c : C)
      → (pcf85063a_set_alarm B ticks c).1 ≡ pos 0
      → (s i : ℕ) → B.bit (pcf85063a_set_alarm B ticks c).0 s i ≡ armed ticks c s i
  unfolding pcf85063a_set_alarm armed
  set_alarm-bits ticks c ok s i =
      let flag = has (ctrl2_tf ∷ []) in
      let on = has (4 ∷ mode_en ∷ mode_int_en ∷ []) in
      let mode = has (4 ∷ 3 ∷ mode_en ∷ mode_int_en ∷ []) in
      let (c1, r1) = B.update_byte ctrl2 flag (has []) c in
      let (c2, r2) = B.write_byte timer_value (ticks % 256) c1 in
      let (c3, r3) = B.update_byte timer_mode mode on c2 in
      let (e1, e2, e3, same) = chain3 c1 c2 c3 r1 r2 r3 ok in
      rw
        (
          same,
          B.update_byte_lem timer_mode mode on c2 e3 s i,
          B.write_byte_lem timer_value (ticks % 256) c1 e2 s i,
          B.update_byte_lem ctrl2 flag (has []) c e1 s i,
        )
        refl

  cancel_alarm-bits :
      (c : C)
      → (pcf85063a_cancel_alarm B c).1 ≡ pos 0
      → (s i : ℕ) → B.bit (pcf85063a_cancel_alarm B c).0 s i ≡ disarmed (B.bit c) s i
  unfolding pcf85063a_cancel_alarm disarmed
  cancel_alarm-bits c ok s i =
      let flag = has (ctrl2_tf ∷ []) in
      let mode = has (mode_en ∷ mode_int_en ∷ mode_int_ti_tp ∷ []) in
      let (c1, r1) = B.update_byte ctrl2 flag (has []) c in
      let (c2, r2) = B.update_byte timer_mode mode (has []) c1 in
      let (e1, e2, same) = chain2 c1 c2 r1 r2 ok in
      rw
        (
          same,
          B.update_byte_lem timer_mode mode (has []) c1 e2 s i,
          B.update_byte_lem ctrl2 flag (has []) c e1 s i,
        )
        refl

  unfoldable pub settled : ℕ → C → ℕ → ℕ → Bool
  settled ticks c s i =
      if s == timer_mode && has (mode_en ∷ mode_int_en ∷ mode_int_ti_tp ∷ []) i
      then false
      else if s == timer_mode && has mode_freq_mask i
      then i == 4
      else if s == timer_value
      then test_bit (ticks % 256) i
      else if s == ctrl2 && has (ctrl2_tf ∷ []) i
      then false
      else B.bit c s i

  -- An alarm that is set and then cancelled, both without an error: the timer and its interrupts are
  -- off and its flag is clear, its frequency is one second, its register holds the ticks modulo 256,
  -- and every other bit of the chip is as it was before the alarm was set.
  pub cancel_alarm-set_alarm :
      (ticks : ℕ) (c : C) (s i : ℕ)
      → (pcf85063a_set_alarm B ticks c).1 ≡ pos 0
      → (pcf85063a_cancel_alarm B (pcf85063a_set_alarm B ticks c).0).1 ≡ pos 0
      → B.bit (pcf85063a_cancel_alarm B (pcf85063a_set_alarm B ticks c).0).0 s i
        ≡ settled ticks c s i
  unfolding armed disarmed settled
  cancel_alarm-set_alarm ticks c s i ok ok' = ground (
    arith,
    set_alarm-bits ticks c ok s i,
    cancel_alarm-bits (pcf85063a_set_alarm B ticks c).0 ok' s i,
  )
