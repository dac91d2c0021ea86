-- ===== src/Rtc/Chip.antt =====
-- A chip behind a bus that never fails, with the bits of the registers as a function.
use pyrinas_zephyr.Common.{ℕ, refl, Bool, false, ◌&&◌, ◌==◌, if◌then◌else◌, pos}
use pyrinas_zephyr.Rtc.{test_bit, Bus}

abbrev pub Chip : Type 0
Chip = ℕ → ℕ → Bool

abbrev pub updated : ℕ → (ℕ → Bool) → (ℕ → Bool) → Chip → Chip
updated r mask value c s i = if (s == r) && mask i then value i else c s i

abbrev pub written : ℕ → ℕ → Chip → Chip
written r n c s i = if s == r then test_bit n i else c s i

abbrev pub bus : Bus Chip
bus = record {
  bit = λ c. c;
  update_byte = λ r mask value c. (updated r mask value c, pos 0);
  write_byte = λ r n c. (written r n c, pos 0);
  read_byte = λ r c. (c r, pos 0);
  update_byte_lem = λ r mask value c ok s i. refl;
  write_byte_lem = λ r n c ok s i. refl;
}

abbrev pub blank : Chip
blank s i = false
