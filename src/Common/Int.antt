-- ===== src/Common/Int.antt =====
-- C's `int`, as far as the code uses it: results that are tested against 0 and against `-Exxx`.
use Prim.Native.Nat.{ℕ, zero, suc}
use mathlib.Core.Path.{◌≡◌}
use mathlib.Core.Logic.{◌↔◌}
use mathlib.Core.Bool.{Bool, true, false}
use native.Mathlib.Omega.{arith}
use pyrinas_zephyr.Common.Tests.{◌==◌}

-- `negsuc n` is -(n + 1).
pub data ℤ : Type 0 where
  pos : ℕ → ℤ
  negsuc : ℕ → ℤ

infix 50 ◌==ℤ◌
abbrev pub ◌==ℤ◌ : ℤ → ℤ → Bool
pos a ==ℤ pos b = a == b
pos a ==ℤ negsuc b = false
negsuc a ==ℤ pos b = false
negsuc a ==ℤ negsuc b = a == b

-- `if (err)`
abbrev pub is_error : ℤ → Bool
is_error (pos n) = elim n [ zero ↦ false | suc k ↦ true ]
is_error (negsuc n) = true

-- `err < 0`
abbrev pub is_negative : ℤ → Bool
is_negative (pos n) = false
is_negative (negsuc n) = true

-- The codes of errno.h that the code names, negated as it returns them.
abbrev pub enoent : ℤ
enoent = negsuc 1

abbrev pub eio : ℤ
eio = negsuc 4

abbrev pub eagain : ℤ
eagain = negsuc 10

abbrev pub enomem : ℤ
enomem = negsuc 11

abbrev pub einval : ℤ
einval = negsuc 21

abbrev pub enetdown : ℤ
enetdown = negsuc 114

abbrev pub einprogress : ℤ
einprogress = negsuc 118

abbrev pub ealready : ℤ
ealready = negsuc 119

abbrev pub emsgsize : ℤ
emsgsize = negsuc 121

pub ==ℤ_iff : (a b : ℤ) → ((a ==ℤ b) ≡ true) ↔ (a ≡ b)
==ℤ_iff a b = ground arith
