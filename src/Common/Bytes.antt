-- ===== src/Common/Bytes.antt =====
-- The functions of string.h that the code uses, on byte sequences. A C string is the list of the
-- bytes before its terminator.
use Prim.Native.Nat.{ℕ, zero, suc, ◌≤◌, ◌<◌}
use mathlib.Core.Path.{◌≡◌, refl, ap}
use mathlib.Core.Logic.{◌↔◌}
use mathlib.Core.Bool.{Bool, true, false, ◌&&◌}
use mathlib.Core.List.{List, [], ◌∷◌, ◌++◌}
use native.Mathlib.Omega.{arith}
use pyrinas_zephyr.Common.Tests.{◌==◌}
use pyrinas_zephyr.Common.Lists.{length, take}

-- `memcmp(a, b, n) == 0`. Where one array has fewer than `n` bytes the answer is false: the code
-- compares arrays that hold them.
unfoldable pub mem_eq : ℕ → List ℕ → List ℕ → Bool
mem_eq zero xs ys = true
mem_eq (suc n) [] ys = false
mem_eq (suc n) (x ∷ xs) [] = false
mem_eq (suc n) (x ∷ xs) (y ∷ ys) = x == y && mem_eq n xs ys

-- `strncmp(a, b, n) == 0`, of two C strings: at most `n` bytes, and no further than a terminator.
unfoldable pub strncmp_eq : ℕ → List ℕ → List ℕ → Bool
strncmp_eq zero xs ys = true
strncmp_eq (suc n) [] [] = true
strncmp_eq (suc n) [] (y ∷ ys) = false
strncmp_eq (suc n) (x ∷ xs) [] = false
strncmp_eq (suc n) (x ∷ xs) (y ∷ ys) = x == y && strncmp_eq n xs ys

pub mem_eq-take :
    (n : ℕ) (xs ys : List ℕ)
    → n ≤ length xs
    → n ≤ length ys
    → (mem_eq n xs ys ≡ true) ↔ (take n xs ≡ take n ys)
unfolding mem_eq
mem_eq-take n xs ys h k = (forth n xs ys, back n xs ys h k)
  where
    forth : (n : ℕ) (xs ys : List ℕ) → mem_eq n xs ys ≡ true → take n xs ≡ take n ys
    forth zero xs ys e = refl
    forth (suc n) [] ys e = ground arith
    forth (suc n) (x ∷ xs) [] e = ground arith
    forth (suc n) (x ∷ xs) (y ∷ ys) e = ground (arith, forth n xs ys)

    back :
        (n : ℕ) (xs ys : List ℕ)
        → n ≤ length xs
        → n ≤ length ys
        → take n xs ≡ take n ys
        → mem_eq n xs ys ≡ true
    back zero xs ys h k e = refl
    back (suc n) [] ys h k e = absurd (omega arith)
    back (suc n) (x ∷ xs) [] h k e = absurd (omega arith)
    back (suc n) (x ∷ xs) (y ∷ ys) h k e = ground (arith, back n xs ys)

-- Bytes that compare equal compare alike with any others.
pub mem_eq_congr :
    (n : ℕ) (xs ys zs : List ℕ) → mem_eq n ys zs ≡ true → mem_eq n xs ys ≡ mem_eq n xs zs
unfolding mem_eq
mem_eq_congr zero xs ys zs e = refl
mem_eq_congr (suc n) [] ys zs e = refl
mem_eq_congr (suc n) (x ∷ xs) [] zs e = ground arith
mem_eq_congr (suc n) (x ∷ xs) (y ∷ ys) [] e = ground arith
mem_eq_congr (suc n) (x ∷ xs) (y ∷ ys) (z ∷ zs) e = ground (arith, mem_eq_congr n xs ys zs)

pub mem_eq_refl : (n : ℕ) (xs : List ℕ) → n ≤ length xs → mem_eq n xs xs ≡ true
unfolding mem_eq
mem_eq_refl zero xs h = refl
mem_eq_refl (suc n) [] h = absurd (omega arith)
mem_eq_refl (suc n) (x ∷ xs) h = ground (arith, mem_eq_refl n xs)

pub mem_eq_comm : (n : ℕ) (xs ys : List ℕ) → mem_eq n xs ys ≡ mem_eq n ys xs
unfolding mem_eq
mem_eq_comm zero xs ys = refl
mem_eq_comm (suc n) [] [] = refl
mem_eq_comm (suc n) [] (y ∷ ys) = refl
mem_eq_comm (suc n) (x ∷ xs) [] = refl
mem_eq_comm (suc n) (x ∷ xs) (y ∷ ys) = ground (arith, mem_eq_comm n xs ys)

-- The bytes before the first 0.
abbrev pub c_string : List ℕ → List ℕ
c_string [] = []
c_string (zero ∷ bs) = []
c_string (suc b ∷ bs) = suc b ∷ c_string bs

abbrev pub IsText : List ℕ → Type 0
IsText [] = Unit {0}
IsText (b ∷ bs) = (0 < b) × IsText bs

pub c_string-append : (s r : List ℕ) → IsText s → c_string (s ++ r) ≡ s ++ c_string r
c_string-append [] r h = refl
c_string-append (zero ∷ s) r (h, hs) = absurd (omega arith)
c_string-append (suc b ∷ s) r (h, hs) = ap (◌∷◌ (suc b)) (c_string-append s r hs)
