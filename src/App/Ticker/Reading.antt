-- ===== src/App/Ticker/Reading.antt =====
-- What the text of the counter in applications/client/src/app.c says, read back as a number.
use pyrinas_zephyr.Common.{
  ℕ, zero, suc, ◌≡◌, ◌⊎◌, inl, inr, ◌≤◌, ◌<◌, ◌+◌, ◌-◌, ◌*◌, ◌/◌, ◌%◌, ◌^◌, refl, ap, ◌∙◌, true,
  false, List, [], ◌∷◌, arith, length, ltb, ◌==◌, if◌then◌else◌, take, take-all, ℤ, pos, negsuc,
  Bool-cases,
}
use pyrinas_zephyr.App.Ticker.{digits, print_int, count_text}

-- A reader of decimal numbers with a sign.
abbrev pub read_digits : ℕ → List ℕ → ℕ
read_digits acc [] = acc
read_digits acc (c ∷ cs) = read_digits (acc * 10 + (c - 48)) cs

abbrev pub minus : ℕ → ℤ
minus zero = pos 0
minus (suc n) = negsuc n

abbrev pub read_int : List ℕ → ℤ
read_int [] = pos 0
read_int (c ∷ cs) = if c == 45 then minus (read_digits 0 cs) else pos (read_digits 0 (c ∷ cs))

-- The number that the 32 bits of an `int` stand for.
abbrev pub signed : ℕ → ℤ
signed n = if ltb n (2 ^ 31) then pos n else negsuc (2 ^ 32 - 1 - n)

-- The counters whose text has at most nine characters: from -99999999 to 999999999.
abbrev pub IsShown : ℕ → Type 0
IsShown n = (n < 1000000000) ⊎ ((4194967296 < n) × (n < 2 ^ 32))

-- The number has at most so many digits.
Below : ℕ → ℕ → Type 0
Below zero n = ⊥
Below (suc j) n = (n < 10) ⊎ Below j (n / 10)

bound : ℕ → ℕ
bound zero = 1
bound (suc j) = 10 * bound j

bounded : (j n : ℕ) → n < bound (suc j) → Below (suc j) n
unfolding Below bound
bounded zero n h = inl (omega (arith, h))
bounded (suc j) n h = inr (bounded j (n / 10) (omega (arith, h)))

Below-suc : (j n : ℕ) → Below j n → Below (suc j) n
unfolding Below
Below-suc zero n h = absurd h
Below-suc (suc j) n (inl h) = inl h
Below-suc (suc j) n (inr h) = inr (Below-suc j (n / 10) h)

bounded-tail : (j n : ℕ) → Below (suc j) n → ltb n 10 ≡ false → Below j (n / 10)
unfolding Below
bounded-tail j n (inl small) large = absurd (ground arith)
bounded-tail j n (inr h) large = h

digits-large :
    (fuel n : ℕ) (last : List ℕ)
    → ltb n 10 ≡ false
    → digits (suc fuel) n last ≡ digits fuel (n / 10) ((48 + n % 10) ∷ last)
unfolding digits
digits-large fuel n last large = rw large refl

digits-small :
    (fuel n : ℕ) (last : List ℕ) → ltb n 10 ≡ true → digits (suc fuel) n last ≡ (48 + n % 10) ∷ last
unfolding digits
digits-small fuel n last small = rw small refl

read_digits-digits :
    (fuel n : ℕ) (last : List ℕ)
    → Below fuel n
    → read_digits 0 (digits fuel n last) ≡ read_digits n last
read_digits-digits zero n last h = absurd (unfold Below in h)
read_digits-digits (suc fuel) n last h = elim (Bool-cases (ltb n 10)) [
  | inl small ↦ rw (digits-small fuel n last small) (ap (λ m. read_digits m last) (ground arith))
  | inr large ↦
      ap (read_digits 0) (digits-large fuel n last large)
      ∙ read_digits-digits fuel (n / 10) ((48 + n % 10) ∷ last) (bounded-tail fuel n h large)
      ∙ ap (λ m. read_digits m last) (omega arith)
]

length-digits :
    (fuel j n : ℕ) (last : List ℕ) → Below j n → length (digits fuel n last) ≤ j + length last
length-digits zero j n last h = unfold digits in omega arith
length-digits (suc fuel) zero n last h = absurd (unfold Below in h)
length-digits (suc fuel) (suc j) n last h = elim (Bool-cases (ltb n 10)) [
  | inl small ↦ omega (arith, ap length (digits-small fuel n last small))
  | inr large ↦ omega (
    arith,
    ap length (digits-large fuel n last large),
    length-digits fuel j (n / 10) ((48 + n % 10) ∷ last) (bounded-tail j n h large),
  )
]

StartsDigit : List ℕ → Type 0
StartsDigit [] = ⊥
StartsDigit (c ∷ cs) = 48 ≤ c

digits-StartsDigit :
    (fuel n : ℕ) (last : List ℕ) → StartsDigit last → StartsDigit (digits fuel n last)
digits-StartsDigit zero n last h = unfold digits in h
digits-StartsDigit (suc fuel) n last h = elim (Bool-cases (ltb n 10)) [
  | inl small ↦ rw (digits-small fuel n last small) (unfold StartsDigit in omega arith)
  | inr large ↦
      rw (digits-large fuel n last large) (
        digits-StartsDigit fuel (n / 10) ((48 + n % 10) ∷ last) (unfold StartsDigit in omega arith))
]

print-StartsDigit : (n : ℕ) → StartsDigit (digits 10 n [])
print-StartsDigit n = elim (Bool-cases (ltb n 10)) [
  | inl small ↦ rw (digits-small 9 n [] small) (unfold StartsDigit in omega arith)
  | inr large ↦
      rw (digits-large 9 n [] large)
        (digits-StartsDigit 9 (n / 10) ((48 + n % 10) ∷ []) (unfold StartsDigit in omega arith))
]

read_int-positive : (s : List ℕ) → StartsDigit s → read_int s ≡ pos (read_digits 0 s)
unfolding StartsDigit
read_int-positive [] h = refl
read_int-positive (c ∷ cs) h = ground arith

minus-negsuc : (n : ℕ) → 4194967296 < n → n < 2 ^ 32 → minus (2 ^ 32 - n) ≡ negsuc (2 ^ 32 - 1 - n)
minus-negsuc n h k = let e : 2 ^ 32 - n ≡ suc (2 ^ 32 - 1 - n) = omega arith in ap minus e

print-positive : (n : ℕ) → n < 1000000000 → print_int n ≡ digits 10 n []
unfolding print_int
print-positive n h = let small : ltb n (2 ^ 31) ≡ true = ground arith in rw small refl

print-negative :
    (n : ℕ) → 4194967296 < n → n < 2 ^ 32 → print_int n ≡ 45 ∷ digits 10 (2 ^ 32 - n) []
unfolding print_int
print-negative n h k = let large : ltb n (2 ^ 31) ≡ false = ground arith in rw large refl

pub read_int-count_text : (n : ℕ) → IsShown n → read_int (count_text n) ≡ signed n
unfolding count_text
read_int-count_text n (inl h) =
    let below : Below 9 n = bounded 8 n (unfold bound in h) in
    let sign : ltb n (2 ^ 31) ≡ true = ground arith in
    ap (λ s. read_int (take 9 s)) (print-positive n h)
    ∙ ap read_int (take-all 9 (digits 10 n []) (length-digits 10 9 n [] below))
    ∙ read_int-positive (digits 10 n []) (print-StartsDigit n)
    ∙ ap pos (read_digits-digits 10 n [] (Below-suc 9 n below))
    ∙ rw sign refl
read_int-count_text n (inr (h, k)) =
    let m = 2 ^ 32 - n in
    let below : Below 8 m = bounded 7 m (unfold bound in omega arith) in
    let sign : ltb n (2 ^ 31) ≡ false = ground arith in
    ap (λ s. read_int (take 9 s)) (print-negative n h k)
    ∙ ap read_int (take-all 9 (45 ∷ digits 10 m []) (omega (arith, length-digits 10 8 m [] below)))
    ∙ ap minus (read_digits-digits 10 m [] (Below-suc 9 m (Below-suc 8 m below)))
    ∙ minus-negsuc n h k
    ∙ rw sign refl
