-- ===== src/App/Version/Text.antt =====
-- What can be told from the version string.
use mathlib.Core.Path.{ap₂}
use pyrinas_zephyr.Common.{
  ℕ, zero, suc, ◌+◌, ◌-◌, ◌*◌, ◌≤◌, ◌<◌, ◌≡◌, refl, sym, ap, ◌∙◌, arith, Option, none, some, List,
  [], ◌∷◌, ◌++◌, ltb, ◌==◌, if◌then◌else◌, length, take, take-all, length-take, append_assoc, ◌>>=◌,
  length-append, ◌⊎◌, c_string, IsText,
}
use pyrinas_zephyr.Cloud.Version.{OtaVersion, HasHash, hash_size, SameNumbers}
use pyrinas_zephyr.App.Version.{decimal, version_text, get_version_string}

-- A reader of version strings: digits up to a separator, four times, and the hash.
abbrev pub read_number : ℕ → ℕ → List ℕ → Option (ℕ × List ℕ)
read_number sep acc [] = none
read_number sep acc (c ∷ cs) =
    let rest = read_number sep (acc * 10 + (c - 48)) cs in if c == sep then some (acc, cs) else rest

read_number-decimal :
    (sep n : ℕ) (r : List ℕ)
    → sep < 48
    → n < 256
    → read_number sep 0 (decimal n ++ sep ∷ r) ≡ some (n, r)
read_number-decimal sep n r hs hn = ground arith

abbrev read_commit : ℕ → ℕ → ℕ → ℕ × List ℕ → Option OtaVersion
read_commit major minor patch (commit, hash) =
    some (record { major = major; minor = minor; patch = patch; commit = commit; hash = hash })

abbrev read_patch : ℕ → ℕ → ℕ × List ℕ → Option OtaVersion
read_patch major minor (patch, s) = read_number 45 0 s >>= read_commit major minor patch

abbrev read_minor : ℕ → ℕ × List ℕ → Option OtaVersion
read_minor major (minor, s) = read_number 45 0 s >>= read_patch major minor

abbrev read_major : ℕ × List ℕ → Option OtaVersion
read_major (major, s) = read_number 46 0 s >>= read_minor major

abbrev pub read_version : List ℕ → Option OtaVersion
read_version s = read_number 46 0 s >>= read_major

read_on :
    (sep n : ℕ) (r : List ℕ) (f : ℕ × List ℕ → Option OtaVersion)
    → sep < 48
    → n < 256
    → (read_number sep 0 (decimal n ++ sep ∷ r) >>= f) ≡ f (n, r)
read_on sep n r f hs hn = ap (λ o. o >>= f) (read_number-decimal sep n r hs hn)

-- Numbers of a byte each, and a hash of 8 bytes that are not 0.
abbrev pub IsPrintable : OtaVersion → Type 0
IsPrintable v =
    (v.major < 256)
    × (v.minor < 256)
    × (v.patch < 256)
    × (v.commit < 256)
    × HasHash v
    × IsText v.hash

c_string-IsText : (s : List ℕ) → IsText s → c_string s ≡ s
c_string-IsText [] h = refl
c_string-IsText (zero ∷ s) (h, hs) = absurd (omega arith)
c_string-IsText (suc b ∷ s) (h, hs) = ap (◌∷◌ (suc b)) (c_string-IsText s hs)

hash-whole :
    (v : OtaVersion) → HasHash v → IsText v.hash → c_string (take hash_size v.hash) ≡ v.hash
hash-whole v h t = rw (take-all hash_size v.hash (omega arith)) (c_string-IsText v.hash t)

read_version-version_text :
    (v : OtaVersion) → IsPrintable v → read_version (version_text v) ≡ some v
read_version-version_text v (ma, mi, pa, co, h, t) =
    read_on 46 v.major _ read_major (omega arith) ma
    ∙ read_on 46 v.minor _ (read_minor v.major) (omega arith) mi
    ∙ read_on 45 v.patch _ (read_patch v.major v.minor) (omega arith) pa
    ∙ read_on 45 v.commit _ (read_commit v.major v.minor v.patch) (omega arith) co
    ∙ ap (λ hash. some (record v { hash = hash })) (hash-whole v h t)

length-decimal : (n : ℕ) → length (decimal n) ≡ (if ltb n 10 then 1 else if ltb n 100 then 2 else 3)
length-decimal n = ground arith

length-version_text :
    (v : OtaVersion)
    → IsPrintable v
    → length (version_text v)
      ≡ length (decimal v.major)
        + length (decimal v.minor)
        + length (decimal v.patch)
        + length (decimal v.commit)
        + 12
length-version_text v (ma, mi, pa, co, h, t) =
    rw (hash-whole v h t, length-append, length-append, length-append, length-append, h)
      (omega arith)

-- One of the numbers has fewer than three digits.
abbrev pub HasShortNumber : OtaVersion → Type 0
HasShortNumber v = (v.major < 100) ⊎ ((v.minor < 100) ⊎ ((v.patch < 100) ⊎ (v.commit < 100)))

version_text-short :
    (v : OtaVersion) → IsPrintable v → HasShortNumber v → length (version_text v) ≤ 23
version_text-short v p s = ground (
  arith,
  length-version_text v p,
  length-decimal v.major,
  length-decimal v.minor,
  length-decimal v.patch,
  length-decimal v.commit,
)

-- The buffer of 24 bytes of a telemetry record takes the version whole, and the string reads back to
-- it, if the numbers are bytes of which one is below 100, and the hash has 8 bytes that are not 0.
pub read_version-get_version_string :
    (v : OtaVersion)
    → IsPrintable v
    → HasShortNumber v
    → read_version (get_version_string v 24).0 ≡ some v
unfolding get_version_string
read_version-get_version_string v p s =
    ap read_version (take-all 23 (version_text v) (version_text-short v p s))
    ∙ read_version-version_text v p

zero_add : (n : ℕ) → 0 + n ≡ n
zero_add n = omega arith

take-append_more :
    (xs ys : List ℕ) (n k : ℕ) → k ≡ length xs + n → take k (xs ++ ys) ≡ xs ++ take n ys
take-append_more [] ys n k h = ap (λ i. take i ys) (h ∙ zero_add n)
take-append_more (x ∷ xs) ys n zero h = absurd (omega arith)
take-append_more (x ∷ xs) ys n (suc k) h = ap (◌∷◌ x) (take-append_more xs ys n k (omega arith))

-- What stands before the hash.
numbers_text : OtaVersion → List ℕ
numbers_text v =
    decimal v.major
    ++ (46 ∷ decimal v.minor ++ (46 ∷ decimal v.patch ++ (45 ∷ decimal v.commit ++ 45 ∷ [])))

numbers_text-append : (v : OtaVersion) → IsPrintable v → version_text v ≡ numbers_text v ++ v.hash
unfolding numbers_text
numbers_text-append v (ma, mi, pa, co, h, t) =
    rw (hash-whole v h t, append_assoc, append_assoc, append_assoc, append_assoc)

-- Every number has three digits.
abbrev pub AllLong : OtaVersion → Type 0
AllLong v = (100 ≤ v.major) × (100 ≤ v.minor) × (100 ≤ v.patch) × (100 ≤ v.commit)

same-AllLong : (v w : OtaVersion) → AllLong v → SameNumbers v w → AllLong w
same-AllLong v w l e = omega arith

length-long : (n : ℕ) → 100 ≤ n → length (decimal n) ≡ 3
length-long n h = ground (arith, length-decimal n)

length-numbers_text : (v : OtaVersion) → AllLong v → length (numbers_text v) ≡ 16
unfolding numbers_text
length-numbers_text v (ma, mi, pa, co) =
    rw (length-append, length-append, length-append, length-append)
      (omega (
        arith,
        length-long v.major ma,
        length-long v.minor mi,
        length-long v.patch pa,
        length-long v.commit co,
      ))

get_version_string-long :
    (v : OtaVersion)
    → IsPrintable v
    → AllLong v
    → (get_version_string v 24).0 ≡ numbers_text v ++ take 7 v.hash
unfolding get_version_string
get_version_string-long v p l =
    ap (take 23) (numbers_text-append v p)
    ∙ take-append_more (numbers_text v) v.hash 7 23 (omega (arith, length-numbers_text v l))

numbers_text-same : (v w : OtaVersion) → SameNumbers v w → numbers_text v ≡ numbers_text w
unfolding numbers_text
numbers_text-same v w (ma, mi, pa, co) = rw (ma, mi, pa, co)

-- Two versions with the same four numbers, each of three digits, and with hashes of which only the
-- last byte may differ have the same string in a buffer of 24 bytes.
pub get_version_string_cut :
    (v w : OtaVersion)
    → IsPrintable v
    → IsPrintable w
    → AllLong v
    → SameNumbers v w
    → take 7 v.hash ≡ take 7 w.hash
    → (get_version_string v 24).0 ≡ (get_version_string w 24).0
get_version_string_cut v w pv pw l e h =
    get_version_string-long v pv l
    ∙ ap₂ ◌++◌ (numbers_text-same v w e) h
    ∙ sym (get_version_string-long w pw (same-AllLong v w l e))

-- With its terminator the string fits the buffer.
pub length-get_version_string :
    (v : OtaVersion) (size : ℕ) → length (get_version_string v size).0 ≤ size - 1
unfolding get_version_string
length-get_version_string v size = omega (arith, length-take (size - 1) (version_text v))
