-- ===== src/App/Version.antt =====
-- applications/sample/src/version.c: the version string, which `snprintf` writes with the format
-- "%d.%d.%d-%d-%.*s".
pub mod Text
mod Tests
use pyrinas_zephyr.Common.{
  ℕ, ◌+◌, ◌-◌, ◌/◌, ◌%◌, List, [], ◌∷◌, ◌++◌, ltb, if◌then◌else◌, length, take, c_string,
}
use pyrinas_zephyr.Cloud.Version.{OtaVersion, hash_size}

-- "%d" of a `uint8_t`.
abbrev pub digit : ℕ → ℕ
digit n = 48 + n % 10

abbrev pub decimal : ℕ → List ℕ
decimal n =
    if ltb n 10
    then digit n ∷ []
    else if ltb n 100
    then digit (n / 10) ∷ digit n ∷ []
    else digit (n / 100) ∷ digit (n / 10) ∷ digit n ∷ []

-- The whole text: 46 is ".", 45 is "-".
abbrev pub version_text : OtaVersion → List ℕ
version_text v =
    decimal v.major
    ++ (46 ∷ decimal v.minor
        ++ (46 ∷ decimal v.patch
            ++ (45 ∷ decimal v.commit ++ (45 ∷ c_string (take hash_size v.hash)))))

-- What is in the buffer before the terminator, and the result. The size is not 0.
pub get_version_string : OtaVersion → ℕ → List ℕ × ℕ
get_version_string pyrinas_version size =
    (take (size - 1) (version_text pyrinas_version), length (version_text pyrinas_version))
