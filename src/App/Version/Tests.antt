-- ===== src/App/Version/Tests.antt =====
-- Version strings.
use pyrinas_zephyr.Common.{ℕ, ◌≡◌, refl, inl, arith, some, [], ◌∷◌, replicate}
use pyrinas_zephyr.Cloud.Version.{OtaVersion}
use pyrinas_zephyr.App.Version.{get_version_string}
use pyrinas_zephyr.App.Version.Text.{read_version, read_version-get_version_string}

abbrev small : OtaVersion
small = record { major = 1; minor = 20; patch = 255; commit = 4; hash = replicate 8 97 }

-- "1.20.255-4-aaaaaaaa"
text_of_small :
    get_version_string small 24
    ≡ (49 ∷ 46 ∷ 50 ∷ 48 ∷ 46 ∷ 50 ∷ 53 ∷ 53 ∷ 45 ∷ 52 ∷ 45 ∷ replicate 8 97, 19)
unfolding get_version_string
text_of_small = refl

read_version-get_version_string_example : read_version (get_version_string small 24).0 ≡ some small
read_version-get_version_string_example =
    read_version-get_version_string small (omega arith) (inl (omega arith))

abbrev large : ℕ → OtaVersion
large last = record {
  major = 100;
  minor = 200;
  patch = 255;
  commit = 101;
  hash = 49 ∷ 50 ∷ 51 ∷ 52 ∷ 53 ∷ 54 ∷ 55 ∷ last ∷ [];
}
