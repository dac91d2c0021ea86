-- ===== src/Cloud/Version.antt =====
-- subsys/pyrinas_cloud/pyrinas_cloud_helper.c, with the version union of
-- include/pyrinas_cloud/pyrinas_cloud.h: which of two firmware versions is the newer one.
use pyrinas_zephyr.Common.{
  ℕ, zero, suc, ◌+◌, ◌<◌, ◌≡◌, ◌↔◌, ◌≢◌, ◌⊎◌, refl, Bool, true, false, List, [], ◌∷◌, arith, ltb,
  ◌==◌, ℤ, pos, negsuc, if◌then◌else◌, get_or, length, mem_eq, mem_eq-take, take, take-all,
  Bool-cases, inl, inr,
}
mod Tests

-- `union pyrinas_cloud_ota_version`: four numbers and a hash of 8 bytes.
pub record OtaVersion : Type 0 where
  pub major : ℕ
  pub minor : ℕ
  pub patch : ℕ
  pub commit : ℕ
  pub hash : List ℕ

abbrev pub hash_size : ℕ
hash_size = 8

-- The other member of the union.
abbrev pub raw : OtaVersion → List ℕ
raw v = v.major ∷ v.minor ∷ v.patch ∷ v.commit ∷ v.hash

-- VER_ENTIRES
abbrev pub ver_entries : ℕ
ver_entries = 4

-- The loop of `ver_comp`, with the rounds left, from index `i`; `rest` is what follows the loop.
ver_comp_from : ℕ → ℕ → OtaVersion → OtaVersion → ℤ → ℤ
ver_comp_from zero i first second rest = rest
ver_comp_from (suc n) i first second rest =
    if ltb (get_or (raw second) i 0) (get_or (raw first) i 0)
    then negsuc 0
    else if get_or (raw first) i 0 == get_or (raw second) i 0
    then ver_comp_from n (suc i) first second rest
    else pos 1

unfoldable pub ver_comp : OtaVersion → OtaVersion → ℤ
unfolding ver_comp_from mem_eq
ver_comp first second =
    ver_comp_from ver_entries 0 first second
      (if mem_eq hash_size first.hash second.hash then pos 0 else pos 1)

-- `v` comes before `w` in the order of the four numbers, the first one that differs deciding.
abbrev pub Older : OtaVersion → OtaVersion → Type 0
Older v w =
    (v.major < w.major)
    ⊎ ((v.major ≡ w.major)
        × ((v.minor < w.minor)
            ⊎ ((v.minor ≡ w.minor)
                × ((v.patch < w.patch) ⊎ ((v.patch ≡ w.patch) × (v.commit < w.commit))))))

abbrev pub SameNumbers : OtaVersion → OtaVersion → Type 0
SameNumbers v w =
    (v.major ≡ w.major) × (v.minor ≡ w.minor) × (v.patch ≡ w.patch) × (v.commit ≡ w.commit)

abbrev pub HasHash : OtaVersion → Type 0
HasHash v = length v.hash ≡ hash_size

hash_eq :
    (v w : OtaVersion)
    → HasHash v
    → HasHash w
    → (mem_eq hash_size v.hash w.hash ≡ true) ↔ (v.hash ≡ w.hash)
hash_eq v w hv hw =
    rw (take-all hash_size v.hash (omega arith), take-all hash_size w.hash (omega arith)) at
      (mem_eq-take hash_size v.hash w.hash (omega arith) (omega arith))

pub Older-cases : (v w : OtaVersion) → Older v w ⊎ (Older w v ⊎ SameNumbers v w)
Older-cases v w = ground arith

pub ver_comp_of_Older : (v w : OtaVersion) → Older v w → ver_comp v w ≡ pos 1
unfolding ver_comp
ver_comp_of_Older v w h = ground arith

pub ver_comp_of_newer : (v w : OtaVersion) → Older w v → ver_comp v w ≡ negsuc 0
unfolding ver_comp
ver_comp_of_newer v w h = ground arith

pub ver_comp_of_same :
    (v w : OtaVersion)
    → SameNumbers v w
    → ver_comp v w ≡ (if mem_eq hash_size v.hash w.hash then pos 0 else pos 1)
unfolding ver_comp
ver_comp_of_same v w h = ground arith

-- For versions with hashes of 8 bytes an update is offered, result 1, exactly for a version that
-- is newer in the four numbers or has the same numbers and another hash.
pub ver_comp_update :
    (v w : OtaVersion)
    → HasHash v
    → HasHash w
    → (ver_comp v w ≡ pos 1) ↔ (Older v w ⊎ (SameNumbers v w × (v.hash ≢ w.hash)))
ver_comp_update v w hv hw = elim (Older-cases v w) [
  | inl o ↦ (λ e. inl o, λ h. ver_comp_of_Older v w o)
  | inr (inl o) ↦ (λ e. cc (ver_comp_of_newer v w o), λ h. absurd (omega arith))
  | inr (inr e) ↦ ground (arith, ver_comp_of_same v w e, hash_eq v w hv hw)
]

-- For versions with hashes of 8 bytes the result is 0, no update and no downgrade, exactly for the
-- version itself.
pub ver_comp_equal : (v w : OtaVersion) → HasHash v → HasHash w → (ver_comp v w ≡ pos 0) ↔ (v ≡ w)
ver_comp_equal v w hv hw = elim (Older-cases v w) [
  | inl o ↦ ground (arith, ver_comp_of_Older v w o)
  | inr (inl o) ↦ ground (arith, ver_comp_of_newer v w o)
  | inr (inr e) ↦ ground (arith, ver_comp_of_same v w e, hash_eq v w hv hw)
]

-- Of two builds with the same four numbers and different hashes each is an update of the other.
pub ver_comp_rebuild :
    (v w : OtaVersion)
    → HasHash v
    → HasHash w
    → SameNumbers v w
    → v.hash ≢ w.hash
    → (ver_comp v w ≡ pos 1) × (ver_comp w v ≡ pos 1)
ver_comp_rebuild v w hv hw e h =
    ground
      (arith, ver_comp_of_same v w e, ver_comp_of_same w v, hash_eq v w hv hw, hash_eq w v hw hv)
