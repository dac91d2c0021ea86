-- ===== src/Cloud/Version/Tests.antt =====
-- Versions compared.
use pyrinas_zephyr.Common.{
  ℕ, ◌≡◌, ◌↔◌, ◌≢◌, ◌⊎◌, refl, ap, arith, List, [], ◌∷◌, pos, negsuc, get_or,
}
use pyrinas_zephyr.Cloud.Version.{OtaVersion, ver_comp, Older, SameNumbers, ver_comp_update}

abbrev hash_a : List ℕ
hash_a = 49 ∷ 50 ∷ 51 ∷ 52 ∷ 53 ∷ 54 ∷ 55 ∷ 56 ∷ []

abbrev hash_b : List ℕ
hash_b = 57 ∷ 50 ∷ 51 ∷ 52 ∷ 53 ∷ 54 ∷ 55 ∷ 56 ∷ []

abbrev released : OtaVersion
released = record { major = 1; minor = 2; patch = 0; commit = 4; hash = hash_a }

abbrev rebuilt : OtaVersion
rebuilt = record released { hash = hash_b }

abbrev next : OtaVersion
next = record released { minor = 3; commit = 0 }

next_runs : ver_comp released next ≡ pos 1
unfolding ver_comp
next_runs = refl

back_runs : ver_comp next released ≡ negsuc 0
unfolding ver_comp
back_runs = refl

ver_comp_update_example :
    (ver_comp released next ≡ pos 1)
    ↔ (Older released next ⊎ (SameNumbers released next × (hash_a ≢ hash_a)))
ver_comp_update_example = ver_comp_update released next refl refl

hash_a-hash_b : hash_a ≢ hash_b
hash_a-hash_b e = absurd (ground (arith, ap (λ h. get_or h 0 0) e))
