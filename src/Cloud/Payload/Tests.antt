-- ===== src/Cloud/Payload/Tests.antt =====
-- A payload that arrives in pieces of up to two bytes.
use pyrinas_zephyr.Common.{
  ℕ, zero, suc, ◌≤◌, ◌<◌, ◌≡◌, ◌⊎◌, refl, some, List, [], ◌∷◌, ◌++◌, length, arith, pos, negsuc,
  emsgsize,
}
use pyrinas_zephyr.Cloud.Payload.{
  ReadResult, failed, got, Reader, Outcome, read_loop, publish_get_payload,
}
use pyrinas_zephyr.Cloud.Payload.Exact.{IsRead, publish_get_payload-IsRead}

unfoldable two_read : ℕ → List ℕ → ReadResult (List ℕ)
two_read zero s = got [] s
two_read (suc n) [] = failed 127 []
two_read (suc n) (b ∷ []) = got (b ∷ []) []
two_read (suc zero) (b ∷ c ∷ s) = got (b ∷ []) (c ∷ s)
two_read (suc (suc n)) (b ∷ c ∷ s) = got (b ∷ c ∷ []) s

bytes_of : ReadResult (List ℕ) → List ℕ
bytes_of (failed n s) = []
bytes_of (got bytes s) = bytes

rest_of : ReadResult (List ℕ) → List ℕ
rest_of (failed n s) = s
rest_of (got bytes s) = s

two_read_prefix :
    (n : ℕ) (s s' bytes : List ℕ)
    → two_read n s ≡ got bytes s'
    → (s ≡ bytes ++ s') × (length bytes ≤ n)
unfolding two_read
two_read_prefix zero s s' bytes e = ground arith
two_read_prefix (suc n) [] s' bytes e = ground arith
two_read_prefix (suc n) (b ∷ []) s' bytes e = ground arith
two_read_prefix (suc zero) (b ∷ c ∷ s) s' bytes e = ground arith
two_read_prefix (suc (suc n)) (b ∷ c ∷ s) s' bytes e = ground arith

abbrev two : Reader (List ℕ)
two = record { remaining = λ s. s; read = two_read; read_prefix = two_read_prefix }

-- Three bytes are asked for, of four.
three_runs :
    publish_get_payload two 10 3 3 (1 ∷ 2 ∷ 3 ∷ 4 ∷ [])
    ≡ some (record { result = pos 0; written = 1 ∷ 2 ∷ 3 ∷ []; reader = 4 ∷ [] })
unfolding publish_get_payload read_loop two_read
three_runs = refl

-- The connection ends after one byte.
short_runs :
    publish_get_payload two 10 3 3 (1 ∷ [])
    ≡ some (record { result = negsuc 127; written = 1 ∷ []; reader = [] })
unfolding publish_get_payload read_loop two_read
short_runs = refl

publish_get_payload-IsRead_example :
    (o : Outcome (List ℕ)) × (publish_get_payload two 10 3 3 (1 ∷ 2 ∷ 3 ∷ 4 ∷ []) ≡ some o)
    × (((10 < 3) × (o ≡ record { result = emsgsize; written = []; reader = 1 ∷ 2 ∷ 3 ∷ 4 ∷ [] }))
        ⊎ ((3 ≤ 10) × IsRead two 3 [] (1 ∷ 2 ∷ 3 ∷ 4 ∷ []) o))
publish_get_payload-IsRead_example =
    publish_get_payload-IsRead two 10 3 3 (1 ∷ 2 ∷ 3 ∷ 4 ∷ []) (omega arith)
