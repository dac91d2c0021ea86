-- ===== src/Common/RingBuffer.antt =====
-- Zephyr's `ring_buf` in its byte mode: an interface with what its documentation promises, and a
-- buffer that keeps it.
use Prim.Native.Nat.{ℕ, zero, suc, ◌+◌, ◌-◌, ◌≤◌, ◌<◌, min}
use mathlib.Core.Path.{◌≡◌, refl, ap}
use mathlib.Core.Logic.{inl, inr}
use mathlib.Core.Bool.{Bool}
use mathlib.Core.List.{List, [], ◌∷◌, ◌++◌}
use native.Mathlib.Omega.{arith}
use pyrinas_zephyr.Common.Tests.{leb, ◌==◌, if◌then◌else◌, Bool-cases}
use pyrinas_zephyr.Common.Lists.{length, take, drop, length-take, length-drop}
use pyrinas_zephyr.Common.Int.{ℤ, pos, einval}

-- `contents` is what was put and is not yet freed, oldest first, and `claimed` how many of these
-- bytes have been claimed and not finished. `ring_buf_put` writes what there is room for. A claim is of
-- bytes that stand side by side in memory, so that it may give fewer than there are.
pub record RingBuf (R : Type 0) : Type 0 where
  pub contents : R → List ℕ
  pub claimed : R → ℕ
  pub capacity : ℕ
  pub put : List ℕ → R → ℕ × R
  pub get_claim : ℕ → R → List ℕ × R
  pub get_finish : ℕ → R → ℤ × R
  pub is_empty : R → Bool
  pub put_lem :
      (bytes : List ℕ) (r : R)
      → ((put bytes r).0 ≡ min (length bytes) (capacity - length (contents r)))
        × (contents (put bytes r).1 ≡ contents r ++ take (put bytes r).0 bytes)
        × (claimed (put bytes r).1 ≡ claimed r)
  pub get_claim_lem :
      (n : ℕ) (r : R)
      → ((get_claim n r).0 ≡ take (length (get_claim n r).0) (drop (claimed r) (contents r)))
        × (length (get_claim n r).0 ≤ n)
        × (contents (get_claim n r).1 ≡ contents r)
        × (claimed (get_claim n r).1 ≡ claimed r + length (get_claim n r).0)
  pub get_claim_some :
      (n : ℕ) (r : R) → 0 < n → claimed r < length (contents r) → 0 < length (get_claim n r).0
  pub get_finish_lem :
      (n : ℕ) (r : R)
      → n ≤ length (contents r)
      → ((get_finish n r).0 ≡ pos 0)
        × (contents (get_finish n r).1 ≡ drop n (contents r))
        × (claimed (get_finish n r).1 ≡ 0)
  pub get_finish_refused : (n : ℕ) (r : R) → length (contents r) < n → get_finish n r ≡ (einval, r)
  pub is_empty_lem : (r : R) → is_empty r ≡ (length (contents r) == 0)

-- A buffer of `cap` bytes whose claims have at most `run` of them.
abbrev pub list_put : ℕ → List ℕ → List ℕ × ℕ → ℕ × (List ℕ × ℕ)
list_put cap bytes (xs, k) =
    let n = min (length bytes) (cap - length xs) in (n, (xs ++ take n bytes, k))

abbrev pub list_claim : ℕ → ℕ → List ℕ × ℕ → List ℕ × (List ℕ × ℕ)
list_claim run n (xs, k) =
    let bytes = take (min n run) (drop k xs) in (bytes, (xs, k + length bytes))

abbrev pub list_finish : ℕ → List ℕ × ℕ → ℤ × (List ℕ × ℕ)
list_finish n (xs, k) = if leb n (length xs) then (pos 0, (drop n xs, 0)) else (einval, (xs, k))

pub take-length-take : (n : ℕ) (xs : List ℕ) → take n xs ≡ take (length (take n xs)) xs
take-length-take zero xs = refl
take-length-take (suc n) [] = refl
take-length-take (suc n) (x ∷ xs) = ap (◌∷◌ x) (take-length-take n xs)

pub list_finish_lem :
    (n : ℕ) (r : List ℕ × ℕ)
    → n ≤ length r.0
    → ((list_finish n r).0 ≡ pos 0)
      × ((list_finish n r).1.0 ≡ drop n r.0)
      × ((list_finish n r).1.1 ≡ 0)
list_finish_lem n (xs, k) h = elim (Bool-cases (leb n (length xs))) [
  | inl e ↦ rw e (refl, refl, refl)
  | inr e ↦ absurd (ground arith)
]

pub list_finish_refused : (n : ℕ) (r : List ℕ × ℕ) → length r.0 < n → list_finish n r ≡ (einval, r)
list_finish_refused n (xs, k) h = elim (Bool-cases (leb n (length xs))) [
  | inl e ↦ absurd (ground arith)
  | inr e ↦ rw e
]

pub list_claim_le : (run n : ℕ) (r : List ℕ × ℕ) → length (list_claim run n r).0 ≤ n
list_claim_le run n (xs, k) = rw length-take (omega arith)

pub list_claim_some :
    (run n : ℕ) (r : List ℕ × ℕ)
    → 0 < run
    → 0 < n
    → r.1 < length r.0
    → 0 < length (list_claim run n r).0
list_claim_some run n (xs, k) hr hn h = rw (length-take, length-drop) (omega arith)

-- The claims have at most `run + 1` bytes.
abbrev pub list_ring : ℕ → ℕ → RingBuf (List ℕ × ℕ)
list_ring cap run = record {
  contents = λ r. r.0;
  claimed = λ r. r.1;
  capacity = cap;
  put = list_put cap;
  get_claim = list_claim (suc run);
  get_finish = list_finish;
  is_empty = λ r. length r.0 == 0;
  put_lem = λ bytes r. (refl, refl, refl);
  get_claim_lem = λ n r.
      (take-length-take (min n (suc run)) (drop r.1 r.0), list_claim_le (suc run) n r, refl, refl);
  get_claim_some = λ n r hn h. list_claim_some (suc run) n r (omega arith) hn h;
  get_finish_lem = list_finish_lem;
  get_finish_refused = list_finish_refused;
  is_empty_lem = λ r. refl;
}
