-- ===== src/Common/MessageQueue.antt =====
-- Zephyr's `k_msgq`, which the sources call with K_NO_WAIT: an interface with what its documentation
-- promises, and a queue that keeps it.
use Prim.Native.Nat.{ℕ, ◌≤◌, ◌<◌}
use mathlib.Core.Path.{◌≡◌, refl}
use mathlib.Core.Logic.{◌⊎◌, inl, inr}
use mathlib.Core.List.{List, [], ◌∷◌, ◌++◌}
use mathlib.Core.Option.{Option, none, some}
use native.Mathlib.Omega.{arith}
use pyrinas_zephyr.Common.Tests.{ltb, if◌then◌else◌, Bool-cases}
use pyrinas_zephyr.Common.Lists.{length}

-- `none` is a nonzero result; the queue is then as it was.
pub record Msgq (A Q : Type 0) : Type 0 where
  pub items : Q → List A  -- what is queued, oldest first
  pub capacity : ℕ
  pub put : A → Q → Option Q
  pub get : Q → Option (A × Q)
  pub purge : Q → Q
  pub init : Q  -- what `k_msgq_init` makes
  pub num_used_get : Q → ℕ
  pub put_cases :
      (a : A) (q : Q)
      → ((length (items q) < capacity)
          × (r : Q) × (put a q ≡ some r)
          × (items r ≡ items q ++ a ∷ []))
        ⊎ ((capacity ≤ length (items q)) × (put a q ≡ none))
  pub get_cases :
      (q : Q)
      → ((items q ≡ []) × (get q ≡ none))
        ⊎ ((a : A) × (r : Q) × (items q ≡ a ∷ items r) × (get q ≡ some (a, r)))
  pub items-init : items init ≡ []
  pub items-purge : (q : Q) → items (purge q) ≡ []
  pub num_used_get_lem : (q : Q) → num_used_get q ≡ length (items q)

module _ {A : Type 0} (n : ℕ) where
  abbrev pub list_put : A → List A → Option (List A)
  list_put a q = if ltb (length q) n then some (q ++ a ∷ []) else none

  abbrev pub list_get : List A → Option (A × List A)
  list_get [] = none
  list_get (a ∷ r) = some (a, r)

  pub list_put_cases :
      (a : A) (q : List A)
      → ((length q < n) × (r : List A) × (list_put a q ≡ some r) × (r ≡ q ++ a ∷ []))
        ⊎ ((n ≤ length q) × (list_put a q ≡ none))
  list_put_cases a q = elim (Bool-cases (ltb (length q) n)) [
    | inl e ↦ rw e (inl (ground arith, q ++ a ∷ [], refl, refl))
    | inr e ↦ rw e (inr (ground arith, refl))
  ]

  pub list_get_cases :
      (q : List A)
      → ((q ≡ []) × (list_get q ≡ none))
        ⊎ ((a : A) × (r : List A) × (q ≡ a ∷ r) × (list_get q ≡ some (a, r)))
  list_get_cases [] = inl (refl, refl)
  list_get_cases (a ∷ r) = inr (a, r, refl, refl)

  -- A queue of `n` entries.
  abbrev pub list_msgq : Msgq A (List A)
  list_msgq = record {
    items = λ q. q;
    capacity = n;
    put = list_put;
    get = list_get;
    purge = λ q. [];
    init = [];
    num_used_get = length;
    put_cases = list_put_cases;
    get_cases = list_get_cases;
    items-init = refl;
    items-purge = λ q. refl;
    num_used_get_lem = λ q. refl;
  }
