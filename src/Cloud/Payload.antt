-- ===== src/Cloud/Payload.antt =====
-- `publish_get_payload` of subsys/pyrinas_cloud/pyrinas_cloud.c: the payload of a message is read from
-- the MQTT library, piece by piece, into `payload_buf`.
pub mod Exact
mod Tests
use pyrinas_zephyr.Common.{
  ℕ, zero, suc, ◌+◌, ◌-◌, ◌≤◌, ◌≡◌, Bool, true, false, Option, none, some, List, [], ◌∷◌, ◌++◌, ltb,
  ◌==◌, if◌then◌else◌, length, ℤ, pos, negsuc, eio, emsgsize,
}

-- What `mqtt_read_publish_payload_blocking` returns: a negative number, or the number of bytes that
-- it has written.
pub data ReadResult (S : Type 0) : Type 0 where
  failed : ℕ → S → ReadResult S  -- -(n + 1)
  got : List ℕ → S → ReadResult S

-- The MQTT library, as its documentation has it: `remaining` is the rest of the payload, and a read
-- gives the next bytes of it, no more than it was asked for.
pub record Reader (S : Type 0) : Type 0 where
  pub remaining : S → List ℕ
  pub read : ℕ → S → ReadResult S
  pub read_prefix :
      (n : ℕ) (s s' : S) (bytes : List ℕ)
      → read n s ≡ got bytes s'
      → (remaining s ≡ bytes ++ remaining s') × (length bytes ≤ n)

-- The result, the bytes written to the buffer, and the reader.
pub record Outcome (S : Type 0) : Type 0 where
  pub result : ℤ
  pub written : List ℕ
  pub reader : S

module _ {S : Type 0} (R : Reader S) where
  -- The loop, with fuel: `written` is what stands between `write_buf` and `buf`, and `left` is
  -- `end - buf`. `none` means that the fuel ran out.
  pub read_loop : ℕ → ℕ → List ℕ → S → Option (Outcome S)
  read_loop fuel zero written s = some (record { result = pos 0; written = written; reader = s })
  read_loop zero (suc left) written s = none
  read_loop (suc fuel) (suc left) written s = elim (R.read (suc left) s) [
    | failed n s' ↦ some (record { result = negsuc n; written = written; reader = s' })
    | got bytes s' ↦
        let rest = read_loop fuel (suc left - length bytes) (written ++ bytes) s' in
        if length bytes == 0
        then some (record { result = eio; written = written; reader = s' })
        else rest
  ]

  -- `buffer_size` is sizeof(payload_buf).
  pub publish_get_payload : ℕ → ℕ → ℕ → S → Option (Outcome S)
  publish_get_payload buffer_size fuel size s =
      if ltb buffer_size size
      then some (record { result = emsgsize; written = []; reader = s })
      else read_loop fuel size [] s
