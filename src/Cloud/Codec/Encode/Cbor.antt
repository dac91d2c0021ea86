-- ===== src/Cloud/Codec/Encode/Cbor.antt =====
-- An encoder that meets the interface: it keeps its entries, and gives the bytes of CBOR for them.
use pyrinas_zephyr.Common.{
  ℕ, zero, suc, ◌+◌, ◌*◌, ◌/◌, ◌%◌, ◌^◌, ◌≡◌, ◌≤◌, refl, arith, none, some, List, [], ◌∷◌, ◌++◌,
  leb, ltb, length, length-append, if◌then◌else◌, pos, negsuc,
}
use pyrinas_zephyr.Cloud.Codec.{Value, int, text, bool, array, map_of}
use pyrinas_zephyr.Cloud.Codec.Encode.{Encoder, head_size, value_size, entries_size}

-- The bytes of `n`, `k` of them, the most significant first.
abbrev big_endian : ℕ → ℕ → List ℕ
big_endian zero n = []
big_endian (suc k) n = big_endian k (n / 256) ++ (n % 256) ∷ []

abbrev head : ℕ → ℕ → List ℕ
head major n =
    if ltb n 24
    then (major * 32 + n) ∷ []
    else if ltb n (2 ^ 8)
    then (major * 32 + 24) ∷ big_endian 1 n
    else if ltb n (2 ^ 16)
    then (major * 32 + 25) ∷ big_endian 2 n
    else if ltb n (2 ^ 32)
    then (major * 32 + 26) ∷ big_endian 4 n
    else (major * 32 + 27) ∷ big_endian 8 n

length-head : (major n : ℕ) → length (head major n) ≡ head_size n
length-head major n = ground arith

abbrev value_bytes : Value → List ℕ
value_bytes (int (pos n)) = head 0 n
value_bytes (int (negsuc n)) = head 1 n
value_bytes (text s) = head 3 (length s) ++ s
value_bytes _ = []

length-value_bytes : (v : Value) → length (value_bytes v) ≤ value_size v
length-value_bytes (int (pos n)) = omega (arith, length-head 0 n)
length-value_bytes (int (negsuc n)) = omega (arith, length-head 1 n)
length-value_bytes (text s) =
    omega (arith, length-append (head 3 (length s)) s, length-head 3 (length s))
length-value_bytes (bool b) = omega arith
length-value_bytes (array xs) = omega arith
length-value_bytes (map_of fs) = omega arith

abbrev entries_bytes : List (ℕ × Value) → List ℕ
entries_bytes [] = []
entries_bytes ((l, v) ∷ es) = head 0 l ++ value_bytes v ++ entries_bytes es

length-entries_bytes : (es : List (ℕ × Value)) → length (entries_bytes es) ≤ entries_size es
length-entries_bytes [] = omega arith
length-entries_bytes ((l, v) ∷ es) =
    rw (length-append, length-append)
      (omega (arith, length-head 0 l, length-value_bytes v, length-entries_bytes es))

abbrev map_bytes : List (ℕ × Value) → List ℕ
map_bytes es = head 5 (length es) ++ entries_bytes es

pub length-map_bytes :
    (es : List (ℕ × Value)) → length (map_bytes es) ≤ head_size (length es) + entries_size es
length-map_bytes es =
    rw length-append (omega (arith, length-head 5 (length es), length-entries_bytes es))

-- The context is the entries and the size of the buffer.
abbrev add : ℕ → Value → List (ℕ × Value) × ℕ → List (ℕ × Value) × ℕ
add l v (es, n) = (es ++ (l, v) ∷ [], n)

abbrev pub collector : Encoder (List (ℕ × Value) × ℕ)
collector = record {
  init = λ n. ([], n);
  open_map = λ e. e;
  add_uint64_to_map_n = λ l n. add l (int (pos n));
  add_int64_to_map_n = λ l n. add l (int n);
  add_sz_string_to_map_n = λ l s. add l (text s);
  close_map = λ e. e;
  finish_get_size = λ e. if leb (length (map_bytes e.0)) e.1 then some (map_bytes e.0) else none;
  entries = λ e. e.0;
  capacity = λ e. e.1;
  encoding = map_bytes;
  entries-open_map = λ n. refl;
  capacity-open_map = λ n. refl;
  entries-add_uint64 = λ l n e. refl;
  capacity-add_uint64 = λ l n e. refl;
  entries-add_int64 = λ l n e. refl;
  capacity-add_int64 = λ l n e. refl;
  entries-add_sz_string = λ l s e. refl;
  capacity-add_sz_string = λ l s e. refl;
  finish_close_map = λ e. refl;
  length-encoding = length-map_bytes;
}
