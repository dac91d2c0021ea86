-- ===== src/Comms/Rx/Reference.antt =====
-- What the stream of bytes says, read one byte at a time: the reference for `comms_rx_thread`.
use pyrinas_zephyr.Common.{
  ℕ, ◌+◌, ◌<◌, ◌≡◌, ◌≢◌, refl, ◌∙◌, flatten, map, List, [], ◌∷◌, ◌++◌, arith, ◌==◌, if◌then◌else◌,
  length, length-append, append_assoc, append-nil,
}
use pyrinas_zephyr.Comms.Rx.{Rx, idle}

-- The state and the frames that the byte completes. A header of 0 is an empty frame.
unfoldable pub read_byte : Rx → ℕ → Rx × List (List ℕ)
read_byte s b =
    if s.message_size == 0
    then if b == 0 then (idle, [] ∷ []) else (record { message_size = b; received = [] }, [])
    else if length s.received + 1 == s.message_size
    then (idle, (s.received ++ b ∷ []) ∷ [])
    else (record s { received = s.received ++ b ∷ [] }, [])

unfoldable pub read_bytes : Rx → List ℕ → Rx × List (List ℕ)
unfolding read_byte
read_bytes s [] = (s, [])
read_bytes s (b ∷ bs) =
    let (s', fs) = read_byte s b in let (t, gs) = read_bytes s' bs in (t, fs ++ gs)

-- The sender's side.
unfoldable pub encode : List ℕ → List ℕ
encode m = length m ∷ m

abbrev pub filling : ℕ → List ℕ → Rx
filling n r = record { message_size = n; received = r }

pub read_bytes-append :
    (s : Rx) (xs ys : List ℕ)
    → read_bytes s (xs ++ ys) ≡ (
      (read_bytes (read_bytes s xs).0 ys).0,
      (read_bytes s xs).1 ++ (read_bytes (read_bytes s xs).0 ys).1,
    )
unfolding read_bytes
read_bytes-append s [] ys = refl
read_bytes-append s (x ∷ xs) ys = rw (read_bytes-append (read_byte s x).0 xs ys, append_assoc)

read_byte-more :
    (n : ℕ) (r : List ℕ) (b : ℕ)
    → length r + 1 < n
    → read_byte (filling n r) b ≡ (filling n (r ++ b ∷ []), [])
unfolding read_byte
read_byte-more n r b h = ground arith

read_byte-last :
    (n : ℕ) (r : List ℕ) (b : ℕ)
    → length r + 1 ≡ n
    → read_byte (filling n r) b ≡ (idle, (r ++ b ∷ []) ∷ [])
unfolding read_byte
read_byte-last n r b h = ground arith

-- Fewer bytes than the message wants are kept.
pub read_bytes-partial :
    (n : ℕ) (r bs : List ℕ)
    → length r + length bs < n
    → read_bytes (filling n r) bs ≡ (filling n (r ++ bs), [])
unfolding read_bytes
read_bytes-partial n r [] h = rw append-nil
read_bytes-partial n r (b ∷ bs) h = rw (
  read_byte-more n r b (omega arith),
  read_bytes-partial n (r ++ b ∷ []) bs (omega (arith, length-append r (b ∷ []))),
  append_assoc,
)

-- As many as it wants complete it.
pub read_bytes-exact :
    (n : ℕ) (r bs : List ℕ)
    → length r < n
    → length r + length bs ≡ n
    → read_bytes (filling n r) bs ≡ (idle, (r ++ bs) ∷ [])
unfolding read_bytes
read_bytes-exact n r [] h e = absurd (omega arith)
read_bytes-exact n r (b ∷ []) h e = rw (read_byte-last n r b (omega arith))
read_bytes-exact n r (b ∷ c ∷ cs) h e = rw (
  read_byte-more n r b (omega arith),
  read_bytes-exact n (r ++ b ∷ []) (c ∷ cs) (omega (arith, length-append r (b ∷ [])))
      (omega (arith, length-append r (b ∷ []))),
  append_assoc,
)

-- A header opens a message, and 0 is the empty one.
pub read_bytes-header :
    (s : Rx) (b : ℕ) (bs : List ℕ)
    → s.message_size ≡ 0
    → b ≢ 0
    → read_bytes s (b ∷ bs) ≡ read_bytes (filling b []) bs
unfolding read_bytes
read_bytes-header s b bs e h = rw header refl
  where
    header : read_byte s b ≡ (filling b [], [])
    header = ground arith

pub read_bytes-empty :
    (s : Rx) (bs : List ℕ)
    → s.message_size ≡ 0
    → read_bytes s (0 ∷ bs) ≡ ((read_bytes idle bs).0, [] ∷ (read_bytes idle bs).1)
unfolding read_bytes
read_bytes-empty s bs e = rw header refl
  where
    header : read_byte s 0 ≡ (idle, [] ∷ [])
    header = ground arith

-- A stream of encoded messages says those messages.
abbrev pub CanSend : List ℕ → Type 0
CanSend m = (m ≢ []) × (length m < 256)

pub read_bytes-encode :
    (m rest : List ℕ)
    → CanSend m
    → read_bytes idle (encode m ++ rest) ≡ ((read_bytes idle rest).0, m ∷ (read_bytes idle rest).1)
read_bytes-encode m rest h =
    unfold encode in
    (read_bytes-header idle (length m) (m ++ rest) refl (nonempty m h.0)
      ∙ read_bytes-append (filling (length m) []) m rest
      ∙ rw (read_bytes-exact (length m) [] m (pos m h.0) (omega arith)) refl)
  where
    nonempty : (m : List ℕ) → m ≢ [] → length m ≢ 0
    nonempty [] ne = absurd (ne refl)
    nonempty (x ∷ xs) ne = omega arith

    pos : (m : List ℕ) → m ≢ [] → 0 < length m
    pos [] ne = absurd (ne refl)
    pos (x ∷ xs) ne = omega arith

abbrev pub AllSent : List (List ℕ) → Type 0
AllSent [] = Unit {0}
AllSent (m ∷ ms) = CanSend m × AllSent ms

pub read_bytes-stream :
    (ms : List (List ℕ)) → AllSent ms → read_bytes idle (flatten (map encode ms)) ≡ (idle, ms)
unfolding flatten
read_bytes-stream [] h = unfold read_bytes in refl
read_bytes-stream (m ∷ ms) h =
    rw (read_bytes-encode m (flatten (map encode ms)) h.0, read_bytes-stream ms h.1) refl
