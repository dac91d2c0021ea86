-- ===== src/Comms/Rx/Framing.antt =====
-- The receive loop of subsys/comms/comms.c against the byte-wise reference.
use pyrinas_zephyr.Common.{
  ℕ, zero, suc, ◌+◌, ◌-◌, ◌≤◌, ◌<◌, ◌≡◌, ◌≢◌, ◌⊎◌, inl, inr, refl, ap, sym, ◌∙◌, flatten, map, true,
  false, List, [], ◌∷◌, ◌++◌, arith, ltb, ◌==◌, if◌then◌else◌, length, length-append, take, drop,
  take-all, length-take, take-append-drop, Bool-cases,
}
use pyrinas_zephyr.Comms.Rx.{
  Rx, done, idle, sub32, buffer_size, fill, leftover, rx_round, rx_thread, after_round,
}
use pyrinas_zephyr.Comms.Rx.Reference.{
  read_bytes, filling, read_bytes-append, read_bytes-partial, read_bytes-exact, read_bytes-header,
  read_bytes-empty, read_byte, AllSent, read_bytes-stream, encode,
}

abbrev pub AllBytes : List ℕ → Type 0
AllBytes [] = Unit {0}
AllBytes (b ∷ bs) = (b < 256) × AllBytes bs

AllBytes-drop : (n : ℕ) (bs : List ℕ) → AllBytes bs → AllBytes (drop n bs)
AllBytes-drop zero bs h = h
AllBytes-drop (suc n) [] h = h
AllBytes-drop (suc n) (b ∷ bs) h = AllBytes-drop n bs h.1

fill-partial :
    (n : ℕ) (r c : List ℕ)
    → n < 256
    → length r + length c < n
    → fill n r c ≡ done (filling n (r ++ c)) []
unfolding fill
fill-partial n r c small h = ground (arith, take-all (length c) c)

pub fill-full :
    (n : ℕ) (r c : List ℕ)
    → n < 256
    → length r < n
    → n ≤ length r + length c
    → fill n r c ≡ leftover (r ++ take (n - length r) c) (drop (n - length r) c)
unfolding fill
fill-full n r c small h full = rw (wanted, whole, in_buffer, complete, all)
  where
    wanted : sub32 n (length r) ≡ n - length r
    wanted = omega arith

    whole : (if ltb (n - length r) (length c) then n - length r else length c) ≡ n - length r
    whole = ground arith

    in_buffer : ltb buffer_size (length r + (n - length r)) ≡ false
    in_buffer = ground arith

    complete : (sub32 (n - length r) (n - length r) == 0) ≡ true
    complete = ground arith

    all : take n (r ++ take (n - length r) c) ≡ r ++ take (n - length r) c
    all =
        take-all n (r ++ take (n - length r) c)
          (omega (arith, length-append r (take (n - length r) c), length-take (n - length r) c))

-- The reference on bytes that complete the message: the frame, and then what the rest says.
read_bytes-full :
    (n : ℕ) (r c : List ℕ)
    → length r < n
    → n ≤ length r + length c
    → read_bytes (filling n r) c ≡ (
      (read_bytes idle (drop (n - length r) c)).0,
      (r ++ take (n - length r) c) ∷ (read_bytes idle (drop (n - length r) c)).1,
    )
read_bytes-full n r c h full =
    ap (read_bytes (filling n r)) (sym (take-append-drop (n - length r) c))
    ∙ read_bytes-append (filling n r) (take (n - length r) c) (drop (n - length r) c)
    ∙ rw (
        read_bytes-exact n r (take (n - length r) c) h
          (omega (arith, length-take (n - length r) c)))

-- One frame at most, and not the empty one.
abbrev pub IsSingle : List (List ℕ) → Type 0
IsSingle fs = (fs ≡ []) ⊎ ((m : List ℕ) × (m ≢ []) × (fs ≡ m ∷ []))

leftover-keeps :
    (message : List ℕ) (b : ℕ) (rest : List ℕ)
    → b < 256
    → length rest < b
    → leftover message (b ∷ rest) ≡ done (filling b rest) (message ∷ [])
unfolding leftover
leftover-keeps message b rest h few = ground arith

leftover-reads :
    (message bs : List ℕ)
    → AllBytes bs
    → (read_bytes idle bs).1 ≡ []
    → leftover message bs ≡ done (read_bytes idle bs).0 (message ∷ [])
unfolding leftover
leftover-reads message [] h e = unfold read_bytes in refl
leftover-reads message (zero ∷ rest) h e = cc (ap (λ t. t.1) (read_bytes-empty idle rest refl))
leftover-reads message (suc b ∷ rest) h e = elim (Bool-cases (ltb (length rest) (suc b))) [
  | inl few ↦
      rw
        (
          read_bytes-header idle (suc b) rest refl (omega arith),
          read_bytes-partial (suc b) [] rest (ground arith),
        )
        (leftover-keeps message (suc b) rest h.0 (ground arith))
  | inr many ↦ cc (
    ap (λ t. t.1) (read_bytes-header idle (suc b) rest refl (omega arith)),
    ap (λ t. t.1) (read_bytes-full (suc b) [] rest (omega arith) (ground arith)),
  )
]

-- A chunk that completes one message at most leaves the loop where the reference is.
fill-reads :
    (n : ℕ) (r c : List ℕ)
    → n < 256
    → length r < n
    → AllBytes c
    → IsSingle (read_bytes (filling n r) c).1
    → fill n r c ≡ done (read_bytes (filling n r) c).0 (read_bytes (filling n r) c).1
fill-reads n r c small h bytes single = elim (Bool-cases (ltb (length r + length c) n)) [
  | inl few ↦
      rw (fill-partial n r c small (ground arith), read_bytes-partial n r c (ground arith)) refl
  | inr many ↦ full (ground arith)
]
  where
    full :
        n ≤ length r + length c
        → fill n r c ≡ done (read_bytes (filling n r) c).0 (read_bytes (filling n r) c).1
    full le =
        let reads = read_bytes-full n r c h le in
        let alone : (read_bytes idle (drop (n - length r) c)).1 ≡ [] = ground (arith, reads) in
        rw
          (
            fill-full n r c small h le,
            reads,
            leftover-reads (r ++ take (n - length r) c) (drop (n - length r) c)
                (AllBytes-drop (n - length r) c bytes) alone,
            alone,
          )
          refl

-- Between two rounds: at a header, or inside a message that wants more bytes.
abbrev pub IsWaiting : Rx → Type 0
IsWaiting s = (s.message_size ≡ 0) ⊎ ((length s.received < s.message_size) × (s.message_size < 256))

read_byte-IsWaiting : (s : Rx) (b : ℕ) → b < 256 → IsWaiting s → IsWaiting (read_byte s b).0
unfolding read_byte
read_byte-IsWaiting s b h w = ground (arith, length-append s.received (b ∷ []))

read_bytes-IsWaiting :
    (s : Rx) (bs : List ℕ) → AllBytes bs → IsWaiting s → IsWaiting (read_bytes s bs).0
unfolding read_bytes
read_bytes-IsWaiting s [] h w = w
read_bytes-IsWaiting s (b ∷ bs) h w =
    read_bytes-IsWaiting (read_byte s b).0 bs h.1 (read_byte-IsWaiting s b h.0 w)

pub rx_round-header :
    (s : Rx) (b : ℕ) (rest : List ℕ)
    → s.message_size ≡ 0
    → b ≢ 0
    → rx_round s (b ∷ rest) ≡ fill b [] rest
unfolding rx_round
rx_round-header s b rest e h = ground arith

rx_round-empty :
    (s : Rx) (rest : List ℕ) → s.message_size ≡ 0 → rx_round s (0 ∷ rest) ≡ done idle []
unfolding rx_round
rx_round-empty s rest e = ground arith

pub rx_round-going :
    (s : Rx) (b : ℕ) (rest : List ℕ)
    → s.message_size ≢ 0
    → rx_round s (b ∷ rest) ≡ fill s.message_size s.received (b ∷ rest)
unfolding rx_round
rx_round-going s b rest h = ground arith

opened :
    (s : Rx) (b : ℕ) (rest : List ℕ)
    → AllBytes (b ∷ rest)
    → IsSingle (read_bytes s (b ∷ rest)).1
    → s.message_size ≡ 0
    → rx_round s (b ∷ rest) ≡ done (read_bytes s (b ∷ rest)).0 (read_bytes s (b ∷ rest)).1
opened s zero rest bytes single e =
    ground (arith, read_bytes-empty s rest e, rx_round-empty s rest e)
opened s (suc b) rest bytes single e =
    let header = read_bytes-header s (suc b) rest e (omega arith) in
    rw (header, rx_round-header s (suc b) rest e (omega arith))
      (fill-reads (suc b) [] rest bytes.0 (omega arith) bytes.1 (rw header at single))

-- A round whose bytes complete at most one message, and hold no empty one, does what the reference
-- does.
pub rx_round-reads :
    (s : Rx) (c : List ℕ)
    → IsWaiting s
    → AllBytes c
    → IsSingle (read_bytes s c).1
    → rx_round s c ≡ done (read_bytes s c).0 (read_bytes s c).1
rx_round-reads s [] w bytes single = unfold rx_round read_bytes in refl
rx_round-reads s (b ∷ rest) w bytes single = elim (Bool-cases (s.message_size == 0)) [
  | inl fresh ↦ opened s b rest bytes single (ground arith)
  | inr going ↦
      rw (rx_round-going s b rest (ground arith))
        (fill-reads s.message_size s.received (b ∷ rest) (ground arith) (ground arith) bytes single)
]

-- Chunks that each complete one message at most.
abbrev pub Paced : Rx → List (List ℕ) → Type 0
Paced s [] = Unit {0}
Paced s (c ∷ cs) = AllBytes c × IsSingle (read_bytes s c).1 × Paced (read_bytes s c).0 cs

pub rx_thread-cons :
    (s : Rx) (c : List ℕ) (cs : List (List ℕ)) {s' : Rx} {ms : List (List ℕ)}
    → rx_round s c ≡ done s' ms
    → rx_thread s (c ∷ cs) ≡ after_round ms (rx_thread s' cs)
unfolding rx_thread
rx_thread-cons s c cs e = rw (e, rx_thread) refl

after_round-done :
    (ms more : List (List ℕ)) {s : Rx} → after_round ms (done s more) ≡ done s (ms ++ more)
unfolding after_round
after_round-done ms more = refl

-- On a list of chunks of bytes each of which completes one message at most and no message of size
-- 0, from a state that waits for a byte, the loop hands over what the reference reader makes of
-- their concatenation, ends in its state, and never writes past the buffer.
pub rx_thread-reads :
    (s : Rx) (cs : List (List ℕ))
    → IsWaiting s
    → Paced s cs
    → rx_thread s cs ≡ done (read_bytes s (flatten cs)).0 (read_bytes s (flatten cs)).1
unfolding flatten
rx_thread-reads s [] w paced = unfold rx_thread read_bytes in refl
rx_thread-reads s (c ∷ cs) w paced =
    rw
      (
        rx_thread-cons s c cs (rx_round-reads s c w paced.0 paced.1),
        rx_thread-reads (read_bytes s c).0 cs (read_bytes-IsWaiting s c paced.0 w) paced.2,
        read_bytes-append s c (flatten cs),
      )
      (after_round-done (read_bytes s c).1 _)

-- Round trip: however a stream of encoded messages is cut into chunks that complete one message at
-- most each, the loop hands over those messages, all of them and in order, and ends at a header.
pub rx_thread-encode :
    (ms : List (List ℕ)) (cs : List (List ℕ))
    → AllSent ms
    → flatten cs ≡ flatten (map encode ms)
    → Paced idle cs
    → rx_thread idle cs ≡ done idle ms
rx_thread-encode ms cs sent cut paced =
    rx_thread-reads idle cs (inl refl) paced ∙ rw (cut, read_bytes-stream ms sent) refl
