-- ===== src/RoundTrip/Results.antt =====
-- RESULT frames, from the kernel to the host.
use fpga_postgresql_hash_joi.Base.Words.{u8, u16}
use mathlib.Core.Path.{ap₂}
use mathlib.Core.List.{append_assoc}
use fpga_postgresql_hash_joi.Wire.{tx_pair, tx_pairs, tx_results, tx_byte, tx_u16, tx_header}
use fpga_postgresql_hash_joi.Host.Transport.{Transport, Delivers}
use fpga_postgresql_hash_joi.RoundTrip.Receive.{Gets}
use fpga_postgresql_hash_joi.RoundTrip.FromBoard.{
  bytes, bytes-append, recv_frame-Gets, sized-Gets, keep-Gets,
}
use fpga_postgresql_hash_joi.Base.{
  ℕ, zero, suc, ◌+◌, ◌-◌, ◌*◌, ◌/◌, ◌^◌, ◌≤◌, ◌<◌, ◌≡◌, refl, sym, ap, ◌∙◌, ◌≢◌, Bool, List, [],
  ◌∷◌, ◌++◌, arith, ◌==◌, le→ltb, length, length-append,
}
use fpga_postgresql_hash_joi.Types.{tx_buf_size, msg_byte, ResultPair, result}
use fpga_postgresql_hash_joi.Host.Decoder.{
  byte_at, read_tid, read_pairs, Decoder, recv_frame, result_frame, recv_results, recv_payload,
}
use fpga_postgresql_hash_joi.RoundTrip.Numbers.{IsTid}

-- The entries `i`, `i + 1`, … of the result buffer.
unfoldable pub buffered : (ℕ → ResultPair) → ℕ → ℕ → List ResultPair
buffered buf zero i = []
buffered buf (suc n) i = buf i ∷ buffered buf n (i + 1)

abbrev pub IsPair : ResultPair → Type 0
IsPair r = IsTid r.inner_tid × IsTid r.outer_tid

byte_at-append :
    (pre ys : List ℕ) (m j : ℕ) → m ≡ length pre + j → byte_at (pre ++ ys) m ≡ byte_at ys j
unfolding byte_at
byte_at-append [] ys m j e = ap (byte_at ys) (omega arith)
byte_at-append (x ∷ pre) ys zero j e = absurd (omega arith)
byte_at-append (x ∷ pre) ys (suc m) j e = byte_at-append pre ys m j (omega arith)

read_tid-append :
    (pre ys : List ℕ) (m j : ℕ) → m ≡ length pre + j → read_tid (pre ++ ys) m ≡ read_tid ys j
unfolding read_tid
read_tid-append pre ys m j e = ground (
  arith,
  byte_at-append pre ys m j e,
  byte_at-append pre ys (m + 1) (j + 1) (omega arith),
  byte_at-append pre ys (m + 2) (j + 2) (omega arith),
  byte_at-append pre ys (m + 3) (j + 3) (omega arith),
  byte_at-append pre ys (m + 4) (j + 4) (omega arith),
  byte_at-append pre ys (m + 4 + 1) (j + 4 + 1) (omega arith),
)

read_tid-pair_bytes :
    (r : ResultPair) (last : Bool) (ys : List ℕ)
    → IsPair r
    → (read_tid (bytes (tx_pair r last) ++ ys) 0 ≡ r.inner_tid)
      × (read_tid (bytes (tx_pair r last) ++ ys) 6 ≡ r.outer_tid)
unfolding tx_pair read_tid
read_tid-pair_bytes r last ys h = (ground arith, ground arith)

length-pairs :
    (buf : ℕ → ResultPair) (count n i : ℕ) → length (bytes (tx_pairs buf count n i)) ≡ n * 12
unfolding tx_pairs tx_pair
length-pairs buf count zero i = refl
length-pairs buf count (suc n) i = omega (arith, length-pairs buf count n (i + 1))

length-pair : (r : ResultPair) (last : Bool) → length (bytes (tx_pair r last)) ≡ 12
unfolding tx_pair
length-pair r last = refl

-- One pair is read at its place in the payload, and the others behind it.
read_pairs_step :
    (buf : ℕ → ResultPair) (n i : ℕ) (pre here more : List ℕ)
    → length pre ≡ i * 12
    → read_tid (here ++ more) 0 ≡ (buf i).inner_tid
    → read_tid (here ++ more) 6 ≡ (buf i).outer_tid
    → read_pairs ((pre ++ here) ++ more) n (i + 1) ≡ buffered buf n (i + 1)
    → read_pairs (pre ++ (here ++ more)) (suc n) i ≡ buffered buf (suc n) i
unfolding read_pairs buffered
read_pairs_step buf n i pre here more len inner outer rest =
    ap₂ ◌∷◌ (λ k. record { inner_tid = first k; outer_tid = second k })
      (ap (λ bs. read_pairs bs n (i + 1)) (sym (append_assoc pre here more)) ∙ rest)
  where
    first : read_tid (pre ++ (here ++ more)) (i * 12) ≡ (buf i).inner_tid
    first = read_tid-append pre (here ++ more) (i * 12) 0 (omega arith) ∙ inner

    second : read_tid (pre ++ (here ++ more)) (i * 12 + 6) ≡ (buf i).outer_tid
    second = read_tid-append pre (here ++ more) (i * 12 + 6) 6 (omega arith) ∙ outer

read_pairs-tx_pairs :
    (buf : ℕ → ResultPair) (count n i : ℕ) (pre : List ℕ)
    → length pre ≡ i * 12
    → ((j : ℕ) → i ≤ j → j < i + n → IsPair (buf j))
    → read_pairs (pre ++ bytes (tx_pairs buf count n i)) n i ≡ buffered buf n i
read_pairs-tx_pairs buf count zero i pre len h = unfold read_pairs buffered in refl
read_pairs-tx_pairs buf count (suc n) i pre len h =
    let last : Bool = i == u16 (count + 2 ^ 16 - 1) in
    let here : List ℕ = bytes (tx_pair (buf i) last) in
    let more : List ℕ = bytes (tx_pairs buf count n (i + 1)) in
    let split : bytes (tx_pairs buf count (suc n) i) ≡ here ++ more =
      unfold tx_pairs in bytes-append (tx_pair (buf i) last) _ in
    let (inner, outer) = read_tid-pair_bytes (buf i) last more (h i (omega arith) (omega arith)) in
    let len' : length (pre ++ here) ≡ (i + 1) * 12 =
      omega (arith, length-append pre here, length-pair (buf i) last) in
    rw split (
      read_pairs_step buf n i pre here more len inner outer (
        read_pairs-tx_pairs buf count n (i + 1) (pre ++ here) len'
          λ j lo hi. h j (omega arith) (omega arith)))

results_payload-Gets :
    {T : Type 0} (tr : Transport T) (d : Delivers tr) (dec : Decoder) (t : T) (rest : List ℕ)
    (buf : ℕ → ResultPair) (count : ℕ)
    → count ≤ tx_buf_size
    → ((j : ℕ) → j < count → IsPair (buf j))
    → d.pending t ≡ bytes (tx_pairs buf count count 0) ++ rest
    → Gets tr d
        (result_frame (buffered buf count 0), dec)
        rest
        (recv_payload tr dec (msg_byte result) count t)
unfolding recv_payload recv_results
results_payload-Gets tr d dec t rest buf count few h p = keep-Gets tr d dec _ _ t rest (
    rw
      (
        le→ltb tx_buf_size count few,
        ← read_pairs-tx_pairs buf count count 0 [] refl (λ j lo hi. h j (omega arith)),
      )
      (sized-Gets tr d (λ bs. result_frame (read_pairs bs count 0)) (count * 12) t
        (bytes (tx_pairs buf count count 0)) rest (length-pairs buf count count 0) p))

-- The bytes of a RESULT frame: its type, its count and its pairs.
bytes-tx_results :
    (buf : ℕ → ResultPair) (count : ℕ)
    → count ≢ 0
    → bytes (tx_results buf count)
      ≡ msg_byte result
        ∷ u8 (u8 count)
        ∷ u8 (u8 (count / 2 ^ 8))
        ∷ bytes (tx_pairs buf count count 0)
unfolding tx_results tx_header tx_byte tx_u16
bytes-tx_results buf count some_pairs = ground arith

-- A RESULT frame of at most `TX_BUF_SIZE` pairs is decoded to the pairs of the kernel's buffer, in
-- their order.
pub recv_frame-results :
    {T : Type 0} (tr : Transport T) (d : Delivers tr) (dec : Decoder) (t : T) (rest : List ℕ)
    (buf : ℕ → ResultPair) (count : ℕ)
    → count ≢ 0
    → count ≤ tx_buf_size
    → ((j : ℕ) → j < count → IsPair (buf j))
    → d.pending t ≡ bytes (tx_results buf count) ++ rest
    → Gets tr d (result_frame (buffered buf count 0), dec) rest (recv_frame tr dec t)
recv_frame-results tr d dec t rest buf count some_pairs few h p =
    recv_frame-Gets tr d dec dec _ t _ _ _ (bytes (tx_pairs buf count count 0) ++ rest) rest
      (p ∙ ap (λ bs. bs ++ rest) (bytes-tx_results buf count some_pairs))
      λ t' p'.
        let same : u8 (u8 count) + u8 (u8 (count / 2 ^ 8)) * 2 ^ 8 ≡ count = omega arith in
        rw same (results_payload-Gets tr d dec t' rest buf count few h p')
