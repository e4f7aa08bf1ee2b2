-- ===== src/Grace.antt =====
-- src/hash_join_grace.hpp: algorithm B, which partitions both sides into DDR2 memory and then
-- joins the partitions one by one in the hash table. The memory is a function of the word index.
use fpga_postgresql_hash_joi.Base.{
  ℕ, zero, suc, ◌+◌, ◌*◌, ◌/◌, ◌%◌, ◌^◌, true, false, not, ◌||◌, leb, ◌==◌, if◌then◌else◌, update,
}
use fpga_postgresql_hash_joi.Base.Words.{u32, u64, add32, sub32}
use fpga_postgresql_hash_joi.Types.{
  ht_max_rows, grace_words_per_tuple, grace_max_k, grace_inner_slot_words, grace_outer_area_base,
  MsgType, msg_byte, FpgaError, error_byte, Phase, Tid, InputTuple, inner_data, outer_data, ack,
  reset, overflow, bad_state, idle, building, probing,
}
use fpga_postgresql_hash_joi.Wire.{
  rx_byte, rx_u16, rx_tuple, rx_discard_tuple, tx_status_frame, tx_error,
}
use fpga_postgresql_hash_joi.Linear
use fpga_postgresql_hash_joi.Kernel.State.{
  GraceCounts, State, Outcome, ◌>>>◌, receive, send, end_session, credit_for, running,
}
pub mod Layout
pub mod Place
pub mod Accepted
pub mod Contents
pub mod Partition
pub mod Probe
pub mod Replay
pub mod Answer
pub mod Join

unfoldable pub partition_of : ℕ → ℕ → ℕ
partition_of key partitions = u32 (u64 (key * 2_654_435_761) / 2 ^ 32) % partitions

-- The second word of a tuple: the fields of `|` are apart, so it is a sum here.
unfoldable pub pack_tid : Tid → ℕ
pack_tid tid = tid.blkno * 2 ^ 32 + tid.offno * 2 ^ 16

unfoldable pub pack_tuple : InputTuple → ℕ → (ℕ → ℕ) → ℕ → ℕ
unfolding pack_tid
pack_tuple t idx ddr2 = update (update ddr2 idx t.key) (idx + 1) (pack_tid t.tid)

unfoldable pub unpack_tuple : (ℕ → ℕ) → ℕ → InputTuple
unpack_tuple ddr2 idx =
    let packed = ddr2 (idx + 1) in
    record {
      key = ddr2 idx;
      tid = record { blkno = u32 (packed / 2 ^ 32); offno = packed / 2 ^ 16 % 2 ^ 16 };
    }

unfoldable pub inner_index : ℕ → ℕ → ℕ
inner_index p i = u32 (p * grace_inner_slot_words + i * grace_words_per_tuple)

unfoldable pub outer_index : ℕ → ℕ → ℕ → ℕ
outer_index slot_words p i =
    u32 (grace_outer_area_base + p * slot_words + i * grace_words_per_tuple)

-- The two sides are partitioned alike: the frame type, the phase of the acknowledgements, the
-- rows that a partition holds, and where its rows stand.
pub data Side : Type 0 where
  inner outer : Side

unfoldable pub frame_type : Side → MsgType
frame_type inner = inner_data
frame_type outer = outer_data

unfoldable pub ack_phase : Side → Phase
ack_phase inner = building
ack_phase outer = probing

unfoldable pub side_counts : Side → GraceCounts → ℕ → ℕ
side_counts inner g = g.inner_counts
side_counts outer g = g.outer_counts

unfoldable pub set_counts : Side → (ℕ → ℕ) → GraceCounts → GraceCounts
set_counts inner c g = record g { inner_counts = c }
set_counts outer c g = record g { outer_counts = c }

unfoldable pub side_total : Side → State → ℕ
side_total inner k = k.inner_total
side_total outer k = k.outer_total

unfoldable pub side_capacity : Side → ℕ → ℕ
side_capacity inner slot_words = ht_max_rows
side_capacity outer slot_words = slot_words / grace_words_per_tuple

unfoldable pub side_index : Side → ℕ → ℕ → ℕ → ℕ
unfolding inner_index outer_index
side_index inner slot_words p i = inner_index p i
side_index outer slot_words p i = outer_index slot_words p i

-- The rows received so far, the local variable of the two loops.
unfoldable pub side_received : Side → State → ℕ
side_received inner k = k.inner_received
side_received outer k = k.outer_received

unfoldable pub set_received : Side → ℕ → State → State
set_received inner n k = record k { session = record k.session { inner_received = n } }
set_received outer n k = record k { session = record k.session { outer_received = n } }

unfoldable pub discard_rows : ℕ → State → (State → Outcome) → Outcome
unfolding receive
discard_rows zero k next = next k
discard_rows (suc n) k next = receive (rx_discard_tuple k.keytype) k λ _ k'. discard_rows n k' next

-- A tuple goes to the next free place of its partition.
unfoldable pub place_row : Side → InputTuple → State → State
unfolding side_counts set_counts side_index side_received set_received pack_tuple partition_of
place_row side t k =
    let p = partition_of t.key k.partitions in
    let counts = side_counts side k.grace in
    let k' = record k {
      ddr2 = pack_tuple t (side_index side k.outer_slot_w p (counts p)) k.ddr2;
      grace = set_counts side (update counts p (add32 (counts p) 1)) k.grace;
    } in
    set_received side (add32 (side_received side k') 1) k'

unfoldable pub abort : FpgaError → State → State
unfolding end_session send
abort err k = end_session (record (send (tx_error err) k) { error_code_reg = error_byte err })

-- The tuples of one frame, with those left. A full partition ends the session, once the rest of
-- the frame is read.
unfoldable pub partition_rows : Side → ℕ → State → Outcome
unfolding receive place_row discard_rows abort side_capacity side_counts partition_of
partition_rows side zero k = running k
partition_rows side (suc n) k = receive (rx_tuple k.keytype) k λ t k₁.
    let more = partition_rows side n (place_row side t k₁) in
    let p = partition_of t.key k₁.partitions in
    if leb (side_capacity side k₁.outer_slot_w) (side_counts side k₁.grace p)
    then discard_rows n k₁ (λ k₂. running (abort overflow k₂))
    else more

unfoldable pub acknowledge_rows : Side → State → State
unfolding send credit_for side_total side_received ack_phase
acknowledge_rows side k =
    let credit = credit_for (sub32 (side_total side k) (side_received side k)) in
    send (tx_status_frame ack (ack_phase side) (side_received side k) 0 credit k.session_id) k

-- A RESET is acknowledged, and returned to the kernel as ERR_BAD_STATE.
unfoldable pub partition_reset : State → State
unfolding end_session send
partition_reset k = end_session (record (send (tx_status_frame ack idle 0 0 0 k.session_id) k) {
  error_code_reg = error_byte bad_state;
})

unfoldable pub partition_frame : Side → State → Outcome
unfolding receive partition_reset abort partition_rows acknowledge_rows frame_type
partition_frame side k = receive rx_byte k λ msg k₁. receive rx_u16 k₁ λ count k₂.
    if msg == msg_byte reset
    then running (partition_reset k₂)
    else if not (msg == msg_byte (frame_type side))
    then running (abort bad_state k₂)
    else (partition_rows side count k₂ >>> λ k₃.
        running (if k₃.session_done then k₃ else acknowledge_rows side k₃))

unfoldable pub partition_frames : Side → ℕ → State → Outcome
unfolding partition_frame side_total side_received
partition_frames side zero k = running k
partition_frames side (suc n) k =
    elim (k.session_done || leb (side_total side k) (side_received side k)) [
      | true ↦ running k
      | false ↦ partition_frame side k >>> partition_frames side n
    ]

-- `frame` runs from 0 to `total + 1`, a sum of 32 bits.
unfoldable pub build_inner_partitions : State → Outcome
unfolding partition_frames
build_inner_partitions k = partition_frames inner (add32 k.inner_total 1 + 1) (record k {
  grace = record {
    inner_counts = Linear.fill grace_max_k 0 k.grace.inner_counts;
    outer_counts = Linear.fill grace_max_k 0 k.grace.outer_counts;
  };
  session = record k.session { inner_received = 0 };
})

unfoldable pub build_outer_partitions : State → Outcome
unfolding partition_frames
build_outer_partitions k =
    partition_frames outer (add32 k.outer_total 1 + 1)
      (record k { session = record k.session { outer_received = 0 } })
