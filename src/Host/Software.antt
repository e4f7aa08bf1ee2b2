-- ===== src/Host/Software.antt =====
-- host/demo/software_kernel.hpp: class SoftwareKernel, the simulation of the board behind the
-- transport interface. The hash map is a function of the key. A read past the end of a frame, which
-- the source does not test, gives 0; the frames of the serializer have no such read. The byte
-- helpers are those of the serializer and the decoder, written again in the source.
use fpga_postgresql_hash_joi.Types.{
  rx_credit_tuples, msg_byte, Phase, phase_byte, key_int32, Tid, ResultPair, configure, inner_data,
  outer_data, result, ack, reset, idle, building, probing,
}
use fpga_postgresql_hash_joi.Base.Words.{u8, u16, add32, sign_extend}
use fpga_postgresql_hash_joi.Base.{
  ℕ, zero, suc, ◌+◌, Bool, true, false, Option, none, some, List, [], ◌∷◌, ◌++◌, ltb, leb, ◌==◌,
  if◌then◌else◌, length, take, drop, update,
}
use fpga_postgresql_hash_joi.Host.Transport.{Act, Transport, ok}
use fpga_postgresql_hash_joi.Host.Serializer.{put_u16, put_u32}
use fpga_postgresql_hash_joi.Host.Decoder.{byte_at, read_u16, read_u32, read_u64, read_tid}
use Prim.Native.Nat.{min}
pub mod Answers
pub mod Mute
pub mod Stalls

pub record SoftwareKernel : Type 0 where
  pub key_type : ℕ
  pub n_matched : ℕ
  pub n_processed : ℕ
  pub outer_total : ℕ
  pub session_id : ℕ
  pub ht : ℕ → Option Tid
  pub resp_queue : List (List ℕ)
  pub out_buf : List ℕ
  pub all_sent : List ℕ

abbrev pub fresh_software : SoftwareKernel
fresh_software = record {
  key_type = key_int32;
  n_matched = 0;
  n_processed = 0;
  outer_total = 0;
  session_id = 0;
  ht = λ key. none;
  resp_queue = [];
  out_buf = [];
  all_sent = [];
}

unfoldable pub push_frame : List ℕ → SoftwareKernel → SoftwareKernel
push_frame f k = record k { resp_queue = k.resp_queue ++ (f ∷ []) }

unfoldable pub ack_bytes : Phase → ℕ → ℕ → ℕ → ℕ → List ℕ
unfolding put_u16 put_u32
ack_bytes phase session_id credit processed matched =
    msg_byte ack
    ∷ (put_u16 1
        ++ (phase_byte phase
            ∷ u8 session_id
            ∷ (put_u16 credit ++ (put_u32 processed ++ put_u32 matched))))

unfoldable pub push_ack : Phase → ℕ → ℕ → ℕ → SoftwareKernel → SoftwareKernel
unfolding push_frame ack_bytes
push_ack phase credit processed matched k =
    push_frame (ack_bytes phase k.session_id credit processed matched) k

unfoldable pub pair_bytes : List ResultPair → List ℕ
unfolding put_u16 put_u32
pair_bytes [] = []
pair_bytes (r ∷ rs) =
    put_u32 r.inner_tid.blkno
    ++ (put_u16 r.inner_tid.offno
        ++ (put_u32 r.outer_tid.blkno ++ (put_u16 r.outer_tid.offno ++ pair_bytes rs)))

unfoldable pub push_result : List ResultPair → SoftwareKernel → SoftwareKernel
unfolding push_frame pair_bytes put_u16
push_result pairs k =
    push_frame (msg_byte result ∷ (put_u16 (u16 (length pairs)) ++ pair_bytes pairs)) k

unfoldable pub key_bytes : SoftwareKernel → ℕ
key_bytes k = if k.key_type == key_int32 then 4 else 8

unfoldable pub tuple_stride : SoftwareKernel → ℕ
unfolding key_bytes
tuple_stride k = key_bytes k + 6

unfoldable pub read_key : List ℕ → ℕ → SoftwareKernel → ℕ
unfolding read_u32 read_u64
read_key p i k = if k.key_type == key_int32 then sign_extend (read_u32 p i) else read_u64 p i

unfoldable pub on_configure : List ℕ → SoftwareKernel → SoftwareKernel
unfolding push_ack read_u32 byte_at
on_configure p k = push_ack building rx_credit_tuples 0 0 (record k {
  key_type = byte_at p 1;
  n_matched = 0;
  n_processed = 0;
  outer_total = read_u32 p 8;
  session_id = byte_at p 12;
  ht = λ key. none;
})

-- The loop of `on_inner`, with the rows left and the offset. A later row replaces one of its key.
unfoldable pub store_rows : List ℕ → ℕ → ℕ → SoftwareKernel → SoftwareKernel
unfolding read_key read_tid key_bytes tuple_stride
store_rows p zero i k = k
store_rows p (suc n) i k =
    store_rows p n (i + tuple_stride k)
      (record k { ht = update k.ht (read_key p i k) (some (read_tid p (i + key_bytes k))) })

unfoldable pub on_inner : ℕ → List ℕ → SoftwareKernel → SoftwareKernel
unfolding store_rows push_ack
on_inner count p k = push_ack building rx_credit_tuples 0 0 (store_rows p count 0 k)

unfoldable pub count_match : Option Tid → Tid → SoftwareKernel → List ResultPair × SoftwareKernel
count_match none outer_tid k = ([], k)
count_match (some tid) outer_tid k = (
  record { inner_tid = tid; outer_tid = outer_tid } ∷ [],
  record k { n_matched = add32 k.n_matched 1 },
)

-- The loop of `on_outer`.
unfoldable pub find_rows : List ℕ → ℕ → ℕ → SoftwareKernel → List ResultPair × SoftwareKernel
unfolding read_key read_tid key_bytes tuple_stride count_match
find_rows p zero i k = ([], k)
find_rows p (suc n) i k =
    let (hits, k₁) = count_match (k.ht (read_key p i k)) (read_tid p (i + key_bytes k)) k in
    let (more, k₂) =
      find_rows p n (i + tuple_stride k) (record k₁ { n_processed = add32 k₁.n_processed 1 }) in
    (hits ++ more, k₂)

unfoldable pub push_matches : List ResultPair → SoftwareKernel → SoftwareKernel
unfolding push_result
push_matches [] k = k
push_matches (r ∷ rs) k = push_result (r ∷ rs) k

unfoldable pub on_outer : ℕ → List ℕ → SoftwareKernel → SoftwareKernel
unfolding find_rows push_matches push_ack
on_outer count p k =
    let (matches, k₁) = find_rows p count 0 k in
    let k₂ = push_matches matches k₁ in
    let credit = if leb k₂.outer_total k₂.n_processed then 0 else rx_credit_tuples in
    push_ack probing credit k₂.n_processed k₂.n_matched k₂

unfoldable pub on_reset : Bool → SoftwareKernel → SoftwareKernel
unfolding push_ack
on_reset emit_ack k =
    let k' = record k {
      ht = λ key. none;
      resp_queue = [];
      out_buf = [];
      n_matched = 0;
      n_processed = 0;
      outer_total = 0;
      session_id = 0;
    } in
    if emit_ack then push_ack idle 0 0 0 k' else k'

-- The frame's handler; `data` is the frame with its header.
unfoldable pub handle_frame : List ℕ → SoftwareKernel → SoftwareKernel
unfolding on_configure on_inner on_outer on_reset byte_at read_u16
handle_frame frame k =
    let msg = byte_at frame 0 in
    let n = read_u16 frame 1 in
    let payload = drop 3 frame in
    if msg == msg_byte configure
    then on_configure payload k
    else if msg == msg_byte inner_data
    then on_inner n payload k
    else if msg == msg_byte outer_data
    then on_outer n payload k
    else if msg == msg_byte reset
    then on_reset true k
    else k

unfoldable pub software_send : List ℕ → Act SoftwareKernel (Unit {0})
unfolding handle_frame
software_send frame k =
    let k' = record k { all_sent = k.all_sent ++ frame } in
    ok tt (if ltb (length frame) 3 then k' else handle_frame frame k')

-- The loop of `recv`: the buffer, filled from the queue, and the rest of the queue.
unfoldable pub next_buffer : List ℕ → List (List ℕ) → List ℕ × List (List ℕ)
next_buffer (b ∷ bs) queue = (b ∷ bs, queue)
next_buffer [] [] = ([], [])
next_buffer [] (f ∷ fs) = next_buffer f fs

unfoldable pub software_recv : ℕ → Act SoftwareKernel (List ℕ)
unfolding next_buffer
software_recv max_len k =
    let (buf, queue) = next_buffer k.out_buf k.resp_queue in
    let n = min max_len (length buf) in
    ok (take n buf) (record k { out_buf = drop n buf; resp_queue = queue })

unfoldable pub software_reset : Act SoftwareKernel (Unit {0})
unfolding on_reset
software_reset k = ok tt (on_reset false k)

abbrev pub software_kernel : Transport SoftwareKernel
software_kernel = record { send = software_send; recv = software_recv; reset = software_reset }
