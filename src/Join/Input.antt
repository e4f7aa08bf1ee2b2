-- ===== src/Join/Input.antt =====
-- The data frames that the host sends, as the receive loops of the kernel read them.
use fpga_postgresql_hash_joi.Types.{rx_buf_tuples, MsgType, msg_byte, InputTuple}
use fpga_postgresql_hash_joi.Base.Words.{u8, u16}
use fpga_postgresql_hash_joi.Base.{
  ℕ, suc, ◌+◌, ◌^◌, ◌≤◌, ◌<◌, ◌≡◌, refl, ◌∙◌, some, List, [], ◌∷◌, ◌++◌, arith, lt→ltb, ==_refl,
  length, All, update, take-all,
}
use Prim.Native.Nat.{min}
use fpga_postgresql_hash_joi.Wire.{Rx, rx_u16, rx_tuple}
use fpga_postgresql_hash_joi.Host.Serializer.{
  put_u8, put_u16, put_tuple, put_tuples, serialize_batch,
}
use fpga_postgresql_hash_joi.RoundTrip.Numbers.{sent, sent-append, rx_u16-put_u16}
use fpga_postgresql_hash_joi.RoundTrip.ToBoard.{IsTuple, rx_tuple-put_tuple}
use fpga_postgresql_hash_joi.Kernel.State.{
  Inputs, State, Outcome, receive, receive-some, guard_loop, receive_guarded, running,
}
use fpga_postgresql_hash_joi.Kernel.Build.{receive_rows}

-- The buffer holds the rows, from the index on.
abbrev pub Stores : (ℕ → InputTuple) → ℕ → List InputTuple → Type 0
Stores buf i [] = Unit
Stores buf i (t ∷ ts) = (buf i ≡ t) × Stores buf (i + 1) ts

abbrev pub write_all : (ℕ → InputTuple) → ℕ → List InputTuple → ℕ → InputTuple
write_all buf i [] = buf
write_all buf i (t ∷ ts) = write_all (update buf i t) (i + 1) ts

write_all-before :
    (buf : ℕ → InputTuple) (ts : List InputTuple) (i j : ℕ) → j < i → write_all buf i ts j ≡ buf j
write_all-before buf [] i j lt = refl
write_all-before buf (t ∷ ts) i j lt =
    write_all-before (update buf i t) ts (i + 1) j (omega arith) ∙ ground arith

pub write_all-Stores :
    (buf : ℕ → InputTuple) (ts : List InputTuple) (i : ℕ) → Stores (write_all buf i ts) i ts
write_all-Stores buf [] i = tt
write_all-Stores buf (t ∷ ts) i = (
  write_all-before (update buf i t) ts (i + 1) i (omega arith) ∙ rw (==_refl i) refl,
  write_all-Stores (update buf i t) ts (i + 1),
)

pub receive_rows_step :
    (n i : ℕ) (k : State) (t : InputTuple) (rest : Rx)
    → rx_tuple k.keytype k.rx ≡ some (t, rest)
    → i < rx_buf_tuples
    → receive_rows (suc n) i k
      ≡ receive_rows n (i + 1) (record k { rx = rest; rx_buf = update k.rx_buf i t })
unfolding receive_rows receive
receive_rows_step n i k t rest read fits =
    rw (receive_rows, receive, read, lt→ltb i rx_buf_tuples fits) refl

-- The loop reads the rows of a frame that is within the buffer into it.
pub receive_rows-put_tuples :
    (ts : List InputTuple) (i : ℕ) (k : State) (rest : Rx)
    → All (IsTuple k.keytype) ts
    → i + length ts ≤ rx_buf_tuples
    → receive_rows (length ts) i (record k { rx = sent (put_tuples k.keytype ts) rest })
      ≡ running (record k { rx = rest; rx_buf = write_all k.rx_buf i ts })
unfolding receive_rows put_tuples
receive_rows-put_tuples [] i k rest h fits = refl
receive_rows-put_tuples (t ∷ ts) i k rest (h, hs) fits =
    receive_rows_step (length ts) i
      (record k { rx = sent (put_tuple k.keytype t ++ put_tuples k.keytype ts) rest }) t
      (sent (put_tuples k.keytype ts) rest)
      (rw (sent-append (put_tuple k.keytype t)) (rx_tuple-put_tuple k.keytype t _ h)) (omega arith)
    ∙ receive_rows-put_tuples ts (i + 1) (record k { rx_buf = update k.rx_buf i t }) rest hs
        (omega arith)

-- The header of a frame is read, and what follows it is left.
pub receive_header :
    (io : Inputs) (id m n : ℕ) (body : List ℕ) (k : State) (rest : Rx)
    (next : ℕ → ℕ → State → Outcome)
    → m < 2 ^ 8
    → n < 2 ^ 16
    → (receive_guarded io id
        (record k { rx = sent (put_u8 m ++ (put_u16 n ++ body)) rest })
        λ msg k₁. receive rx_u16 k₁ λ count k₂. next msg count k₂)
      ≡ next m n (record k { rx = sent body rest })
unfolding receive_guarded guard_loop put_u8
receive_header io id m n body k rest next hm hn =
    let byte : u8 (u8 m) ≡ m = omega arith in
    let word : u16 n ≡ n = omega arith in
    let count : rx_u16 (sent (put_u16 n ++ body) rest) ≡ some (n, sent body rest) =
      rw (sent-append (put_u16 n), rx_u16-put_u16, word) refl in
    rw byte (
      receive-some rx_u16 (record k { rx = sent (put_u16 n ++ body) rest }) n (sent body rest)
        (next m) count)

-- A batch within the buffer is one frame with all its rows.
pub serialize_batch-eq :
    (key_type : ℕ) (type : MsgType) (ts : List InputTuple)
    → 0 < length ts
    → length ts ≤ rx_buf_tuples
    → serialize_batch key_type type ts rx_buf_tuples
      ≡ put_u8 (msg_byte type) ++ (put_u16 (length ts) ++ put_tuples key_type ts)
unfolding serialize_batch
serialize_batch-eq key_type type ts pos few =
    let all : min (length ts) rx_buf_tuples ≡ length ts = ground arith in
    rw (all, take-all ts) (ground arith)
