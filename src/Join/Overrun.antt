-- ===== src/Join/Overrun.antt =====
-- Data frames with more rows than the receive buffers hold, which no test of the kernel refuses.
use fpga_postgresql_hash_joi.Types.{rx_buf_tuples, InputTuple}
use fpga_postgresql_hash_joi.Base.{
  ℕ, suc, ◌+◌, ◌≤◌, ◌<◌, ◌≡◌, refl, ◌∙◌, ◌↔◌, inl, inr, some, List, [], ◌∷◌, ◌++◌, arith, ltb,
  ltb→lt, le→ltb, Bool-cases, length, All, update,
}
use native.Mathlib.Decide.{ℕ_discrete}
use fpga_postgresql_hash_joi.Wire.{Rx, rx_tuple}
use fpga_postgresql_hash_joi.Kernel.State.{State, Outcome, receive, running, faulted}
use fpga_postgresql_hash_joi.Kernel.Build.{receive_rows}
use fpga_postgresql_hash_joi.Host.Serializer.{put_tuple, put_tuples}
use fpga_postgresql_hash_joi.RoundTrip.Numbers.{sent, sent-append}
use fpga_postgresql_hash_joi.RoundTrip.ToBoard.{IsTuple, rx_tuple-put_tuple}
use fpga_postgresql_hash_joi.Join.Input.{write_all, receive_rows_step, receive_rows-put_tuples}

-- The run writes past the end of a buffer.
abbrev pub Faults : Outcome → Type 0
Faults o = (k : State) × (o ≡ faulted k)

receive_rows_stop :
    (n i : ℕ) (k : State) (t : InputTuple) (rest : Rx)
    → rx_tuple k.keytype k.rx ≡ some (t, rest)
    → rx_buf_tuples ≤ i
    → receive_rows (suc n) i k ≡ faulted (record k { rx = rest })
unfolding receive_rows receive
receive_rows_stop n i k t rest read full =
    rw (read, receive_rows, receive, le→ltb i rx_buf_tuples full) refl

receive_rows-Faults :
    (ts : List InputTuple) (i : ℕ) (k : State) (rest : Rx)
    → All (IsTuple k.keytype) ts
    → i ≤ rx_buf_tuples
    → rx_buf_tuples < i + length ts
    → Faults (receive_rows (length ts) i (record k { rx = sent (put_tuples k.keytype ts) rest }))
unfolding put_tuples
receive_rows-Faults [] i k rest h le many = absurd (omega arith)
receive_rows-Faults (t ∷ ts) i k rest (h, hs) le many =
    let k₁ : State = record k {
      rx = sent (put_tuple k.keytype t ++ put_tuples k.keytype ts) rest;
    } in
    let left : Rx = sent (put_tuples k.keytype ts) rest in
    let read : rx_tuple k.keytype k₁.rx ≡ some (t, left) =
      rw (sent-append (put_tuple k.keytype t)) (rx_tuple-put_tuple k.keytype t _ h) in
    elim (ℕ_discrete i rx_buf_tuples) [
      | yes full ↦
          (record k₁ { rx = left }, receive_rows_stop (length ts) i k₁ t left read (omega arith))
      | no space ↦
          let (k', run) =
            receive_rows-Faults ts (i + 1) (record k { rx_buf = update k.rx_buf i t }) rest hs
              (omega arith) (omega arith) in
          (k', receive_rows_step (length ts) i k₁ t left read (omega arith) ∙ run)
    ]

-- The receive loop, whose rows have all arrived, writes past the end of its buffers exactly if the
-- frame has more than `RX_BUF_TUPLES` rows; a frame within them it reads to its end.
pub receive_rows-Faults_iff :
    (ts : List InputTuple) (k : State) (rest : Rx)
    → All (IsTuple k.keytype) ts
    → (Faults (receive_rows (length ts) 0 (record k { rx = sent (put_tuples k.keytype ts) rest }))
        ↔ (rx_buf_tuples < length ts))
      × (length ts ≤ rx_buf_tuples
          → receive_rows (length ts) 0 (record k { rx = sent (put_tuples k.keytype ts) rest })
            ≡ running (record k { rx = rest; rx_buf = write_all k.rx_buf 0 ts }))
receive_rows-Faults_iff ts k rest h =
    let fine : length ts ≤ rx_buf_tuples
        → receive_rows (length ts) 0 (record k { rx = sent (put_tuples k.keytype ts) rest })
          ≡ running (record k { rx = rest; rx_buf = write_all k.rx_buf 0 ts }) =
      λ few. receive_rows-put_tuples ts 0 k rest h (omega arith) in
    (
      (
        λ (k', run). elim (Bool-cases (ltb rx_buf_tuples (length ts))) [
          | inl many ↦ ltb→lt rx_buf_tuples (length ts) many
          | inr few ↦ absurd (cc (run, fine (ground (arith, few))))
        ],
        λ many. receive_rows-Faults ts 0 k rest h (omega arith) (omega arith),
      ),
      fine,
    )
