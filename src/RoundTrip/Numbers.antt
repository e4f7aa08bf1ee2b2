-- ===== src/RoundTrip/Numbers.antt =====
-- Numbers and tuple identifiers that the host puts on the wire, as the kernel reads them.
use native.Mathlib.Nat.{mod-eq_of_lt}
use fpga_postgresql_hash_joi.Base.{ℕ, ◌^◌, ◌<◌, ◌≡◌, refl, ap, some, List, [], ◌∷◌, ◌++◌, arith}
use fpga_postgresql_hash_joi.Base.Words.{u8, u16, u32, u64}
use fpga_postgresql_hash_joi.Types.{Tid}
use fpga_postgresql_hash_joi.Wire.{Rx, rx_byte, rx_u16, rx_u32, rx_i64, rx_tid}
use fpga_postgresql_hash_joi.Host.Serializer.{put_u8, put_u16, put_u32, put_i64, put_tid}

-- The bytes have arrived, with `rest` behind them.
abbrev pub sent : List ℕ → Rx → Rx
sent [] rest = rest
sent (b ∷ bs) rest = some b ∷ sent bs rest

pub sent-append : (xs ys : List ℕ) (rest : Rx) → sent (xs ++ ys) rest ≡ sent xs (sent ys rest)
sent-append [] ys rest = refl
sent-append (x ∷ xs) ys rest = ap (λ r. some x ∷ r) (sent-append xs ys rest)

module _ (v : ℕ) (rest : Rx) where
  pub rx_byte-put_u8 : rx_byte (sent (put_u8 v) rest) ≡ some (u8 v, rest)
  unfolding rx_byte put_u8
  rx_byte-put_u8 = ap (λ n. some (n, rest)) (omega arith)

  pub rx_u16-put_u16 : rx_u16 (sent (put_u16 v) rest) ≡ some (u16 v, rest)
  unfolding rx_u16 rx_byte put_u16
  rx_u16-put_u16 = ap (λ n. some (n, rest)) (omega arith)

  pub rx_u32-put_u32 : rx_u32 (sent (put_u32 v) rest) ≡ some (u32 v, rest)
  unfolding rx_u32 rx_byte put_u32
  rx_u32-put_u32 = ap (λ n. some (n, rest)) (omega arith)

  pub rx_i64-put_i64 : rx_i64 (sent (put_i64 v) rest) ≡ some (u64 v, rest)
  unfolding rx_i64 rx_byte put_i64
  rx_i64-put_i64 = ap (λ n. some (n, rest)) (omega arith)

-- The identifier as its fields' widths hold it.
abbrev pub IsTid : Tid → Type 0
IsTid t = (t.blkno < 2 ^ 32) × (t.offno < 2 ^ 16)

pub rx_tid-put_tid :
    (t : Tid) (rest : Rx) → IsTid t → rx_tid (sent (put_tid t) rest) ≡ some (t, rest)
unfolding rx_tid put_tid
rx_tid-put_tid t rest (b, o) = rw (
  sent-append (put_u32 t.blkno) (put_u16 t.offno) rest,
  rx_u32-put_u32,
  rx_u16-put_u16,
  mod-eq_of_lt b,
  mod-eq_of_lt o,
)
