-- ===== src/Host/Serializer.antt =====
-- host/src/tuple_serializer.cpp: frames as bytes, little-endian. A put gives the bytes that it
-- appends to the vector.
use fpga_postgresql_hash_joi.Base.{
  ℕ, zero, suc, ◌+◌, ◌*◌, ◌/◌, ◌^◌, List, [], ◌∷◌, ◌++◌, ◌==◌, if◌then◌else◌, length, take,
}
use fpga_postgresql_hash_joi.Base.Words.{u8, u16, u32}
use fpga_postgresql_hash_joi.Types.{
  rx_credit_tuples, MsgType, msg_byte, key_int32, Tid, InputTuple, configure,
}
use Prim.Native.Nat.{min}

pub record JoinConfig : Type 0 where
  pub algorithm : ℕ
  pub key_type : ℕ

unfoldable pub put_u8 : ℕ → List ℕ
put_u8 v = u8 v ∷ []

unfoldable pub put_u16 : ℕ → List ℕ
put_u16 v = u8 v ∷ u8 (v / 2 ^ 8) ∷ []

unfoldable pub put_u32 : ℕ → List ℕ
put_u32 v = u8 v ∷ u8 (v / 2 ^ 8) ∷ u8 (v / 2 ^ 16) ∷ u8 (v / 2 ^ 24) ∷ []

unfoldable pub put_i32 : ℕ → List ℕ
unfolding put_u32
put_i32 v = put_u32 v

-- The loop `out.push_back(u >> (8 * i))`, with the bytes left.
unfoldable pub put_bytes : ℕ → ℕ → ℕ → List ℕ
put_bytes u zero i = []
put_bytes u (suc n) i = u8 (u / 2 ^ (8 * i)) ∷ put_bytes u n (i + 1)

unfoldable pub put_i64 : ℕ → List ℕ
unfolding put_bytes
put_i64 v = put_bytes v 8 0

unfoldable pub put_tid : Tid → List ℕ
unfolding put_u32 put_u16
put_tid tid = put_u32 tid.blkno ++ put_u16 tid.offno

unfoldable pub put_tuple : ℕ → InputTuple → List ℕ
unfolding put_i32 put_i64 put_tid
put_tuple key_type t =
    (if key_type == key_int32 then put_i32 (u32 t.key) else put_i64 t.key) ++ put_tid t.tid

unfoldable pub serialize_configure : JoinConfig → ℕ → ℕ → ℕ → List ℕ
unfolding put_u8 put_u16 put_u32
serialize_configure cfg inner_count outer_count session_id =
    put_u8 (msg_byte configure)
    ++ (put_u16 1
        ++ (put_u8 cfg.algorithm
            ++ (put_u8 cfg.key_type
                ++ (put_u16 (u16 rx_credit_tuples)
                    ++ (put_u32 inner_count ++ (put_u32 outer_count ++ put_u8 session_id))))))

unfoldable pub put_tuples : ℕ → List InputTuple → List ℕ
unfolding put_tuple
put_tuples key_type [] = []
put_tuples key_type (t ∷ ts) = put_tuple key_type t ++ put_tuples key_type ts

-- `count` is the length of the list, which is the array from `tuples` on.
unfoldable pub serialize_batch : ℕ → MsgType → List InputTuple → ℕ → List ℕ
unfolding put_u8 put_u16 put_tuples
serialize_batch key_type msg_type tuples max_count =
    let limit = min (length tuples) max_count in
    if limit == 0
    then []
    else put_u8 (msg_byte msg_type)
      ++ (put_u16 (u16 limit) ++ put_tuples key_type (take limit tuples))
