-- ===== src/RoundTrip/ToBoard.antt =====
-- Frames of the host's serializer, as the kernel reads them.
use native.Mathlib.Nat.{mod-eq_of_lt}
use fpga_postgresql_hash_joi.Base.{ℕ, ◌^◌, ◌<◌, ◌≡◌, ap, ◌∙◌, ◌⊎◌, inl, inr, some, List, ◌++◌}
use fpga_postgresql_hash_joi.Base.Words.{u16, u32, sign_extend, u32-u32}
use fpga_postgresql_hash_joi.Types.{
  rx_credit_tuples, key_int32, key_int64, InputTuple, ConfigurePayload,
}
use fpga_postgresql_hash_joi.Wire.{Rx, rx_tuple, rx_byte, rx_u16}
use fpga_postgresql_hash_joi.Kernel.Configure.{rx_configure, apply_configure, configure_session}
use fpga_postgresql_hash_joi.Kernel.State.{
  Inputs, State, receive, guard_loop, receive_guarded, running, receive-some,
}
use fpga_postgresql_hash_joi.Host.Serializer.{
  JoinConfig, put_u8, put_u16, put_u32, put_i32, put_i64, put_tuple, serialize_configure,
}
use fpga_postgresql_hash_joi.RoundTrip.Numbers.{
  sent, sent-append, rx_byte-put_u8, rx_u16-put_u16, rx_u32-put_u32, rx_i64-put_i64, IsTid,
  rx_tid-put_tid,
}

-- The key has the width that its type sends: 64 bits, or the sign extension of 32 bits.
abbrev pub IsKey : ℕ → ℕ → Type 0
IsKey key_type key =
    ((key_type ≡ key_int64) × (key < 2 ^ 64))
    ⊎ ((key_type ≡ key_int32) × (sign_extend (u32 key) ≡ key))

abbrev pub IsTuple : ℕ → InputTuple → Type 0
IsTuple key_type t = IsKey key_type t.key × IsTid t.tid

-- The kernel reads from the wire the tuple that the host put there, for both key types, if the key
-- is of its type and the identifier's fields are in range; what follows is left in the stream.
pub rx_tuple-put_tuple :
    (key_type : ℕ) (t : InputTuple) (rest : Rx)
    → IsTuple key_type t
    → rx_tuple key_type (sent (put_tuple key_type t) rest) ≡ some (t, rest)
unfolding rx_tuple put_tuple
rx_tuple-put_tuple key_type t rest (inl (wide, k), i) =
    rw (
      wide,
      sent-append (put_i64 t.key),
      rx_i64-put_i64,
      mod-eq_of_lt k,
      rx_tid-put_tid t.tid rest i,
    )
rx_tuple-put_tuple key_type t rest (inr (narrow, k), i) =
    rw
      (
        narrow,
        sent-append (put_i32 (u32 t.key)),
        put_i32,
        rx_u32-put_u32,
        rx_tid-put_tid t.tid rest i,
      )
      (ap (λ key. some (record { key = key; tid = t.tid }, rest))
        (ap sign_extend (u32-u32 t.key) ∙ k))

-- The fields of CONFIGURE as their widths hold them.
pub record IsConfigure (cfg : JoinConfig) (inner_count outer_count session_id : ℕ) : Type 0 where
  pub algorithm : cfg.algorithm < 2 ^ 8
  pub key_type : cfg.key_type < 2 ^ 8
  pub inner : inner_count < 2 ^ 32
  pub outer : outer_count < 2 ^ 32
  pub session : session_id < 2 ^ 8

abbrev pub configure_payload : JoinConfig → ℕ → ℕ → ℕ → ConfigurePayload
configure_payload cfg inner_count outer_count session_id = record {
  algorithm = cfg.algorithm;
  key_type = cfg.key_type;
  rx_buf_slots = rx_credit_tuples;
  inner_count = inner_count;
  outer_count = outer_count;
  session_id = session_id;
}

abbrev configure_fields : JoinConfig → ℕ → ℕ → ℕ → List ℕ
configure_fields cfg i o s =
    put_u8 cfg.algorithm
    ++ (put_u8 cfg.key_type
        ++ (put_u16 (u16 rx_credit_tuples) ++ (put_u32 i ++ (put_u32 o ++ put_u8 s))))

rx_configure-fields :
    (cfg : JoinConfig) (i o s : ℕ) (rest : Rx)
    → IsConfigure cfg i o s
    → rx_configure (sent (configure_fields cfg i o s) rest)
      ≡ some (configure_payload cfg i o s, rest)
unfolding rx_configure
rx_configure-fields cfg i o s rest h = simp (
  sent-append,
  rx_byte-put_u8,
  rx_u16-put_u16,
  rx_u32-put_u32,
  mod-eq_of_lt h.algorithm,
  mod-eq_of_lt h.key_type,
  mod-eq_of_lt h.inner,
  mod-eq_of_lt h.outer,
  mod-eq_of_lt h.session,
)

-- A session that receives the host's CONFIGURE frame reads the host's values from it, goes on to
-- judge their limits, and leaves in the stream what follows the frame.
pub configure_session-serialize_configure :
    (io : Inputs) (k : State) (cfg : JoinConfig) (i o s : ℕ) (rest : Rx)
    → IsConfigure cfg i o s
    → configure_session io (record k { rx = sent (serialize_configure cfg i o s) rest })
      ≡ running (apply_configure io (configure_payload cfg i o s) (record k { rx = rest }))
unfolding configure_session serialize_configure receive_guarded guard_loop receive rx_u16 rx_byte
    put_u8 put_u16
configure_session-serialize_configure io k cfg i o s rest h =
    receive-some rx_configure (record k { rx = sent (configure_fields cfg i o s) rest })
      (configure_payload cfg i o s) rest (λ p k₃. running (apply_configure io p k₃))
      (rx_configure-fields cfg i o s rest h)
