-- ===== src/Host/Transport.antt =====
-- host/include/transport.hpp: the interface `ITransport`, and what its users rely on.
use fpga_postgresql_hash_joi.Base.{
  ℕ, zero, suc, ◌-◌, ◌≤◌, ◌<◌, ◌≡◌, ◌≢◌, List, [], ◌∷◌, ◌++◌, length, take, drop,
}
use fpga_postgresql_hash_joi.Types.{MsgType, Phase}

-- The exceptions of the host library, with what their messages carry.
pub data Exception : Type 0 where
  transport_failed : ℕ → Exception
  short_send : Exception
  partial_frame : Exception
  bad_count : MsgType → ℕ → Exception
  oversized_result : ℕ → Exception
  unknown_msg_type : ℕ → Exception
  timeout : Exception
  fpga_error : ℕ → Exception
  zero_credit : Phase → Exception
  no_progress : Phase → Exception
  matched_mismatch : ℕ → ℕ → Exception
  not_done : Exception
  reset_not_idle : Exception
  bad_port bad_host empty_device : Exception
  unsupported_algorithm unsupported_transport : List ℕ → Exception

-- A call that changes a state returns a value or throws; either way the state has changed.
pub data Result (S A : Type 0) : Type 0 where
  ok : A → S → Result S A
  throw : Exception → S → Result S A

abbrev pub Act : Type 0 → Type 0 → Type 0
Act S A = S → Result S A

infixl 5 ◌>>=◌ ◌>>◌
abbrev pub ◌>>=◌ : {S A B : Type 0} → Act S A → (A → Act S B) → Act S B
◌>>=◌ m f s = elim (m s) [ ok a s' ↦ f a s' | throw e s' ↦ throw e s' ]

abbrev pub ◌>>◌ : {S A B : Type 0} → Act S A → Act S B → Act S B
m >> k = m >>= λ _. k

abbrev pub pure : {S A : Type 0} → A → Act S A
pure a s = ok a s

abbrev pub raise : {S A : Type 0} → Exception → Act S A
raise e s = throw e s

-- `ITransport` over its implementation's state. `recv` gives the bytes that it wrote to the buffer.
pub record Transport (T : Type 0) : Type 0 where
  pub send : List ℕ → Act T (Unit {0})
  pub recv : ℕ → Act T (List ℕ)
  pub reset : Act T (Unit {0})

-- One call of `recv`, as its contract describes it: a nonempty part of the bytes that are there,
-- at most as many as were asked for, or no byte if none is there.
pub record Received {T : Type 0} (pending : T → List ℕ) (n : ℕ) (t : T) (r : Result T (List ℕ))
    : Type 0 where
  pub count : ℕ
  pub after : T
  pub returns : r ≡ ok (take count (pending t)) after
  pub few : count ≤ n
  pub some_if : pending t ≢ [] → 0 < n → 0 < count
  pub there : count ≤ length (pending t)
  pub left : pending after ≡ drop count (pending t)

-- A transport on which the bytes `pending` have arrived, in order and without loss.
pub record Delivers {T : Type 0} (tr : Transport T) : Type 0 where
  pub pending : T → List ℕ
  pub receives : (n : ℕ) (t : T) → Received pending n t (tr.recv n t)

-- `recv_exact`, with the rounds left. A round receives a byte or throws, so `n` rounds are enough.
module _ {T : Type 0} (tr : Transport T) where
  unfoldable pub recv_rounds : ℕ → ℕ → Act T (List ℕ)
  recv_rounds fuel zero t = ok [] t
  recv_rounds zero (suc n) t = throw partial_frame t
  recv_rounds (suc fuel) (suc n) t = elim (tr.recv (suc n) t) [
    | throw e t' ↦ throw e t'
    | ok [] t' ↦ throw partial_frame t'
    | ok (b ∷ bs) t' ↦ elim (recv_rounds fuel (suc n - length (b ∷ bs)) t') [
      | ok more t'' ↦ ok (b ∷ bs ++ more) t''
      | throw e t'' ↦ throw e t''
    ]
  ]

  unfoldable pub recv_exact : ℕ → Act T (List ℕ)
  unfolding recv_rounds
  recv_exact n = recv_rounds n n
