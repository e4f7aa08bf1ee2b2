-- ===== src/RoundTrip/FromBoard.antt =====
-- Frames that the kernel writes, as the host's decoder reads them from any transport on which
-- their bytes have arrived.
use fpga_postgresql_hash_joi.Base.Words.{u8}
use fpga_postgresql_hash_joi.Base.{
  ℕ, ◌+◌, ◌*◌, ◌^◌, ◌<◌, ◌≡◌, refl, sym, ap, ◌∙◌, true, false, List, [], ◌∷◌, ◌++◌, arith, length,
}
use fpga_postgresql_hash_joi.Types.{
  MsgType, FpgaError, error_byte, Phase, phase_byte, StatusPayload, ack, status,
}
use fpga_postgresql_hash_joi.Wire.{Tx, tx_status_frame, tx_byte, tx_u16, tx_u32, tx_error, tx_debug}
use fpga_postgresql_hash_joi.Host.Transport.{Act, ◌>>=◌, pure, Transport, Delivers, recv_exact}
use fpga_postgresql_hash_joi.Host.Decoder.{
  byte_at, read_u16, Frame, Decoder, read_status, recv_payload, recv_frame, ack_frame,
  require_count, recv_status, keep_decoder, recv_error, status_frame, error_frame, read_u32,
  recv_debug, debug_frame,
}
use fpga_postgresql_hash_joi.RoundTrip.Receive.{Gets, recv_exact-Gets}

-- The data bytes of transfers.
abbrev pub bytes : Tx → List ℕ
bytes [] = []
bytes (b ∷ tx) = b.byte ∷ bytes tx

pub bytes-append : (xs ys : Tx) → bytes (xs ++ ys) ≡ bytes xs ++ bytes ys
bytes-append [] ys = refl
bytes-append (x ∷ xs) ys = ap (λ r. x.byte ∷ r) (bytes-append xs ys)

module _ {T : Type 0} (tr : Transport T) (d : Delivers tr) where
  bind-Gets :
      {A B : Type 0} (m : Act T A) (f : A → Act T B) (a : A) (b : B) (t : T) (mid rest : List ℕ)
      → Gets tr d a mid (m t)
      → ((t' : T) → d.pending t' ≡ mid → Gets tr d b rest (f a t'))
      → Gets tr d b rest ((m >>= f) t)
  bind-Gets m f a b t mid rest (t', run, p) next = rw (run, ◌>>=◌) (next t' p)

  recv_one-Gets :
      (t : T) (b : ℕ) (rest : List ℕ)
      → d.pending t ≡ b ∷ rest
      → Gets tr d (b ∷ []) rest (tr.recv 1 t)
  recv_one-Gets t b rest p =
      let r = d.receives 1 t in
      let one : r.count ≡ 1 = omega (arith, r.few, r.some_if (λ h. cc (sym p ∙ h)) (omega arith)) in
      (r.after, r.returns ∙ rw (one, p), r.left ∙ rw (one, p))

  -- The header of a frame is read, and then its payload.
  pub recv_frame-Gets :
      (dec dec' : Decoder) (f : Frame) (t : T) (msg c₀ c₁ : ℕ) (body rest : List ℕ)
      → d.pending t ≡ msg ∷ c₀ ∷ c₁ ∷ body
      → ((t' : T)
          → d.pending t' ≡ body
          → Gets tr d (f, dec') rest (recv_payload tr dec msg (c₀ + c₁ * 2 ^ 8) t'))
      → Gets tr d (f, dec') rest (recv_frame tr dec t)
  unfolding recv_frame read_u16 byte_at
  recv_frame-Gets dec dec' f t msg c₀ c₁ body rest p payload =
      bind-Gets (tr.recv 1) _ (msg ∷ []) _ t (c₀ ∷ c₁ ∷ body) rest (recv_one-Gets t msg _ p)
        λ t' p'.
          bind-Gets (recv_exact tr 2) _ (c₀ ∷ c₁ ∷ []) _ t' body rest
            (recv_exact-Gets tr d 2 t' (c₀ ∷ c₁ ∷ []) body refl p') payload

  -- A payload of a known length, with the count that it must have.
  pub sized-Gets :
      (frame : List ℕ → Frame) (n : ℕ) (t : T) (bs rest : List ℕ)
      → length bs ≡ n
      → d.pending t ≡ bs ++ rest
      → Gets tr d (frame bs) rest ((recv_exact tr n >>= λ buf. pure (frame buf)) t)
  sized-Gets frame n t bs rest len p =
      bind-Gets (recv_exact tr n) _ bs _ t rest rest (recv_exact-Gets tr d n t bs rest len p)
        λ t' p'. (t', refl, p')

  pub keep-Gets :
      (dec : Decoder) (m : Act T Frame) (f : Frame) (t : T) (rest : List ℕ)
      → Gets tr d f rest (m t)
      → Gets tr d (f, dec) rest (keep_decoder tr dec m t)
  unfolding keep_decoder
  keep-Gets dec m f t rest (t', run, p) = (t', rw (run, ◌>>=◌), p)

  recv_status-Gets :
      (msg : MsgType) (frame : StatusPayload → Frame) (t : T) (bs rest : List ℕ)
      → length bs ≡ 12
      → d.pending t ≡ bs ++ rest
      → Gets tr d (frame (read_status bs)) rest (recv_status tr msg frame 1 t)
  unfolding recv_status require_count
  recv_status-Gets msg frame t bs rest len p =
      sized-Gets (λ buf. frame (read_status buf)) 12 t bs rest len p

abbrev pub status_payload : Phase → ℕ → ℕ → ℕ → ℕ → StatusPayload
status_payload phase processed matched credit id = record {
  phase = phase_byte phase;
  session_id = id;
  credit = credit;
  rows_processed = processed;
  rows_matched = matched;
}

-- The fields of a status frame as their widths hold them.
abbrev pub IsStatus : ℕ → ℕ → ℕ → ℕ → Type 0
IsStatus processed matched credit id =
    (processed < 2 ^ 32) × (matched < 2 ^ 32) × (credit < 2 ^ 16) × (id < 2 ^ 8)

abbrev status_bytes : Phase → ℕ → ℕ → ℕ → ℕ → List ℕ
status_bytes phase processed matched credit id = bytes (
    tx_byte (phase_byte phase) false
    ++ (tx_byte id false
        ++ (tx_u16 credit false ++ (tx_u32 processed false ++ tx_u32 matched true))))

phase_byte-lt : (phase : Phase) → phase_byte phase < 2 ^ 8
phase_byte-lt phase = ground arith

read_status-status_bytes :
    (phase : Phase) (processed matched credit id : ℕ)
    → IsStatus processed matched credit id
    → read_status (status_bytes phase processed matched credit id)
      ≡ status_payload phase processed matched credit id
unfolding read_status tx_byte tx_u16 tx_u32
read_status-status_bytes phase processed matched credit id h = ground (arith, phase_byte-lt phase)

module _ {T : Type 0} (tr : Transport T) (d : Delivers tr) (dec : Decoder) (t : T) (rest : List ℕ)
    (phase : Phase) (processed matched credit id : ℕ) where
  -- An ACK frame is decoded to the values that the kernel put in it.
  pub recv_frame-ack :
      IsStatus processed matched credit id
      → d.pending t ≡ bytes (tx_status_frame ack phase processed matched credit id) ++ rest
      → Gets tr d
          (ack_frame (status_payload phase processed matched credit id), dec)
          rest
          (recv_frame tr dec t)
  unfolding tx_status_frame recv_payload
  recv_frame-ack h p = rw (← read_status-status_bytes phase processed matched credit id h) (
      recv_frame-Gets tr d dec dec _ t _ _ _ _ rest p λ t' p'.
        keep-Gets tr d dec _ _ t' rest (recv_status-Gets tr d ack ack_frame t' _ rest refl p'))

  -- A STATUS frame is decoded to the values that the kernel put in it.
  pub recv_frame-status :
      IsStatus processed matched credit id
      → d.pending t ≡ bytes (tx_status_frame status phase processed matched credit id) ++ rest
      → Gets tr d
          (status_frame (status_payload phase processed matched credit id), dec)
          rest
          (recv_frame tr dec t)
  unfolding tx_status_frame recv_payload
  recv_frame-status h p = rw (← read_status-status_bytes phase processed matched credit id h) (
      recv_frame-Gets tr d dec dec _ t _ _ _ _ rest p λ t' p'.
        keep-Gets tr d dec _ _ t' rest
          (recv_status-Gets tr d status status_frame t' _ rest refl p'))

error_byte-lt : (err : FpgaError) → u8 (error_byte err) ≡ error_byte err
error_byte-lt err = ground arith

module _ {T : Type 0} (tr : Transport T) (d : Delivers tr) (dec : Decoder) (t : T)
    (rest : List ℕ) where
  -- An ERROR frame is decoded to the error code that the kernel sent.
  pub recv_frame-error :
      (err : FpgaError)
      → d.pending t ≡ bytes (tx_error err) ++ rest
      → Gets tr d (error_frame (error_byte err), dec) rest (recv_frame tr dec t)
  unfolding tx_error recv_payload recv_error require_count byte_at
  recv_frame-error err p = rw (← error_byte-lt err) (
      recv_frame-Gets tr d dec dec _ t _ _ _ _ rest p λ t' p'. keep-Gets tr d dec _ _ t' rest (
        sized-Gets tr d (λ buf. error_frame (byte_at buf 0)) 1 t' (u8 (error_byte err) ∷ []) rest
          refl p'))

abbrev debug_bytes : ℕ → ℕ → ℕ → List ℕ
debug_bytes level code value =
    bytes (tx_byte level false ++ (tx_u16 code false ++ tx_u32 value true))

read-debug_bytes :
    (level code value : ℕ)
    → level < 2 ^ 8
    → code < 2 ^ 16
    → value < 2 ^ 32
    → debug_frame
        (byte_at (debug_bytes level code value) 0)
        (read_u16 (debug_bytes level code value) 1)
        (read_u32 (debug_bytes level code value) 3)
      ≡ debug_frame level code value
unfolding byte_at read_u16 read_u32 tx_byte tx_u16 tx_u32
read-debug_bytes level code value h i j = ground arith

module _ {T : Type 0} (tr : Transport T) (d : Delivers tr) (dec : Decoder) (t : T)
    (rest : List ℕ) where
  -- A DEBUG frame is decoded to the values that the kernel put in it, if they are of its widths.
  pub recv_frame-debug :
      (level code value : ℕ)
      → level < 2 ^ 8
      → code < 2 ^ 16
      → value < 2 ^ 32
      → d.pending t ≡ bytes (tx_debug level code value) ++ rest
      → Gets tr d (debug_frame level code value, dec) rest (recv_frame tr dec t)
  unfolding tx_debug recv_payload recv_debug require_count
  recv_frame-debug level code value h i j p = rw (← read-debug_bytes level code value h i j) (
      recv_frame-Gets tr d dec dec _ t _ _ _ _ rest p λ t' p'. keep-Gets tr d dec _ _ t' rest (
        sized-Gets tr d (λ buf. debug_frame (byte_at buf 0) (read_u16 buf 1) (read_u32 buf 3)) 7 t'
          (debug_bytes level code value) rest refl p'))
