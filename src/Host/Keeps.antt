-- ===== src/Host/Keeps.antt =====
-- What every `recv` of a transport keeps, the reads of the decoder and the client keep.

use fpga_postgresql_hash_joi.Base.{
  ℕ, zero, suc, ◌-◌, ◌*◌, ◌≡◌, refl, ◌∙◌, Bool, true, false, List, [], ◌∷◌, ◌++◌, ltb, ◌==◌,
  if◌then◌else◌, length,
}
use fpga_postgresql_hash_joi.Types.{
  tx_buf_size, MsgType, msg_byte, timing_summary_bytes, ResultPair, StatusPayload, result, ack,
  status, error, debug,
}
use fpga_postgresql_hash_joi.Host.Transport.{
  Result, Act, ◌>>=◌, ◌>>◌, pure, raise, Transport, ok, throw, recv_rounds, recv_exact,
  partial_frame, bad_count, oversized_result,
}
use fpga_postgresql_hash_joi.Host.Outcome.{Always, Always-bind, Always-mono, Always-if}
use fpga_postgresql_hash_joi.Host.Decoder.{
  Frame, Decoder, require_count, recv_results, recv_status, recv_error, recv_debug, recv_timing,
  keep_decoder, recv_payload, recv_frame, ack_frame, status_frame, read_u16, no_frame, result_frame,
  error_frame, debug_frame, timing_frame,
}
use fpga_postgresql_hash_joi.Host.Metrics.{count_received}
use fpga_postgresql_hash_joi.Host.Client.{
  AckWaitKind, FpgaClient, collect_until_ack, on_frame, is_current,
}

module _ {T : Type 0} (tr : Transport T) (P : T → Type 0)
    (hears : (n : ℕ) (t : T) → P t → Always (tr.recv n t) P) where
  abbrev Keeps : {A : Type 0} → Act T A → Type 0
  Keeps m = (t : T) → P t → Always (m t) P

  bind-Keeps :
      {A B : Type 0} (m : Act T A) (f : A → Act T B)
      → Keeps m
      → ((a : A) → Keeps (f a))
      → Keeps (m >>= f)
  bind-Keeps m f first next t h = Always-bind m f t P P (λ t' h'. h') (first t h) next

  if_Keeps :
      {A : Type 0} (b : Bool) (x y : Act T A) → Keeps x → Keeps y → Keeps (if b then x else y)
  if_Keeps true x y f g = f
  if_Keeps false x y f g = g

  recv_rounds-Keeps : (fuel n : ℕ) → Keeps (recv_rounds tr fuel n)
  unfolding recv_rounds
  recv_rounds-Keeps fuel zero t h = h
  recv_rounds-Keeps zero (suc n) t h = h
  recv_rounds-Keeps (suc fuel) (suc n) t h =
      through (tr.recv (suc n) t) (hears (suc n) t h) (recv_rounds-Keeps fuel)
    where
      more :
          (b : ℕ) (bs : List ℕ) (r : Result T (List ℕ))
          → Always r P
          → Always
              (elim r as (λ _. Result T (List ℕ)) [
                | ok more t'' ↦ ok (b ∷ bs ++ more) t''
                | throw e t'' ↦ throw e t''
              ])
              P
      more b bs (ok rest t') k = k
      more b bs (throw e t') k = k

      through :
          (r : Result T (List ℕ))
          → Always r P
          → ((m : ℕ) → Keeps (recv_rounds tr fuel m))
          → Always
              (elim r as (λ _. Result T (List ℕ)) [
                | throw e t' ↦ throw e t'
                | ok [] t' ↦ throw partial_frame t'
                | ok (b ∷ bs) t' ↦ elim (recv_rounds tr fuel (suc n - length (b ∷ bs)) t') [
                  | ok more t'' ↦ ok (b ∷ bs ++ more) t''
                  | throw e t'' ↦ throw e t''
                ]
              ])
              P
      through (throw e t') k rest = k
      through (ok [] t') k rest = k
      through (ok (b ∷ bs) t') k rest = more b bs _ (rest (suc n - length (b ∷ bs)) t' k)

  recv_exact-Keeps : (n : ℕ) → Keeps (recv_exact tr n)
  unfolding recv_exact
  recv_exact-Keeps n = recv_rounds-Keeps n n

  -- A payload is read whole, behind a test of its count.
  checked-Keeps :
      {A : Type 0} (msg : MsgType) (count n : ℕ) (f : List ℕ → A)
      → Keeps (require_count tr msg count >> (recv_exact tr n >>= λ buf. pure (f buf)))
  unfolding require_count
  checked-Keeps msg count n f =
      bind-Keeps (require_count tr msg count) _
        (if_Keeps (count == 1) (pure tt) (raise (bad_count msg count)) (λ t h. h) (λ t h. h))
        λ _. bind-Keeps (recv_exact tr n) _ (recv_exact-Keeps n) λ buf t h. h

  keep_decoder-Keeps : (dec : Decoder) (m : Act T Frame) → Keeps m → Keeps (keep_decoder tr dec m)
  unfolding keep_decoder
  keep_decoder-Keeps dec m k = bind-Keeps m _ k λ f t h. h

  recv_results-Keeps : (count : ℕ) → Keeps (recv_results tr count)
  unfolding recv_results
  recv_results-Keeps count =
      if_Keeps (ltb tx_buf_size count) (raise (oversized_result count)) _ (λ t h. h)
        (bind-Keeps (recv_exact tr (count * 12)) _ (recv_exact-Keeps (count * 12)) λ buf t h. h)

  recv_payload-Keeps : (dec : Decoder) (msg count : ℕ) → Keeps (recv_payload tr dec msg count)
  unfolding recv_payload recv_status recv_error recv_debug recv_timing
  recv_payload-Keeps dec msg count =
      if_Keeps (msg == msg_byte result) _ _
        (keep_decoder-Keeps dec (recv_results tr count) (recv_results-Keeps count))
        (if_Keeps (msg == msg_byte ack) _ _
          (keep_decoder-Keeps dec (recv_status tr ack ack_frame count)
            (checked-Keeps ack count 12 _))
          (if_Keeps (msg == msg_byte status) _ _
            (keep_decoder-Keeps dec (recv_status tr status status_frame count)
              (checked-Keeps status count 12 _))
            (if_Keeps (msg == msg_byte error) _ _
              (keep_decoder-Keeps dec (recv_error tr count) (checked-Keeps error count 1 _))
              (if_Keeps (msg == msg_byte debug) _ _
                (keep_decoder-Keeps dec (recv_debug tr count) (checked-Keeps debug count 7 _))
                (if_Keeps (msg == msg_byte MsgType.timing) _ _
                  (checked-Keeps MsgType.timing count timing_summary_bytes _) (λ t h. h))))))

  recv_frame-Keeps : (dec : Decoder) → Keeps (recv_frame tr dec)
  unfolding recv_frame
  recv_frame-Keeps dec = bind-Keeps (tr.recv 1) _ (hears 1) byte_keeps
    where
      byte_keeps :
          (bs : List ℕ)
          → Keeps (elim bs as (λ _. Act T (Frame × Decoder)) [
            | [] ↦ pure (no_frame, dec)
            | msg ∷ _ ↦ (recv_exact tr 2 >>= λ c. recv_payload tr dec msg (read_u16 c 0))
          ])
      byte_keeps [] = λ t h. h
      byte_keeps (msg ∷ bs) =
          bind-Keeps (recv_exact tr 2) _ (recv_exact-Keeps 2)
            λ c. recv_payload-Keeps dec msg (read_u16 c 0)

  -- What waiting for an acknowledgement keeps: the property of the transport, and the client's own
  -- session and credit.
  abbrev pub Waited : FpgaClient T → FpgaClient T → Type 0
  Waited c c' =
      P c'.transport
      × (c'.active_session_id ≡ c.active_session_id)
      × (c'.credit ≡ c.credit)
      × (c'.cleanup_enabled ≡ c.cleanup_enabled)

  Waited-trans : (c c₁ c₂ : FpgaClient T) → Waited c c₁ → Waited c₁ c₂ → Waited c c₂
  Waited-trans c c₁ c₂ (p, a, b, d) (q, a', b', d') = (q, a' ∙ a, b' ∙ b, d' ∙ d)

  onward :
      (again : List ResultPair → Act (FpgaClient T) (StatusPayload × List ResultPair))
      (out : List ResultPair) (c c' : FpgaClient T)
      → Waited c c'
      → ((out' : List ResultPair) → P c'.transport → Always (again out' c') (λ c''. Waited c' c''))
      → Always (again out c') (λ c''. Waited c c'')
  onward again out c c' w next =
      Always-mono (again out c') (λ c''. Waited c' c'') (λ c''. Waited c c'')
        (λ c'' more. Waited-trans c c' c'' w more) (next out w.0)

  on_frame-Waited :
      (again : List ResultPair → Act (FpgaClient T) (StatusPayload × List ResultPair))
      (kind : AckWaitKind) (out : List ResultPair) (f : Frame) (c c' : FpgaClient T)
      → Waited c c'
      → ((out' : List ResultPair) → P c'.transport → Always (again out' c') (λ c''. Waited c' c''))
      → Always (on_frame tr again kind out f c') (λ c''. Waited c c'')
  unfolding on_frame
  on_frame-Waited again kind out no_frame c c' w next = onward again out c c' w next
  on_frame-Waited again kind out (result_frame pairs) c c' w next =
      onward again (out ++ pairs) c c' w next
  on_frame-Waited again kind out (ack_frame s) c c' w next =
      Always-if (is_current tr kind s c') (ok (s, out) c') (again out c') (λ c''. Waited c c'')
        (λ e. w) (λ e. onward again out c c' w next)
  on_frame-Waited again kind out (status_frame s) c c' w next =
      Always-if (is_current tr kind s c') (ok (s, out) c') (again out c') (λ c''. Waited c c'')
        (λ e. w) (λ e. onward again out c c' w next)
  on_frame-Waited again kind out (error_frame e) c c' w next = w
  on_frame-Waited again kind out (debug_frame level code value) c c' w next =
      onward again out c c' w next
  on_frame-Waited again kind out timing_frame c c' w next = onward again out c c' w next

  pub collect_until_ack-Waited :
      (n : ℕ) (kind : AckWaitKind) (out : List ResultPair) (c : FpgaClient T)
      → P c.transport
      → Always (collect_until_ack tr n kind out c) (λ c'. Waited c c')
  unfolding collect_until_ack
  collect_until_ack-Waited zero kind out c h = (h, refl, refl, refl)
  collect_until_ack-Waited (suc n) kind out c h =
      read (recv_frame tr c.decoder c.transport) (recv_frame-Keeps c.decoder c.transport h)
        (λ f c' kept.
          on_frame-Waited (λ out'. collect_until_ack tr n kind out') kind out f c c' kept
            λ out' k'. collect_until_ack-Waited n kind out' c' k')
    where
      read :
          (r : Result T (Frame × Decoder))
          → Always r P
          → ((f : Frame) (c' : FpgaClient T)
              → Waited c c'
              → Always
                  (on_frame tr (λ out'. collect_until_ack tr n kind out') kind out f c')
                  (λ c'. Waited c c'))
          → Always
              (elim r as (λ _. Result (FpgaClient T) (StatusPayload × List ResultPair)) [
                | throw e t ↦ throw e (record c { transport = t })
                | ok (f, d) t ↦
                    on_frame tr
                      (λ out'. collect_until_ack tr n kind out')
                      kind
                      out
                      f
                      (record c {
                        transport = t;
                        decoder = d;
                        metrics = count_received f d c.metrics;
                      })
              ])
              (λ c'. Waited c c')
      read (throw e t) k next = (k, refl, refl, refl)
      read (ok (f, d) t) k next =
          next f (record c { transport = t; decoder = d; metrics = count_received f d c.metrics })
            (k, refl, refl, refl)
