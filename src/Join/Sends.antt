-- ===== src/Join/Sends.antt =====
-- What the client sends: the rows of each side in frames, one after the other.

use fpga_postgresql_hash_joi.Base.{
  ℕ, ◌≤◌, ◌<◌, ◌≡◌, refl, sym, ap, ◌∙◌, List, [], ◌∷◌, ◌++◌, arith, length, take, drop, All,
  length-take, take-append-drop,
}
use fpga_postgresql_hash_joi.Types.{rx_buf_tuples, MsgType, InputTuple, ResultPair}
use mathlib.Core.Path.{subst}
use mathlib.Core.List.{append_assoc, append-nil}
use Prim.Native.Nat.{min}
use fpga_postgresql_hash_joi.Host.Transport.{
  Transport, Act, Result, ok, throw, ◌>>=◌, ◌>>◌, pure, raise,
}
use fpga_postgresql_hash_joi.Host.Outcome.{OnOk, OnOk-mono, Always, Always-mono}
use fpga_postgresql_hash_joi.Host.Keeps.{collect_until_ack-Waited}
use fpga_postgresql_hash_joi.Host.Serializer.{serialize_batch}
use fpga_postgresql_hash_joi.Host.Metrics.{count_sent}
use fpga_postgresql_hash_joi.Host.Client.{AckWaitKind, FpgaClient, collect_until_ack, send_counted}
use fpga_postgresql_hash_joi.Join.Frames.{rows_of, frames_bytes}
pub mod Rounds
pub mod Probe

-- A transport that keeps what was sent: a send adds its bytes, and a read adds none.
pub record Records {T : Type 0} (tr : Transport T) : Type 0 where
  pub sent : T → List ℕ
  pub sends : (bs : List ℕ) (t : T) → OnOk (tr.send bs t) (λ _ t'. sent t' ≡ sent t ++ bs)
  pub hears : (n : ℕ) (t : T) → Always (tr.recv n t) (λ t'. sent t' ≡ sent t)

-- A frame's rows: at least one, as many as the kernel's buffer holds.
abbrev pub IsFrame : List InputTuple → Type 0
IsFrame ts = (0 < length ts) × (length ts ≤ rx_buf_tuples)

rows_of-append : (xs ys : List (List InputTuple)) → rows_of (xs ++ ys) ≡ rows_of xs ++ rows_of ys
rows_of-append [] ys = refl
rows_of-append (x ∷ xs) ys =
    ap (λ r. x ++ r) (rows_of-append xs ys) ∙ sym (append_assoc x (rows_of xs) (rows_of ys))

frames_bytes-append :
    (key_type : ℕ) (type : MsgType) (xs ys : List (List InputTuple))
    → frames_bytes key_type type (xs ++ ys)
      ≡ frames_bytes key_type type xs ++ frames_bytes key_type type ys
frames_bytes-append key_type type [] ys = refl
frames_bytes-append key_type type (x ∷ xs) ys =
    ap (λ r. serialize_batch key_type type x rx_buf_tuples ++ r)
      (frames_bytes-append key_type type xs ys)
    ∙ sym (
        append_assoc (serialize_batch key_type type x rx_buf_tuples) (frames_bytes key_type type xs)
          _)

All-snoc :
    (xs : List (List InputTuple)) (x : List InputTuple)
    → All IsFrame xs
    → IsFrame x
    → All IsFrame (xs ++ (x ∷ []))
All-snoc [] x h k = (k, tt)
All-snoc (y ∷ xs) x (h, hs) k = (h, All-snoc xs x hs k)

pub serialize_batch-limit :
    (key_type : ℕ) (type : MsgType) (ts : List InputTuple)
    → length ts ≤ rx_buf_tuples
    → serialize_batch key_type type ts (length ts) ≡ serialize_batch key_type type ts rx_buf_tuples
unfolding serialize_batch
serialize_batch-limit key_type type ts few =
    let same : min (length ts) (length ts) ≡ min (length ts) rx_buf_tuples = omega arith in
    rw same refl

module _ {T : Type 0} {tr : Transport T} (r : Records tr) (key_type : ℕ) where
  -- The rows before `left` are sent, in frames.
  pub record Sent (type : MsgType) (rows : List InputTuple) (before : List ℕ)
      (left : List InputTuple) (c : FpgaClient T) : Type 0 where
    pub batches : List (List InputTuple)
    pub frames : All IsFrame batches
    pub split : rows ≡ rows_of batches ++ left
    pub sent_lem : r.sent c.transport ≡ before ++ frames_bytes key_type type batches

  -- One frame more.
  pub Sent-batch :
      (type : MsgType) (rows : List InputTuple) (before : List ℕ) (left : List InputTuple)
      (batch : ℕ) (c c' : FpgaClient T)
      → Sent type rows before left c
      → 0 < batch
      → batch ≤ rx_buf_tuples
      → batch ≤ length left
      → r.sent c'.transport
        ≡ r.sent c.transport ++ serialize_batch key_type type (take batch left) batch
      → Sent type rows before (drop batch left) c'
  Sent-batch type rows before left batch c c' s pos small few e =
      let size : length (take batch left) ≡ batch = length-take batch left few in
      let frame : serialize_batch key_type type (take batch left) batch
          ≡ serialize_batch key_type type (take batch left) rx_buf_tuples =
        ap (λ n. serialize_batch key_type type (take batch left) n) (sym size)
        ∙ serialize_batch-limit key_type type (take batch left) (omega (arith, size)) in
      record {
        batches = s.batches ++ (take batch left ∷ []);
        frames =
            All-snoc s.batches (take batch left) s.frames
              (omega (arith, size), omega (arith, size));
        split =
            s.split
            ∙ ap (λ l. rows_of s.batches ++ l) (sym (take-append-drop batch left))
            ∙ sym (append_assoc (rows_of s.batches) (take batch left) (drop batch left))
            ∙ ap (λ l. l ++ drop batch left)
                (ap (λ l. rows_of s.batches ++ l) (sym (append-nil (take batch left)))
                  ∙ sym (rows_of-append s.batches (take batch left ∷ [])));
        sent_lem =
            e
            ∙ ap (λ b. b ++ serialize_batch key_type type (take batch left) batch) s.sent_lem
            ∙ append_assoc before (frames_bytes key_type type s.batches) _
            ∙ ap (λ b. before ++ b)
                (ap (λ b. frames_bytes key_type type s.batches ++ b)
                    (frame
                      ∙ sym (
                          append-nil
                            (serialize_batch key_type type (take batch left) rx_buf_tuples)))
                  ∙ sym (frames_bytes-append key_type type s.batches (take batch left ∷ [])));
      }

  pub send_counted-sent :
      (bytes : List ℕ) (msg : MsgType) (c : FpgaClient T)
      → OnOk (send_counted tr bytes msg c) (λ _ c'.
        (r.sent c'.transport ≡ r.sent c.transport ++ bytes)
        × (c'.cleanup_enabled ≡ c.cleanup_enabled))
  unfolding send_counted
  send_counted-sent bytes msg c = through (tr.send bytes c.transport) (r.sends bytes c.transport)
    where
      through :
          (q : Result T (Unit {0}))
          → OnOk q (λ _ t'. r.sent t' ≡ r.sent c.transport ++ bytes)
          → OnOk
              (elim q as (λ _. Result (FpgaClient T) (Unit {0})) [
                | ok _ t ↦
                    ok tt (record c { transport = t; metrics = count_sent bytes msg c.metrics })
                | throw e t ↦ throw e (record c { transport = t })
              ])
              (λ _ c'.
                (r.sent c'.transport ≡ r.sent c.transport ++ bytes)
                × (c'.cleanup_enabled ≡ c.cleanup_enabled))
      through (ok _ t) h = (h, refl)
      through (throw e t) h = tt

  pub collect_until_ack-sent :
      (n : ℕ) (kind : AckWaitKind) (out : List ResultPair) (c : FpgaClient T)
      → Always (collect_until_ack tr n kind out c) (λ c'.
        (r.sent c'.transport ≡ r.sent c.transport) × (c'.cleanup_enabled ≡ c.cleanup_enabled))
  collect_until_ack-sent n kind out c =
      Always-mono (collect_until_ack tr n kind out c) _ _ (λ c' w. (w.0, w.3))
        (collect_until_ack-Waited tr (λ t. r.sent t ≡ r.sent c.transport)
          (λ m t h. Always-mono (tr.recv m t) _ _ (λ t' same. same ∙ h) (r.hears m t)) n kind out c
          refl)
