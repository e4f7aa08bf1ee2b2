-- ===== src/Join/Output.antt =====
-- The frames that the kernel writes, and the pairs that they bring.

use fpga_postgresql_hash_joi.Types.{tx_buf_size, MsgType, Phase, ResultPair, ack, status}
use fpga_postgresql_hash_joi.Base.{
  ℕ, ◌≤◌, ◌≡◌, refl, sym, ap, ◌≢◌, ◌⊎◌, inl, inr, List, [], ◌∷◌, ◌++◌, if◌then◌else◌, Bool-cases,
  All, All-append,
}
use mathlib.Core.List.{append_assoc, append-nil}
use fpga_postgresql_hash_joi.Timing.{TimingSummary}
use fpga_postgresql_hash_joi.Wire.{Tx, tx_status_frame, tx_results, tx_timing_summary, tx_debug}
use fpga_postgresql_hash_joi.RoundTrip.Results.{buffered}
use fpga_postgresql_hash_joi.Kernel.State.{Inputs}

-- A frame to the host; a result frame has a buffer and the number of its pairs.
pub data BoardFrame : Type 0 where
  pairs_sent : (ℕ → ResultPair) → ℕ → BoardFrame
  status_sent : MsgType → Phase → ℕ → ℕ → ℕ → ℕ → BoardFrame
  debug_sent : ℕ → ℕ → ℕ → BoardFrame
  timing_sent : TimingSummary → BoardFrame

abbrev pub frame_tx : BoardFrame → Tx
frame_tx (pairs_sent buf n) = tx_results buf n
frame_tx (status_sent type phase processed matched credit id) =
    tx_status_frame type phase processed matched credit id
frame_tx (debug_sent level code value) = tx_debug level code value
frame_tx (timing_sent summary) = tx_timing_summary summary

-- The pairs of a frame. A result frame is one that the host accepts, and a status frame is an ACK
-- or a STATUS, which brings the host no pair.
abbrev pub frame_pairs : BoardFrame → List ResultPair
frame_pairs (pairs_sent buf n) = buffered buf n 0
frame_pairs _ = []

abbrev pub IsAccepted : BoardFrame → Type 0
IsAccepted (pairs_sent buf n) = (n ≢ 0) × (n ≤ tx_buf_size)
IsAccepted (status_sent type phase processed matched credit id) = (type ≡ ack) ⊎ (type ≡ status)
IsAccepted _ = Unit

abbrev pub tx_frames : List BoardFrame → Tx
tx_frames [] = []
tx_frames (f ∷ fs) = frame_tx f ++ tx_frames fs

abbrev pub pairs_of : List BoardFrame → List ResultPair
pairs_of [] = []
pairs_of (f ∷ fs) = frame_pairs f ++ pairs_of fs

-- The output grows from `before` to `after` by frames that bring the pairs, in their order.
pub record Emits (before : Tx) (pairs : List ResultPair) (after : Tx) : Type 0 where
  pub frames : List BoardFrame
  pub accepted : All IsAccepted frames
  pub tx_lem : after ≡ before ++ tx_frames frames
  pub pairs_lem : pairs_of frames ≡ pairs

pub tx_frames-append :
    (fs gs : List BoardFrame) → tx_frames (fs ++ gs) ≡ tx_frames fs ++ tx_frames gs
tx_frames-append [] gs = refl
tx_frames-append (f ∷ fs) gs = rw (tx_frames-append fs gs, append_assoc) refl

pairs_of-append : (fs gs : List BoardFrame) → pairs_of (fs ++ gs) ≡ pairs_of fs ++ pairs_of gs
pairs_of-append [] gs = refl
pairs_of-append (f ∷ fs) gs = rw (pairs_of-append fs gs, append_assoc) refl

pub Emits-none : (a : Tx) → Emits a [] a
Emits-none a = record { frames = []; accepted = tt; tx_lem = sym (append-nil a); pairs_lem = refl }

pub Emits-frame :
    (f : BoardFrame) (a : Tx) → IsAccepted f → Emits a (frame_pairs f) (a ++ frame_tx f)
Emits-frame f a h = record {
  frames = f ∷ [];
  accepted = (h, tt);
  tx_lem = ap (λ r. a ++ r) (sym (append-nil (frame_tx f)));
  pairs_lem = append-nil (frame_pairs f);
}

pub Emits-trans :
    {a b c : Tx} {ps qs : List ResultPair} → Emits a ps b → Emits b qs c → Emits a (ps ++ qs) c
Emits-trans {a} m n = record {
  frames = m.frames ++ n.frames;
  accepted = All-append IsAccepted m.frames n.frames m.accepted n.accepted;
  tx_lem =
      rw (n.tx_lem, m.tx_lem, tx_frames-append m.frames n.frames)
        (append_assoc a (tx_frames m.frames) (tx_frames n.frames));
  pairs_lem = rw (pairs_of-append m.frames n.frames, m.pairs_lem, n.pairs_lem) refl;
}

pub Emits-debug :
    (io : Inputs) (level code value : ℕ) (a : Tx)
    → Emits a [] (a ++ (if io.debugging then tx_debug level code value else []))
Emits-debug io level code value a = elim (Bool-cases io.debugging) [
  | inl on ↦ rw on (Emits-frame (debug_sent level code value) a tt)
  | inr off ↦ rw (off, append-nil) (Emits-none a)
]
