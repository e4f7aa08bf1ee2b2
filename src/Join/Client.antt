-- ===== src/Join/Client.antt =====
-- A run of the client over a link to the board: what it has sent, heard and returned.
use fpga_postgresql_hash_joi.Base.Words.{u32}
use fpga_postgresql_hash_joi.Base.{
  ℕ, ◌+◌, ◌≡◌, ◌⊎◌, Bool, true, false, some, List, [], ◌++◌, if◌then◌else◌, length, All,
}
use fpga_postgresql_hash_joi.Types.{
  phase_byte, InputTuple, ResultPair, StatusPayload, inner_data, outer_data, reset, done,
}
use mathlib.Core.List.{append-nil}
use fpga_postgresql_hash_joi.Host.Transport.{Transport, Delivers, Result, Act, ok, throw, timeout}
use fpga_postgresql_hash_joi.Host.Serializer.{JoinConfig, serialize_configure}
use fpga_postgresql_hash_joi.Host.Client.{ClientConfig, FpgaClient, send_counted}
use fpga_postgresql_hash_joi.Host.Client.Session.{
  probe_end_frame, reset_frame, is_final_probe_ack, configure_board, await_reset,
}
use fpga_postgresql_hash_joi.Host.Client.Run.{Sending, build_rounds}
use fpga_postgresql_hash_joi.RoundTrip.FromBoard.{bytes}
use fpga_postgresql_hash_joi.Join.Output.{BoardFrame, pairs_of, tx_frames}
use fpga_postgresql_hash_joi.Join.Frames.{rows_of, frames_bytes}
use fpga_postgresql_hash_joi.Join.Sends.{Records, IsFrame}
use fpga_postgresql_hash_joi.Join.Heard.{Hears, Says}
pub mod Finish
pub mod Closing
pub mod Verdict
pub mod Probe
pub mod Configure
pub mod Talk
pub mod Session

-- A transport that keeps what was sent, and on which the board's bytes have arrived.
pub record Link {T : Type 0} (tr : Transport T) : Type 0 where
  pub records : Records tr
  pub hears : Hears tr

-- What may follow the outer rows: the frame that asks for the last pairs, and a RESET.
abbrev pub ending : Bool → Bool → List ℕ
ending asked resets =
    (if asked then probe_end_frame else []) ++ (if resets then reset_frame else [])

module _ {T : Type 0} {tr : Transport T} (l : Link tr) where
  -- The bytes that a run sends: CONFIGURE with the numbers of rows, the inner rows in frames, the
  -- outer rows in frames, and the ending.
  pub record SendsAll (config : JoinConfig) (inner outer : List InputTuple) (id : ℕ)
      (unsent : List InputTuple) (c c' : FpgaClient T) : Type 0 where
    pub inner_frames : List (List InputTuple)
    pub outer_frames : List (List InputTuple)
    pub inner_sizes : All IsFrame inner_frames
    pub outer_sizes : All IsFrame outer_frames
    pub inner_lem : inner ≡ rows_of inner_frames
    pub outer_lem : outer ≡ rows_of outer_frames ++ unsent
    pub asked : Bool
    pub resets : Bool
    pub sent_lem :
        l.records.sent c'.transport
        ≡ l.records.sent c.transport
          ++ (serialize_configure config (u32 (length inner)) (u32 (length outer)) id
              ++ (frames_bytes config.key_type inner_data inner_frames
                  ++ (frames_bytes config.key_type outer_data outer_frames ++ ending asked resets)))

  -- The end of a run with a RESET: it is sent when the frames of `tail` and `rest` still wait, and
  -- those of `tail` are passed over while its answer is awaited.
  pub record ResetFrom (cfg : ClientConfig) (waiting : ℕ) (tail rest : List BoardFrame)
      (c' : FpgaClient T) : Type 0 where
    pub closing : FpgaClient T
    pub told : FpgaClient T
    pub waits_lem : l.hears.delivers.pending closing.transport ≡ bytes (tx_frames (tail ++ rest))
    pub reset_lem : send_counted tr reset_frame reset closing ≡ ok tt told
    pub await_lem :
        await_reset tr cfg waiting 8 (record told { cleanup_enabled = false }) ≡ ok tt c'

  -- Frames are passed over only behind a RESET.
  abbrev pub Closes :
      ClientConfig → ℕ → Bool → List BoardFrame → List BoardFrame → FpgaClient T → Type 0
  Closes cfg waiting resets tail rest c' =
      ((resets ≡ false) × (tail ≡ [])) ⊎ ((resets ≡ true) × ResetFrom cfg waiting tail rest c')

  -- What a run from `start` to `c'` has heard of the frames `fs`, which wait at its start: after its
  -- CONFIGURE and its build phase the frames from `heard` on wait, and at its end those of `rest`.
  -- The pairs of `heard` are the results; one of `heard` is the acknowledgement that ends the
  -- session and counts them. Frames are passed over only behind a RESET.
  pub record Concludes (cfg : ClientConfig) (waiting : ℕ) (config : JoinConfig)
      (inner outer : List InputTuple) (fs : List BoardFrame) (results : List ResultPair)
      (resets : Bool) (start c' : FpgaClient T) : Type 0 where
    pub configured : FpgaClient T
    pub announced : Sending
    pub configure_lem :
        configure_board tr cfg waiting config inner (length outer) start ≡ ok announced configured
    pub built : FpgaClient T
    pub build_lem :
        build_rounds tr cfg waiting config.key_type (length inner + 1) announced configured
        ≡ ok (some tt) built
    pub earlier : List BoardFrame
    pub heard : List BoardFrame
    pub tail : List BoardFrame
    pub rest : List BoardFrame
    pub frames_lem : fs ≡ earlier ++ (heard ++ (tail ++ rest))
    pub built_lem :
        l.hears.delivers.pending built.transport ≡ bytes (tx_frames (heard ++ (tail ++ rest)))
    pub left_lem : l.hears.delivers.pending c'.transport ≡ bytes (tx_frames rest)
    pub closes : Closes cfg waiting resets tail rest c'
    pub pairs_lem : results ≡ pairs_of heard
    pub final : StatusPayload
    pub says : Says final heard
    pub matched_lem : final.rows_matched ≡ length results
    pub over :
        (final.phase ≡ phase_byte done)
        ⊎ (is_final_probe_ack cfg config (length outer) final results ≡ true)
