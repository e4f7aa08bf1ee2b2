-- ===== src/Join/Client/Session.antt =====
-- A whole run of the client over a link to the board.
use fpga_postgresql_hash_joi.Base.Words.{add32}
use fpga_postgresql_hash_joi.Base.{ℕ, ◌≡◌, refl, sym, false, some, List, ◌==◌, if◌then◌else◌, All}
use fpga_postgresql_hash_joi.Types.{InputTuple, ResultPair}
use mathlib.Core.Path.{subst}
use fpga_postgresql_hash_joi.Host.Transport.{Transport, ok}
use fpga_postgresql_hash_joi.Host.Outcome.{OnOk-eq, OnOk-after}
use fpga_postgresql_hash_joi.Host.Serializer.{JoinConfig}
use fpga_postgresql_hash_joi.Host.Metrics.{fresh_metrics}
use fpga_postgresql_hash_joi.Host.Client.{ClientConfig, FpgaClient, effective_config}
use fpga_postgresql_hash_joi.Host.Client.Run.{next_session_id}
use fpga_postgresql_hash_joi.Host.Client.Session.{join_session, clean_up, run_hash_join}
use fpga_postgresql_hash_joi.RoundTrip.FromBoard.{bytes}
use fpga_postgresql_hash_joi.Join.Output.{BoardFrame, tx_frames}
use fpga_postgresql_hash_joi.Join.Heard.{IsHeard}
use fpga_postgresql_hash_joi.Join.Client.{Link}
use fpga_postgresql_hash_joi.Join.Client.Talk.{join_session-Converses, Converses}

-- The client at the start of its run: a session id, no credit, and fresh metrics.
abbrev pub starting : {T : Type 0} → ClientConfig → FpgaClient T → FpgaClient T
starting client_config c =
    let automatic = client_config.session_id_override == 0 in
    record c {
      credit = 0;
      active_session_id =
          if automatic
          then next_session_id c.session_counter
          else client_config.session_id_override;
      session_counter = if automatic then add32 c.session_counter 1 else c.session_counter;
      metrics = fresh_metrics;
      cleanup_enabled = client_config.reset_after_run;
    }

module _ {T : Type 0} {tr : Transport T} (l : Link tr) (client_config : ClientConfig) (waiting : ℕ)
    (config : JoinConfig) (inner outer : List InputTuple) where
  no_clean_up :
      (c : FpgaClient T)
      → c.cleanup_enabled ≡ false
      → clean_up tr (effective_config client_config) waiting c ≡ c
  unfolding clean_up
  no_clean_up c off = rw (off, clean_up) refl

  -- A whole run, over a transport on which any frames of the board have arrived, that returns: it
  -- has sent CONFIGURE with the numbers of rows, all inner rows and then the outer rows, each side
  -- in its order, in frames that the kernel's buffer holds, and perhaps the frame that asks for the
  -- last pairs and a RESET; outer rows are left out only if the board has said that it is done. The
  -- frames that wait after the build phase are those heard, those passed over behind a RESET, which
  -- are none if the client has sent no RESET, and those that still wait at the end. The results are
  -- the pairs of all frames heard, in their order, and an acknowledgement among those frames, which
  -- ends the session, counts as many. The frames have values of their widths and none is an ERROR;
  -- the client sends no RESET of its own at the end (`reset_after_run` is off).
  pub run_hash_join-Converses :
      (fs : List BoardFrame) (results : List ResultPair) (c c' : FpgaClient T)
      → client_config.reset_after_run ≡ false
      → All IsHeard fs
      → l.hears.delivers.pending c.transport ≡ bytes (tx_frames fs)
      → run_hash_join tr (effective_config client_config) waiting config inner outer c
        ≡ ok (some results) c'
      → Converses l client_config waiting config inner outer fs results
          (starting client_config c)
          c'
  unfolding run_hash_join effective_config clean_up
  run_hash_join-Converses fs results c c' off heard k run =
      let start = starting client_config c in
      let Talked = Converses l client_config waiting config inner outer fs in
      OnOk-eq (run_hash_join tr (effective_config client_config) waiting config inner outer c)
        (λ q c''. (rs : List ResultPair) → q ≡ some rs → Talked rs start c'') (some results) c'
        (OnOk-after
          (join_session tr (effective_config client_config) waiting config inner outer start)
          (clean_up tr (effective_config client_config) waiting)
          (λ q c''.
            (rs : List ResultPair)
            → q ≡ some rs
            → Talked rs start c'' × (start.cleanup_enabled ≡ false → c''.cleanup_enabled ≡ false))
          _ (join_session-Converses l client_config waiting config inner outer fs start heard k)
          λ q c'' talked rs e.
            let (t, quiet) = talked rs e in
            subst (Talked rs start) (sym (no_clean_up c'' (quiet off))) t)
        run results refl
