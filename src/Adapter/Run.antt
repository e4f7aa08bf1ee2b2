-- ===== src/Adapter/Run.antt =====
-- pg/src/fpga_adapter.cpp: a run of the adapter. Sockets, the UART transport and `malloc` are
-- parameters, and the times have numbers of rounds. `AdapterHostMetrics` has the counters of the
-- client, field by field, and is the same record here.

use fpga_postgresql_hash_joi.Types.{ht_max_rows, algorithm_a, InputTuple, ResultPair}
use fpga_postgresql_hash_joi.Base.{
  ℕ, ◌⊎◌, inl, inr, Bool, true, false, not, ◌||◌, Option, none, some, List, [], ltb, ◌==◌,
  if◌then◌else◌, length,
}
use fpga_postgresql_hash_joi.Host.Transport.{
  Exception, Act, Transport, timeout, empty_device, unsupported_transport, ok, throw,
}
use fpga_postgresql_hash_joi.Host.Serializer.{JoinConfig}
use fpga_postgresql_hash_joi.Host.Metrics.{HostSessionMetrics, fresh_metrics}
use fpga_postgresql_hash_joi.Host.Client.{ClientConfig, effective_config, FpgaClient}
use fpga_postgresql_hash_joi.Host.Client.Session.{run_hash_join}
use fpga_postgresql_hash_joi.Host.Udp.{Socket, Network, open_udp, udp_transport}
use fpga_postgresql_hash_joi.Host.Software.{fresh_software, software_kernel}
use fpga_postgresql_hash_joi.Adapter.Prepare.{empty_decoder, prepare_udp_session}
use fpga_postgresql_hash_joi.Adapter.{
  name_udp, name_uart, udp_port, str_eq, or_default, parse_algorithm, parse_udp_endpoint,
  grace_ddr_layout_fits, dedup_inner,
}

-- The text of the last error.
pub data AdapterError : Type 0 where
  inner_exceeds_table layout_exceeded malloc_failed : AdapterError
  run_failed : Exception → AdapterError

-- The state of the module, with the static counter of the client's sessions.
pub record AdapterState : Type 0 where
  pub last_error : Option AdapterError
  pub last_metrics : HostSessionMetrics
  pub have_last_metrics : Bool
  pub sessions_begun : ℕ

-- The arguments of a run.
pub record AdapterCall : Type 0 where
  pub key_type : ℕ
  pub use_simulation : Bool
  pub algorithm_name : List ℕ
  pub transport_name : List ℕ
  pub device : List ℕ
  pub device_baud : ℕ
  pub max_batch_tuples : ℕ
  pub ack_window_frames : ℕ
  pub inner_rows : List InputTuple
  pub outer_rows : List InputTuple

-- The board's timing is copied only if there is one.
unfoldable pub copy_host_metrics : HostSessionMetrics → HostSessionMetrics → HostSessionMetrics
copy_host_metrics src dst = record src {
  board_timing = if src.has_board_timing then src.board_timing else dst.board_timing;
}

unfoldable pub adapter_client_config : AdapterCall → ClientConfig
adapter_client_config call = record {
  max_batch_tuples = call.max_batch_tuples;
  ack_window_frames = call.ack_window_frames;
  session_id_override = 0;
  coalesce_config_first_inner = false;
  infer_done_from_probe_ack = false;
  reset_after_run = false;
}

-- A client that is made for one run.
unfoldable pub new_client : {T : Type 0} → T → ℕ → FpgaClient T
unfolding empty_decoder fresh_metrics
new_client t begun = record {
  transport = t;
  decoder = empty_decoder;
  credit = 0;
  active_session_id = 0;
  metrics = fresh_metrics;
  session_counter = begun;
  cleanup_enabled = false;
}

-- How the client's run ends, with the session counter behind it.
pub data Ran : Type 0 where
  returned : List ResultPair → HostSessionMetrics → ℕ → Ran
  failed : Exception → ℕ → Ran

unfoldable pub run_client :
    {T : Type 0}
    → Transport T
    → T
    → ClientConfig
    → ℕ
    → JoinConfig
    → List InputTuple
    → List InputTuple
    → ℕ
    → Ran
unfolding run_hash_join effective_config new_client
run_client tr t cfg waiting config inner outer begun =
    elim (run_hash_join tr (effective_config cfg) waiting config inner outer (new_client t begun)) [
      | ok (some pairs) c ↦ returned pairs c.metrics c.session_counter
      | ok none c ↦ failed timeout c.session_counter
      | throw e c ↦ failed e c.session_counter
    ]

-- The parameters: the network and its sockets, the UART transport and how it is opened by its
-- device and its rate, whether `malloc` gives room for so many pairs, and the numbers of rounds.
module _ {S U : Type 0} (net : Network S) (sys : Socket S) (uart : Transport U)
    (open_uart : List ℕ → ℕ → Exception ⊎ U) (malloc_ok : ℕ → Bool)
    (waiting drain_fuel rounds : ℕ) where
  unfoldable pub run_udp : AdapterCall → JoinConfig → List InputTuple → ℕ → Ran
  unfolding parse_udp_endpoint open_udp prepare_udp_session run_client adapter_client_config
  run_udp call config inner begun = elim (parse_udp_endpoint call.device) [
    | inl e ↦ failed e begun
    | inr endpoint ↦ elim (open_udp net endpoint.host endpoint.port udp_port 100 1200) [
      | inl e ↦ failed e begun
      | inr (peer, t) ↦ elim (prepare_udp_session sys peer drain_fuel rounds t) [
        | throw e t' ↦ failed e begun
        | ok _ t' ↦
            run_client (udp_transport sys peer) t'
              (record (adapter_client_config call) {
                coalesce_config_first_inner = true;
                infer_done_from_probe_ack = true;
                reset_after_run = false;
              })
              waiting config inner call.outer_rows begun
      ]
    ]
  ]

  unfoldable pub run_uart : AdapterCall → JoinConfig → List InputTuple → ℕ → Ran
  unfolding run_client adapter_client_config
  run_uart call config inner begun = elim (open_uart call.device call.device_baud) [
    | inl e ↦ failed e begun
    | inr t ↦
        run_client uart t (adapter_client_config call) waiting config inner call.outer_rows begun
  ]

  -- The transport that the call asks for, and the run over it.
  unfoldable pub run_transport : AdapterCall → JoinConfig → List InputTuple → ℕ → Ran
  unfolding run_udp run_uart run_client adapter_client_config
  run_transport call config inner begun =
      let name = or_default call.transport_name name_uart in
      if call.use_simulation
      then run_client software_kernel fresh_software (adapter_client_config call) waiting config
          inner call.outer_rows begun
      else if str_eq call.device []
      then failed empty_device begun
      else if str_eq name name_udp
      then run_udp call config inner begun
      else if str_eq name name_uart
      then run_uart call config inner begun
      else failed (unsupported_transport name) begun

  -- The result and the pairs that the caller gets, with the state of the module.
  unfoldable pub hand_over : Ran → Act AdapterState (Bool × List ResultPair)
  unfolding copy_host_metrics
  hand_over (failed e begun) s =
      ok (false, []) (record s { last_error = some (run_failed e); sessions_begun = begun })
  hand_over (returned pairs m begun) s =
      let s' = record s {
        last_metrics = copy_host_metrics m s.last_metrics;
        have_last_metrics = true;
        sessions_begun = begun;
      } in
      if length pairs == 0 || malloc_ok (length pairs)
      then ok (true, pairs) s'
      else ok (false, []) (record s' { last_error = some malloc_failed })

  unfoldable pub refuse : AdapterError → Act AdapterState (Bool × List ResultPair)
  refuse e s = ok (false, []) (record s { last_error = some e })

  -- An exception of `parse_algorithm`, which stands before the `try`, leaves the function.
  unfoldable pub fpga_adapter_run : AdapterCall → Act AdapterState (Bool × List ResultPair)
  unfolding dedup_inner parse_algorithm grace_ddr_layout_fits refuse hand_over run_transport
      fresh_metrics
  fpga_adapter_run call s =
      let s₀ = record s { have_last_metrics = false; last_metrics = fresh_metrics } in
      let inner = dedup_inner call.inner_rows in
      elim (parse_algorithm call.algorithm_name) [
        | inl e ↦ throw e s₀
        | inr algorithm ↦
            let config : JoinConfig = record { algorithm = algorithm; key_type = call.key_type } in
            let ran = run_transport call config inner s₀.sessions_begun in
            if algorithm == algorithm_a
            then (if ltb ht_max_rows (length inner)
                then refuse inner_exceeds_table s₀
                else hand_over ran s₀)
            else if not (grace_ddr_layout_fits (length inner) (length call.outer_rows))
            then refuse layout_exceeded s₀
            else hand_over ran s₀
      ]

abbrev pub fpga_adapter_last_error : AdapterState → Option AdapterError
fpga_adapter_last_error s = s.last_error

abbrev pub fpga_adapter_last_host_metrics : AdapterState → Option HostSessionMetrics
fpga_adapter_last_host_metrics s = if s.have_last_metrics then some s.last_metrics else none
