-- ===== src/Tests/Adapter.antt =====
-- The adapter on concrete calls.

use fpga_postgresql_hash_joi.Types.{algorithm_a, key_int32, InputTuple, ResultPair}
use fpga_postgresql_hash_joi.Base.{
  ℕ, ◌≡◌, refl, ◌≢◌, ◌⊎◌, inl, inr, Bool, true, false, not, none, List, [], ◌∷◌, arith,
}
use fpga_postgresql_hash_joi.Host.Transport.{
  Exception, Result, bad_port, bad_host, unsupported_algorithm, ok,
}
use fpga_postgresql_hash_joi.Host.Metrics.{fresh_metrics}
use fpga_postgresql_hash_joi.Host.Udp.{Network}
use fpga_postgresql_hash_joi.Join.Result.{join_rows}
use fpga_postgresql_hash_joi.Join.Relation.{HasDistinctKeys}
use fpga_postgresql_hash_joi.Kernel.Configure.{check_limits}
use fpga_postgresql_hash_joi.Adapter.{
  parse_algorithm, parse_udp_endpoint, dedup_inner, grace_ddr_layout_fits,
}
use fpga_postgresql_hash_joi.Adapter.Run.{AdapterState, AdapterCall, fpga_adapter_run}
use fpga_postgresql_hash_joi.Adapter.Dedup.{dedup_inner-HasDistinctKeys}
use fpga_postgresql_hash_joi.Adapter.Fits.{grace_ddr_layout_fits-check_limits}
use fpga_postgresql_hash_joi.Adapter.Simulated.{fpga_adapter_run-simulated}
use fpga_postgresql_hash_joi.Adapter.Endpoint.{Parsed, parse_udp_endpoint-Parsed}
use fpga_postgresql_hash_joi.Adapter.Reports.{Reports, fpga_adapter_run-Reports}
use fpga_postgresql_hash_joi.Tests.Table.{tid_of}
use fpga_postgresql_hash_joi.Tests.Run.{Wire, wire, one_inner, one_outer, idle_client, one_pair}
use fpga_postgresql_hash_joi.Tests.Places.{announced_session}
use fpga_postgresql_hash_joi.Tests.Udp.{board_addr, Wires, socket_of}

-- "linear" is algorithm A.
linear_is_a : parse_algorithm (108 ∷ 105 ∷ 110 ∷ 101 ∷ 97 ∷ 114 ∷ []) ≡ inr algorithm_a
unfolding parse_algorithm
linear_is_a = refl

unknown_name : parse_algorithm (122 ∷ []) ≡ inl (unsupported_algorithm (122 ∷ []))
unfolding parse_algorithm
unknown_name = refl

-- "h:80", "h:", "h:70000" and ":80".
endpoint :
    parse_udp_endpoint (104 ∷ 58 ∷ 56 ∷ 48 ∷ []) ≡ inr (record { host = 104 ∷ []; port = 80 })
unfolding parse_udp_endpoint
endpoint = refl

no_digits :
    parse_udp_endpoint (104 ∷ 58 ∷ []) ≡ inr (record { host = 104 ∷ 58 ∷ []; port = 50_000 })
unfolding parse_udp_endpoint
no_digits = refl

large_port : parse_udp_endpoint (104 ∷ 58 ∷ 55 ∷ 48 ∷ 48 ∷ 48 ∷ 48 ∷ []) ≡ inl bad_port
unfolding parse_udp_endpoint
large_port = refl

no_host : parse_udp_endpoint (58 ∷ 56 ∷ 48 ∷ []) ≡ inl bad_host
unfolding parse_udp_endpoint
no_host = refl

abbrev twice : List InputTuple
twice =
    record { key = 7; tid = tid_of 1 1 }
    ∷ record { key = 7; tid = tid_of 3 3 }
    ∷ record { key = 8; tid = tid_of 4 4 }
    ∷ []

first_kept :
    dedup_inner twice
    ≡ record { key = 7; tid = tid_of 1 1 } ∷ record { key = 8; tid = tid_of 4 4 } ∷ []
unfolding dedup_inner
first_kept = refl

dedup_inner-HasDistinctKeys_example :
    HasDistinctKeys (dedup_inner twice)
    × (join_rows (dedup_inner twice) one_outer ≡ join_rows twice one_outer)
dedup_inner-HasDistinctKeys_example = dedup_inner-HasDistinctKeys twice one_outer

abbrev no_network : Network Wires
no_network = record {
  getaddrinfo = λ host port. inr board_addr;
  open_socket = inr (record { coming = []; sent_off = [] });
  bind_port = λ port s. inr s;
}

abbrev uart_call : AdapterCall
uart_call = record {
  key_type = key_int32;
  use_simulation = false;
  algorithm_name = [];
  transport_name = [];
  device = 116 ∷ [];
  device_baud = 115_200;
  max_batch_tuples = 256;
  ack_window_frames = 2;
  inner_rows = one_inner;
  outer_rows = one_outer;
}

abbrev idle_adapter : AdapterState
idle_adapter = record {
  last_error = none;
  last_metrics = fresh_metrics;
  have_last_metrics = false;
  sessions_begun = 0;
}

abbrev open_link : List ℕ → ℕ → Exception ⊎ Wire
open_link device baud = inr idle_client.transport

-- The whole run, over the link whose board has answered in advance.
abbrev adapter_ran : Result AdapterState (Bool × List ResultPair)
adapter_ran =
    fpga_adapter_run no_network (socket_of board_addr) wire open_link (λ n. true) 9 9 9 uart_call
      idle_adapter

fpga_adapter_run-Reports_example :
    Reports no_network
      (socket_of board_addr)
      wire
      open_link
      (λ n. true)
      9
      9
      9
      uart_call
      idle_adapter
      adapter_ran
fpga_adapter_run-Reports_example =
    fpga_adapter_run-Reports no_network (socket_of board_addr) wire open_link (λ n. true) 9 9 9
      uart_call idle_adapter

grace_ddr_layout_fits-check_limits_example :
    grace_ddr_layout_fits 20_000 50_000 ≡ not (check_limits announced_session).session_done
grace_ddr_layout_fits-check_limits_example =
    grace_ddr_layout_fits-check_limits announced_session refl refl (omega arith)

-- "h:80", by the theorem.
parse_udp_endpoint-Parsed_example :
    Parsed (104 ∷ []) 80 (parse_udp_endpoint (104 ∷ 58 ∷ 56 ∷ 48 ∷ []))
parse_udp_endpoint-Parsed_example = parse_udp_endpoint-Parsed (104 ∷ []) (48 ∷ []) 56 refl

abbrev simulated_call : AdapterCall
simulated_call = record uart_call { use_simulation = true }

fpga_adapter_run-simulated_example :
    fpga_adapter_run no_network
      (socket_of board_addr)
      wire
      open_link
      (λ n. true)
      9
      9
      9
      simulated_call
      idle_adapter
    ≢ ok (true, one_pair ∷ []) idle_adapter
fpga_adapter_run-simulated_example =
    fpga_adapter_run-simulated no_network (socket_of board_addr) wire open_link (λ n. true) 9 9 9
      simulated_call idle_adapter idle_adapter (one_pair ∷ []) refl refl
