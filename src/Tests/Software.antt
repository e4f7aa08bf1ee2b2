-- ===== src/Tests/Software.antt =====
-- Runs over the software kernel.

use fpga_postgresql_hash_joi.Types.{InputTuple, ResultPair}
use fpga_postgresql_hash_joi.Base.{◌≡◌, refl, ◌≢◌, false, Option, some, List, []}
use fpga_postgresql_hash_joi.Host.Transport.{Result, ok, throw, recv_exact, timeout}
use fpga_postgresql_hash_joi.Host.Metrics.{fresh_metrics}
use fpga_postgresql_hash_joi.Host.Decoder.{
  read_status, recv_status, keep_decoder, recv_payload, recv_frame,
}
use fpga_postgresql_hash_joi.Host.Client.{effective_config, FpgaClient}
use fpga_postgresql_hash_joi.Host.Client.Session.{run_hash_join}
use fpga_postgresql_hash_joi.Host.Software.{
  SoftwareKernel, fresh_software, software_recv, software_kernel, software_send,
}
use fpga_postgresql_hash_joi.Host.Software.Stalls.{run_hash_join-stalls}
use fpga_postgresql_hash_joi.Tests.Frames.{fresh_decoder}
use fpga_postgresql_hash_joi.Tests.Client.{client_config}
use fpga_postgresql_hash_joi.Tests.Run.{one_inner, one_outer, one_config, state_after}

abbrev software_client : FpgaClient SoftwareKernel
software_client = record {
  transport = fresh_software;
  decoder = fresh_decoder;
  credit = 0;
  active_session_id = 0;
  metrics = fresh_metrics;
  session_counter = 0;
  cleanup_enabled = false;
}

abbrev software_run :
    List InputTuple → Result (FpgaClient SoftwareKernel) (Option (List ResultPair))
software_run inner =
    run_hash_join software_kernel (effective_config client_config) 9 one_config inner one_outer
      software_client

-- Without an inner row the run waits for a final status in vain.
no_rows : software_run [] ≡ throw timeout (state_after (software_run []))
unfolding run_hash_join effective_config software_send recv_frame software_recv recv_exact
    recv_payload keep_decoder recv_status read_status
no_rows = refl

run_hash_join-stalls_example : software_run one_inner ≢ ok (some []) software_client
run_hash_join-stalls_example =
    run_hash_join-stalls client_config 9 one_config one_inner one_outer software_client
      software_client (some []) refl ([], tt, refl)
