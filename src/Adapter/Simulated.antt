-- ===== src/Adapter/Simulated.antt =====
-- A call of the adapter in simulation.

use fpga_postgresql_hash_joi.Types.{InputTuple, ResultPair}
use fpga_postgresql_hash_joi.Base.{
  ℕ, ◌≡◌, refl, sym, ◌∙◌, ◌≢◌, ◌⊎◌, Bool, true, false, Option, none, some, List, [], ◌∷◌,
}
use mathlib.Core.Path.{subst}
use fpga_postgresql_hash_joi.Host.Transport.{Exception, Result, Transport, timeout, ok, throw}
use fpga_postgresql_hash_joi.Host.Metrics.{HostSessionMetrics}
use fpga_postgresql_hash_joi.Host.Client.{ClientConfig, effective_config, FpgaClient}
use fpga_postgresql_hash_joi.Host.Client.Run.{is_empty}
use fpga_postgresql_hash_joi.Host.Client.Session.{run_hash_join}
use fpga_postgresql_hash_joi.Host.Serializer.{JoinConfig}
use fpga_postgresql_hash_joi.Host.Udp.{Socket, Network}
use fpga_postgresql_hash_joi.Host.Software.{SoftwareKernel, fresh_software, software_kernel}
use fpga_postgresql_hash_joi.Host.Software.Stalls.{run_hash_join-stalls}
use fpga_postgresql_hash_joi.Adapter.{dedup_rows, dedup_inner}
use fpga_postgresql_hash_joi.Adapter.Run.{
  AdapterState, AdapterCall, adapter_client_config, Ran, run_client, run_transport,
  fpga_adapter_run, returned, failed, new_client,
}
use fpga_postgresql_hash_joi.Adapter.Reports.{Reports, fpga_adapter_run-Reports}

-- The client returns nothing over the software kernel.
run_client-stalls :
    (cfg : ClientConfig) (waiting : ℕ) (config : JoinConfig) (inner outer : List InputTuple)
    (begun n : ℕ) (pairs : List ResultPair) (m : HostSessionMetrics)
    → is_empty inner ≡ false
    → run_client software_kernel fresh_software cfg waiting config inner outer begun
      ≢ returned pairs m n
unfolding run_client
run_client-stalls cfg waiting config inner outer begun n pairs m some_rows =
    through
      (run_hash_join software_kernel (effective_config cfg) waiting config inner outer
        (new_client fresh_software begun))
      λ found c'.
        run_hash_join-stalls cfg waiting config inner outer (new_client fresh_software begun) c'
          found some_rows ([], tt, unfold new_client in refl)
  where
    through :
        (r : Result (FpgaClient SoftwareKernel) (Option (List ResultPair)))
        → ((found : Option (List ResultPair)) (c' : FpgaClient SoftwareKernel) → r ≢ ok found c')
        → elim r as (λ _. Ran) [
          | ok (some ps) c ↦ returned ps c.metrics c.session_counter
          | ok none c ↦ failed timeout c.session_counter
          | throw e c ↦ failed e c.session_counter
        ]
          ≢ returned pairs m n
    through (ok (some ps) c) never e = never (some ps) c refl
    through (ok none c) never e = cc e
    through (throw x c) never e = cc e

some_left :
    (inner : List InputTuple) → is_empty inner ≡ false → is_empty (dedup_inner inner) ≡ false
unfolding dedup_inner dedup_rows
some_left [] h = h
some_left (t ∷ ts) h = refl

module _ {S U : Type 0} (net : Network S) (sys : Socket S) (uart : Transport U)
    (open_uart : List ℕ → ℕ → Exception ⊎ U) (malloc_ok : ℕ → Bool)
    (waiting drain_fuel rounds : ℕ) where
  -- A call in simulation, with at least one inner row, never reports success.
  pub fpga_adapter_run-simulated :
      (call : AdapterCall) (s s' : AdapterState) (pairs : List ResultPair)
      → call.use_simulation ≡ true
      → is_empty call.inner_rows ≡ false
      → fpga_adapter_run net sys uart open_uart malloc_ok waiting drain_fuel rounds call s
        ≢ ok (true, pairs) s'
  fpga_adapter_run-simulated call s s' pairs simulated some_rows e =
      let (algorithm, m, begun, _, ran, _, _) =
        subst (Reports net sys uart open_uart malloc_ok waiting drain_fuel rounds call s) e (
          fpga_adapter_run-Reports net sys uart open_uart malloc_ok waiting drain_fuel rounds call
            s) in
      let config : JoinConfig = record { algorithm = algorithm; key_type = call.key_type } in
      run_client-stalls (adapter_client_config call) waiting config (dedup_inner call.inner_rows)
        call.outer_rows s.sessions_begun begun pairs m (some_left call.inner_rows some_rows)
        (sym (over_simulation call config (dedup_inner call.inner_rows) s.sessions_begun simulated)
          ∙ ran)
    where
      over_simulation :
          (c : AdapterCall) (config : JoinConfig) (inner : List InputTuple) (n : ℕ)
          → c.use_simulation ≡ true
          → run_transport net sys uart open_uart malloc_ok waiting drain_fuel rounds c config inner
              n
            ≡ run_client software_kernel fresh_software
                (adapter_client_config c)
                waiting
                config
                inner
                c.outer_rows
                n
      over_simulation c config inner n on = unfold run_transport in rw on refl
