-- ===== src/Adapter/Reports.antt =====
-- What a run of the adapter reports.

use fpga_postgresql_hash_joi.Types.{ht_max_rows, algorithm_a, InputTuple, ResultPair}
use fpga_postgresql_hash_joi.Base.{
  ℕ, ◌≡◌, refl, ◌≢◌, ◌⊎◌, inl, inr, Bool, true, false, not, ◌||◌, none, some, List, [], ltb, ◌==◌,
  if◌then◌else◌, length, if_cases,
}
use fpga_postgresql_hash_joi.Host.Transport.{Exception, Result, Transport, ok, throw}
use fpga_postgresql_hash_joi.Host.Metrics.{HostSessionMetrics, fresh_metrics}
use fpga_postgresql_hash_joi.Host.Udp.{Socket, Network}
use fpga_postgresql_hash_joi.Adapter.{parse_algorithm, grace_ddr_layout_fits, dedup_inner}
use fpga_postgresql_hash_joi.Adapter.Run.{
  AdapterState, AdapterCall, copy_host_metrics, Ran, run_transport, hand_over, refuse,
  fpga_adapter_run, fpga_adapter_last_error, fpga_adapter_last_host_metrics, inner_exceeds_table,
  layout_exceeded, returned, failed,
}

module _ {S U : Type 0} (net : Network S) (sys : Socket S) (uart : Transport U)
    (open_uart : List ℕ → ℕ → Exception ⊎ U) (malloc_ok : ℕ → Bool)
    (waiting drain_fuel rounds : ℕ) where
  abbrev ran_of : AdapterCall → ℕ → ℕ → Ran
  ran_of call algorithm begun =
      run_transport net sys uart open_uart malloc_ok waiting drain_fuel rounds call
        (record { algorithm = algorithm; key_type = call.key_type }) (dedup_inner call.inner_rows)
        begun

  -- A success brings the pairs of the client's run, over the rows with different keys, and its
  -- metrics; a failure brings no pairs, and an error; what escapes is an unknown algorithm.
  abbrev pub Reports :
      AdapterCall → AdapterState → Result AdapterState (Bool × List ResultPair) → Type 0
  Reports call s (ok (true, pairs) s') =
      (algorithm : ℕ) × (m : HostSessionMetrics) × (begun : ℕ) × (parse_algorithm
          call.algorithm_name
        ≡ inr algorithm)
      × (ran_of call algorithm s.sessions_begun ≡ returned pairs m begun)
      × (fpga_adapter_last_host_metrics s' ≡ some (copy_host_metrics m fresh_metrics))
      × (s'.sessions_begun ≡ begun)
  Reports call s (ok (false, pairs) s') = (pairs ≡ []) × (fpga_adapter_last_error s' ≢ none)
  Reports call s (throw e s') =
      (parse_algorithm call.algorithm_name ≡ inl e)
      × (fpga_adapter_last_error s' ≡ fpga_adapter_last_error s)
      × (fpga_adapter_last_host_metrics s' ≡ none)

  hand_over-Reports :
      (call : AdapterCall) (s : AdapterState) (algorithm : ℕ) (ran : Ran)
      → parse_algorithm call.algorithm_name ≡ inr algorithm
      → ran_of call algorithm s.sessions_begun ≡ ran
      → Reports call s (
          hand_over net sys uart open_uart malloc_ok waiting drain_fuel rounds ran
            (record s { have_last_metrics = false; last_metrics = fresh_metrics }))
  unfolding hand_over
  hand_over-Reports call s algorithm (failed e begun) named run = (refl, λ h. cc h)
  hand_over-Reports call s algorithm (returned pairs m begun) named run =
      if_cases (Reports call s) (length pairs == 0 || malloc_ok (length pairs)) _ _
        (λ _. (algorithm, m, begun, named, run, refl, refl)) λ _. (refl, λ h. cc h)

  -- How a run of the adapter ends, for any transport: it reports success with the pairs and the
  -- metrics of the client's run over the inner rows with different keys, or failure with no pairs
  -- and an error, or an exception leaves it, which is that of an unknown algorithm's name; then the
  -- last error is the one before.
  pub fpga_adapter_run-Reports :
      (call : AdapterCall) (s : AdapterState)
      → Reports call s
          (fpga_adapter_run net sys uart open_uart malloc_ok waiting drain_fuel rounds call s)
  unfolding fpga_adapter_run refuse
  fpga_adapter_run-Reports call s = through (parse_algorithm call.algorithm_name) refl
    where
      s₀ : AdapterState
      s₀ = record s { have_last_metrics = false; last_metrics = fresh_metrics }

      inner : List InputTuple
      inner = dedup_inner call.inner_rows

      through :
          (p : Exception ⊎ ℕ)
          → parse_algorithm call.algorithm_name ≡ p
          → Reports call s (elim p [
            | inl e ↦ throw e s₀
            | inr algorithm ↦
                if algorithm == algorithm_a
                then (if ltb ht_max_rows (length inner)
                    then refuse net sys uart open_uart malloc_ok waiting drain_fuel rounds
                        inner_exceeds_table s₀
                    else hand_over net sys uart open_uart malloc_ok waiting drain_fuel rounds
                        (ran_of call algorithm s.sessions_begun)
                        s₀)
                else if not (grace_ddr_layout_fits (length inner) (length call.outer_rows))
                then refuse net sys uart open_uart malloc_ok waiting drain_fuel rounds
                    layout_exceeded s₀
                else hand_over net sys uart open_uart malloc_ok waiting drain_fuel rounds
                    (ran_of call algorithm s.sessions_begun)
                    s₀
          ])
      through (inl e) named = (named, refl, refl)
      through (inr algorithm) named =
          let handed = hand_over-Reports call s algorithm _ named refl in
          if_cases (Reports call s) (algorithm == algorithm_a) _ _
            (λ _.
              if_cases (Reports call s) (ltb ht_max_rows (length inner)) _ _
                (λ _. (refl, λ h. cc h)) (λ _. handed))
            (λ _.
              if_cases (Reports call s)
                (not (grace_ddr_layout_fits (length inner) (length call.outer_rows))) _ _
                (λ _. (refl, λ h. cc h)) (λ _. handed))
