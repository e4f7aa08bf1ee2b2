-- ===== src/Tests/Watchdog.antt =====
-- A host that is silent for as long as the limit of the watchdog.

use fpga_postgresql_hash_joi.Base.{◌≡◌, some, [], ◌∷◌}
use fpga_postgresql_hash_joi.Kernel.State.{rx_watchdog_cycles, receive_guarded, running}
use fpga_postgresql_hash_joi.Kernel.Configure.{idle_reset}
use fpga_postgresql_hash_joi.Kernel.Watchdog.{silence, given_up, receive_guarded-watchdog}
use fpga_postgresql_hash_joi.Tests.Board.{quiet, powered}

receive_guarded-watchdog_example :
    receive_guarded quiet 9
      (record powered { rx = silence rx_watchdog_cycles (some 8 ∷ []) })
      (λ msg k. running (idle_reset quiet k))
    ≡ running (given_up quiet 9 (some 8 ∷ []) powered)
receive_guarded-watchdog_example =
    receive_guarded-watchdog quiet 9 rx_watchdog_cycles 8 powered []
      (λ msg k. running (idle_reset quiet k))
