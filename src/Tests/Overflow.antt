-- ===== src/Tests/Overflow.antt =====
-- A session whose seventeen inner rows have one key, of which the table takes sixteen.
use fpga_postgresql_hash_joi.Types.{key_int64, InputTuple}
use fpga_postgresql_hash_joi.Base.{ℕ, zero, suc, List, [], ◌∷◌}
use fpga_postgresql_hash_joi.Linear
use fpga_postgresql_hash_joi.Kernel.State.{State}
use fpga_postgresql_hash_joi.RoundTrip.Numbers.{sent}
use fpga_postgresql_hash_joi.Join.Run.{session_bytes}
use fpga_postgresql_hash_joi.Tests.Table.{tid_of, dirty}
use fpga_postgresql_hash_joi.Tests.Board.{powered}

abbrev same_row : InputTuple
same_row = record { key = 7; tid = tid_of 1 1 }

abbrev copies : ℕ → List InputTuple
copies zero = []
copies (suc n) = same_row ∷ copies n

abbrev ready : State
ready = record powered { ht = dirty; rx = sent (session_bytes key_int64 9 (copies 17 ∷ []) []) [] }
