-- ===== src/Join/Fail/Run.antt =====
-- A session of algorithm A whose inner rows do not fit answers with an overflow.
use fpga_postgresql_hash_joi.Linear
use fpga_postgresql_hash_joi.Kernel.State.{State}
