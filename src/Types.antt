-- ===== src/Types.antt =====
-- src/hash_join_types.hpp: the constants, enumerations and records of the protocol.
-- An enumeration that is read from the wire by a cast may hold any byte: there its enumerators
-- are numbers (`KeyType`, `AlgorithmType`). The others are data, with the byte of each enumerator.
use fpga_postgresql_hash_joi.Base.{ℕ, ◌*◌, ◌/◌, ◌^◌}

abbrev pub ht_log2_slots : ℕ
ht_log2_slots = 14

abbrev pub ht_slots : ℕ
ht_slots = 2 ^ ht_log2_slots

abbrev pub ht_max_rows : ℕ
ht_max_rows = ht_slots * 3 / 4

abbrev pub max_probe_dist : ℕ
max_probe_dist = 16

abbrev pub rx_buf_tuples : ℕ
rx_buf_tuples = 256

abbrev pub rx_credit_tuples : ℕ
rx_credit_tuples = 512

abbrev pub tx_buf_size : ℕ
tx_buf_size = 256

abbrev pub result_flush_pairs : ℕ
result_flush_pairs = 118

abbrev pub ack_batch_frames : ℕ
ack_batch_frames = 2

abbrev pub grace_words_per_tuple : ℕ
grace_words_per_tuple = 2

abbrev pub grace_max_k : ℕ
grace_max_k = 256

abbrev pub grace_inner_slot_words : ℕ
grace_inner_slot_words = ht_max_rows * grace_words_per_tuple

abbrev pub grace_outer_area_base : ℕ
grace_outer_area_base = grace_max_k * grace_inner_slot_words

abbrev pub grace_ddr2_total_words : ℕ
grace_ddr2_total_words = 16 * 1024 * 1024

abbrev pub grace_max_inner_rows : ℕ
grace_max_inner_rows = grace_max_k * ht_max_rows

abbrev pub algorithm_a : ℕ
algorithm_a = 0

abbrev pub algorithm_b : ℕ
algorithm_b = 1

pub data MsgType : Type 0 where
  configure inner_data outer_data result ack status error reset debug timing : MsgType

abbrev pub msg_byte : MsgType → ℕ
msg_byte configure = 0x01
msg_byte inner_data = 0x02
msg_byte outer_data = 0x03
msg_byte result = 0x04
msg_byte ack = 0x05
msg_byte status = 0x06
msg_byte error = 0x07
msg_byte reset = 0x08
msg_byte debug = 0x09
msg_byte timing = 0x0A

abbrev pub timing_summary_version : ℕ
timing_summary_version = 1

abbrev pub timing_summary_count : ℕ
timing_summary_count = 1

abbrev pub timing_summary_bytes : ℕ
timing_summary_bytes = 200

abbrev pub timing_flag_estimated_cycles : ℕ
timing_flag_estimated_cycles = 0x0001

abbrev pub timing_flag_rtl_stream_cycles : ℕ
timing_flag_rtl_stream_cycles = 0x0002

abbrev pub timing_default_clock_hz : ℕ
timing_default_clock_hz = 70_000_000

pub data FpgaError : Type 0 where
  no_error overflow invalid_cmd bad_state ddr_fault duplicate_key : FpgaError

abbrev pub error_byte : FpgaError → ℕ
error_byte no_error = 0x00
error_byte overflow = 0x01
error_byte invalid_cmd = 0x02
error_byte bad_state = 0x03
error_byte ddr_fault = 0x04
error_byte duplicate_key = 0x05

pub data Phase : Type 0 where
  idle building probing done : Phase

abbrev pub phase_byte : Phase → ℕ
phase_byte idle = 0
phase_byte building = 1
phase_byte probing = 2
phase_byte done = 3

abbrev pub key_int32 : ℕ
key_int32 = 0x01

abbrev pub key_int64 : ℕ
key_int64 = 0x02

pub record Tid : Type 0 where
  pub blkno : ℕ
  pub offno : ℕ

-- `FpgaTuple32`, `FpgaTuple64` and the host's `InputTuple`; the key is an int64_t.
pub record InputTuple : Type 0 where
  pub key : ℕ
  pub tid : Tid

pub record ResultPair : Type 0 where
  pub inner_tid : Tid
  pub outer_tid : Tid

pub record ConfigurePayload : Type 0 where
  pub algorithm : ℕ
  pub key_type : ℕ
  pub rx_buf_slots : ℕ
  pub inner_count : ℕ
  pub outer_count : ℕ
  pub session_id : ℕ

-- `StatusPayload`, which the host reads into `AckInfo`.
pub record StatusPayload : Type 0 where
  pub phase : ℕ
  pub session_id : ℕ
  pub credit : ℕ
  pub rows_processed : ℕ
  pub rows_matched : ℕ
