-- ===== src/Linear/Probe.antt =====
-- What one scan of a window of the hash table finds.
use fpga_postgresql_hash_joi.Base.{ℕ, zero, suc, ◌+◌, ◌<◌, ◌≤◌, ◌≡◌, ◌≢◌, refl, none, arith}
use fpga_postgresql_hash_joi.Types.{ht_slots, max_probe_dist}
use fpga_postgresql_hash_joi.Linear.{LinearHashTable, slot_of, slot_at, probe_loop}

pub slot_of-lt : (key : ℕ) → slot_of key < ht_slots
unfolding slot_of
slot_of-lt key = omega arith

pub slot_at-lt : (start step : ℕ) → slot_at start step < ht_slots
unfolding slot_at
slot_at-lt start step = omega arith

-- Different steps of one window are different slots.
pub slot_at-injective :
    (start d e : ℕ)
    → start < ht_slots
    → d < max_probe_dist
    → e < max_probe_dist
    → slot_at start d ≡ slot_at start e
    → d ≡ e
unfolding slot_at
slot_at-injective start d e hs hd he h = omega arith

-- The slot at distance `d` of a key's window.
abbrev pub home : ℕ → ℕ → ℕ
home q d = slot_at (slot_of q) d

-- No entry of `q` stands at distance `e` of its window.
abbrev pub Absent : LinearHashTable → ℕ → ℕ → Type 0
Absent ht q e = ht.ht_valid (home q e) ≢ 0 → ht.ht_key (home q e) ≢ q

-- An entry is reached by a scan: no hole of its window stands before it.
abbrev pub IsProbed : LinearHashTable → Type 0
IsProbed ht = (q d e : ℕ) → d < e → e < max_probe_dist → ht.ht_valid (home q d) ≡ 0 → Absent ht q e

pub probe_loop-Absent :
    (ht : LinearHashTable) (q n step : ℕ)
    → step + n ≡ max_probe_dist
    → ((e : ℕ) → step ≤ e → e < max_probe_dist → Absent ht q e)
    → (probe_loop ht q (slot_of q) n step).found ≡ none
unfolding probe_loop
probe_loop-Absent ht q zero step hn h = refl
probe_loop-Absent ht q (suc n) step hn h = ground (
  arith,
  h step (omega arith) (omega arith),
  probe_loop-Absent ht q n (step + 1) (omega arith) (λ e le. h e (omega arith)),
)
