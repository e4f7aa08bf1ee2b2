-- ===== src/Tests/Table.antt =====
-- The hash table on three rows, two of them with one key.

use fpga_postgresql_hash_joi.Types.{
  ht_max_rows, max_probe_dist, Tid, InputTuple, no_error, overflow,
}
use fpga_postgresql_hash_joi.Base.{ℕ, ◌≤◌, ◌<◌, ◌≡◌, refl, ◌≢◌, ◌↔◌, ◌⊎◌, none, some, List, [], ◌∷◌}
use fpga_postgresql_hash_joi.Linear.{LinearHashTable, table_runs, build, probe, build_all}
use fpga_postgresql_hash_joi.Linear
use fpga_postgresql_hash_joi.Linear.Probe.{IsProbed, home}
use fpga_postgresql_hash_joi.Linear.Refine.{
  reset-IsProbed, build-IsProbed, probe-build, probe-build_all, build_overflow, row_count-build_all,
}

abbrev pub tid_of : ℕ → ℕ → Tid
tid_of b o = record { blkno = b; offno = o }

abbrev pub rows : List InputTuple
rows =
    record { key = 7; tid = tid_of 1 1 }
    ∷ record { key = 9; tid = tid_of 1 2 }
    ∷ record { key = 7; tid = tid_of 1 3 }
    ∷ []

abbrev pub dirty : LinearHashTable
dirty = record {
  ht_key = λ s. 7;
  ht_blk = λ s. 5;
  ht_off = λ s. 5;
  ht_valid = λ s. 1;
  row_count = 12_288;
}

abbrev pub built : LinearHashTable
built =
    (Linear.build
      (Linear.build (Linear.build (Linear.reset dirty) 7 (tid_of 1 1)).table 9 (tid_of 1 2)).table 7
      (tid_of 1 3)).table

pub build_all-rows : Linear.build_all (Linear.reset dirty) rows ≡ some built
unfolding table_runs
build_all-rows = refl

probe-built :
    ((Linear.probe built 7).found ≡ some (tid_of 1 1)) × ((Linear.probe built 8).found ≡ none)
unfolding table_runs
probe-built = (refl, refl)

first_build : (Linear.build (Linear.reset dirty) 7 (tid_of 1 1)).err ≡ no_error
unfolding table_runs
first_build = refl

probe-build_all_example : (Linear.probe built 7).found ≡ some (tid_of 1 1)
probe-build_all_example = probe-build_all dirty built rows 7 build_all-rows

probe-build_example :
    (Linear.probe (Linear.build (Linear.reset dirty) 7 (tid_of 1 1)).table 9).found
    ≡ (Linear.probe (Linear.reset dirty) 9).found
probe-build_example =
    probe-build (Linear.reset dirty) 7 (tid_of 1 1) 9 (reset-IsProbed dirty) first_build

build-IsProbed_example : IsProbed (Linear.build (Linear.reset dirty) 7 (tid_of 1 1)).table
build-IsProbed_example = build-IsProbed (Linear.reset dirty) 7 (tid_of 1 1) (reset-IsProbed dirty)

build_overflow_example :
    (((Linear.build dirty 7 (tid_of 2 2)).err ≡ overflow)
      ↔ ((ht_max_rows ≤ 12_288) ⊎ ((d : ℕ) → d < max_probe_dist → dirty.ht_valid (home 7 d) ≢ 0)))
    × ((Linear.build dirty 7 (tid_of 2 2)).err ≢ no_error
        → (Linear.build dirty 7 (tid_of 2 2)).table ≡ dirty)
build_overflow_example = build_overflow dirty 7 (tid_of 2 2)

row_count-build_all_example : (built.row_count ≡ 3) × (3 ≤ ht_max_rows)
row_count-build_all_example = row_count-build_all dirty built rows build_all-rows
