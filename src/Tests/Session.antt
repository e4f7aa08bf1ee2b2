-- ===== src/Tests/Session.antt =====
-- A session of algorithm A: three inner rows and two outer rows, one of which has matches.
use fpga_postgresql_hash_joi.Types.{key_int64, InputTuple, ResultPair}
use fpga_postgresql_hash_joi.Base.{◌≡◌, refl, ap, ◌↔◌, inl, inr, some, List, [], ◌∷◌, arith, All}
use fpga_postgresql_hash_joi.Linear
use fpga_postgresql_hash_joi.Linear.{LinearHashTable, build, build_all, table_runs}
use fpga_postgresql_hash_joi.Kernel.State.{State, running}
use fpga_postgresql_hash_joi.Kernel.Run.{run_session}
use fpga_postgresql_hash_joi.RoundTrip.Numbers.{sent}
use fpga_postgresql_hash_joi.RoundTrip.ToBoard.{IsTuple}
use fpga_postgresql_hash_joi.Join.Frames.{Runs}
use fpga_postgresql_hash_joi.Join.Session.{Answers}
use fpga_postgresql_hash_joi.Join.Output.{Emits}
use fpga_postgresql_hash_joi.Join.Relation.{In, HasDistinctKeys, Joins, run_session-Joins}
use fpga_postgresql_hash_joi.Join.Run.{session_bytes, run_session-Answers, IsJoin}
use fpga_postgresql_hash_joi.Tests.Table.{tid_of, rows, dirty, built, build_all-rows}
use fpga_postgresql_hash_joi.Tests.Board.{quiet, powered}

abbrev outer_rows : List InputTuple
outer_rows = record { key = 8; tid = tid_of 2 1 } ∷ record { key = 7; tid = tid_of 2 2 } ∷ []

-- A board with an old table, to which a whole session has arrived, and one byte more.
abbrev ready : State
ready = record powered {
  ht = dirty;
  rx = sent (session_bytes key_int64 9 (rows ∷ []) (outer_rows ∷ [])) (some 8 ∷ []);
}

ready-IsJoin : IsJoin key_int64 9 (rows ∷ []) (outer_rows ∷ []) (Linear.reset dirty) built
ready-IsJoin = record {
  configurable = omega arith;
  inner_batches = ((omega arith, omega arith, rows-IsTuple), tt);
  outer_batches = ((omega arith, omega arith, outer_rows-IsTuple), tt);
  frames = omega arith;
  built = build_all-rows;
}
  where
    rows-IsTuple : All (IsTuple key_int64) rows
    rows-IsTuple = ground arith

    outer_rows-IsTuple : All (IsTuple key_int64) outer_rows
    outer_rows-IsTuple = ground arith

run_session-Answers_example :
    Runs
      (run_session quiet ready)
      (Answers ready (record { inner_tid = tid_of 1 1; outer_tid = tid_of 2 2 } ∷ []) (some 8 ∷ []))
run_session-Answers_example =
    run_session-Answers quiet ready key_int64 9 (rows ∷ []) (outer_rows ∷ []) (some 8 ∷ []) built
      refl ready-IsJoin

abbrev pub two_rows : List InputTuple
two_rows = record { key = 7; tid = tid_of 1 1 } ∷ record { key = 9; tid = tid_of 1 2 } ∷ []

abbrev two_built : LinearHashTable
two_built =
    (Linear.build (Linear.build (Linear.reset dirty) 7 (tid_of 1 1)).table 9 (tid_of 1 2)).table

build_all-two_rows : Linear.build_all (Linear.reset dirty) two_rows ≡ some two_built
unfolding table_runs
build_all-two_rows = refl

two_rows-HasDistinctKeys : HasDistinctKeys two_rows
two_rows-HasDistinctKeys = (
  λ u m. elim m [ inl e ↦ λ k. ground (arith, ap (λ t. t.key) e) | inr no_one ↦ absurd no_one ],
  (λ u m. absurd m, tt),
)

abbrev ready_two : State
ready_two = record powered {
  ht = dirty;
  rx = sent (session_bytes key_int64 9 (two_rows ∷ []) (outer_rows ∷ [])) (some 8 ∷ []);
}

ready_two-IsJoin :
    IsJoin key_int64 9 (two_rows ∷ []) (outer_rows ∷ []) (Linear.reset dirty) two_built
ready_two-IsJoin = record {
  configurable = omega arith;
  inner_batches = ((omega arith, omega arith, two_rows-IsTuple), tt);
  outer_batches = ready-IsJoin.outer_batches;
  frames = omega arith;
  built = build_all-two_rows;
}
  where
    two_rows-IsTuple : All (IsTuple key_int64) two_rows
    two_rows-IsTuple = ground arith

run_session-Joins_example :
    (k' : State) × (pairs : List ResultPair) × (run_session quiet ready_two ≡ running k')
    × Emits [] pairs k'.tx
    × ((p : ResultPair) → In p pairs ↔ Joins two_rows outer_rows p)
run_session-Joins_example =
    run_session-Joins quiet ready_two key_int64 9 (two_rows ∷ []) (outer_rows ∷ []) (some 8 ∷ [])
      two_built refl ready_two-IsJoin two_rows-HasDistinctKeys
