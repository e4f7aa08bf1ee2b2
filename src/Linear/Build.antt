-- ===== src/Linear/Build.antt =====
-- What one build does to the hash table, and what probes find afterwards.
use mathlib.Core.Option.{or_else}
use native.Mathlib.Decide.{ℕ_discrete}
use fpga_postgresql_hash_joi.Base.{
  ℕ, zero, suc, ◌+◌, ◌<◌, ◌≤◌, ◌≡◌, ◌≢◌, ◌⊎◌, inl, inr, refl, none, some, true, arith, ◌==◌, ltb,
  leb, Bool-cases,
}
use fpga_postgresql_hash_joi.Types.{ht_max_rows, max_probe_dist, Tid, no_error, overflow}
use fpga_postgresql_hash_joi.Linear.{
  LinearHashTable, slot_of, store, build_loop, build, BuildResult, probe_loop,
}
use fpga_postgresql_hash_joi.Linear.Probe.{
  slot_of-lt, slot_at-injective, home, IsProbed, probe_loop-Absent,
}

-- The first hole of the window of `k` is at distance `e`, and the entry goes there.
pub record Inserts (ht : LinearHashTable) (k : ℕ) (t : Tid) (r : BuildResult) : Type 0 where
  pub dist : ℕ
  pub near : dist < max_probe_dist
  pub before : (d : ℕ) → d < dist → ht.ht_valid (home k d) ≢ 0
  pub hole : ht.ht_valid (home k dist) ≡ 0
  pub steps_lem : r.steps ≡ dist + 1
  pub table_lem : r.table ≡ store ht (home k dist) k t
  pub err_lem : r.err ≡ no_error

-- The window of `k` has no hole, and the table stays as it is.
pub record Refuses (ht : LinearHashTable) (k : ℕ) (r : BuildResult) : Type 0 where
  pub full : (d : ℕ) → d < max_probe_dist → ht.ht_valid (home k d) ≢ 0
  pub table_lem : r.table ≡ ht
  pub err_lem : r.err ≡ overflow

module _ (ht : LinearHashTable) (k : ℕ) (t : Tid) where
  build_loop_cases :
      (n step : ℕ)
      → step + n ≡ max_probe_dist
      → ((d : ℕ) → d < step → ht.ht_valid (home k d) ≢ 0)
      → Inserts ht k t (build_loop ht k t (slot_of k) n step)
        ⊎ Refuses ht k (build_loop ht k t (slot_of k) n step)
  unfolding build_loop
  build_loop_cases zero step hn before =
      inr (record { full = λ d hi. before d (omega arith); table_lem = refl; err_lem = refl })
  build_loop_cases (suc n) step hn before = elim (Bool-cases (ht.ht_valid (home k step) == 0)) [
    | inl free ↦
        rw (free, build_loop)
          (inl (record {
            dist = step;
            near = omega arith;
            before = before;
            hole = ground arith;
            steps_lem = refl;
            table_lem = refl;
            err_lem = refl;
          }))
    | inr taken ↦
        rw (taken, build_loop)
          (build_loop_cases n (step + 1) (omega arith) λ d lt. elim (ℕ_discrete d step) [
            | yes same ↦ rw same (ground arith)
            | no other ↦ before d (omega arith)
          ])
  ]

  -- The outcome of `build`: a full table and a full window are refused, and otherwise the entry
  -- goes to the first hole of its window.
  pub build_cases :
      (ltb ht.row_count ht_max_rows ≡ true) × Inserts ht k t (build ht k t)
      ⊎ (build ht k t ≡ record { err = overflow; steps = 0; table = ht })
        × (ht_max_rows ≤ ht.row_count)
      ⊎ Refuses ht k (build ht k t)
  unfolding build
  build_cases = elim (Bool-cases (leb ht_max_rows ht.row_count)) [
    | inl full ↦ rw full (inr (inl (refl, ground arith)))
    | inr room ↦
        rw room (elim (build_loop_cases max_probe_dist 0 refl (λ d lt. absurd (omega arith))) [
          | inl p ↦ inl (ground arith, p)
          | inr p ↦ inr (inr p)
        ])
  ]

module _ (ht : LinearHashTable) (k : ℕ) (t : Tid) (dist : ℕ) where
  abbrev pub filled : LinearHashTable
  filled = store ht (home k dist) k t

  -- A hole of another key's window that the entry fills ends no search: nothing stood behind it.
  pub probe_loop-store_ne :
      (q n step : ℕ)
      → IsProbed ht
      → ht.ht_valid (home k dist) ≡ 0
      → q ≢ k
      → step + n ≡ max_probe_dist
      → (probe_loop filled q (slot_of q) n step).found ≡ (probe_loop ht q (slot_of q) n step).found
  unfolding probe_loop store
  probe_loop-store_ne q zero step probed hole ne hn = refl
  probe_loop-store_ne q (suc n) step probed hole ne hn =
      elim (ℕ_discrete (home k dist) (home q step)) [
        | no apart ↦ ground (arith, probe_loop-store_ne q n (step + 1) probed hole ne)
        | yes same ↦
            let behind : (probe_loop filled q (slot_of q) n (step + 1)).found ≡ none =
              probe_loop-Absent filled q n (step + 1) (omega arith)
                λ e lo hi. ground (arith, probed q step e (omega arith) hi (rw (← same) hole)) in
            ground (arith, behind)
      ]

  pub probe_loop-store_eq :
      (n step : ℕ)
      → ((d : ℕ) → d < dist → ht.ht_valid (home k d) ≢ 0)
      → ht.ht_valid (home k dist) ≡ 0
      → dist < max_probe_dist
      → step ≤ dist
      → step + n ≡ max_probe_dist
      → (probe_loop filled k (slot_of k) n step).found
        ≡ or_else (probe_loop ht k (slot_of k) n step).found (some t)
  unfolding probe_loop store or_else
  probe_loop-store_eq zero step before hole near le hn = absurd (omega arith)
  probe_loop-store_eq (suc n) step before hole near le hn = elim (ℕ_discrete step dist) [
    | yes here ↦ rw here (ground (arith))
    | no early ↦ ground (
      arith,
      before step (omega arith),
      slot_at-injective (slot_of k) step dist (slot_of-lt k) (omega arith) near,
      probe_loop-store_eq n (step + 1) before hole near (omega arith) (omega arith),
    )
  ]
