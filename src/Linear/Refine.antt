-- ===== src/Linear/Refine.antt =====
-- The hash table against a list of rows: a probe finds the first row that was built with its key.

use mathlib.Core.Option.{or_else}
use native.Mathlib.Decide.{ℕ_discrete}
use fpga_postgresql_hash_joi.Base.{
  ℕ, ◌+◌, ◌≤◌, ◌<◌, ◌≡◌, refl, ap, ◌∙◌, ◌≢◌, ◌↔◌, ◌⊎◌, inl, inr, Option, none, some, List, [], ◌∷◌,
  arith, ◌==◌, if◌then◌else◌, length,
}
use fpga_postgresql_hash_joi.Types.{
  ht_max_rows, max_probe_dist, Tid, InputTuple, no_error, overflow,
}
use fpga_postgresql_hash_joi.Linear.{
  LinearHashTable, slot_of, store, build, build_all, probe, reset,
}
use fpga_postgresql_hash_joi.Linear.Probe.{
  slot_of-lt, slot_at-lt, slot_at-injective, home, IsProbed, probe_loop-Absent,
}
use fpga_postgresql_hash_joi.Linear.Build.{build_cases, probe_loop-store_ne, probe_loop-store_eq}

-- The tuple identifier of the first row with the key.
abbrev pub find_first : ℕ → List InputTuple → Option Tid
find_first q [] = none
find_first q (t ∷ ts) = if t.key == q then some t.tid else find_first q ts

pub reset-IsProbed : (ht : LinearHashTable) → IsProbed (reset ht)
unfolding reset
reset-IsProbed ht q d e lt near hole valid = absurd (ground (arith, slot_at-lt (slot_of q) e))

probe-reset : (ht : LinearHashTable) (q : ℕ) → (probe (reset ht) q).found ≡ none
unfolding probe
probe-reset ht q =
    probe_loop-Absent (reset ht) q max_probe_dist 0 refl
      λ e lo hi. unfold reset in λ valid. absurd (ground (arith, slot_at-lt (slot_of q) e))

store-IsProbed :
    (ht : LinearHashTable) (k : ℕ) (t : Tid) (dist : ℕ)
    → IsProbed ht
    → dist < max_probe_dist
    → ((d : ℕ) → d < dist → ht.ht_valid (home k d) ≢ 0)
    → IsProbed (store ht (home k dist) k t)
unfolding store
store-IsProbed ht k t dist probed near before q d e lt he = ground (
  arith,
  probed q d e lt he,
  before d,
  slot_at-injective (slot_of k) dist e (slot_of-lt k) near he,
)

-- A build that reports success keeps every entry within reach of a scan.
pub build-IsProbed :
    (ht : LinearHashTable) (k : ℕ) (t : Tid) → IsProbed ht → IsProbed (build ht k t).table
build-IsProbed ht k t probed = elim (build_cases ht k t) [
  | inl (room, p) ↦ rw p.table_lem (store-IsProbed ht k t p.dist probed p.near p.before)
  | inr (inl (e, full)) ↦ rw e probed
  | inr (inr p) ↦ rw p.table_lem probed
]

-- After a successful build a probe of the key finds the old entry if there is one, else the new
-- one; every other probe finds what it found before. In the table before the build every entry is
-- within reach of a scan: no free slot stands before it in its window.
pub probe-build :
    (ht : LinearHashTable) (k : ℕ) (t : Tid) (q : ℕ)
    → IsProbed ht
    → (build ht k t).err ≡ no_error
    → (probe (build ht k t).table q).found
      ≡ (if k == q then or_else (probe ht q).found (some t) else (probe ht q).found)
unfolding probe
probe-build ht k t q probed ok = elim (build_cases ht k t) [
  | inl (room, p) ↦ rw p.table_lem (elim (ℕ_discrete k q) [
    | yes same ↦
        rw (← same) (
          ground (arith, probe_loop-store_eq ht k t p.dist max_probe_dist 0 p.before p.hole p.near))
    | no other ↦ ground (arith, probe_loop-store_ne ht k t p.dist q max_probe_dist 0 probed p.hole)
  ])
  | inr (inl (e, full)) ↦ cc (ap (λ r. r.err) e)
  | inr (inr p) ↦ cc (p.err_lem)
]

-- A batch that succeeds builds its first row, and then the others.
pub build_all-cons :
    (t : InputTuple) (ts : List InputTuple) (ht : LinearHashTable) {ht' : LinearHashTable}
    → build_all ht (t ∷ ts) ≡ some ht'
    → ((build ht t.key t.tid).err ≡ no_error)
      × (build_all (build ht t.key t.tid).table ts ≡ some ht')
unfolding build_all
build_all-cons t ts ht run = ground arith

pub build_all_step :
    (t : InputTuple) (ts : List InputTuple) (ht : LinearHashTable)
    → (build ht t.key t.tid).err ≡ no_error
    → build_all ht (t ∷ ts) ≡ build_all (build ht t.key t.tid).table ts
unfolding build_all
build_all_step t ts ht fine = ground arith

find-build_all :
    (ts : List InputTuple) (ht ht' : LinearHashTable) (q : ℕ)
    → IsProbed ht
    → build_all ht ts ≡ some ht'
    → (probe ht' q).found ≡ or_else (probe ht q).found (find_first q ts)
unfolding or_else
find-build_all [] ht ht' q probed run =
    let same : ht ≡ ht' = unfold build_all in cc in rw (← same) (ground arith)
find-build_all (t ∷ ts) ht ht' q probed run =
    let (ok, rest) = build_all-cons t ts ht run in
    ground (
      arith,
      probe-build ht t.key t.tid q probed ok,
      find-build_all ts _ ht' q (build-IsProbed ht t.key t.tid probed) rest,
    )

-- Resetting the table and building a list of rows without an error gives a table in which a probe
-- finds the first row with its key, and nothing if no row has it.
pub probe-build_all :
    (ht ht' : LinearHashTable) (ts : List InputTuple) (q : ℕ)
    → build_all (reset ht) ts ≡ some ht'
    → (probe ht' q).found ≡ find_first q ts
unfolding or_else
probe-build_all ht ht' ts q run =
    find-build_all ts (reset ht) ht' q (reset-IsProbed ht) run ∙ rw (probe-reset)

-- The entry stands in a slot of the key's window that was free, is counted, and no other slot has
-- changed.
pub record Stores (ht : LinearHashTable) (k : ℕ) (t : Tid) (ht' : LinearHashTable) : Type 0 where
  pub dist : ℕ
  pub near : dist < max_probe_dist
  pub free : ht.ht_valid (home k dist) ≡ 0
  pub valid_lem : ht'.ht_valid (home k dist) ≡ 1
  pub key_lem : ht'.ht_key (home k dist) ≡ k
  pub blk_lem : ht'.ht_blk (home k dist) ≡ t.blkno
  pub off_lem : ht'.ht_off (home k dist) ≡ t.offno
  pub count_lem : ht'.row_count ≡ ht.row_count + 1
  pub others :
      (s : ℕ)
      → s ≢ home k dist
      → (ht'.ht_valid s ≡ ht.ht_valid s)
        × (ht'.ht_key s ≡ ht.ht_key s)
        × (ht'.ht_blk s ≡ ht.ht_blk s)
        × (ht'.ht_off s ≡ ht.ht_off s)

-- `build` reports an overflow exactly if the row limit is reached or the window of the key has no
-- free slot, and then leaves the table as it was.
pub build_overflow :
    (ht : LinearHashTable) (k : ℕ) (t : Tid)
    → (((build ht k t).err ≡ overflow) ↔ (
        (ht_max_rows ≤ ht.row_count) ⊎ ((d : ℕ) → d < max_probe_dist → ht.ht_valid (home k d) ≢ 0)))
      × ((build ht k t).err ≢ no_error → (build ht k t).table ≡ ht)
build_overflow ht k t = elim (build_cases ht k t) [
  | inl (room, p) ↦ (
    (
      λ h. cc (p.err_lem),
      λ h.
          absurd
            (elim h [ inl full ↦ ground (arith, room) | inr full ↦ full p.dist p.near p.hole ]),
    ),
    λ h. absurd (h p.err_lem),
  )
  | inr (inl (e, full)) ↦ ((λ h. inl full, λ h. ap (λ r. r.err) e), λ h. ap (λ r. r.table) e)
  | inr (inr p) ↦ ((λ h. inr p.full, λ h. p.err_lem), λ h. p.table_lem)
]

row_count-build :
    (ht : LinearHashTable) (k : ℕ) (t : Tid)
    → (build ht k t).err ≡ no_error
    → ((build ht k t).table.row_count ≡ ht.row_count + 1) × (ht.row_count < ht_max_rows)
unfolding store
row_count-build ht k t ok = elim (build_cases ht k t) [
  | inl (room, p) ↦ rw p.table_lem (ground arith)
  | inr (inl (e, full)) ↦ cc (ap (λ r. r.err) e)
  | inr (inr p) ↦ cc (p.err_lem)
]

row_count-build_all_from :
    (ts : List InputTuple) (ht ht' : LinearHashTable)
    → build_all ht ts ≡ some ht'
    → ht.row_count ≤ ht_max_rows
    → (ht'.row_count ≡ ht.row_count + length ts) × (ht'.row_count ≤ ht_max_rows)
row_count-build_all_from [] ht ht' run le =
    let same : ht ≡ ht' = unfold build_all in cc in rw (← same) (omega arith)
row_count-build_all_from (t ∷ ts) ht ht' run le =
    let (ok, rest) = build_all-cons t ts ht run in
    let (up, room) = row_count-build ht t.key t.tid ok in
    omega (arith, row_count-build_all_from ts _ ht' rest (omega arith))

-- A table that was reset and built without an error counts its rows, and they are within the limit.
pub row_count-build_all :
    (ht ht' : LinearHashTable) (ts : List InputTuple)
    → build_all (reset ht) ts ≡ some ht'
    → (ht'.row_count ≡ length ts) × (length ts ≤ ht_max_rows)
unfolding reset
row_count-build_all ht ht' ts run =
    let (a, b) = row_count-build_all_from ts (reset ht) ht' run (omega arith) in omega arith
