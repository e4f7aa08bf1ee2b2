-- ===== src/Host/Client/Window.antt =====
-- host/src/fpga_client.cpp: what cumulative acknowledgements and credit do to the window.

use fpga_postgresql_hash_joi.Base.{
  ℕ, ◌+◌, ◌≤◌, ◌<◌, ◌≡◌, refl, ap, inl, inr, some, List, [], ◌∷◌, ◌++◌, arith, leb, leb→le,
  Bool-cases, length, All, if_cases,
}
use mathlib.Core.Path.{subst}
use fpga_postgresql_hash_joi.Host.Client.{
  Acked, pop_acked, apply_cumulative_ack, ClientConfig, next_batch, spend_credit,
}

abbrev pub sum : List ℕ → ℕ
sum [] = 0
sum (n ∷ ns) = n + sum ns

-- The batches that are popped are the longest run of batches, from the front, that is covered.
pub record Covers (inflight : List ℕ) (rows target : ℕ) (a : Acked) : Type 0 where
  pub popped : List ℕ
  pub split : inflight ≡ popped ++ a.inflight
  pub rows_lem : a.rows ≡ rows + sum popped
  pub covered : 0 < length popped → a.rows ≤ target
  pub longest : (n : ℕ) (ns : List ℕ) → a.inflight ≡ n ∷ ns → target < a.rows + n

abbrev head_or : ℕ → List ℕ → ℕ
head_or d [] = d
head_or d (n ∷ ns) = n

pop_acked-le :
    (inflight : List ℕ) (rows frames target : ℕ)
    → rows ≤ target
    → (pop_acked inflight rows frames target).rows ≤ target
unfolding pop_acked
pop_acked-le [] rows frames target within = within
pop_acked-le (n ∷ inflight) rows frames target within =
    if_cases (λ a. a.rows ≤ target) (leb (rows + n) target)
      (pop_acked inflight (rows + n) (frames + 1) target) _
      (λ whole.
        pop_acked-le inflight (rows + n) (frames + 1) target (leb→le (rows + n) target whole))
      (λ part. within)

pop_acked-Covers :
    (inflight : List ℕ) (rows frames target : ℕ)
    → rows ≤ target
    → Covers inflight rows target (pop_acked inflight rows frames target)
      × ((pop_acked inflight rows frames target).frames
            + length (pop_acked inflight rows frames target).inflight
          ≡ frames + length inflight)
unfolding pop_acked
pop_acked-Covers [] rows frames target within = (
  record {
    popped = [];
    split = refl;
    rows_lem = omega arith;
    covered = λ h. within;
    longest = λ n ns e. absurd (cc e);
  },
  refl,
)
pop_acked-Covers (n ∷ inflight) rows frames target within =
    elim (Bool-cases (leb (rows + n) target)) [
      | inl whole ↦
          let (p, count) =
            pop_acked-Covers inflight (rows + n) (frames + 1) target
              (leb→le (rows + n) target whole) in
          rw (whole, pop_acked)
            (
              record {
                popped = n ∷ p.popped;
                split = ap (λ r. n ∷ r) p.split;
                rows_lem = omega (arith, p.rows_lem);
                covered = λ h.
                    pop_acked-le inflight (rows + n) (frames + 1) target
                      (leb→le (rows + n) target whole);
                longest = p.longest;
              },
              omega (arith, count),
            )
      | inr part ↦
          rw (part, pop_acked)
            (
              record {
                popped = [];
                split = refl;
                rows_lem = omega arith;
                covered = λ h. within;
                longest = λ m ns e. ground (arith, part, ap (head_or 0) e);
              },
              refl,
            )
    ]

-- What `apply_cumulative_ack` does to the window, whose batches have at least one row each: it
-- takes from the front the longest run of batches that the acknowledged rows cover whole, counts
-- their rows and how many they are, and leaves the others in flight.
pub apply_cumulative_ack-Covers :
    (inflight : List ℕ) (acked_rows rows_processed : ℕ)
    → All (λ n. 0 < n) inflight
    → Covers inflight acked_rows rows_processed
        (apply_cumulative_ack inflight acked_rows rows_processed)
      × ((apply_cumulative_ack inflight acked_rows rows_processed).frames
            + length (apply_cumulative_ack inflight acked_rows rows_processed).inflight
          ≡ length inflight)
unfolding apply_cumulative_ack
apply_cumulative_ack-Covers inflight acked_rows rows_processed pos =
    elim (Bool-cases (leb rows_processed acked_rows)) [
      | inl behind ↦
          rw (behind, apply_cumulative_ack)
            (
              record {
                popped = [];
                split = refl;
                rows_lem = omega arith;
                covered = λ h. absurd (omega arith);
                longest = λ n ns e. ground (arith, behind, (subst (All (λ m. 0 < m)) e pos).0);
              },
              omega arith,
            )
      | inr ahead ↦
          let (p, count) =
            pop_acked-Covers inflight acked_rows 0 rows_processed (ground (arith, ahead)) in
          rw (ahead, apply_cumulative_ack) (p, omega (arith, count))
    ]

-- The next frame carries at least one row, no more than the credit, the configured size of a batch
-- and the rows that are left, and the credit goes down by its rows; none is sent on a full window.
pub next_batch-bounds :
    (cfg : ClientConfig) (credit : ℕ) (inflight : List ℕ) (remaining batch : ℕ)
    → 0 < cfg.max_batch_tuples
    → next_batch cfg credit inflight remaining ≡ some batch
    → (0 < batch)
      × (batch ≤ cfg.max_batch_tuples)
      × (batch ≤ remaining)
      × (spend_credit credit batch + batch ≡ credit)
      × (length inflight < cfg.ack_window_frames)
unfolding next_batch spend_credit
next_batch-bounds cfg credit inflight remaining batch pos e = ground (arith, e)
