-- ===== src/Grace/Partition.antt =====
-- src/hash_join_grace.hpp: the rows of one frame go to their partitions.
use fpga_postgresql_hash_joi.Types.{InputTuple}
use fpga_postgresql_hash_joi.Base.Words.{add32}
use fpga_postgresql_hash_joi.Base.{
  ℕ, suc, ◌+◌, ◌≤◌, ◌<◌, ◌≡◌, refl, sym, ap, ◌∙◌, ◌≢◌, ◌⊎◌, inl, inr, some, List, [], ◌∷◌, ◌++◌,
  arith, lt→leb, ==_refl, length, All,
}
use mathlib.Core.List.{append-nil, append_assoc}
use mathlib.Core.Path.{subst, ap₂}
use native.Mathlib.Decide.{ℕ_discrete}
use fpga_postgresql_hash_joi.Wire.{Rx, rx_tuple}
use fpga_postgresql_hash_joi.Kernel.State.{State, receive}
use fpga_postgresql_hash_joi.Host.Serializer.{put_tuples, put_tuple}
use fpga_postgresql_hash_joi.RoundTrip.Numbers.{IsTid, sent, sent-append}
use fpga_postgresql_hash_joi.RoundTrip.ToBoard.{IsTuple, rx_tuple-put_tuple}
use fpga_postgresql_hash_joi.Join.Frames.{Runs}
use fpga_postgresql_hash_joi.Grace.{
  partition_of, Side, side_counts, side_capacity, place_row, partition_rows, inner, outer,
}
use fpga_postgresql_hash_joi.Grace.Layout.{IsLayout}
use fpga_postgresql_hash_joi.Grace.Place.{partition_of-lt}
use fpga_postgresql_hash_joi.Grace.Contents.{
  contents, of_partition, IsWithin, Keeps, contents-own, contents-other, placed-own, placed-other,
  placed-Keeps, side_capacity-lt,
}

-- Each partition of the side gets the rows that the hash sends to it, behind those it had; the
-- other side keeps its rows.
pub record Partitions (side : Side) (ts : List InputTuple) (rest : Rx) (k k' : State) : Type 0 where
  pub keeps : Keeps k k'
  pub rx_lem : k'.rx ≡ rest
  pub own :
      (p : ℕ)
      → p < k.partitions
      → contents side k' p ≡ contents side k p ++ of_partition k.partitions p ts
  pub other : (s : Side) (p : ℕ) → p < k.partitions → side ≢ s → contents s k' p ≡ contents s k p

-- The partitions have places for the rows that are to come.
abbrev pub HasPlaces : Side → List InputTuple → State → Type 0
HasPlaces side ts k =
    (p : ℕ)
    → p < k.partitions
    → side_counts side k.grace p + length (of_partition k.partitions p ts)
      ≤ side_capacity side k.outer_slot_w

partition_rows_step :
    (side : Side) (n : ℕ) (k : State) (t : InputTuple) (rest : Rx)
    → rx_tuple k.keytype k.rx ≡ some (t, rest)
    → side_counts side k.grace (partition_of t.key k.partitions) < side_capacity side k.outer_slot_w
    → partition_rows side (suc n) k
      ≡ partition_rows side n (place_row side t (record k { rx = rest }))
unfolding partition_rows receive
partition_rows_step side n k t rest read room =
    rw (partition_rows, receive, read, lt→leb (side_capacity side k.outer_slot_w) _ room) refl

same-or-other : (a b : Side) → (a ≡ b) ⊎ (a ≢ b)
same-or-other inner inner = inl refl
same-or-other inner outer = inr (λ e. cc e)
same-or-other outer inner = inr (λ e. cc e)
same-or-other outer outer = inl refl

module _ (side : Side) (t : InputTuple) (ts : List InputTuple) (k : State)
    (h : IsLayout k.partitions k.outer_slot_w) (within : IsWithin k) (pos : 0 < k.partitions)
    (places : HasPlaces side (t ∷ ts) k) where
  abbrev next : State
  next = place_row side t k

  has_room :
      side_counts side k.grace (partition_of t.key k.partitions) < side_capacity side k.outer_slot_w
  has_room =
      let p₀ = partition_of t.key k.partitions in
      let one : of_partition k.partitions p₀ (t ∷ ts) ≡ t ∷ of_partition k.partitions p₀ ts =
        rw (==_refl p₀) refl in
      omega (arith, places p₀ (partition_of-lt t.key k.partitions pos), ap length one)

  counts-next :
      (p : ℕ)
      → side_counts side next.grace p + length (of_partition k.partitions p ts)
        ≡ side_counts side k.grace p + length (of_partition k.partitions p (t ∷ ts))
  counts-next p =
      let p₀ = partition_of t.key k.partitions in
      let n₀ = side_counts side k.grace p₀ in
      let placed = ap (λ c. c p) (placed-own side t k) in
      elim (ℕ_discrete p₀ p) [
        | yes same ↦
            let small : add32 n₀ 1 ≡ suc n₀ =
              omega (arith, has_room, side_capacity-lt side k.outer_slot_w h.word) in
            ground (arith, placed, same, small)
        | no other ↦ ground (arith, placed, other)
      ]

  next-HasPlaces : HasPlaces side ts next
  next-HasPlaces p lt =
      let kept = (placed-Keeps side t k).0 in
      let lt' = subst (λ m. p < m) kept.partitions_lem lt in
      subst
        (λ m.
          side_counts side next.grace p + length (of_partition m p ts)
          ≤ side_capacity side next.outer_slot_w)
        (sym kept.partitions_lem)
        (subst
          (λ w.
            side_counts side next.grace p + length (of_partition k.partitions p ts)
            ≤ side_capacity side w)
          (sym kept.slot_lem) (omega (arith, counts-next p, places p lt')))

  next-IsWithin : IsWithin next
  next-IsWithin s p lt =
      let kept = (placed-Keeps side t k).0 in
      let lt' = subst (λ m. p < m) kept.partitions_lem lt in
      subst (λ w. side_counts s next.grace p ≤ side_capacity s w) (sym kept.slot_lem)
        (elim (same-or-other side s) [
          | inl same ↦
              subst (λ a. side_counts a next.grace p ≤ side_capacity a k.outer_slot_w) same
                (omega (arith, counts-next p, places p lt'))
          | inr other ↦
              subst (λ n. n ≤ side_capacity s k.outer_slot_w)
                (sym (ap (λ c. c p) (placed-other side s t k other))) (within s p lt')
        ])

of_partition-cons :
    (m p : ℕ) (t : InputTuple) (ts : List InputTuple)
    → of_partition m p (t ∷ ts) ≡ of_partition m p (t ∷ []) ++ of_partition m p ts
of_partition-cons m p t ts = ground arith

-- One row, and then those that come behind it.
Partitions-cons :
    (side : Side) (t : InputTuple) (ts : List InputTuple) (r rest : Rx) (k k' : State)
    → IsLayout k.partitions k.outer_slot_w
    → IsWithin k
    → 0 < k.partitions
    → IsTid t.tid
    → HasPlaces side (t ∷ ts) k
    → Partitions side ts rest (place_row side t (record k { rx = r })) k'
    → Partitions side (t ∷ ts) rest k k'
Partitions-cons side t ts r rest k k' h within pos tid places later =
    let kept = (placed-Keeps side t (record k { rx = r })).0 in
    let same = kept.partitions_lem in
    let room = has_room side t ts k h within pos places in
    record {
      keeps = record {
        partitions_lem = later.keeps.partitions_lem ∙ same;
        slot_lem = later.keeps.slot_lem ∙ kept.slot_lem;
        keytype_lem = later.keeps.keytype_lem ∙ kept.keytype_lem;
        done_lem = later.keeps.done_lem ∙ kept.done_lem;
      };
      rx_lem = later.rx_lem;
      own = λ p lt.
          later.own p (subst (λ m. p < m) (sym same) lt)
          ∙ ap₂ (λ c m. c ++ of_partition m p ts)
              (contents-own side t (record k { rx = r }) h pos tid within room p lt) same
          ∙ append_assoc (contents side k p) (of_partition k.partitions p (t ∷ []))
              (of_partition k.partitions p ts)
          ∙ sym (ap (λ r. contents side k p ++ r) (of_partition-cons k.partitions p t ts));
      other = λ s p lt ne.
          later.other s p (subst (λ m. p < m) (sym same) lt) ne
          ∙ contents-other side t (record k { rx = r }) h pos tid within room s p lt ne;
    }

-- The rows of one frame of algorithm B, which have all arrived: the loop reads them to their end,
-- and each partition of the side then holds, behind the rows it had, those that the hash of the
-- key sends to it, in their order; the other side keeps its rows. The layout is one that the
-- kernel accepts, no partition has more rows than places, and the partitions have places for the
-- rows of the frame.
pub partition_rows-Partitions :
    (side : Side) (ts : List InputTuple) (k : State) (rest : Rx)
    → k.rx ≡ sent (put_tuples k.keytype ts) rest
    → IsLayout k.partitions k.outer_slot_w
    → 0 < k.partitions
    → IsWithin k
    → All (IsTuple k.keytype) ts
    → HasPlaces side ts k
    → Runs (partition_rows side (length ts) k) (Partitions side ts rest k)
unfolding partition_rows put_tuples
partition_rows-Partitions side [] k rest arrived h pos within good places = (
  k,
  refl,
  record {
    keeps = record { partitions_lem = refl; slot_lem = refl; keytype_lem = refl; done_lem = refl };
    rx_lem = arrived;
    own = λ p lt. sym (append-nil (contents side k p));
    other = λ s p lt ne. refl;
  },
)
partition_rows-Partitions side (t ∷ ts) k rest arrived h pos within (good, goods) places =
    let k₁ : State = record k { rx = sent (put_tuples k.keytype ts) rest } in
    let (kept, rx_lem) = placed-Keeps side t k₁ in
    let read : rx_tuple k.keytype k.rx ≡ some (t, k₁.rx) =
      rw (arrived, sent-append (put_tuple k.keytype t)) (rx_tuple-put_tuple k.keytype t _ good) in
    let (k', run, later) =
      partition_rows-Partitions side ts (place_row side t k₁) rest
        (rx_lem ∙ ap (λ m. sent (put_tuples m ts) rest) (sym kept.keytype_lem))
        (subst (λ m. IsLayout m (place_row side t k₁).outer_slot_w) (sym kept.partitions_lem)
          (subst (λ w. IsLayout k.partitions w) (sym kept.slot_lem) h))
        (subst (λ m. 0 < m) (sym kept.partitions_lem) pos)
        (next-IsWithin side t ts k₁ h within pos places)
        (subst (λ m. All (IsTuple m) ts) (sym kept.keytype_lem) goods)
        (next-HasPlaces side t ts k₁ h within pos places) in
    let room = has_room side t ts k h within pos places in
    (
      k',
      partition_rows_step side (length ts) k t k₁.rx read room ∙ run,
      Partitions-cons side t ts k₁.rx rest k k' h within pos good.1 places later,
    )
