-- ===== src/Grace/Contents.antt =====
-- src/hash_join_grace.hpp: the rows of a partition, as the join reads them.
use fpga_postgresql_hash_joi.Types.{InputTuple}
use fpga_postgresql_hash_joi.Base.Words.{add32}
use fpga_postgresql_hash_joi.Base.{
  ℕ, zero, suc, ◌+◌, ◌^◌, ◌≤◌, ◌<◌, ◌≡◌, refl, sym, ap, ◌∙◌, ◌≢◌, ◌⊎◌, inl, inr, List, [], ◌∷◌,
  ◌++◌, arith, ◌==◌, if◌then◌else◌, ==_refl, update,
}
use mathlib.Core.List.{append-nil}
use mathlib.Core.Path.{ap₂, subst}
use native.Mathlib.Decide.{ℕ_discrete}
use fpga_postgresql_hash_joi.Kernel.State.{State}
use fpga_postgresql_hash_joi.RoundTrip.Numbers.{IsTid}
use fpga_postgresql_hash_joi.Grace.{
  partition_of, Side, side_counts, set_counts, side_capacity, side_received, set_received,
  place_row, inner, outer,
}
use fpga_postgresql_hash_joi.Grace.Layout.{IsLayout}
use fpga_postgresql_hash_joi.Grace.Place.{row_at, place_row-row_at, partition_of-lt}

-- The rows `i`, `i + 1`, … of a partition, and all its rows.
abbrev pub contents_from : Side → State → ℕ → ℕ → ℕ → List InputTuple
contents_from side k p zero i = []
contents_from side k p (suc n) i = row_at side k p i ∷ contents_from side k p n (i + 1)

abbrev pub contents : Side → State → ℕ → List InputTuple
contents side k p = contents_from side k p (side_counts side k.grace p) 0

-- The rows that the hash of the key sends to a partition, in their order.
abbrev pub of_partition : ℕ → ℕ → List InputTuple → List InputTuple
of_partition partitions p [] = []
of_partition partitions p (t ∷ ts) =
    if partition_of t.key partitions == p
    then t ∷ of_partition partitions p ts
    else of_partition partitions p ts

-- No partition of either side has more rows than it has places.
abbrev pub IsWithin : State → Type 0
IsWithin k =
    (s : Side) (p : ℕ) → p < k.partitions → side_counts s k.grace p ≤ side_capacity s k.outer_slot_w

pub contents_from-eq :
    (s : Side) (k k' : State) (p n i : ℕ)
    → ((j : ℕ) → i ≤ j → j < i + n → row_at s k' p j ≡ row_at s k p j)
    → contents_from s k' p n i ≡ contents_from s k p n i
contents_from-eq s k k' p zero i h = refl
contents_from-eq s k k' p (suc n) i h =
    ap₂ ◌∷◌ (h i (omega arith) (omega arith))
      (contents_from-eq s k k' p n (i + 1) λ j lo hi. h j (omega arith) (omega arith))

contents_from-suc :
    (s : Side) (k : State) (p n i : ℕ)
    → contents_from s k p (suc n) i ≡ contents_from s k p n i ++ (row_at s k p (i + n) ∷ [])
contents_from-suc s k p zero i =
    let same : i ≡ i + 0 = omega arith in ap (λ j. row_at s k p j ∷ []) same
contents_from-suc s k p (suc n) i =
    let same : i + 1 + n ≡ i + suc n = omega arith in
    ap (λ r. row_at s k p i ∷ r)
      (contents_from-suc s k p n (i + 1)
        ∙ ap (λ j. contents_from s k p n (i + 1) ++ (row_at s k p j ∷ [])) same)

-- What a placed row changes besides the memory.
pub placed-own :
    (side : Side) (t : InputTuple) (k : State)
    → side_counts side (place_row side t k).grace
      ≡ update
          (side_counts side k.grace)
          (partition_of t.key k.partitions)
          (add32 (side_counts side k.grace (partition_of t.key k.partitions)) 1)
unfolding place_row set_received side_received side_counts set_counts
placed-own inner t k = refl
placed-own outer t k = refl

pub placed-other :
    (side s : Side) (t : InputTuple) (k : State)
    → side ≢ s
    → side_counts s (place_row side t k).grace ≡ side_counts s k.grace
unfolding place_row set_received side_received side_counts set_counts
placed-other inner inner t k ne = absurd (ne refl)
placed-other inner outer t k ne = refl
placed-other outer inner t k ne = refl
placed-other outer outer t k ne = absurd (ne refl)

-- What the reception of rows keeps.
pub record Keeps (k k' : State) : Type 0 where
  pub partitions_lem : k'.partitions ≡ k.partitions
  pub slot_lem : k'.outer_slot_w ≡ k.outer_slot_w
  pub keytype_lem : k'.keytype ≡ k.keytype
  pub done_lem : k'.session_done ≡ k.session_done

pub placed-Keeps :
    (side : Side) (t : InputTuple) (k : State)
    → Keeps k (place_row side t k) × ((place_row side t k).rx ≡ k.rx)
unfolding place_row set_received side_received
placed-Keeps inner t k =
    (record { partitions_lem = refl; slot_lem = refl; keytype_lem = refl; done_lem = refl }, refl)
placed-Keeps outer t k =
    (record { partitions_lem = refl; slot_lem = refl; keytype_lem = refl; done_lem = refl }, refl)

pub side_capacity-lt :
    (side : Side) (slot_words : ℕ) → slot_words < 2 ^ 32 → side_capacity side slot_words < 2 ^ 31
unfolding side_capacity
side_capacity-lt inner slot_words h = omega arith
side_capacity-lt outer slot_words h = omega arith

-- One more row in one partition; all other partitions, of both sides, stay as they are.
module _ (side : Side) (t : InputTuple) (k : State) (h : IsLayout k.partitions k.outer_slot_w)
    (pos : 0 < k.partitions) (tid : IsTid t.tid) (within : IsWithin k)
    (room : side_counts side k.grace (partition_of t.key k.partitions)
      < side_capacity side k.outer_slot_w) where
  abbrev p₀ : ℕ
  p₀ = partition_of t.key k.partitions

  abbrev n₀ : ℕ
  n₀ = side_counts side k.grace p₀

  kept_rows :
      (s : Side) (p n : ℕ)
      → p < k.partitions
      → n ≤ side_counts s k.grace p
      → (side ≢ s) ⊎ (p₀ ≢ p) ⊎ (n ≤ n₀)
      → contents_from s (place_row side t k) p n 0 ≡ contents_from s k p n 0
  kept_rows s p n lt le apart = contents_from-eq s k (place_row side t k) p n 0 λ j lo hi.
      (place_row-row_at side t k h pos tid room).1 s p j (lt, omega (arith, within s p lt))
        (elim apart [
          | inl other ↦ inl other
          | inr (inl other) ↦ inr (inl other)
          | inr (inr below) ↦ inr (inr (λ e. omega (arith, e)))
        ])

  pub contents-other :
      (s : Side) (p : ℕ)
      → p < k.partitions
      → side ≢ s
      → contents s (place_row side t k) p ≡ contents s k p
  contents-other s p lt ne =
      ap (λ c. contents_from s (place_row side t k) p (c p) 0) (placed-other side s t k ne)
      ∙ kept_rows s p (side_counts s k.grace p) lt (omega arith) (inl ne)

  contents-here : contents side (place_row side t k) p₀ ≡ contents side k p₀ ++ (t ∷ [])
  contents-here =
      let small : n₀ < 2 ^ 32 = omega (arith, room, side_capacity-lt side k.outer_slot_w h.word) in
      let up : update (side_counts side k.grace) p₀ (add32 n₀ 1) p₀ ≡ add32 n₀ 1 =
        rw (==_refl p₀) refl in
      let next : add32 n₀ 1 ≡ suc n₀ =
        omega (arith, room, side_capacity-lt side k.outer_slot_w h.word) in
      let count : side_counts side (place_row side t k).grace p₀ ≡ suc n₀ =
        ap (λ c. c p₀) (placed-own side t k) ∙ up ∙ next in
      let last : 0 + n₀ ≡ n₀ = omega arith in
      ap (λ n. contents_from side (place_row side t k) p₀ n 0) count
      ∙ contents_from-suc side (place_row side t k) p₀ n₀ 0
      ∙ ap₂ (λ a b. a ++ (b ∷ []))
          (kept_rows side p₀ n₀ (partition_of-lt t.key k.partitions pos) (omega arith)
            (inr (inr (omega arith))))
          (ap (row_at side (place_row side t k) p₀) last
            ∙ (place_row-row_at side t k h pos tid room).0)

  pub contents-own :
      (p : ℕ)
      → p < k.partitions
      → contents side (place_row side t k) p
        ≡ contents side k p ++ of_partition k.partitions p (t ∷ [])
  contents-own p lt = elim (ℕ_discrete p₀ p) [
    | yes same ↦
        let one : of_partition k.partitions p₀ (t ∷ []) ≡ t ∷ [] = rw (==_refl p₀) refl in
        subst
          (λ q.
            contents side (place_row side t k) q
            ≡ contents side k q ++ of_partition k.partitions q (t ∷ []))
          same (contents-here ∙ ap (λ r. contents side k p₀ ++ r) (sym one))
    | no other ↦
        let count : side_counts side (place_row side t k).grace p ≡ side_counts side k.grace p =
          ap (λ c. c p) (placed-own side t k) ∙ ground (arith, other) in
        let none_new : of_partition k.partitions p (t ∷ []) ≡ [] = ground (arith, other) in
        ap (λ n. contents_from side (place_row side t k) p n 0) count
        ∙ kept_rows side p (side_counts side k.grace p) lt (omega arith) (inr (inl other))
        ∙ sym (ap (λ r. contents side k p ++ r) none_new ∙ append-nil (contents side k p))
  ]
