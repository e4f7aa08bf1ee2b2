-- ===== src/Adapter/Dedup.antt =====
-- The inner rows without the later rows of a key.
use fpga_postgresql_hash_joi.Types.{InputTuple}
use fpga_postgresql_hash_joi.Base.{
  ℕ, ◌≡◌, refl, ap, ◌∙◌, ◌≢◌, inl, inr, Bool, true, false, List, [], ◌∷◌, arith, ◌==◌, Bool-cases,
}
use fpga_postgresql_hash_joi.Linear.Refine.{find_first}
use fpga_postgresql_hash_joi.Join.Result.{join_rows}
use fpga_postgresql_hash_joi.Join.Relation.{In, HasDistinctKeys}
use fpga_postgresql_hash_joi.Adapter.{contains, dedup_rows, dedup_inner}

find_first-dedup_rows :
    (seen : List ℕ) (q : ℕ) (ts : List InputTuple)
    → contains q seen ≡ false
    → find_first q (dedup_rows seen ts) ≡ find_first q ts
unfolding dedup_rows
find_first-dedup_rows seen q [] unseen = refl
find_first-dedup_rows seen q (t ∷ ts) unseen = elim (Bool-cases (contains t.key seen)) [
  | inl old ↦
      let other : (t.key == q) ≡ false = elim (Bool-cases (t.key == q)) [
        | inl same ↦
            let e : t.key ≡ q = ground (arith, same) in
            absurd (cc (ap (λ k. contains k seen) e, old, unseen))
        | inr e ↦ e
      ] in
      rw (dedup_rows, old, other) (find_first-dedup_rows seen q ts unseen)
  | inr new ↦ elim (Bool-cases (t.key == q)) [
    | inl same ↦ rw (dedup_rows, new, same) refl
    | inr other ↦
        let apart : (q == t.key) ≡ false = ground (arith, other) in
        rw (dedup_rows, new, other)
          (find_first-dedup_rows (t.key ∷ seen) q ts (rw (apart, unseen) refl))
  ]
]

-- No row of the result has a key that was seen before.
In-dedup_rows :
    (seen : List ℕ) (ts : List InputTuple) (u : InputTuple)
    → In u (dedup_rows seen ts)
    → contains u.key seen ≡ false
unfolding dedup_rows
In-dedup_rows seen [] u m = absurd m
In-dedup_rows seen (t ∷ ts) u m =
    through (contains t.key seen) refl m (In-dedup_rows seen ts u)
      (In-dedup_rows (t.key ∷ seen) ts u)
  where
    through :
        (b : Bool)
        → contains t.key seen ≡ b
        → In u (elim b [ true ↦ dedup_rows seen ts | false ↦ t ∷ dedup_rows (t.key ∷ seen) ts ])
        → (In u (dedup_rows seen ts) → contains u.key seen ≡ false)
        → (In u (dedup_rows (t.key ∷ seen) ts) → contains u.key (t.key ∷ seen) ≡ false)
        → contains u.key seen ≡ false
    through true e m old new = old m
    through false e (inl same) old new = ap (λ v. contains v.key seen) same ∙ e
    through false e (inr later) old new = let apart = new later in ground (arith, apart)

dedup_rows-HasDistinctKeys :
    (seen : List ℕ) (ts : List InputTuple) → HasDistinctKeys (dedup_rows seen ts)
unfolding dedup_rows
dedup_rows-HasDistinctKeys seen [] = tt
dedup_rows-HasDistinctKeys seen (t ∷ ts) =
    through (contains t.key seen) (dedup_rows-HasDistinctKeys seen ts)
      (dedup_rows-HasDistinctKeys (t.key ∷ seen) ts)
  where
    apart : (u : InputTuple) → In u (dedup_rows (t.key ∷ seen) ts) → u.key ≢ t.key
    apart u m e = let unseen = In-dedup_rows (t.key ∷ seen) ts u m in ground (arith, unseen, e)

    through :
        (b : Bool)
        → HasDistinctKeys (dedup_rows seen ts)
        → HasDistinctKeys (dedup_rows (t.key ∷ seen) ts)
        → HasDistinctKeys
            (elim b [ true ↦ dedup_rows seen ts | false ↦ t ∷ dedup_rows (t.key ∷ seen) ts ])
    through true old new = old
    through false old new = (apart, new)

same_answers :
    (xs ys outer : List InputTuple)
    → ((q : ℕ) → find_first q xs ≡ find_first q ys)
    → join_rows xs outer ≡ join_rows ys outer
same_answers xs ys [] same = refl
same_answers xs ys (t ∷ ts) same = rw (same t.key, same_answers xs ys ts same) refl

-- The rows that the adapter hands to the client have different keys, and a session answers the
-- same pairs for them as for all inner rows.
pub dedup_inner-HasDistinctKeys :
    (inner outer : List InputTuple)
    → HasDistinctKeys (dedup_inner inner)
      × (join_rows (dedup_inner inner) outer ≡ join_rows inner outer)
unfolding dedup_inner
dedup_inner-HasDistinctKeys inner outer = (
  dedup_rows-HasDistinctKeys [] inner,
  same_answers (dedup_rows [] inner) inner outer (λ q. find_first-dedup_rows [] q inner refl),
)
