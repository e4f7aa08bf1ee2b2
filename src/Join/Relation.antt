-- ===== src/Join/Relation.antt =====
-- The pairs that a session answers, as a relation between the rows of the two sides.
use fpga_postgresql_hash_joi.Types.{Tid, InputTuple, ResultPair}
use fpga_postgresql_hash_joi.Base.{
  ℕ, ◌≡◌, refl, sym, ap, ◌∙◌, ◌≢◌, ◌↔◌, ◌⊎◌, inl, inr, false, Option, none, some, List, [], ◌∷◌,
  ◌++◌, arith, ◌==◌, ==_refl,
}
use native.Mathlib.Decide.{ℕ_discrete}
use fpga_postgresql_hash_joi.Linear
use fpga_postgresql_hash_joi.Linear.{LinearHashTable}
use fpga_postgresql_hash_joi.Linear.Refine.{find_first}
use fpga_postgresql_hash_joi.Wire.{Rx}
use fpga_postgresql_hash_joi.Kernel.State.{Inputs, State, running}
use fpga_postgresql_hash_joi.Kernel.Run.{run_session}
use fpga_postgresql_hash_joi.RoundTrip.Numbers.{sent}
use fpga_postgresql_hash_joi.Join.Output.{Emits}
use fpga_postgresql_hash_joi.Join.Frames.{rows_of}
use fpga_postgresql_hash_joi.Join.Result.{with_outer, join_rows}
use fpga_postgresql_hash_joi.Join.Run.{session_bytes, run_session-Answers, IsJoin}

abbrev pub In : {A : Type 0} → A → List A → Type 0
In a [] = ⊥
In a (x ∷ xs) = (a ≡ x) ⊎ In a xs

In-append : {A : Type 0} (a : A) (xs ys : List A) → In a (xs ++ ys) ↔ (In a xs ⊎ In a ys)
In-append a [] ys = (inr, λ h. elim h [ inl no_one ↦ absurd no_one | inr m ↦ m ])
In-append a (x ∷ xs) ys = (
  λ h. elim h [
    | inl e ↦ inl (inl e)
    | inr m ↦ elim ((In-append a xs ys).0 m) [ inl l ↦ inl (inr l) | inr r ↦ inr r ]
  ],
  λ h. elim h [
    | inl l ↦ elim l [ inl e ↦ inl e | inr m ↦ inr ((In-append a xs ys).1 (inl m)) ]
    | inr r ↦ inr ((In-append a xs ys).1 (inr r))
  ],
)

-- No two rows have one key.
abbrev pub HasDistinctKeys : List InputTuple → Type 0
HasDistinctKeys [] = Unit
HasDistinctKeys (t ∷ ts) = ((u : InputTuple) → In u ts → u.key ≢ t.key) × HasDistinctKeys ts

-- The pair joins a row of each side, and the two rows have one key.
abbrev pub Joins : List InputTuple → List InputTuple → ResultPair → Type 0
Joins inner outer p =
    (i : InputTuple) × (o : InputTuple) × In i inner
    × In o outer
    × (i.key ≡ o.key)
    × (p ≡ record { inner_tid = i.tid; outer_tid = o.tid })

find_first-In :
    (inner : List InputTuple) (i : InputTuple)
    → HasDistinctKeys inner
    → In i inner
    → find_first i.key inner ≡ some i.tid
find_first-In [] i distinct m = absurd m
find_first-In (t ∷ ts) i (apart, distinct) (inl e) = rw (e, ==_refl t.key) refl
find_first-In (t ∷ ts) i (apart, distinct) (inr m) =
    let other : i.key ≢ t.key = apart i m in
    let skip : (t.key == i.key) ≡ false = ground (arith) in rw skip (find_first-In ts i distinct m)

find_first-found :
    (inner : List InputTuple) (q : ℕ) (tid : Tid)
    → find_first q inner ≡ some tid
    → (i : InputTuple) × In i inner × (i.key ≡ q) × (i.tid ≡ tid)
find_first-found [] q tid e = absurd (ground arith)
find_first-found (t ∷ ts) q tid e = elim (ℕ_discrete t.key q) [
  | yes same ↦ (t, inl refl, same, ground arith)
  | no other ↦ let (i, m, k, s) = find_first-found ts q tid (ground arith) in (i, inr m, k, s)
]

with_outer-found :
    (found : Option Tid) (outer : Tid) (p : ResultPair)
    → In p (with_outer found outer)
    → (tid : Tid) × (found ≡ some tid) × (p ≡ record { inner_tid = tid; outer_tid = outer })
with_outer-found none outer p m = absurd m
with_outer-found (some tid) outer p (inl e) = (tid, refl, e)
with_outer-found (some tid) outer p (inr m) = absurd m

-- A row's answer.
with_outer-Joins :
    (inner : List InputTuple) (o : InputTuple) (p : ResultPair)
    → In p (with_outer (find_first o.key inner) o.tid)
    → Joins inner (o ∷ []) p
with_outer-Joins inner o p m =
    let (tid, found, e) = with_outer-found (find_first o.key inner) o.tid p m in
    let (i, mem, k, s) = find_first-found inner o.key tid found in
    (i, o, mem, inl refl, k, e ∙ ap (λ t. record { inner_tid = t; outer_tid = o.tid }) (sym s))

Joins-with_outer :
    (inner : List InputTuple) (o : InputTuple) (p : ResultPair) (i : InputTuple)
    → HasDistinctKeys inner
    → In i inner
    → i.key ≡ o.key
    → p ≡ record { inner_tid = i.tid; outer_tid = o.tid }
    → In p (with_outer (find_first o.key inner) o.tid)
Joins-with_outer inner o p i distinct m k e =
    let found : find_first o.key inner ≡ some i.tid =
      ap (λ q. find_first q inner) (sym k) ∙ find_first-In inner i distinct m in
    rw found (inl e)

-- The answer of a session has exactly the pairs of an inner and an outer row with one key, if no
-- two inner rows have one key.
join_rows-Joins :
    (inner outer : List InputTuple) (p : ResultPair)
    → HasDistinctKeys inner
    → In p (join_rows inner outer) ↔ Joins inner outer p
join_rows-Joins inner [] p distinct = (λ m. absurd m, λ (i, o, mi, mo, k, e). absurd mo)
join_rows-Joins inner (t ∷ ts) p distinct =
    let here = with_outer (find_first t.key inner) t.tid in
    let split = In-append p here (join_rows inner ts) in
    (
      λ m. elim (split.0 m) [
        | inl l ↦
            let (i, o, mi, mo, k, e) = with_outer-Joins inner t p l in
            (i, o, mi, elim mo [ inl same ↦ inl same | inr no_one ↦ absurd no_one ], k, e)
        | inr r ↦
            let (i, o, mi, mo, k, e) = (join_rows-Joins inner ts p distinct).0 r in
            (i, o, mi, inr mo, k, e)
      ],
      λ (i, o, mi, mo, k, e). elim mo [
        | inl same ↦ split.1 (
            inl (
              Joins-with_outer inner t p i distinct mi (k ∙ ap (λ u. u.key) same)
                (e ∙ ap (λ u. record { inner_tid = i.tid; outer_tid = u.tid }) same)))
        | inr later ↦
            split.1 (inr ((join_rows-Joins inner ts p distinct).1 (i, o, mi, later, k, e)))
      ],
    )

-- A session of algorithm A whose frames have all arrived, whose inner rows have different keys and
-- whose table takes them, ends normally and sends pairs such that a pair is sent exactly if it
-- joins an inner and an outer row with one key; the other frames that it sends are ACK, STATUS,
-- DEBUG and TIMING frames. The numbers of rows, the key type and the session id have the widths of
-- their fields in CONFIGURE, the rows have values of their widths, every frame has 1 to 256 rows
-- (RX_BUF_TUPLES), and there are at most 1,000,000 outer frames.
pub run_session-Joins :
    (io : Inputs) (k : State) (key_type id : ℕ) (inner outer : List (List InputTuple)) (rest : Rx)
    (full : LinearHashTable)
    → k.rx ≡ sent (session_bytes key_type id inner outer) rest
    → IsJoin key_type id inner outer (Linear.reset k.ht) full
    → HasDistinctKeys (rows_of inner)
    → (k' : State) × (pairs : List ResultPair) × (run_session io k ≡ running k')
      × Emits k.tx pairs k'.tx
      × ((p : ResultPair) → In p pairs ↔ Joins (rows_of inner) (rows_of outer) p)
run_session-Joins io k key_type id inner outer rest full left h distinct =
    let (k', run, a) = run_session-Answers io k key_type id inner outer rest full left h in
    (
      k',
      join_rows (rows_of inner) (rows_of outer),
      run,
      a.emits,
      λ p. join_rows-Joins (rows_of inner) (rows_of outer) p distinct,
    )
