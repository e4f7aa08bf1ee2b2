-- ===== src/Join/Result.antt =====
-- What a session of algorithm A answers: each outer row with the first inner row that has its key.
use fpga_postgresql_hash_joi.Types.{Tid, InputTuple, ResultPair}
use fpga_postgresql_hash_joi.Base.{
  ◌≤◌, ◌≡◌, refl, sym, ap, ◌∙◌, Option, none, some, List, [], ◌∷◌, ◌++◌, arith, length,
  length-append,
}
use mathlib.Core.List.{append_assoc}
use fpga_postgresql_hash_joi.Linear.Refine.{find_first}

abbrev pub with_outer : Option Tid → Tid → List ResultPair
with_outer none outer = []
with_outer (some inner) outer = record { inner_tid = inner; outer_tid = outer } ∷ []

abbrev pub join_rows : List InputTuple → List InputTuple → List ResultPair
join_rows inner [] = []
join_rows inner (t ∷ ts) = with_outer (find_first t.key inner) t.tid ++ join_rows inner ts

pub join_rows-append :
    (inner xs ys : List InputTuple)
    → join_rows inner (xs ++ ys) ≡ join_rows inner xs ++ join_rows inner ys
join_rows-append inner [] ys = refl
join_rows-append inner (t ∷ xs) ys =
    ap (λ r. with_outer (find_first t.key inner) t.tid ++ r) (join_rows-append inner xs ys)
    ∙ sym (append_assoc (with_outer (find_first t.key inner) t.tid) (join_rows inner xs) _)

pub length-with_outer : (found : Option Tid) (outer : Tid) → length (with_outer found outer) ≤ 1
length-with_outer none outer = omega arith
length-with_outer (some inner) outer = omega arith

pub length-join_rows :
    (inner outer : List InputTuple) → length (join_rows inner outer) ≤ length outer
length-join_rows inner [] = omega arith
length-join_rows inner (t ∷ ts) = omega (
  arith,
  length-append (with_outer (find_first t.key inner) t.tid) (join_rows inner ts),
  length-with_outer (find_first t.key inner) t.tid,
  length-join_rows inner ts,
)
