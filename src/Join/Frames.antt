-- ===== src/Join/Frames.antt =====
-- Runs that go on, the parts of the state that a phase keeps, and the frames of one side.
use fpga_postgresql_hash_joi.Types.{rx_buf_tuples, MsgType, InputTuple}
use fpga_postgresql_hash_joi.Base.{
  ℕ, ◌≤◌, ◌<◌, ◌≡◌, refl, ◌∙◌, Bool, some, List, [], ◌∷◌, ◌++◌, length, All,
}
use fpga_postgresql_hash_joi.Linear.{LinearHashTable, build, build_all}
use fpga_postgresql_hash_joi.Linear.Refine.{build_all-cons, build_all_step}
use fpga_postgresql_hash_joi.Kernel.State.{State, Outcome, running}
use fpga_postgresql_hash_joi.Host.Serializer.{serialize_batch}
use fpga_postgresql_hash_joi.RoundTrip.ToBoard.{IsTuple}

-- The run ends normally, in a state with the property.
abbrev pub Runs : Outcome → (State → Type 0) → Type 0
Runs o P = (k : State) × (o ≡ running k) × P k

-- What neither phase changes.
pub record Fixed : Type 0 where
  pub algorithm : ℕ
  pub keytype : ℕ
  pub inner_total : ℕ
  pub outer_total : ℕ
  pub session_id : ℕ
  pub session_done : Bool

abbrev pub fixed : State → Fixed
fixed k = record {
  algorithm = k.algorithm;
  keytype = k.keytype;
  inner_total = k.inner_total;
  outer_total = k.outer_total;
  session_id = k.session_id;
  session_done = k.session_done;
}

abbrev pub rows_of : List (List InputTuple) → List InputTuple
rows_of [] = []
rows_of (ts ∷ frames) = ts ++ rows_of frames

-- A frame's rows: at least one, as many as the kernel's buffer holds, each as the wire holds it.
abbrev pub IsBatch : ℕ → List InputTuple → Type 0
IsBatch key_type ts = (0 < length ts) × (length ts ≤ rx_buf_tuples) × All (IsTuple key_type) ts

abbrev pub frames_bytes : ℕ → MsgType → List (List InputTuple) → List ℕ
frames_bytes key_type type [] = []
frames_bytes key_type type (ts ∷ frames) =
    serialize_batch key_type type ts rx_buf_tuples ++ frames_bytes key_type type frames

pub build_all-append :
    (xs ys : List InputTuple) (ht ht' : LinearHashTable)
    → build_all ht (xs ++ ys) ≡ some ht'
    → (mid : LinearHashTable) × (build_all ht xs ≡ some mid) × (build_all mid ys ≡ some ht')
build_all-append [] ys ht ht' run = (ht, unfold build_all in refl, run)
build_all-append (t ∷ xs) ys ht ht' run =
    let (fine, rest) = build_all-cons t (xs ++ ys) ht run in
    let (mid, first, second) = build_all-append xs ys (build ht t.key t.tid).table ht' rest in
    (mid, build_all_step t xs ht fine ∙ first, second)
