-- ===== src/Join/Heard/Rounds.antt =====
-- The client's rounds hear the frames of the board one after the other.

use fpga_postgresql_hash_joi.Base.{
  ℕ, ◌≡◌, refl, sym, ap, ◌∙◌, ◌⊎◌, inl, inr, List, [], ◌∷◌, ◌++◌, All,
}
use fpga_postgresql_hash_joi.Types.{MsgType, ResultPair, StatusPayload}
use mathlib.Core.Path.{subst}
use mathlib.Core.List.{append_assoc, append-nil}
use fpga_postgresql_hash_joi.Host.Transport.{Transport, Result, ok, throw}
use fpga_postgresql_hash_joi.Host.Outcome.{OnOk, OnOk-mono}
use fpga_postgresql_hash_joi.Host.Metrics.{count_sent}
use fpga_postgresql_hash_joi.Host.Client.{AckWaitKind, FpgaClient, collect_until_ack, send_counted}
use fpga_postgresql_hash_joi.RoundTrip.FromBoard.{bytes}
use fpga_postgresql_hash_joi.Join.Output.{BoardFrame, tx_frames, pairs_of}
use fpga_postgresql_hash_joi.Join.Heard.{
  Hears, IsHeard, Says, pairs_of-append, collect_until_ack-Heard,
}

pub Says-behind : (s : StatusPayload) (xs ys : List BoardFrame) → Says s ys → Says s (xs ++ ys)
Says-behind s xs ys h = record {
  earlier = xs ++ h.earlier;
  saying = h.saying;
  later = h.later;
  read_lem = ap (λ r. xs ++ r) h.read_lem ∙ sym (append_assoc xs h.earlier (h.saying ∷ h.later));
  status_lem = h.status_lem;
}

pub Says-before : (s : StatusPayload) (xs ys : List BoardFrame) → Says s xs → Says s (xs ++ ys)
Says-before s xs ys h = record {
  earlier = h.earlier;
  saying = h.saying;
  later = h.later ++ ys;
  read_lem = ap (λ r. r ++ ys) h.read_lem ∙ append_assoc h.earlier (h.saying ∷ h.later) ys;
  status_lem = h.status_lem;
}

pub either_said :
    (s₀ s₁ s₂ : StatusPayload) (xs ys : List BoardFrame)
    → ((s₁ ≡ s₀) ⊎ Says s₁ xs)
    → ((s₂ ≡ s₁) ⊎ Says s₂ ys)
    → (s₂ ≡ s₀) ⊎ Says s₂ (xs ++ ys)
either_said s₀ s₁ s₂ xs ys p (inr q) = inr (Says-behind s₂ xs ys q)
either_said s₀ s₁ s₂ xs ys (inl p) (inl q) = inl (q ∙ p)
either_said s₀ s₁ s₂ xs ys (inr p) (inl q) =
    inr (subst (λ s. Says s (xs ++ ys)) (sym q) (Says-before s₁ xs ys p))

module _ {T : Type 0} {tr : Transport T} (h : Hears tr) where
  -- The frames `fs` have arrived, and are not yet read.
  abbrev pub Waits : List BoardFrame → FpgaClient T → Type 0
  Waits fs c = h.delivers.pending c.transport ≡ bytes (tx_frames fs)

  -- Some frames are read. Their pairs are added to the results, and the last acknowledgement is the
  -- one from before, or one of them.
  pub record Follows (fs : List BoardFrame) (results : List ResultPair) (s : StatusPayload)
      (results' : List ResultPair) (s' : StatusPayload) (c' : FpgaClient T) : Type 0 where
    pub read : List BoardFrame
    pub rest : List BoardFrame
    pub frames_lem : fs ≡ read ++ rest
    pub pairs_lem : results' ≡ results ++ pairs_of read
    pub last : (s' ≡ s) ⊎ Says s' read
    pub waits : Waits rest c'

  pub Follows-none :
      (fs : List BoardFrame) (results : List ResultPair) (s : StatusPayload) (c : FpgaClient T)
      → Waits fs c
      → Follows fs results s results s c
  Follows-none fs results s c w = record {
    read = [];
    rest = fs;
    frames_lem = refl;
    pairs_lem = sym (append-nil results);
    last = inl refl;
    waits = w;
  }

  pub Follows-trans :
      (fs : List BoardFrame) (o₀ o₁ o₂ : List ResultPair) (s₀ s₁ s₂ : StatusPayload)
      (c₁ c₂ : FpgaClient T) (a : Follows fs o₀ s₀ o₁ s₁ c₁)
      → Follows a.rest o₁ s₁ o₂ s₂ c₂
      → Follows fs o₀ s₀ o₂ s₂ c₂
  Follows-trans fs o₀ o₁ o₂ s₀ s₁ s₂ c₁ c₂ a b = record {
    read = a.read ++ b.read;
    rest = b.rest;
    frames_lem =
        a.frames_lem ∙ ap (λ r. a.read ++ r) b.frames_lem ∙ sym (append_assoc a.read b.read b.rest);
    pairs_lem =
        b.pairs_lem
        ∙ ap (λ o. o ++ pairs_of b.read) a.pairs_lem
        ∙ append_assoc o₀ (pairs_of a.read) (pairs_of b.read)
        ∙ ap (λ r. o₀ ++ r) (sym (pairs_of-append a.read b.read));
    last = either_said s₀ s₁ s₂ a.read b.read a.last b.last;
    waits = b.waits;
  }

  -- What was said in the first part is said in both together.
  pub said-Follows-trans :
      (fs : List BoardFrame) (o₀ o₁ o₂ : List ResultPair) (s₀ s₁ s₂ s : StatusPayload)
      (c₁ c₂ : FpgaClient T) (a : Follows fs o₀ s₀ o₁ s₁ c₁) (b : Follows a.rest o₁ s₁ o₂ s₂ c₂)
      → Says s a.read
      → Says s (Follows-trans fs o₀ o₁ o₂ s₀ s₁ s₂ c₁ c₂ a b).read
  unfolding Follows-trans
  said-Follows-trans fs o₀ o₁ o₂ s₀ s₁ s₂ s c₁ c₂ a b says = Says-before s a.read b.read says

  pub send_counted-Waits :
      (bytes : List ℕ) (msg : MsgType) (fs : List BoardFrame) (c : FpgaClient T)
      → Waits fs c
      → OnOk (send_counted tr bytes msg c) (λ _ c'. Waits fs c')
  unfolding send_counted
  send_counted-Waits bs msg fs c w = through (tr.send bs c.transport) (h.quiet bs c.transport)
    where
      through :
          (q : Result T (Unit {0}))
          → OnOk q (λ _ t'. h.delivers.pending t' ≡ h.delivers.pending c.transport)
          → OnOk
              (elim q as (λ _. Result (FpgaClient T) (Unit {0})) [
                | ok _ t ↦ ok tt (record c { transport = t; metrics = count_sent bs msg c.metrics })
                | throw e t ↦ throw e (record c { transport = t })
              ])
              (λ _ c'. Waits fs c')
      through (ok _ t) k = k ∙ w
      through (throw e t) k = tt

  -- A wait reads frames, the acknowledgement last.
  pub collect-Follows :
      (n : ℕ) (kind : AckWaitKind) (out : List ResultPair) (s : StatusPayload)
      (fs : List BoardFrame) (c : FpgaClient T)
      → All IsHeard fs
      → Waits fs c
      → OnOk
          (collect_until_ack tr n kind out c)
          (λ r c'. (f : Follows fs out s r.1 r.0 c') × Says r.0 f.read)
  collect-Follows n kind out s fs c heard w =
      OnOk-mono (collect_until_ack tr n kind out c) _ _
        (λ r c' g. (
          record {
            read = g.read;
            rest = g.rest;
            frames_lem = g.frames_lem;
            pairs_lem = g.pairs_lem;
            last = inr g.says;
            waits = g.left;
          },
          g.says,
        ))
        (collect_until_ack-Heard tr h.delivers n kind out fs c heard w)
