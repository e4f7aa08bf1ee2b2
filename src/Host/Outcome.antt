-- ===== src/Host/Outcome.antt =====
-- What holds of a call that returns, and how it is carried through a chain of calls.

use fpga_postgresql_hash_joi.Base.{◌≡◌, refl, Bool, true, false, Option, none, some, if◌then◌else◌}
use mathlib.Core.Path.{subst}
use fpga_postgresql_hash_joi.Host.Transport.{Result, Act, ◌>>=◌, ok, throw}

-- The property of the value and the state, if the call returns.
abbrev pub OnOk : {S A : Type 0} → Result S A → (A → S → Type 0) → Type 0
OnOk (ok a s) P = P a s
OnOk (throw e s) P = Unit

pub OnOk-bind :
    {S A B : Type 0} (m : Act S A) (f : A → Act S B) (s : S) (P : A → S → Type 0)
    (Q : B → S → Type 0)
    → OnOk (m s) P
    → ((a : A) (s' : S) → P a s' → OnOk (f a s') Q)
    → OnOk ((m >>= f) s) Q
OnOk-bind m f s P Q first next = through (m s) first
  where
    through :
        (r : Result _ _) → OnOk r P → OnOk (elim r [ ok a s' ↦ f a s' | throw e s' ↦ throw e s' ]) Q
    through (ok a s') h = next a s' h
    through (throw e s') h = tt

pub OnOk-mono :
    {S A : Type 0} (r : Result S A) (P Q : A → S → Type 0)
    → ((a : A) (s : S) → P a s → Q a s)
    → OnOk r P
    → OnOk r Q
OnOk-mono (ok a s) P Q f h = f a s h
OnOk-mono (throw e s) P Q f h = tt

pub OnOk-eq :
    {S A : Type 0} (r : Result S A) (P : A → S → Type 0) (a : A) (s : S)
    → OnOk r P
    → r ≡ ok a s
    → P a s
OnOk-eq r P a s h e = subst (λ q. OnOk q P) e h

pub OnOk-all :
    {S A : Type 0} (r : Result S A) (P : A → S → Type 0) → ((a : A) (s : S) → P a s) → OnOk r P
OnOk-all (ok a s) P h = h a s
OnOk-all (throw e s) P h = tt

pub OnOk-if :
    {S A : Type 0} (b : Bool) (x y : Act S A) (s : S) (P : A → S → Type 0)
    → (b ≡ true → OnOk (x s) P)
    → (b ≡ false → OnOk (y s) P)
    → OnOk ((if b then x else y) s) P
OnOk-if true x y s P f g = f refl
OnOk-if false x y s P f g = g refl

pub OnOk-Bool :
    {S A : Type 0} (b : Bool) (x y : Result S A) (P : A → S → Type 0)
    → (b ≡ true → OnOk x P)
    → (b ≡ false → OnOk y P)
    → OnOk (elim b [ true ↦ x | false ↦ y ]) P
OnOk-Bool true x y P f g = f refl
OnOk-Bool false x y P f g = g refl

pub OnOk-Option :
    {S A B : Type 0} (o : Option B) (x : Result S A) (y : B → Result S A) (P : A → S → Type 0)
    → (o ≡ none → OnOk x P)
    → ((b : B) → o ≡ some b → OnOk (y b) P)
    → OnOk (elim o [ none ↦ x | some b ↦ y b ]) P
OnOk-Option none x y P f g = f refl
OnOk-Option (some b) x y P f g = g b refl

pub OnOk-Option_act :
    {S A B : Type 0} (o : Option B) (x : Act S A) (y : B → Act S A) (s : S) (P : A → S → Type 0)
    → (o ≡ none → OnOk (x s) P)
    → ((b : B) → o ≡ some b → OnOk (y b s) P)
    → OnOk ((elim o as (λ _. Act S A) [ none ↦ x | some b ↦ y b ]) s) P
OnOk-Option_act none x y s P f g = f refl
OnOk-Option_act (some b) x y s P f g = g b refl

-- A last step that changes the state alone.
pub OnOk-after :
    {S A : Type 0} (r : Result S A) (g : S → S) (P Q : A → S → Type 0)
    → OnOk r P
    → ((a : A) (s : S) → P a s → Q a (g s))
    → OnOk (elim r [ ok a s ↦ ok a (g s) | throw e s ↦ throw e (g s) ]) Q
OnOk-after (ok a s) g P Q h f = f a s h
OnOk-after (throw e s) g P Q h f = tt

pub OnOk-test :
    {S A : Type 0} (b : Bool) (x y : Result S A) (P : A → S → Type 0)
    → (b ≡ true → OnOk x P)
    → (b ≡ false → OnOk y P)
    → OnOk (if b then x else y) P
OnOk-test true x y P f g = f refl
OnOk-test false x y P f g = g refl

-- The property of the state, whether the call returns or throws.
abbrev pub Always : {S A : Type 0} → Result S A → (S → Type 0) → Type 0
Always (ok a s) P = P s
Always (throw e s) P = P s

pub Always-bind :
    {S A B : Type 0} (m : Act S A) (f : A → Act S B) (s : S) (P Q : S → Type 0)
    → ((s' : S) → P s' → Q s')
    → Always (m s) P
    → ((a : A) (s' : S) → P s' → Always (f a s') Q)
    → Always ((m >>= f) s) Q
Always-bind m f s P Q weaken first next = through (m s) first
  where
    through :
        (r : Result _ _)
        → Always r P
        → Always (elim r [ ok a s' ↦ f a s' | throw e s' ↦ throw e s' ]) Q
    through (ok a s') h = next a s' h
    through (throw e s') h = weaken s' h

pub Always-mono :
    {S A : Type 0} (r : Result S A) (P Q : S → Type 0)
    → ((s : S) → P s → Q s)
    → Always r P
    → Always r Q
Always-mono (ok a s) P Q f h = f s h
Always-mono (throw e s) P Q f h = f s h

pub Always-all :
    {S A B : Type 0} (r : Result S A) (P : B → S → Type 0)
    → ((b : B) → Always r (P b))
    → Always r (λ s. (b : B) → P b s)
Always-all (ok a s) P h = h
Always-all (throw e s) P h = h

pub Always-OnOk :
    {S A : Type 0} (r : Result S A) (P : S → Type 0) → Always r P → OnOk r (λ _ s. P s)
Always-OnOk (ok a s) P h = h
Always-OnOk (throw e s) P h = tt

pub Always-if :
    {S A : Type 0} (b : Bool) (x y : Result S A) (P : S → Type 0)
    → (b ≡ true → Always x P)
    → (b ≡ false → Always y P)
    → Always (if b then x else y) P
Always-if true x y P f g = f refl
Always-if false x y P f g = g refl

pub Always-Bool :
    {S A : Type 0} (b : Bool) (x y : Result S A) (P : S → Type 0)
    → (b ≡ true → Always x P)
    → (b ≡ false → Always y P)
    → Always (elim b [ true ↦ x | false ↦ y ]) P
Always-Bool true x y P f g = f refl
Always-Bool false x y P f g = g refl

pub OnOk-both :
    {S A : Type 0} (r : Result S A) (P Q : A → S → Type 0)
    → OnOk r P
    → OnOk r Q
    → OnOk r (λ a s. P a s × Q a s)
OnOk-both (ok a s) P Q h k = (h, k)
OnOk-both (throw e s) P Q h k = tt

-- A call that returns is the call of its value and state.
pub OnOk-self : {S A : Type 0} (r : Result S A) → OnOk r (λ a s. r ≡ ok a s)
OnOk-self (ok a s) = refl
OnOk-self (throw e s) = tt
