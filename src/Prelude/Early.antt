-- ===== src/Prelude/Early.antt =====
-- Statements that read and change a state and may return early from the function that they stand
-- in, with a rule for each way of joining them. A triple says what holds where the statement goes on
-- and what holds where the function has returned.
use roblox.Prelude.Outcome.{Result, ok, err}

abbrev pub Early : Type 0 → Type 0 → Type 0 → Type 0
Early S E A = S → Result E A × S

abbrev pub pure : {S E A : Type 0} → A → Early S E A
pure a s = (ok a, s)

-- `return e;`
abbrev pub leave : {S E A : Type 0} → E → Early S E A
leave e s = (err e, s)

abbrev pub and_then : {S E A B : Type 0} → Result E A → (A → Early S E B) → Early S E B
and_then (ok a) f = f a
and_then (err e) f = leave e

infixl 5 ◌>>=◌ ◌>>◌
abbrev pub ◌>>=◌ : {S E A B : Type 0} → Early S E A → (A → Early S E B) → Early S E B
m >>= f = λ s. and_then (m s).0 f (m s).1

abbrev pub ◌>>◌ : {S E B : Type 0} → Early S E (Unit {0}) → Early S E B → Early S E B
m >> k = m >>= λ _. k

abbrev pub Post : {S E A : Type 0} → (A → S → Type 0) → (E → S → Type 0) → Result E A × S → Type 0
Post Q R (ok a, s) = Q a s
Post Q R (err e, s) = R e s

pub record Triple {S E A : Type 0} (P : S → Type 0) (m : Early S E A) (Q : A → S → Type 0)
    (R : E → S → Type 0) : Type 0 where
  pub run : (s : S) → P s → Post Q R (m s)

module _ {S E A : Type 0} where
  pub weaken :
      {P P' : S → Type 0} (m : Early S E A) {Q Q' : A → S → Type 0} {R R' : E → S → Type 0}
      → ((s : S) → P' s → P s)
      → ((a : A) (s : S) → Q a s → Q' a s)
      → ((e : E) (s : S) → R e s → R' e s)
      → Triple P m Q R
      → Triple P' m Q' R'
  weaken m {Q} {Q'} {R} {R'} before after out t = record {
    run = λ s p. go (m s) (t.run s (before s p));
  }
    where
      go : (r : Result E A × S) → Post Q R r → Post Q' R' r
      go (ok a, s) h = after a s h
      go (err e, s) h = out e s h

  pub bind_rule :
      {B : Type 0} {P : S → Type 0} (m : Early S E A) (f : A → Early S E B) {Q : A → S → Type 0}
      {Q' : B → S → Type 0} {R : E → S → Type 0}
      → Triple P m Q R
      → ((a : A) → Triple (Q a) (f a) Q' R)
      → Triple P (m >>= f) Q' R
  bind_rule {B} m f {Q} {Q'} {R} first next = record { run = λ s p. go (m s) (first.run s p) }
    where
      go : (r : Result E A × S) → Post Q R r → Post Q' R (and_then r.0 f r.1)
      go (ok a, s) h = (next a).run s h
      go (err e, s) h = h

-- What a statement keeps whether it goes on or returns.
abbrev pub Kept : {S E A : Type 0} → (S → Type 0) → Early S E A → Type 0
Kept I m = Triple I m (λ _. I) (λ _. I)

pub kept_either_way :
    {S E A : Type 0} (I : S → Type 0) (r : Result E A) (s : S) → I s → Post (λ _. I) (λ _. I) (r, s)
kept_either_way I (ok a) s h = h
kept_either_way I (err e) s h = h

pub kept_after :
    {S E A : Type 0} (I : S → Type 0) (r : Result E A × S) → Post (λ _. I) (λ _. I) r → I r.1
kept_after I (ok a, s) h = h
kept_after I (err e, s) h = h
