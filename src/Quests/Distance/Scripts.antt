-- ===== src/Quests/Distance/Scripts.antt =====
-- The least number of edits that turn one text into another, for the two rows of
-- crates/nectarpilot-core/src/quests.rs.
use roblox.Prelude.{
  ℕ, ◌+◌, ◌≤◌, min, ◌≡◌, refl, sym, ap, ◌∙◌, subst, ◌⊎◌, inl, inr, Bool, true, false, Text, List,
  [], ◌∷◌, ◌++◌, length, if◌then◌else◌, ◌==◌, arith,
}
use roblox.Quests.Distance.{substitution}

-- One character of a change from a text to another.
pub data Edit : Type 0 where
  keep : ℕ → Edit
  substitute : (old new : ℕ) → Edit
  delete : ℕ → Edit
  insert : ℕ → Edit

abbrev pub before : List Edit → Text
before [] = []
before (keep c ∷ e) = c ∷ before e
before (substitute c d ∷ e) = c ∷ before e
before (delete c ∷ e) = c ∷ before e
before (insert d ∷ e) = before e

abbrev pub after : List Edit → Text
after [] = []
after (keep c ∷ e) = c ∷ after e
after (substitute c d ∷ e) = d ∷ after e
after (delete c ∷ e) = after e
after (insert d ∷ e) = d ∷ after e

-- How many characters it changes.
abbrev pub cost : List Edit → ℕ
cost [] = 0
cost (keep c ∷ e) = cost e
cost (_ ∷ e) = 1 + cost e

-- The distance of two reversed texts, from their last characters.
unfoldable pub distance : Text → Text → ℕ
distance [] t = length t
distance (c ∷ s) [] = 1 + length s
distance (c ∷ s) (d ∷ t) =
    min (min (distance (c ∷ s) t + 1) (distance s (d ∷ t) + 1)) (distance s t + substitution c d)

pub distance_nil : (s : Text) → distance s [] ≡ length s
unfolding distance
distance_nil [] = refl
distance_nil (c ∷ s) = omega arith

distance_delete : (c : ℕ) (s t : Text) → distance (c ∷ s) t ≤ 1 + distance s t
unfolding distance
distance_delete c s [] = ground (arith, distance_nil s)
distance_delete c s (d ∷ t) = omega arith

distance_insert : (d : ℕ) (s t : Text) → distance s (d ∷ t) ≤ 1 + distance s t
unfolding distance
distance_insert d [] t = omega arith
distance_insert d (c ∷ s) t = omega arith

pub distance-le-cost : (e : List Edit) → distance (before e) (after e) ≤ cost e
unfolding distance
distance-le-cost [] = omega arith
distance-le-cost (keep c ∷ e) = ground (arith, distance-le-cost e)
distance-le-cost (substitute c d ∷ e) = ground (arith, distance-le-cost e)
distance-le-cost (delete c ∷ e) =
    ground (arith, distance_delete c (before e) (after e), distance-le-cost e)
distance-le-cost (insert d ∷ e) =
    ground (arith, distance_insert d (before e) (after e), distance-le-cost e)

-- A change from one text to the other at exactly that cost.
pub record Script (s t : Text) (n : ℕ) : Type 0 where
  pub edits : List Edit
  pub from : before edits ≡ s
  pub to : after edits ≡ t
  pub costs : cost edits ≡ n

Script-insert : (d : ℕ) (s t : Text) (n : ℕ) → Script s t n → Script s (d ∷ t) (1 + n)
Script-insert d s t n x = record {
  edits = insert d ∷ x.edits;
  from = x.from;
  to = ap (λ u. d ∷ u) x.to;
  costs = ap (λ k. 1 + k) x.costs;
}

Script-delete : (c : ℕ) (s t : Text) (n : ℕ) → Script s t n → Script (c ∷ s) t (1 + n)
Script-delete c s t n x = record {
  edits = delete c ∷ x.edits;
  from = ap (λ u. c ∷ u) x.from;
  to = x.to;
  costs = ap (λ k. 1 + k) x.costs;
}

eq_sound : (c d : ℕ) → (c == d) ≡ true → c ≡ d
eq_sound c d h = ground arith

Script-substitute :
    (c d : ℕ) (s t : Text) (n : ℕ) (same : Bool)
    → (c == d) ≡ same
    → Script s t n
    → Script (c ∷ s) (d ∷ t) (n + (if same then 0 else 1))
Script-substitute c d s t n true h x = record {
  edits = keep c ∷ x.edits;
  from = ap (λ u. c ∷ u) x.from;
  to = ap (λ u. c ∷ u) x.to ∙ ap (λ e. e ∷ t) (eq_sound c d h);
  costs = x.costs ∙ omega arith;
}
Script-substitute c d s t n false h x = record {
  edits = substitute c d ∷ x.edits;
  from = ap (λ u. c ∷ u) x.from;
  to = ap (λ u. d ∷ u) x.to;
  costs = ap (λ k. 1 + k) x.costs ∙ omega arith;
}

min-cases : (m n : ℕ) → (min m n ≡ m) ⊎ (min m n ≡ n)
min-cases m n = ground arith

Script-min : (s t : Text) (m n : ℕ) → Script s t m → Script s t n → Script s t (min m n)
Script-min s t m n x y = elim (min-cases m n) [
  | inl e ↦ subst (Script s t) (sym e) x
  | inr e ↦ subst (Script s t) (sym e) y
]

pub distance-Script : (s t : Text) → Script s t (distance s t)
unfolding distance
distance-Script [] [] = record { edits = []; from = refl; to = refl; costs = refl }
distance-Script [] (d ∷ t) =
    subst (Script [] (d ∷ t)) (omega arith) (Script-insert d [] t (length t) (distance-Script [] t))
distance-Script (c ∷ s) [] =
    Script-delete c s [] (length s) (subst (Script s []) (distance_nil s) (distance-Script s []))
distance-Script (c ∷ s) (d ∷ t) =
    let Q = Script (c ∷ s) (d ∷ t) in
    let insertion = Script-insert d (c ∷ s) t _ (distance-Script (c ∷ s) t) in
    let deletion = Script-delete c s (d ∷ t) _ (distance-Script s (d ∷ t)) in
    Script-min (c ∷ s) (d ∷ t) _ _
      (Script-min (c ∷ s) (d ∷ t) _ _ (subst Q (omega arith) insertion)
        (subst Q (omega arith) deletion))
      (Script-substitute c d s t _ (c == d) refl (distance-Script s t))

-- The first list reversed before the second.
abbrev pub onto {ℓ} : {A : Type ℓ} → List A → List A → List A
onto [] l = l
onto (a ∷ k) l = onto k (a ∷ l)

onto-onto : {A : Type 0} (k l r : List A) → onto (onto k l) r ≡ onto l (k ++ r)
onto-onto [] l r = refl
onto-onto (a ∷ k) l r = onto-onto k (a ∷ l) r

append_nil : {A : Type 0} (l : List A) → l ++ [] ≡ l
append_nil [] = refl
append_nil (a ∷ l) = ap (λ k. a ∷ k) (append_nil l)

pub onto_twice : {A : Type 0} (l : List A) → onto (onto l []) [] ≡ l
onto_twice l = onto-onto l [] [] ∙ append_nil l

pub before-onto : (e f : List Edit) → before (onto e f) ≡ onto (before e) (before f)
before-onto [] f = refl
before-onto (keep c ∷ e) f = before-onto e (keep c ∷ f)
before-onto (substitute c d ∷ e) f = before-onto e (substitute c d ∷ f)
before-onto (delete c ∷ e) f = before-onto e (delete c ∷ f)
before-onto (insert d ∷ e) f = before-onto e (insert d ∷ f)

pub after-onto : (e f : List Edit) → after (onto e f) ≡ onto (after e) (after f)
after-onto [] f = refl
after-onto (keep c ∷ e) f = after-onto e (keep c ∷ f)
after-onto (substitute c d ∷ e) f = after-onto e (substitute c d ∷ f)
after-onto (delete c ∷ e) f = after-onto e (delete c ∷ f)
after-onto (insert d ∷ e) f = after-onto e (insert d ∷ f)

pub cost-onto : (e f : List Edit) → cost (onto e f) ≡ cost e + cost f
cost-onto [] f = omega arith
cost-onto (keep c ∷ e) f = cost-onto e (keep c ∷ f)
cost-onto (substitute c d ∷ e) f = cost-onto e (substitute c d ∷ f) ∙ omega arith
cost-onto (delete c ∷ e) f = cost-onto e (delete c ∷ f) ∙ omega arith
cost-onto (insert d ∷ e) f = cost-onto e (insert d ∷ f) ∙ omega arith
