-- ===== src/SessionPlan/Trust.antt =====
-- What the lookups of crates/nectarpilot-core/src/session.rs find, and what its loops push.
use roblox.Prelude.{
  ◌≤◌, ◌≡◌, refl, sym, subst, ◌⊎◌, true, Text, text_eq→eq, eq_ignore_ascii_case,
  eq_ignore_ascii_case_refl, Option, none, some, List, [], ◌∷◌, ◌++◌, length, Result, ok, err,
  arith,
}
use roblox.Contracts.Profile.{TextMap, get}
use roblox.SessionPlan.Assets.{match_text}
use roblox.SessionPlan.{SessionPlanError, find_ignoring_case, push_all, within_bound, exact_or_find}

-- The user approved this digest for this asset.
abbrev pub Entry : Text → Text → TextMap Text → Type 0
Entry key sha [] = ⊥
Entry key sha ((k, v) ∷ rest) = ((key ≡ k) × (sha ≡ v)) ⊎ Entry key sha rest

pub get-Entry :
    (key : Text) (m : TextMap Text) {sha : Text} → get key m ≡ some sha → Entry key sha m
unfolding get
get-Entry key ((k, v) ∷ rest) {sha} h =
    ground (arith, text_eq→eq key k, get-Entry key rest {sha = sha})
get-Entry key [] h = ground arith

-- A file that one of the arms of an allowlist names.
abbrev pub IsListed : {A : Type 0} → A → List (List Text × A) → Type 0
IsListed a [] = ⊥
IsListed a ((names, b) ∷ rest) = (a ≡ b) ⊎ IsListed a rest

pub match_text-IsListed :
    {A : Type 0} (s : Text) (arms : List (List Text × A)) {a : A}
    → match_text s arms ≡ some a
    → IsListed a arms
unfolding match_text
match_text-IsListed s [] h = ground arith
match_text-IsListed s ((names, b) ∷ rest) {a} h = ground (arith, match_text-IsListed s rest {a = a})

pub find-Entry :
    (id : Text) (m : TextMap Text) {found : Text × Text}
    → find_ignoring_case id m ≡ some found
    → Entry found.0 found.1 m × (eq_ignore_ascii_case found.0 id ≡ true)
unfolding find_ignoring_case
find-Entry id [] {found} h = ground arith
find-Entry id ((k, v) ∷ rest) {found} h = ground (arith, find-Entry id rest {found = found})

pub exact_or_find-Entry :
    (id : Text) (m : TextMap Text) (o : Option Text) {found : Text × Text}
    → get id m ≡ o
    → exact_or_find id m o ≡ some found
    → Entry found.0 found.1 m × (eq_ignore_ascii_case found.0 id ≡ true)
unfolding exact_or_find
exact_or_find-Entry id m none {found} e h = find-Entry id m {found = found} h
exact_or_find-Entry id m (some sha) {found} e h =
    let here : found ≡ (id, sha) = cc in
    let Q : Text × Text → Type 0 = λ f. Entry f.0 f.1 m × (eq_ignore_ascii_case f.0 id ≡ true) in
    subst Q (sym here) (get-Entry id m e, eq_ignore_ascii_case_refl id)

pub push_all-eq-ok :
    {A : Type 0} (first rest : Result SessionPlanError (List A)) {all : List A}
    → push_all first rest ≡ ok all
    → (steps : List A) × (more : List A) × (first ≡ ok steps)
      × (rest ≡ ok more)
      × (all ≡ steps ++ more)
push_all-eq-ok (err e) rest h = cc
push_all-eq-ok (ok steps) (err e) h = cc
push_all-eq-ok (ok steps) (ok more) h = (steps, more, refl, refl, cc)

pub within_bound-eq-ok :
    {A : Type 0} (r : Result SessionPlanError (List A)) {l : List A}
    → within_bound r ≡ ok l
    → (r ≡ ok l) × (length l ≤ 64)
within_bound-eq-ok (err e) h = cc
within_bound-eq-ok (ok steps) {l} h = ground arith
