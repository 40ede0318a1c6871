-- ===== src/Quests/Distance/Rows.antt =====
-- The two rows of `edit_distance`, crates/nectarpilot-core/src/quests.rs, hold distances of
-- prefixes.
use roblox.Prelude.{
  ℕ, ◌+◌, ◌≤◌, min, ◌≡◌, refl, ap, ◌∙◌, subst, Text, some, List, [], ◌∷◌, length, get_elem?, arith,
}
use roblox.Quests.Distance.{count_from, substitution, fill_row, rows, edit_distance}
use roblox.Quests.Distance.Scripts.{
  Edit, before, after, cost, distance, distance-le-cost, distance-Script, onto, onto_twice,
  before-onto, after-onto, cost-onto,
}

-- The row of distances from the prefix `p` to the prefixes of the right text that start with `q`.
abbrev row : Text → Text → Text → List ℕ
row p q [] = distance p q ∷ []
row p q (d ∷ ds) = distance p q ∷ row p (d ∷ q) ds

count_from-row : (q t : Text) (i : ℕ) → i ≡ length q → count_from i t ≡ row [] q t
unfolding count_from distance
count_from-row q [] i h = ap (λ k. k ∷ []) h
count_from-row q (d ∷ t) i h = let rest = count_from-row (d ∷ q) t (i + 1) (ground arith) in cc

fill_row-row :
    (c : ℕ) (p q t : Text) (here : ℕ)
    → here ≡ distance (c ∷ p) q
    → fill_row c t (row p q t) here ≡ row (c ∷ p) q t
unfolding fill_row distance
fill_row-row c p q [] here h = ap (λ k. k ∷ []) h
fill_row-row c p q (d ∷ []) here h =
    let next =
      ap (λ k. min (min (k + 1) (distance p (d ∷ q) + 1)) (distance p q + substitution c d)) h in
    cc
fill_row-row c p q (d ∷ d' ∷ t) here h =
    let k = min (min (here + 1) (distance p (d ∷ q) + 1)) (distance p q + substitution c d) in
    let next : k ≡ distance (c ∷ p) (d ∷ q) =
      ap (λ k. min (min (k + 1) (distance p (d ∷ q) + 1)) (distance p q + substitution c d)) h in
    let rest = fill_row-row c p (d ∷ q) (d' ∷ t) k next in cc

rows-row : (i : ℕ) (p s t : Text) → i ≡ length p → rows i s t (row p [] t) ≡ row (onto s p) [] t
unfolding rows distance
rows-row i p [] t h = refl
rows-row i p (c ∷ s) t h =
    ap (rows (i + 1) s t) (fill_row-row c p [] t (i + 1) (omega arith))
    ∙ rows-row (i + 1) (c ∷ p) s t (omega arith)

last-row : (p q t : Text) → get_elem? (row p q t) (length t) ≡ some (distance p (onto t q))
last-row p q [] = refl
last-row p q (d ∷ t) = last-row p (d ∷ q) t

edit_distance_eq : (s t : Text) → edit_distance s t ≡ some (distance (onto s []) (onto t []))
unfolding edit_distance
edit_distance_eq s t =
    ap (λ r. get_elem? (rows 0 s t r) (length t)) (count_from-row [] t 0 refl)
    ∙ ap (λ r. get_elem? r (length t)) (rows-row 0 [] s t refl)
    ∙ last-row (onto s []) [] t

-- `edit_distance` answers, never out of the range of its rows, with a number that some sequence of
-- kept, substituted, deleted and inserted characters changes the one text into the other at, and
-- that no such sequence falls below: no `e` from `s` to `t` costs less.
pub edit_distance-least :
    (s t : Text) (e : List Edit)
    → before e ≡ s
    → after e ≡ t
    → (d : ℕ) × (edit_distance s t ≡ some d)
      × (d ≤ cost e)
      × ((best : List Edit) × (before best ≡ s) × (after best ≡ t) × (cost best ≡ d))
edit_distance-least s t e from to =
    let d = distance (onto s []) (onto t []) in
    let back = onto e [] in
    let from_back : before back ≡ onto s [] = before-onto e [] ∙ ap (λ u. onto u []) from in
    let to_back : after back ≡ onto t [] = after-onto e [] ∙ ap (λ u. onto u []) to in
    let x = distance-Script (onto s []) (onto t []) in
    let low =
      subst (λ u. distance (onto s []) u ≤ cost back) to_back
        (subst (λ u. distance u (after back) ≤ cost back) from_back (distance-le-cost back)) in
    let same = cost-onto e [] in
    (
      d,
      edit_distance_eq s t,
      omega arith,
      (
        onto x.edits [],
        before-onto x.edits [] ∙ ap (λ u. onto u []) x.from ∙ onto_twice s,
        after-onto x.edits [] ∙ ap (λ u. onto u []) x.to ∙ onto_twice t,
        cost-onto x.edits [] ∙ omega arith ∙ x.costs,
      ),
    )
