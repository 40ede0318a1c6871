-- ===== src/Quests/Distance.antt =====
-- The distance between two titles, `edit_distance` of crates/nectarpilot-core/src/quests.rs.
pub mod Scripts
pub mod Rows
use roblox.Prelude.{
  ℕ, ◌+◌, min, Bool, true, false, Text, Option, none, some, List, [], ◌∷◌, length, get_elem?,
  if◌then◌else◌, ◌==◌,
}

-- `(0..=n).collect()`, from `i` on.
unfoldable pub count_from : ℕ → Text → List ℕ
count_from i [] = i ∷ []
count_from i (_ ∷ rest) = i ∷ count_from (i + 1) rest

-- `usize::from(left_character != *right_character)`
abbrev pub substitution : ℕ → ℕ → ℕ
substitution c d = if c == d then 0 else 1

-- The inner loop: `current[right_index..]`, of which the first is known, from
-- `previous[right_index..]`. A row that is too short ends the result, as the index would panic.
unfoldable pub fill_row : ℕ → Text → List ℕ → ℕ → List ℕ
fill_row c [] previous here = here ∷ []
fill_row c (d ∷ ds) (diagonal ∷ above ∷ previous) here =
    here
    ∷ fill_row c ds (above ∷ previous)
        (min (min (here + 1) (above + 1)) (diagonal + substitution c d))
fill_row c (d ∷ ds) _ here = []

-- The outer loop, after whose rounds the rows are swapped.
unfoldable pub rows : ℕ → Text → Text → List ℕ → List ℕ
rows left_index [] right previous = previous
rows left_index (c ∷ left) right previous =
    rows (left_index + 1) left right (fill_row c right previous (left_index + 1))

-- None stands for an index out of range.
unfoldable pub edit_distance : Text → Text → Option ℕ
edit_distance left right = get_elem? (rows 0 left right (count_from 0 right)) (length right)
