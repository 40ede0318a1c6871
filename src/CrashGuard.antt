-- ===== src/CrashGuard.antt =====
-- The crash-loop guard, crates/nectarpilot-core/src/crash_guard.rs. A time is a number of
-- nanoseconds, and so is a duration; `t >= reference - window` is written `reference <= t + window`.
pub mod Window
pub mod Restart
pub mod Tests
use roblox.Prelude.{
  ℕ, ◌+◌, ◌*◌, ◌^◌, max, Bool, ◌&&◌, List, [], ◌∷◌, ◌++◌, length, leb, if◌then◌else◌,
}

pub record CrashLoopGuard : Type 0 where
  pub threshold : ℕ
  pub window : ℕ
  pub crashes : List ℕ

unfoldable pub new : ℕ → ℕ → CrashLoopGuard
new threshold window = record { threshold = max threshold 1; window = window; crashes = [] }

-- `impl Default`
abbrev pub default_guard : CrashLoopGuard
default_guard = new 3 (10 * 60 * 10 ^ 9)

-- `Vec::sort_unstable`
unfoldable pub insert_sorted : ℕ → List ℕ → List ℕ
insert_sorted t [] = t ∷ []
insert_sorted t (u ∷ us) = let rest = insert_sorted t us in if leb t u then t ∷ u ∷ us else u ∷ rest

unfoldable pub sort_unstable : List ℕ → List ℕ
sort_unstable [] = []
sort_unstable (t ∷ ts) = insert_sorted t (sort_unstable ts)

-- `filter` on an iterator.
unfoldable pub filter : (ℕ → Bool) → List ℕ → List ℕ
filter keep [] = []
filter keep (t ∷ ts) = let rest = filter keep ts in if keep t then t ∷ rest else rest

abbrev pub is_recent : (window reference : ℕ) → ℕ → Bool
is_recent window reference t = leb reference (t + window) && leb t reference

unfoldable pub recent : (window reference : ℕ) → List ℕ → List ℕ
recent window reference ts = sort_unstable (filter (is_recent window reference) ts)

unfoldable pub retain_recent : ℕ → CrashLoopGuard → CrashLoopGuard
retain_recent reference g = record g { crashes = recent g.window reference g.crashes }

unfoldable pub is_tripped : CrashLoopGuard → Bool
is_tripped g = leb g.threshold (length g.crashes)

-- `record`: the answer, and the guard that it leaves.
unfoldable pub record_crash : ℕ → CrashLoopGuard → Bool × CrashLoopGuard
record_crash occurred_at g =
    let g' = retain_recent occurred_at (record g { crashes = g.crashes ++ occurred_at ∷ [] }) in
    (leb g'.threshold (length g'.crashes), g')

unfoldable pub restore : List ℕ → ℕ → CrashLoopGuard → CrashLoopGuard
restore timestamps now g = record g { crashes = recent g.window now timestamps }

unfoldable pub clear : CrashLoopGuard → CrashLoopGuard
clear g = record g { crashes = [] }
