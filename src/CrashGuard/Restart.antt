-- ===== src/CrashGuard/Restart.antt =====
-- What the window of crates/nectarpilot-core/src/crash_guard.rs holds after a restart.
use roblox.Prelude.{
  ℕ, ◌≤◌, max, List, [], ◌∷◌, ◌++◌, All, length, leb, ◌≡◌, refl, ap, sym, ◌∙◌, arith, inl, inr,
  Bool-cases,
}
use roblox.CrashGuard.{
  CrashLoopGuard, sort_unstable, recent, new, retain_recent, record_crash, restore, is_tripped,
}
use roblox.CrashGuard.Window.{IsSorted, lies_within, within, filter-within, sort_unstable_sorted}

-- Crashes one after another.
abbrev pub record_all : List ℕ → CrashLoopGuard → CrashLoopGuard
record_all [] g = g
record_all (t ∷ ts) g = record_all ts (record_crash t g).1

snoc_append : (xs : List ℕ) (t : ℕ) (ts : List ℕ) → (xs ++ t ∷ []) ++ ts ≡ xs ++ t ∷ ts
snoc_append [] t ts = refl
snoc_append (x ∷ xs) t ts = ap (λ us. x ∷ us) (snoc_append xs t ts)

append_nil : (xs : List ℕ) → xs ++ [] ≡ xs
append_nil [] = refl
append_nil (x ∷ xs) = ap (λ us. x ∷ us) (append_nil xs)

All-at : (P : ℕ → Type 0) (xs : List ℕ) (t : ℕ) (ts : List ℕ) → All P (xs ++ t ∷ ts) → P t
All-at P [] t ts (h, hs) = h
All-at P (x ∷ xs) t ts (h, hs) = All-at P xs t ts hs

All-within :
    (P : ℕ → Type 0) (window now : ℕ) (xs ys : List ℕ)
    → All P (xs ++ ys)
    → All P (within window now xs ++ ys)
unfolding within
All-within P window now [] ys h = h
All-within P window now (x ∷ xs) ys (h, hs) = elim (Bool-cases (lies_within window now x)) [
  | inl e ↦ rw e (h, All-within P window now xs ys hs)
  | inr e ↦ rw e (All-within P window now xs ys hs)
]

within-IsSorted :
    (window now : ℕ) (xs ys : List ℕ) → IsSorted (xs ++ ys) → IsSorted (within window now xs ++ ys)
unfolding within
within-IsSorted window now [] ys h = h
within-IsSorted window now (x ∷ xs) ys (h, hs) = elim (Bool-cases (lies_within window now x)) [
  | inl e ↦ rw e (All-within _ window now xs ys h, within-IsSorted window now xs ys hs)
  | inr e ↦ rw e (within-IsSorted window now xs ys hs)
]

whole-IsSorted : (window now : ℕ) (xs : List ℕ) → IsSorted xs → IsSorted (within window now xs)
whole-IsSorted window now xs h =
    let sorted : IsSorted (within window now xs ++ []) =
      within-IsSorted window now xs [] (rw (append_nil xs) h) in
    rw (append_nil (within window now xs)) at sorted

-- In order, the times before `t` are no later than `t`.
before_at :
    (xs : List ℕ) (t : ℕ) (ts : List ℕ) → IsSorted (xs ++ t ∷ ts) → All (λ u. u ≤ t) (xs ++ t ∷ [])
before_at [] t ts h = (omega arith, tt)
before_at (x ∷ xs) t ts (h, hs) = (All-at (λ u. x ≤ u) xs t ts h, before_at xs t ts hs)

prefix-IsSorted :
    (xs : List ℕ) (t : ℕ) (ts : List ℕ) → IsSorted (xs ++ t ∷ ts) → IsSorted (xs ++ t ∷ [])
prefix-IsSorted xs t ts h = go xs ts h
  where
    prefix-All : (P : ℕ → Type 0) (xs ts : List ℕ) → All P (xs ++ t ∷ ts) → All P (xs ++ t ∷ [])
    prefix-All P [] ts (h, hs) = (h, tt)
    prefix-All P (x ∷ xs) ts (h, hs) = (h, prefix-All P xs ts hs)

    go : (xs ts : List ℕ) → IsSorted (xs ++ t ∷ ts) → IsSorted (xs ++ t ∷ [])
    go [] ts h = (tt, tt)
    go (x ∷ xs) ts (h, hs) = (prefix-All _ xs ts h, go xs ts hs)

-- What an earlier window of no later times leaves out, a later window leaves out too.
within-within :
    (window t now : ℕ) (xs ys : List ℕ)
    → t ≤ now
    → All (λ u. u ≤ t) xs
    → within window now (within window t xs ++ ys) ≡ within window now (xs ++ ys)
unfolding within lies_within
within-within window t now [] ys le h = refl
within-within window t now (x ∷ xs) ys le (h, hs) =
    ground (arith, within-within window t now xs ys le hs)

-- The times that a crash leaves, where they are in order.
recorded :
    (t : ℕ) (g : CrashLoopGuard)
    → IsSorted (g.crashes ++ t ∷ [])
    → (record_crash t g).1.crashes ≡ within g.window t (g.crashes ++ t ∷ [])
unfolding record_crash retain_recent recent
recorded t g h =
    let ts = g.crashes ++ t ∷ [] in
    ap sort_unstable (filter-within g.window t ts)
    ∙ sort_unstable_sorted _ (whole-IsSorted g.window t ts h)

record_all-within :
    (window now : ℕ) (ts : List ℕ) (g : CrashLoopGuard)
    → g.window ≡ window
    → IsSorted (g.crashes ++ ts)
    → All (λ t. t ≤ now) ts
    → within window now (record_all ts g).crashes ≡ within window now (g.crashes ++ ts)
unfolding record_crash retain_recent
record_all-within window now [] g same h past = ap (within window now) (sym (append_nil g.crashes))
record_all-within window now (t ∷ ts) g same h (p, past) =
    let left = recorded t g (prefix-IsSorted g.crashes t ts h) in
    record_all-within window now ts (record_crash t g).1 kept
      (rw left
        (within-IsSorted g.window t (g.crashes ++ t ∷ []) ts (rw (snoc_append g.crashes t ts) h)))
      past
    ∙ ap (λ us. within window now (us ++ ts)) left
    ∙ ap (λ w. within window now (within w t (g.crashes ++ t ∷ []) ++ ts)) same
    ∙ within-within window t now (g.crashes ++ t ∷ []) ts p (before_at g.crashes t ts h)
    ∙ ap (within window now) (snoc_append g.crashes t ts)
  where
    kept : (record_crash t g).1.window ≡ window
    kept = same

-- Crashes are recorded one after another on a new guard, at times that do not go back. A guard made
-- alike, into which the times that the first one holds at the end are restored at any later time,
-- holds exactly the crashes of the whole history that are at most the window old then, in order, and
-- is tripped exactly when they are at least as many as the threshold, or one for a threshold of zero.
pub restore-record_all :
    (threshold window now : ℕ) (ts : List ℕ)
    → IsSorted ts
    → All (λ t. t ≤ now) ts
    → let g = new threshold window in
      let restarted = restore (record_all ts g).crashes now g in
      (restarted.crashes ≡ within window now ts)
      × (is_tripped restarted ≡ leb (max threshold 1) (length (within window now ts)))
unfolding restore recent new is_tripped
restore-record_all threshold window now ts h past =
    (held, ap (λ us. leb (max threshold 1) (length us)) held)
  where
    held : recent window now (record_all ts (new threshold window)).crashes ≡ within window now ts
    held =
        ap sort_unstable (
          filter-within window now _
          ∙ record_all-within window now ts (new threshold window) refl h past)
        ∙ sort_unstable_sorted _ (whole-IsSorted window now ts h)
