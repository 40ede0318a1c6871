-- ===== src/CrashGuard/Window.antt =====
-- What the window of crates/nectarpilot-core/src/crash_guard.rs holds after a crash.
use roblox.Prelude.{
  ℕ, suc, ◌+◌, ◌-◌, ◌≤◌, ◌==◌, Bool, true, false, List, [], ◌∷◌, ◌++◌, All, length, leb, leb→le,
  le→leb, ==_iff, if◌then◌else◌, ◌≡◌, refl, ap, sym, ◌∙◌, arith, inl, inr, Bool-cases,
}
use roblox.CrashGuard.{
  CrashLoopGuard, insert_sorted, sort_unstable, filter, is_recent, recent, retain_recent,
  record_crash,
}

-- How often a time stands in a list.
abbrev pub count : ℕ → List ℕ → ℕ
count x [] = 0
count x (t ∷ ts) = (if x == t then 1 else 0) + count x ts

-- From the oldest time to the newest.
abbrev pub IsSorted : List ℕ → Type 0
IsSorted [] = Unit
IsSorted (t ∷ ts) = All (λ u. t ≤ u) ts × IsSorted ts

All-insert_sorted :
    (P : ℕ → Type 0) (t : ℕ) (ts : List ℕ) → P t → All P ts → All P (insert_sorted t ts)
unfolding insert_sorted
All-insert_sorted P t [] p ps = (p, tt)
All-insert_sorted P t (u ∷ us) p (q, qs) = elim (Bool-cases (leb t u)) [
  | inl e ↦ rw e (p, (q, qs))
  | inr e ↦ rw e (q, All-insert_sorted P t us p qs)
]

All-le : (t u : ℕ) (ts : List ℕ) → t ≤ u → All (λ v. u ≤ v) ts → All (λ v. t ≤ v) ts
All-le t u [] h hs = tt
All-le t u (v ∷ vs) h (k, ks) = (omega arith, All-le t u vs h ks)

insert_sorted-IsSorted : (t : ℕ) (ts : List ℕ) → IsSorted ts → IsSorted (insert_sorted t ts)
unfolding insert_sorted
insert_sorted-IsSorted t [] h = (tt, tt)
insert_sorted-IsSorted t (u ∷ us) (q, qs) = elim (Bool-cases (leb t u)) [
  | inl e ↦ rw e ((leb→le t u e, All-le t u us (leb→le t u e) q), (q, qs))
  | inr e ↦
      rw e (All-insert_sorted (λ v. u ≤ v) t us (ground arith) q, insert_sorted-IsSorted t us qs)
]

sort_unstable-IsSorted : (ts : List ℕ) → IsSorted (sort_unstable ts)
unfolding sort_unstable
sort_unstable-IsSorted [] = tt
sort_unstable-IsSorted (t ∷ ts) = insert_sorted-IsSorted t _ (sort_unstable-IsSorted ts)

count-insert_sorted :
    (x t : ℕ) (ts : List ℕ) → count x (insert_sorted t ts) ≡ (if x == t then 1 else 0) + count x ts
unfolding insert_sorted
count-insert_sorted x t [] = refl
count-insert_sorted x t (u ∷ us) = ground (arith, count-insert_sorted x t us)

count-sort_unstable : (x : ℕ) (ts : List ℕ) → count x (sort_unstable ts) ≡ count x ts
unfolding sort_unstable
count-sort_unstable x [] = refl
count-sort_unstable x (t ∷ ts) =
    omega (arith, count-insert_sorted x t (sort_unstable ts), count-sort_unstable x ts)

length-insert_sorted : (t : ℕ) (ts : List ℕ) → length (insert_sorted t ts) ≡ suc (length ts)
unfolding insert_sorted
length-insert_sorted t [] = refl
length-insert_sorted t (u ∷ us) = ground (arith, length-insert_sorted t us)

length-sort_unstable : (ts : List ℕ) → length (sort_unstable ts) ≡ length ts
unfolding sort_unstable
length-sort_unstable [] = refl
length-sort_unstable (t ∷ ts) =
    omega (arith, length-insert_sorted t (sort_unstable ts), length-sort_unstable ts)

same-keep : (keep : ℕ → Bool) (x t : ℕ) → (x == t) ≡ true → keep x ≡ keep t
same-keep keep x t h = ap keep ((==_iff x t).0 h)

count-filter :
    (keep : ℕ → Bool) (x : ℕ) (ts : List ℕ)
    → count x (filter keep ts) ≡ (if keep x then count x ts else 0)
unfolding filter
count-filter keep x [] = elim (Bool-cases (keep x)) [ inl e ↦ rw e refl | inr e ↦ rw e refl ]
count-filter keep x (t ∷ ts) = ground (arith, count-filter keep x ts, same-keep keep x t)

count-snoc :
    (x t : ℕ) (ts : List ℕ) → count x (ts ++ t ∷ []) ≡ count x ts + (if x == t then 1 else 0)
count-snoc x t [] = omega arith
count-snoc x t (u ∷ us) = omega (arith, count-snoc x t us)

-- Whether a time lies in the window that ends at `now`, by its age.
unfoldable pub lies_within : (window now : ℕ) → ℕ → Bool
lies_within window now t = if leb t now then leb (now - t) window else false

-- The times of such a window, in the order in which they stand.
unfoldable pub within : (window now : ℕ) → List ℕ → List ℕ
within window now [] = []
within window now (t ∷ ts) =
    let rest = within window now ts in if lies_within window now t then t ∷ rest else rest

is_recent_age : (window now t : ℕ) → is_recent window now t ≡ lies_within window now t
unfolding lies_within
is_recent_age window now t = ground arith

pub filter-within :
    (window now : ℕ) (ts : List ℕ) → filter (is_recent window now) ts ≡ within window now ts
unfolding filter within
filter-within window now [] = refl
filter-within window now (t ∷ ts) =
    rw (is_recent_age window now t, filter-within window now ts) refl

count-within :
    (window now x : ℕ) (ts : List ℕ)
    → count x (within window now ts) ≡ (if lies_within window now x then count x ts else 0)
count-within window now x ts =
    ap (count x) (sym (filter-within window now ts))
    ∙ count-filter (is_recent window now) x ts
    ∙ ap (λ b. if b then count x ts else 0) (is_recent_age window now x)

count-recent :
    (window now x : ℕ) (ts : List ℕ)
    → count x (recent window now ts) ≡ (if lies_within window now x then count x ts else 0)
unfolding recent
count-recent window now x ts =
    count-sort_unstable x (filter (is_recent window now) ts)
    ∙ ap (count x) (filter-within window now ts)
    ∙ count-within window now x ts

length-within-snoc :
    (window now t : ℕ) (ts : List ℕ)
    → length (within window now (ts ++ t ∷ [])) ≡ length (within window now (t ∷ ts))
unfolding within
length-within-snoc window now t [] = refl
length-within-snoc window now t (u ∷ us) = ground (arith, length-within-snoc window now t us)

length-recent-snoc :
    (window now t : ℕ) (ts : List ℕ)
    → length (recent window now (ts ++ t ∷ [])) ≡ length (within window now (t ∷ ts))
unfolding recent
length-recent-snoc window now t ts =
    length-sort_unstable _
    ∙ ap length (filter-within window now (ts ++ t ∷ []))
    ∙ length-within-snoc window now t ts

-- After a crash at time `t` the guard holds its times in order, each as often as it was recorded if it
-- is not later than `t` and at most the window old then, and not at all otherwise; the threshold and
-- the window stay. The guard answers that it tripped exactly when the crashes of such an age, the new
-- one with them, are at least as many as the threshold.
pub record_crash-Recent :
    (t : ℕ) (g : CrashLoopGuard) (x : ℕ)
    → (IsSorted (record_crash t g).1.crashes
        × (count x (record_crash t g).1.crashes ≡ (
            if lies_within g.window t x then count x g.crashes + (if x == t then 1 else 0) else 0)))
      × (((record_crash t g).1.threshold ≡ g.threshold) × ((record_crash t g).1.window ≡ g.window))
      × ((record_crash t g).0 ≡ leb g.threshold (length (within g.window t (t ∷ g.crashes))))
unfolding record_crash retain_recent recent
record_crash-Recent t g x = (
  (
    sorted,
    count-recent g.window t x (g.crashes ++ t ∷ [])
        ∙ ap (λ n. if lies_within g.window t x then n else 0) (count-snoc x t g.crashes),
  ),
  (refl, refl),
  ap (leb g.threshold) (length-recent-snoc g.window t t g.crashes),
)
  where
    sorted : IsSorted (recent g.window t (g.crashes ++ t ∷ []))
    sorted = sort_unstable-IsSorted _

insert_sorted_first : (t : ℕ) (ts : List ℕ) → All (λ u. t ≤ u) ts → insert_sorted t ts ≡ t ∷ ts
unfolding insert_sorted
insert_sorted_first t [] h = refl
insert_sorted_first t (u ∷ us) (h, hs) = rw (le→leb t u h) refl

pub sort_unstable_sorted : (ts : List ℕ) → IsSorted ts → sort_unstable ts ≡ ts
unfolding sort_unstable
sort_unstable_sorted [] h = refl
sort_unstable_sorted (t ∷ ts) (h, hs) =
    ap (insert_sorted t) (sort_unstable_sorted ts hs) ∙ insert_sorted_first t ts h
