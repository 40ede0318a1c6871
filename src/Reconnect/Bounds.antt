-- ===== src/Reconnect/Bounds.antt =====
-- What the outcome of `run_bounded_reconnect` (crates/nectarpilot-core/src/reconnect.rs) says of the
-- attempts that were made, whatever the clock, the timers and the attempts answer.
use mathlib.Core.Path.{ap₂}
use roblox.Prelude.{
  ℕ, zero, suc, ◌+◌, ◌-◌, ◌≤◌, ◌<◌, Text, Bool, true, false, Option, none, some, List, [], ◌∷◌, ◌≡◌,
  refl, sym, ap, subst, ◌⊎◌, inl, inr, Result, ok, err, Bool-cases, leb, ◌==◌, if◌then◌else◌, arith,
}
use roblox.Prelude.Early.{Triple, Post, weaken, bind_rule}
use roblox.Reconnect.{
  ReconnectPolicy, ReconnectOutcome, succeeded, exhausted, deadline_exceeded, cancelled,
  ReconnectProgress, Backoff, backoff_cancelled, backoff_timed_out, slept, Attempted,
  attempt_cancelled, attempt_timed_out, finished, Surroundings, Call, reported, attempted, Run, new,
  checked_sub, delay_for, check_cancelled, time_left, after_sleep, sleep, back_off, report,
  after_attempt, attempt, round, rounds, conclude, run_bounded_reconnect,
}

abbrev Log : Type 0
Log = List Call

-- How many attempts were started.
abbrev pub tried : Log → ℕ
tried [] = 0
tried (attempted n remaining r ∷ l) = suc (tried l)
tried (reported p ∷ l) = tried l

-- Rounds that failed: each a report and an attempt with the next number and no more time than the
-- deadline, which returned an error.
abbrev pub AllFailed : ℕ → Log → Type 0
AllFailed deadline [] = Unit
AllFailed deadline (attempted n remaining (finished (err e)) ∷ reported p ∷ l) =
    ((n ≡ suc (tried l)) × (p.attempt ≡ n) × (remaining ≤ deadline)) × AllFailed deadline l
AllFailed deadline _ = ⊥

-- A last round with this answer, after rounds that failed.
pub record LastRound (deadline : ℕ) (answer : Attempted) (log : Log) : Type 0 where
  pub before : Log
  pub remaining : ℕ
  pub progress : ReconnectProgress
  pub shape : log ≡ attempted (suc (tried before)) remaining answer ∷ reported progress ∷ before
  pub announced : progress.attempt ≡ suc (tried before)
  pub in_time : remaining ≤ deadline
  pub failed : AllFailed deadline before

-- What each outcome means.
abbrev pub Means : ReconnectPolicy → ReconnectOutcome → Log → Type 0
Means policy (succeeded k) l = (k ≡ tried l) × LastRound policy.deadline (finished (ok tt)) l
Means policy (exhausted k e) l =
    ((k ≡ tried l) × (k ≡ policy.maximum_attempts)) × AllFailed policy.deadline l
Means policy (deadline_exceeded k) l =
    (k ≡ tried l) × (AllFailed policy.deadline l ⊎ LastRound policy.deadline attempt_timed_out l)
Means policy (cancelled k) l =
    ((k ≡ tried l) × AllFailed policy.deadline l)
    ⊎ ((k + 1 ≡ tried l) × LastRound policy.deadline attempt_cancelled l)

module _ {W : Type 0} (around : Surroundings W) (policy : ReconnectPolicy) where
  -- After `completed` rounds that failed.
  abbrev After : ℕ → Run W → Type 0
  After completed s = (completed ≡ tried s.log) × AllFailed policy.deadline s.log

  abbrev Out : ReconnectOutcome → Run W → Type 0
  Out e s = Means policy e s.log × (tried s.log ≤ policy.maximum_attempts)

  module _ (completed : ℕ) (room : completed < policy.maximum_attempts) where
    check_cancelled-After :
        Triple
          (After completed)
          (check_cancelled around policy completed)
          (λ _. After completed)
          Out
    unfolding check_cancelled
    check_cancelled-After = record { run = λ s h. go (around.is_cancelled s.world).0 s h }
      where
        go :
            (stop : Bool) (s : Run W)
            → After completed s
            → Post
                (λ _. After completed)
                Out
                (
                  (if stop then err (cancelled completed) else ok tt),
                  record s { world = (around.is_cancelled s.world).1 },
                )
        go true s h = (inl h, omega (arith, h.0))
        go false s h = h

    -- The time that is left is never more than the deadline.
    abbrev Timed : ℕ × ℕ → Run W → Type 0
    Timed t s = After completed s × (t.1 ≤ policy.deadline)

    time_left-After : Triple (After completed) (time_left around policy completed) Timed Out
    unfolding time_left checked_sub
    time_left-After = record { run = λ s h. go (around.elapsed s.world).0 s h }
      where
        go :
            (e : ℕ) (s : Run W)
            → After completed s
            → Post Timed Out (
              elim (if leb e policy.deadline then some (policy.deadline - e) else none)
                  as (λ o. Result ReconnectOutcome (ℕ × ℕ)) [
                    | none ↦ err (deadline_exceeded completed)
                    | some remaining ↦ ok (e, remaining)
                  ],
              record s { world = (around.elapsed s.world).1 },
            )
        go e s h = elim (Bool-cases (leb e policy.deadline)) [
          | inl fits ↦ rw fits (h, omega arith)
          | inr late ↦ rw late ((h.0, inl h.1), omega (arith, h.0))
        ]

    sleep-After :
        (delay remaining : ℕ)
        → Triple
            (After completed)
            (sleep around policy completed delay remaining)
            (λ _. After completed)
            Out
    unfolding sleep
    sleep-After delay remaining = record {
      run = λ s h. go (around.sleep delay remaining s.world).0 _ s h;
    }
      where
        go :
            (b : Backoff) (w : W) (s : Run W)
            → After completed s
            → Post
                (λ _. After completed)
                Out
                (after_sleep around policy completed b, record s { world = w })
        go backoff_cancelled w s h = (inl h, omega (arith, h.0))
        go backoff_timed_out w s h = ((h.0, inl h.1), omega (arith, h.0))
        go slept w s h = h

    back_off-After :
        (delay remaining : ℕ)
        → Triple
            (After completed)
            (back_off around policy completed delay remaining)
            (λ _. After completed)
            Out
    unfolding back_off
    back_off-After delay remaining = elim (Bool-cases (delay == 0)) [
      | inl e ↦ rw e (record { run = λ s h. h })
      | inr e ↦ rw e (sleep-After delay remaining)
    ]

    -- The report of the round stands at the head of the log.
    record Announced (s : Run W) : Type 0 where
      before : Log
      progress : ReconnectProgress
      shape : s.log ≡ reported progress ∷ before
      announced : progress.attempt ≡ completed + 1
      counted : completed ≡ tried before
      failed : AllFailed policy.deadline before

    report-After :
        (elapsed : ℕ)
        → Triple
            (After completed)
            (report around policy (completed + 1) elapsed)
            (λ _. Announced)
            Out
    unfolding report
    report-After elapsed = record {
      run = λ s h. record {
        before = s.log;
        progress = _;
        shape = refl;
        announced = refl;
        counted = h.0;
        failed = h.1;
      };
    }

    -- The round failed with this error.
    abbrev Next : Text → Run W → Type 0
    Next e s = After (completed + 1) s

    attempt-After :
        (remaining : ℕ)
        → remaining ≤ policy.deadline
        → Triple Announced (attempt around policy completed (completed + 1) remaining) Next Out
    unfolding attempt
    attempt-After remaining fits = record {
      run = λ s h. go (around.attempt (completed + 1) remaining s.world).0 _ s h;
    }
      where
        count : (s : Run W) → Announced s → completed ≡ tried s.log
        count s h = omega (arith, ap tried h.shape, h.counted)

        last :
            (r : Attempted) (s : Run W) (h : Announced s)
            → LastRound policy.deadline r (attempted (completed + 1) remaining r ∷ s.log)
        last r s h = record {
          before = h.before;
          remaining = remaining;
          progress = h.progress;
          shape =
              ap₂ (λ (n : ℕ) (l : Log). attempted n remaining r ∷ l) (omega (arith, h.counted))
                h.shape;
          announced = omega (arith, h.announced, h.counted);
          in_time = fits;
          failed = h.failed;
        }

        go :
            (r : Attempted) (w : W) (s : Run W)
            → Announced s
            → Post Next Out (
              after_attempt around policy completed (completed + 1) r,
              record { world = w; log = attempted (completed + 1) remaining r ∷ s.log },
            )
        go attempt_cancelled w s h =
            (inr (omega (arith, count s h), last attempt_cancelled s h), omega (arith, count s h))
        go attempt_timed_out w s h =
            ((omega (arith, count s h), inr (last attempt_timed_out s h)), omega (arith, count s h))
        go (finished (ok t)) w s h =
            ((omega (arith, count s h), last (finished (ok t)) s h), omega (arith, count s h))
        go (finished (err e)) w s h = (
          omega (arith, count s h),
          subst
              (λ l.
                AllFailed policy.deadline
                  (attempted (completed + 1) remaining (finished (err e)) ∷ l))
              (sym h.shape) ((omega (arith, h.counted), h.announced, fits), h.failed),
        )

    round-After : Triple (After completed) (round around policy completed) Next Out
    unfolding round
    round-After = bind_rule (check_cancelled around policy completed) _ check_cancelled-After (λ _.
        bind_rule (time_left around policy completed) _ time_left-After (λ first.
          bind_rule (back_off around policy completed (delay_for policy (completed + 1)) first.1) _
            (weaken (back_off around policy completed (delay_for policy (completed + 1)) first.1)
              (λ s h. h.0) (λ _ s h. h) (λ e s h. h)
              (back_off-After (delay_for policy (completed + 1)) first.1))
            (λ _. bind_rule (time_left around policy completed) _ time_left-After (λ second.
              record {
                run = λ s h.
                    (bind_rule (report around policy (completed + 1) second.0) _
                        (report-After second.0) (λ _. attempt-After second.1 h.1)).run
                      s h.0;
              }))))

  rounds-After :
      (left completed : ℕ) (last_error : Option Text)
      → completed + left ≡ policy.maximum_attempts
      → Triple
          (After completed)
          (rounds around policy left completed last_error)
          (λ n s. After n.0 s × (n.0 ≡ policy.maximum_attempts))
          Out
  unfolding rounds
  rounds-After zero completed last_error e = record { run = λ s h. (h, omega arith) }
  rounds-After (suc left) completed last_error e =
      bind_rule (round around policy completed) _ (round-After completed (omega arith))
        (λ error. rounds-After left (completed + 1) (some error) (omega arith))

  conclude-Means :
      (r : Result ReconnectOutcome (ℕ × Option Text) × Run W)
      → Post (λ n s. After n.0 s × (n.0 ≡ policy.maximum_attempts)) Out r
      → Means policy (conclude around policy r.0) r.1.log
        × (tried r.1.log ≤ policy.maximum_attempts)
  conclude-Means (ok (n, e), s) h = (((h.0.0, h.1), h.0.1), omega (arith, h.0.0, h.1))
  conclude-Means (err outcome, s) h = h

  -- Whatever the clock, the timers, the token and the attempts answer, the outcome tells the truth
  -- about the attempts made. They are numbered 1, 2, 3 … in order and each is announced just before
  -- with its number and given at most the deadline; all but the last one failed. `Succeeded` names
  -- the last attempt, which succeeded; `Exhausted` means that all attempts of the policy failed;
  -- `DeadlineExceeded` counts the attempts made, of which only the last may have timed out; and
  -- `Cancelled` counts those that failed, besides at most one that was cancelled. There are never more
  -- attempts than the policy's maximum.
  pub run-Means :
      (w : W)
      → Means policy
          (run_bounded_reconnect around policy w).0
          (run_bounded_reconnect around policy w).1.log
        × (tried (run_bounded_reconnect around policy w).1.log ≤ policy.maximum_attempts)
  unfolding run_bounded_reconnect
  run-Means w = conclude-Means _ (
      (rounds-After policy.maximum_attempts 0 none (omega arith)).run
        (record { world = w; log = [] }) (refl, tt))

-- Under a policy made by `new`, whatever maximum was asked for, at most five attempts are started.
pub new-five_attempts :
    {W : Type 0} (around : Surroundings W) (maximum deadline : ℕ) (delays : List ℕ) (w : W)
    → tried (run_bounded_reconnect around (new maximum deadline delays) w).1.log ≤ 5
unfolding new
new-five_attempts around maximum deadline delays w =
    omega (arith, (run-Means around (new maximum deadline delays) w).1)
