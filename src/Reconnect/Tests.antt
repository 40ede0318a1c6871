-- ===== src/Reconnect/Tests.antt =====
-- Runs of crates/nectarpilot-core/src/reconnect.rs in a world that counts its attempts.
use roblox.Prelude.{
  ℕ, ◌+◌, ◌≤◌, ◌≡◌, refl, codes, false, [], ◌∷◌, ok, err, some, ltb, if◌then◌else◌,
}
use roblox.Reconnect.{
  default_policy, exhausted, succeeded, slept, finished, Surroundings, new, checked_sub, delay_for,
  check_cancelled, time_left, sleep, back_off, report, attempt, round, rounds,
  run_bounded_reconnect, seconds,
}
use roblox.Reconnect.Bounds.{Means, tried, run-Means, new-five_attempts}

-- Nothing is cancelled, no time passes, and the attempts fail until the given number of them.
abbrev failing_until : ℕ → Surroundings ℕ
failing_until n = record {
  is_cancelled = λ w. (false, w);
  elapsed = λ w. (0, w);
  sleep = λ delay remaining w. (slept, w);
  attempt = λ number remaining w.
      (finished (if ltb number n then err (codes "still disconnected") else ok tt), w + 1);
  progress = λ p w. w;
}

never_exceeds_five :
    (run_bounded_reconnect (failing_until 100) (new 99 (seconds 1) (0 ∷ [])) 0).0
    ≡ exhausted 5 (some (codes "still disconnected"))
unfolding run_bounded_reconnect rounds round attempt report back_off sleep time_left checked_sub
    check_cancelled delay_for new
never_exceeds_five = refl

third_attempt_wins : (run_bounded_reconnect (failing_until 3) default_policy 0).0 ≡ succeeded 3
unfolding run_bounded_reconnect rounds round attempt report back_off sleep time_left checked_sub
    check_cancelled delay_for
third_attempt_wins = refl

run-Means_example :
    Means default_policy
      (run_bounded_reconnect (failing_until 3) default_policy 0).0
      (run_bounded_reconnect (failing_until 3) default_policy 0).1.log
    × (tried (run_bounded_reconnect (failing_until 3) default_policy 0).1.log ≤ 5)
run-Means_example = run-Means (failing_until 3) default_policy 0

new-five_attempts_example :
    tried (run_bounded_reconnect (failing_until 100) (new 99 (seconds 1) (0 ∷ [])) 0).1.log ≤ 5
new-five_attempts_example = new-five_attempts (failing_until 100) 99 (seconds 1) (0 ∷ []) 0
