-- ===== src/Daemon/Tests.antt =====
-- A concrete daemon: a start and a third crash.
use roblox.Prelude.{ℕ, codes, true, false, none, some, List, [], ◌∷◌, ◌≡◌, refl, ok}
use roblox.Prelude.Early.{Post}
use roblox.Contracts.{idle}
use roblox.CrashGuard.{record_crash, retain_recent, recent, sort_unstable, filter, insert_sorted}
use roblox.Engine.{AutomationError, Engine, resume, stop}
use roblox.Engine.Tests.{flaky}
use roblox.Daemon.Acknowledge.{Acknowledged, Refused, acknowledge_effect}
use roblox.Daemon.{
  Daemon, Store, acknowledge_attention, start, enter_safe_mode, record_daemon_crash,
}
use roblox.Daemon.SafeMode.{Started, Unchanged, start_effect}
use roblox.Daemon.Lock.{Happening, Locked, starts, crashes, commands, happen_all, trip-Locked}

-- A store that knows every profile and accepts every write.
abbrev kind_store : Store ℕ
kind_store = record {
  load_profile = λ id w. (ok (some (record { reconnect_enabled = true })), w);
  set_selected_profile = λ id w. (ok tt, w);
  set_crash_guard_state = λ safe times w. (ok tt, w);
  now_v7 = λ w. (w, w);
  profile_not_found = λ id. AutomationError.store (codes "profile was not found");
  already_scheduled = λ key. AutomationError.scheduler (codes "task is already scheduled");
}

abbrev resting : Engine ℕ
resting = record {
  world = 0;
  state = idle;
  active_task = none;
  sequence = 0;
  cancellation = false;
  pause_sender = false;
  legacy_port = false;
  log = [];
}

-- Two crashes of the last minutes are on record.
abbrev restarted : Daemon ℕ
restarted = record {
  engine = resting;
  scheduler = record { active = [] };
  worker_running = false;
  profile_id = none;
  run_id = 0;
  crash_guard = record { threshold = 3; window = 600; crashes = 1000 ∷ 1100 ∷ [] };
  safe_mode = false;
}

start_effect_example :
    Post (λ _. Started 4 restarted) (λ _. Unchanged restarted) (start kind_store 4 restarted)
start_effect_example = start_effect kind_store 4 restarted

third_crash : (record_daemon_crash kind_store 1200 restarted).0 ≡ ok true
unfolding record_daemon_crash enter_safe_mode record_crash retain_recent recent sort_unstable filter
    insert_sorted
third_crash = refl

abbrev later : List Happening
later = starts 4 ∷ crashes 1300 ∷ commands (stop true) ∷ commands resume ∷ starts 5 ∷ []

trip-Locked_example :
    Locked
      (record_daemon_crash kind_store 1200 restarted).1
      (happen_all kind_store flaky later (record_daemon_crash kind_store 1200 restarted).1)
trip-Locked_example = trip-Locked kind_store flaky 1200 restarted later third_crash

acknowledge_effect_example :
    Post
      (λ _. Acknowledged kind_store (record_daemon_crash kind_store 1200 restarted).1)
      (λ _. Refused (record_daemon_crash kind_store 1200 restarted).1)
      (acknowledge_attention kind_store (record_daemon_crash kind_store 1200 restarted).1)
acknowledge_effect_example =
    acknowledge_effect kind_store (record_daemon_crash kind_store 1200 restarted).1
