-- ===== src/CrashGuard/Tests.antt =====
-- Concrete crash windows.
use roblox.Prelude.{ℕ, [], ◌∷◌, ◌≡◌, arith, ◌+◌, ◌*◌, ◌^◌, max, length, leb, if◌then◌else◌, ◌==◌}
use roblox.CrashGuard.{CrashLoopGuard, is_tripped, new, record_crash, restore}
use roblox.CrashGuard.Window.{count, IsSorted, lies_within, within, record_crash-Recent}
use roblox.CrashGuard.Restart.{record_all, restore-record_all}

-- Two crashes of the last minutes, one of them stored out of order with a crash of long ago.
abbrev shaken : CrashLoopGuard
shaken = record {
  threshold = 3;
  window = 10 * 60 * 10 ^ 9;
  crashes = 2000 * 10 ^ 9 ∷ 5 ∷ 1900 * 10 ^ 9 ∷ [];
}

abbrev now : ℕ
now = 2100 * 10 ^ 9

record_crash-Recent_example :
    (IsSorted (record_crash now shaken).1.crashes
      × (count 5 (record_crash now shaken).1.crashes ≡ (
          if lies_within shaken.window now 5
          then count 5 shaken.crashes + (if 5 == now then 1 else 0)
          else 0)))
    × (((record_crash now shaken).1.threshold ≡ shaken.threshold)
        × ((record_crash now shaken).1.window ≡ shaken.window))
    × ((record_crash now shaken).0
        ≡ leb shaken.threshold (length (within shaken.window now (now ∷ shaken.crashes))))
record_crash-Recent_example = record_crash-Recent now shaken 5

-- Three crashes, and a restart that finds the first of them too old.
restore-record_all_example :
    ((restore (record_all (100 ∷ 500 ∷ 650 ∷ []) (new 3 600)).crashes 800 (new 3 600)).crashes
      ≡ within 600 800 (100 ∷ 500 ∷ 650 ∷ []))
    × (is_tripped (restore (record_all (100 ∷ 500 ∷ 650 ∷ []) (new 3 600)).crashes 800 (new 3 600))
        ≡ leb (max 3 1) (length (within 600 800 (100 ∷ 500 ∷ 650 ∷ []))))
restore-record_all_example =
    restore-record_all 3 600 800 (100 ∷ 500 ∷ 650 ∷ [])
      ((omega arith, (omega arith, tt)), ((omega arith, tt), (tt, tt)))
      (omega arith, (omega arith, (omega arith, tt)))
