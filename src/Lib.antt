-- ===== src/Lib.antt =====
-- NectarPilot, the Rust workspace under crates/, in antt: the parts that decide what is sent to the
-- game and when, with the theorems that make them safe.
--
-- The daemon's engine (crates/nectarpilot-core/src/engine.rs) runs one worker at a time. The worker asks
-- the backend for a preflight, lets it execute the automation, reconnects by the bounded policy of
-- crates/nectarpilot-core/src/reconnect.rs when that fails, and releases all inputs at the end; commands
-- of the desktop pause, resume and stop it meanwhile. Native automation is a task plan
-- (crates/nectarpilot-core/src/tasks.rs): every task names the detection that must confirm it
-- (crates/nectarpilot-contracts/src/detection.rs) before its inputs are sent. Inputs go through the
-- input broker (crates/nectarpilot-platform/src/input.rs), which checks that the adopted session's window
-- (crates/nectarpilot-platform/src/session.rs) is in the foreground; the emergency stop
-- (crates/nectarpilot-platform/src/emergency.rs) cancels the broker. Movement patterns are programs of
-- crates/nectarpilot-core/src/dsl.rs, one permit per task comes from the scheduler
-- (crates/nectarpilot-core/src/scheduler.rs), a gather session runs the steps that
-- crates/nectarpilot-core/src/session.rs builds from the profile
-- (crates/nectarpilot-contracts/src/profile.rs), quests are read by
-- crates/nectarpilot-core/src/quests.rs, and repeated crashes of the daemon trip the guard of
-- crates/nectarpilot-core/src/crash_guard.rs.
--
-- The files, and the code that each of them is about:
--   Prelude      lists, options, results, strings and words, `f32` and `f64`, integers, ordered sets,
--                and statements that may return early, with their rules
--   Contracts    the shared types of protocol.rs, detector results (Contracts/Detection) and profiles
--                (Contracts/Profile)
--   Tasks        plans and `TaskPlan::validate`; Tasks/Validation says what it accepts;
--                Tasks/Execution is `execute_task_plan`, with the rules of its statements in
--                Execution/Rules and what its runs do in Execution/{Safety, Cleanup, Completion}
--   Dsl          pattern programs and their validation; Dsl/Validation says what it accepts
--   Scheduler    permits; Scheduler/Exclusion has histories of several tasks
--   Reconnect    `run_bounded_reconnect`; Reconnect/Bounds has its outcomes, Reconnect/Frame what it
--                leaves alone
--   CrashGuard   the crash window; CrashGuard/Window says what it holds after a crash,
--                CrashGuard/Restart after a restart
--   Engine       the engine's state, `pause`, `resume` and `stop`; Engine/Worker is `run_worker`;
--                Engine/Log orders its calls and events, Engine/Steps, Engine/Commands and
--                Engine/Calls keep that order, Engine/Outcome has the whole run
--   Daemon       how the engine starts a worker, and safe mode; Daemon/SafeMode says what a start does,
--                Daemon/Lock that safe mode holds, with Daemon/Commands on pause, resume and stop,
--                Daemon/Acknowledge how it ends
--   Platform     the session (Platform/Session), the broker (Platform/Input, with Input/Focus on which
--                sends happen, Input/Held on what stays pressed, Input/Owned on what the record of pressed
--                inputs stands for and Input/Frame on what is recorded),
--                the emergency stop (Platform/Emergency), the freeze classifier (Platform/Freeze) and
--                the hotkeys (Platform/Hotkeys); Platform/Executor is the native task runtime of
--                task_executor.rs, where the session, the broker and a task plan meet, with the keys
--                and buttons that it holds in Executor/Press and whole plans in Executor/Runs
--   SessionPlan  the steps of a gather session; SessionPlan/Assets has the allowlists,
--                SessionPlan/Cycle and SessionPlan/Collect what is planned, SessionPlan/Runnable when
--                a plan is built at all
--   LegacySession  the worker of a gather session; LegacySession/Run has its steps and its whole,
--                LegacySession/Kept what they keep of the calls, LegacySession/Preflights which scripts
--                it starts, LegacySession/Rounds that the loop of a step ends
--   Quests       objectives and catalogs, with what passes in Quests/Catalog; Quests/Distance is the
--                edit distance, Quests/Objectives the lines of dynamic quests, Quests/Titles the title
--                detector and Quests/Consensus its agreement over frames
-- A file called Tests applies the theorems of its part at concrete values.
--
-- How the code is read. A function keeps the name that it has in Rust. `&mut self` is a state that goes
-- in and comes out; `?` and an early `return` are binds of a result; the body of a loop is a function
-- and the loop is recursion on the list or on the number of rounds that are left. Fuel is needed in
-- printing a number, where the number itself is enough, and in the loop of a session's step: a step
-- without a field deadline needs two rounds for each repetition and two more, a gather goes on
-- until its clock reaches the deadline. What is not part of
-- the repository - the clock, timers, cancellation tokens, the foreground window, the detectors and the
-- backends behind a trait - is a record of functions on a world of its own: it may answer anything
-- and change its mind at every call. So is the store of crates/nectarpilot-core/src/persistence.rs, which
-- SQLite keeps. Logs of such calls, newest first, are kept for the statements.
-- An `f32` is an exact multiple of 2^-149, an infinity or no number at all, and its sums, products and
-- quotients are rounded to the nearest, ties to even; counters keep the bounds that the code checks and
-- wrap or saturate where the code does. A mutex makes an operation one step; in the engine, commands of
-- other tasks run before and after every call that the worker waits for, each of them as one step.
-- An index out of range and a failed `expect` are an option without a value. The quest catalogs, which
-- are data files, are a function of the giver.
--
-- Not modelled: single legacy runs, quest scans and the other commands of the engine; the field planner
-- of crates/nectarpilot-core/src/quests.rs, which sums products of `f64`;
-- crates/nectarpilot-core/src/{legacy_ini, persistence, perception, transport}.rs; the backend of
-- task_executor.rs around the runtime; and crates/nectarpilot-legacy. Serialisation, SQLite, Win32
-- calls, image search, the desktop in apps/ and the AutoHotkey macro are input and output around these
-- parts or code in other languages.
pub mod Prelude
pub mod Contracts
pub mod CrashGuard
pub mod Daemon
pub mod Engine
pub mod Scheduler
pub mod SessionPlan
pub mod Reconnect
pub mod Dsl
pub mod Tasks
pub mod LegacySession
pub mod Platform
pub mod Quests
