-- ===== src/Contracts.antt =====
-- The protocol types that the core shares with the desktop
-- (crates/nectarpilot-contracts/src/protocol.rs) and the detector results of
-- crates/nectarpilot-contracts/src/detection.rs.
pub mod Detection
pub mod Profile
use roblox.Prelude.{Bool, true, false}

pub data StartMode : Type 0 where
  normal dry_run diagnostics : StartMode

pub data RunState : Type 0 where
  idle preflight running paused recovering needs_attention stopping faulted : RunState

pub data ActionOutcome : Type 0 where
  succeeded skipped cancelled failed needs_attention : ActionOutcome

-- `==` of the derived `PartialEq`.
abbrev pub is_normal : StartMode → Bool
is_normal normal = true
is_normal _ = false

abbrev pub is_dry_run : StartMode → Bool
is_dry_run dry_run = true
is_dry_run _ = false

abbrev pub is_diagnostics : StartMode → Bool
is_diagnostics diagnostics = true
is_diagnostics _ = false
