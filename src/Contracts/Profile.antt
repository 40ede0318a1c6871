-- ===== src/Contracts/Profile.antt =====
-- The profile that the desktop edits and the core runs from,
-- crates/nectarpilot-contracts/src/profile.rs. A `BTreeMap` is the list of its entries in ascending
-- order of the keys; an id and a time are numbers.
pub mod Movement
use roblox.Prelude.{
  ℕ, Bool, true, false, Text, codes, Option, none, some, List, [], ◌∷◌, text_eq, if◌then◌else◌, min,
  max,
}
use roblox.Prelude.Double.{F64, whole, is_finite, clamp}

-- `BTreeMap<String, V>`
abbrev pub TextMap : Type 0 → Type 0
TextMap V = List (Text × V)

-- `BTreeMap::get`
unfoldable pub get : {V : Type 0} → Text → TextMap V → Option V
get key [] = none
get key ((k, v) ∷ rest) = if text_eq key k then some v else get key rest

pub record FeatureFlags : Type 0 where
  pub collections : Bool
  pub bosses : Bool
  pub vicious_bee : Bool
  pub memory_matches : Bool
  pub quests : Bool
  pub planters : Bool
  pub boosts : Bool
  pub shrine : Bool
  pub stickers : Bool
  pub hotbar_scheduling : Bool
  pub mutations_and_auto_jelly : Bool
  pub seasonal : Bool
  pub custom_extensions : Bool

pub record HotkeyConfig : Type 0 where
  pub start : Text
  pub pause_resume : Text
  pub stop : Text
  pub emergency_stop : Text

pub record SessionConfig : Type 0 where
  pub convert_wait_seconds : ℕ
  pub default_max_cycles : ℕ
  pub default_max_minutes : ℕ

pub record MovementConfig : Type 0 where
  pub walk_speed : F64
  pub hive_slot : ℕ
  pub hive_bees : ℕ
  pub key_delay : ℕ
  pub cannon_travel : Bool
  pub buff_corrected_walk : Bool

pub record ManualPlanterTimer : Type 0 where
  pub slot : ℕ
  pub label : Text
  pub placed_at : ℕ
  pub harvest_at : ℕ

pub record CollectTask : Type 0 where
  pub target : Text
  pub cooldown_minutes : ℕ

pub record FieldRotation : Type 0 where
  pub field : Text
  pub pattern : Text
  pub gather_seconds : ℕ
  pub repetitions : ℕ

pub record AutomationConfig : Type 0 where
  pub gathering_enabled : Bool
  pub reconnect_enabled : Bool
  pub rotations : List FieldRotation
  pub features : FeatureFlags
  pub hotkeys : HotkeyConfig
  pub session : SessionConfig
  pub movement : MovementConfig
  pub movement_configured : Bool
  pub planters : List ManualPlanterTimer
  pub collect : List CollectTask

pub record ValuableItemBudgets : Type 0 where
  pub dice : ℕ
  pub glitter : ℕ
  pub eggs : ℕ
  pub stickers : ℕ
  pub vouchers : ℕ
  pub shrine_donations : ℕ
  pub other : TextMap ℕ

pub record SafetyConfig : Type 0 where
  pub item_budgets : ValuableItemBudgets
  pub purchases_enabled : Bool
  pub donations_enabled : Bool
  pub trades_enabled : Bool
  pub allow_system_power : Bool
  pub evidence_retention_days : ℕ
  pub evidence_retention_megabytes : ℕ

pub record DiscordPermissions : Type 0 where
  pub status : Bool
  pub macro_control : Bool
  pub settings : Bool
  pub screenshots : Bool
  pub remote_input : Bool
  pub extension_import : Bool
  pub system_power : Bool

pub record DiscordConfig : Type 0 where
  pub enabled : Bool
  pub credential_ref : Option Text
  pub permissions : DiscordPermissions

pub record LegacySource : Type 0 where
  pub file_name : Text
  pub sha256 : Text
  pub sections : TextMap (TextMap Text)

pub record LegacySnapshot : Type 0 where
  pub sources : List LegacySource

pub record Profile : Type 0 where
  pub id : ℕ
  pub schema_version : ℕ
  pub name : Text
  pub created_at : ℕ
  pub updated_at : ℕ
  pub automation : AutomationConfig
  pub safety : SafetyConfig
  pub discord : DiscordConfig
  pub onboarding_complete : Bool
  -- An extension's identifier and the digest that the user approved.
  pub trusted_extensions : TextMap Text
  pub legacy : Option LegacySnapshot

abbrev pub default_features : FeatureFlags
default_features = record {
  collections = false;
  bosses = false;
  vicious_bee = false;
  memory_matches = false;
  quests = false;
  planters = false;
  boosts = false;
  shrine = false;
  stickers = false;
  hotbar_scheduling = false;
  mutations_and_auto_jelly = false;
  seasonal = false;
  custom_extensions = false;
}

abbrev pub default_hotkeys : HotkeyConfig
default_hotkeys = record {
  start = codes "F1";
  pause_resume = codes "F2";
  stop = codes "F3";
  emergency_stop = codes "Ctrl+Shift+F12";
}

abbrev pub default_session : SessionConfig
default_session = record {
  convert_wait_seconds = 30;
  default_max_cycles = 10;
  default_max_minutes = 120;
}

abbrev pub default_movement : MovementConfig
default_movement = record {
  walk_speed = whole 28;
  hive_slot = 6;
  hive_bees = 50;
  key_delay = 20;
  cannon_travel = true;
  buff_corrected_walk = true;
}

abbrev pub default_automation : AutomationConfig
default_automation = record {
  gathering_enabled = false;
  reconnect_enabled = true;
  rotations = [];
  features = default_features;
  hotkeys = default_hotkeys;
  session = default_session;
  movement = default_movement;
  movement_configured = false;
  planters = [];
  collect = [];
}

abbrev pub default_safety : SafetyConfig
default_safety = record {
  item_budgets = record {
    dice = 0;
    glitter = 0;
    eggs = 0;
    stickers = 0;
    vouchers = 0;
    shrine_donations = 0;
    other = [];
  };
  purchases_enabled = false;
  donations_enabled = false;
  trades_enabled = false;
  allow_system_power = false;
  evidence_retention_days = 14;
  evidence_retention_megabytes = 250;
}

abbrev pub default_discord : DiscordConfig
default_discord = record {
  enabled = false;
  credential_ref = none;
  permissions = record {
    status = false;
    macro_control = false;
    settings = false;
    screenshots = false;
    remote_input = false;
    extension_import = false;
    system_power = false;
  };
}

-- `Profile::new`, at a fresh id and the present time.
abbrev pub new_profile : ℕ → ℕ → Text → Profile
new_profile id now name = record {
  id = id;
  schema_version = 1;
  name = name;
  created_at = now;
  updated_at = now;
  automation = default_automation;
  safety = default_safety;
  discord = default_discord;
  onboarding_complete = false;
  trusted_extensions = [];
  legacy = none;
}

-- `MovementConfig::sanitized`
unfoldable pub sanitized : MovementConfig → MovementConfig
sanitized m = record {
  walk_speed =
      if is_finite m.walk_speed then clamp (whole 10) (whole 200) m.walk_speed else whole 28;
  hive_slot = max 1 (min 6 m.hive_slot);
  hive_bees = min m.hive_bees 50;
  key_delay = min m.key_delay 1000;
  cannon_travel = m.cannon_travel;
  buff_corrected_walk = m.buff_corrected_walk;
}
