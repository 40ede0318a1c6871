-- ===== src/Dsl/Tests.antt =====
-- Programs of crates/nectarpilot-core/src/dsl.rs.
use roblox.Prelude.{◌≡◌, ◌↔◌, refl, codes, f_one, is_blank, decimal, ok, err}
use roblox.Dsl.{
  Step, Steps, move, wait, repeat, forward, nil, cons, NectarProgram, too_many_steps,
  validate_duration, checked_add, saturating_mul, count_more, validate_step, validate_steps,
  validate,
}
use roblox.Dsl.Validation.{IsBounded, validate-IsBounded_iff}

abbrev only : Step → Steps
only s = cons s nil

abbrev snake : NectarProgram
snake = record {
  schema_version = 1;
  name = codes "test pattern";
  description = codes "";
  steps = cons (move forward 250 f_one) (only (repeat 2 (only (wait 20))));
}

-- 100 * 100 steps and the steps around them.
abbrev exploding : NectarProgram
exploding = record snake { steps = only (repeat 100 (only (repeat 100 (only (wait 1))))) }

snake_valid : validate snake ≡ ok tt
unfolding validate validate_steps validate_step count_more checked_add saturating_mul
    validate_duration is_blank decimal
snake_valid = refl

exploding_refused : validate exploding ≡ err too_many_steps
unfolding validate validate_steps validate_step count_more checked_add saturating_mul
    validate_duration is_blank decimal
exploding_refused = refl

validate-IsBounded_iff_example : (validate snake ≡ ok tt) ↔ IsBounded snake
validate-IsBounded_iff_example = validate-IsBounded_iff snake
