-- ===== src/Dsl/Validation.antt =====
-- What `NectarProgram::validate` accepts (crates/nectarpilot-core/src/dsl.rs), against a description
-- of a bounded program: how deep it nests and how many steps it unrolls to.
use roblox.Prelude.{
  ℕ, zero, suc, ◌+◌, ◌-◌, ◌*◌, ◌^◌, ◌≤◌, ◌<◌, min, ◌≡◌, refl, ap, ◌∙◌, ◌↔◌, inl, inr, Text, codes,
  is_blank, true, false, F32, nan, neg_infinity, infinity, below, above, is_finite, in_range,
  f_zero, f_one, ok, >>=-eq-ok, Result-cases, arith,
}
use roblox.Dsl.{
  Step, Steps, move, rotate, jump, wait, repeat, detector_condition, nil, cons, NectarProgram,
  nectar_schema_version, max_nesting, max_expanded_steps, max_step_duration_ms, no_steps,
  lowest_speed, bad_speed, bad_degrees, bad_confidence, validate_duration, checked_add,
  saturating_mul, count_more, step_path, validate_step, validate_each, validate,
}

-- How many steps a step unrolls to besides itself, and how many a list of steps unrolls to.
unfoldable mutual
  pub extra : Step → ℕ
  extra (move d ms s) = 0
  extra (rotate d ms) = 0
  extra (jump ms) = 0
  extra (wait ms) = 0
  extra (repeat times steps) = times * unrolled steps
  extra (detector_condition d c steps b) = unrolled steps

  pub unrolled : Steps → ℕ
  unrolled nil = 0
  unrolled (cons s rest) = 1 + extra s + unrolled rest

abbrev pub IsDuration : ℕ → Type 0
IsDuration ms = (0 < ms) × (ms ≤ max_step_duration_ms)

-- A finite angle between -1440 and 1440 degrees that is not zero.
abbrev pub IsAngle : F32 → Type 0
IsAngle (above n) = (0 < n) × (n ≤ 1440 * 2 ^ 149)
IsAngle (below n) = suc n ≤ 1440 * 2 ^ 149
IsAngle _ = ⊥

-- `depth` is the nesting of the list that the step stands in.
unfoldable mutual
  pub IsStep : ℕ → Step → Type 0
  IsStep depth (move d ms s) = IsDuration ms × (in_range lowest_speed f_one s ≡ true)
  IsStep depth (rotate d ms) = IsDuration ms × IsAngle d
  IsStep depth (jump ms) = IsDuration ms
  IsStep depth (wait ms) = IsDuration ms
  IsStep depth (repeat times steps) =
      ((1 ≤ times) × (times ≤ 100))
      × (no_steps steps ≡ false)
      × (depth + 1 ≤ max_nesting)
      × AreSteps (depth + 1) steps
  IsStep depth (detector_condition d c steps b) =
      ((is_blank d ≡ false) × (in_range f_zero f_one c ≡ true))
      × (no_steps steps ≡ false)
      × (depth + 1 ≤ max_nesting)
      × AreSteps (depth + 1) steps

  pub AreSteps : ℕ → Steps → Type 0
  AreSteps depth nil = Unit
  AreSteps depth (cons s rest) = IsStep depth s × AreSteps depth rest

pub record IsBounded (program : NectarProgram) : Type 0 where
  pub supported : program.schema_version ≡ nectar_schema_version
  pub named : is_blank program.name ≡ false
  pub some_steps : no_steps program.steps ≡ false
  pub formed : AreSteps 0 program.steps
  pub short : unrolled program.steps ≤ max_expanded_steps

IsDuration-iff : (ms : ℕ) (path : Text) → (validate_duration ms path ≡ ok tt) ↔ IsDuration ms
unfolding validate_duration
IsDuration-iff ms path = ground arith

in_range→finite :
    (low high : ℕ) (c : F32) → in_range (above low) (above high) c ≡ true → is_finite c ≡ true
in_range→finite low high nan h = cc
in_range→finite low high neg_infinity h = cc
in_range→finite low high infinity h = cc
in_range→finite low high (below m) h = refl
in_range→finite low high (above m) h = refl

IsAngle-iff : (d : F32) → (bad_degrees d ≡ false) ↔ IsAngle d
IsAngle-iff nan = ground arith
IsAngle-iff neg_infinity = ground arith
IsAngle-iff infinity = ground arith
IsAngle-iff (below n) = ground arith
IsAngle-iff (above n) = ground arith

count_more_ok : (e more : ℕ) → e + more ≤ max_expanded_steps → count_more e more ≡ ok (e + more)
unfolding count_more checked_add
count_more_ok e more h = ground arith

count_more_sound :
    (e more : ℕ) {r : ℕ} → count_more e more ≡ ok r → (r ≡ e + more) × (r ≤ max_expanded_steps)
unfolding count_more checked_add
count_more_sound e more h = ground arith

repeated : (times n : ℕ) → 1 ≤ times → n + n * (times - 1) ≡ times * n
repeated zero n h = absurd (omega arith)
repeated (suc t) n h = let e : suc t - 1 ≡ t = omega arith in rw e (omega arith)

speed_iff : (c : F32) → (bad_speed c ≡ false) ↔ (in_range lowest_speed f_one c ≡ true)
speed_iff c = ground (arith, in_range→finite (13421773 * 2 ^ 121) (2 ^ 149) c)

confidence_iff : (c : F32) → (bad_confidence c ≡ false) ↔ (in_range f_zero f_one c ≡ true)
confidence_iff c = ground (arith, in_range→finite 0 (2 ^ 149) c)

-- The counting at the end of a repetition.
repeat_count :
    (times n e : ℕ)
    → 1 ≤ times
    → e + times * n ≤ max_expanded_steps
    → count_more (e + n) (saturating_mul (e + n - e) (times - 1)) ≡ ok (e + times * n)
unfolding saturating_mul
repeat_count times n e h fits =
    let d : e + n - e ≡ n = omega arith in
    let m : n + n * (times - 1) ≡ times * n = repeated times n h in
    rw d (
      count_more_ok (e + n) (min (n * (times - 1)) (2 ^ 64 - 1)) (omega (arith, m, fits))
      ∙ ap ok (omega (arith, m, fits)))

mutual
  unfolding validate_step extra IsStep

  step_ok :
      (s : Step) (path : Text) (depth e : ℕ)
      → IsStep depth s
      → e + extra s ≤ max_expanded_steps
      → validate_step s path depth e ≡ ok (e + extra s)
  step_ok (move d ms c) path depth e w fits = ground (arith, IsDuration-iff ms path, speed_iff c)
  step_ok (rotate d ms) path depth e w fits = ground (arith, IsDuration-iff ms path, IsAngle-iff d)
  step_ok (jump ms) path depth e w fits = ground (arith, IsDuration-iff ms path)
  step_ok (wait ms) path depth e w fits = ground (arith, IsDuration-iff ms path)
  step_ok (repeat times steps) path depth e w fits = ground (
    arith,
    each_ok steps path (depth + 1) 0 e,
    repeat_count times (unrolled steps) e,
    repeated times (unrolled steps),
  )
  step_ok (detector_condition d c steps b) path depth e w fits =
      ground (arith, confidence_iff c, each_ok steps path (depth + 1) 0 e)

  each_ok :
      (ss : Steps) (path : Text) (depth i e : ℕ)
      → AreSteps depth ss
      → e + unrolled ss ≤ max_expanded_steps
      → validate_each ss path depth i e ≡ ok (e + unrolled ss)
  each_ok nil path depth i e w fits = ap ok (omega arith)
  each_ok (cons s rest) path depth i e w fits =
      rw
        (
          count_more_ok e 1 (omega arith),
          step_ok s (step_path path i) depth (e + 1) w.0 (omega arith),
        )
        (each_ok rest path depth (i + 1) (e + 1 + extra s) w.1 (omega arith) ∙ ap ok (omega arith))

-- What a result says of the count: it is exact and within the limit.
abbrev Counted : ℕ → ℕ → ℕ → Type 0
Counted e more r = (r ≡ e + more) × (r ≤ max_expanded_steps)

repeat-Counted :
    (times n e m : ℕ) {r : ℕ}
    → 1 ≤ times
    → m ≡ e + n
    → count_more m (saturating_mul (m - e) (times - 1)) ≡ ok r
    → Counted e (times * n) r
unfolding saturating_mul
repeat-Counted times n e m {r} h same went =
    let d : m - e ≡ n = omega (arith, same) in
    let c = count_more_sound m (saturating_mul (m - e) (times - 1)) {r = r} went in
    omega (arith, c, d, same, repeated times n h, ap (λ (k : ℕ). k * (times - 1)) d)

mutual
  unfolding validate_step extra IsStep

  step_sound :
      (s : Step) (path : Text) (depth e : ℕ) {r : ℕ}
      → e ≤ max_expanded_steps
      → validate_step s path depth e ≡ ok r
      → IsStep depth s × Counted e (extra s) r
  step_sound (move d ms c) path depth e {r} low went =
      ground (arith, IsDuration-iff ms path, speed_iff c)
  step_sound (rotate d ms) path depth e {r} low went =
      ground (arith, IsDuration-iff ms path, IsAngle-iff d)
  step_sound (jump ms) path depth e {r} low went = ground (arith, IsDuration-iff ms path)
  step_sound (wait ms) path depth e {r} low went = ground (arith, IsDuration-iff ms path)
  step_sound (repeat times steps) path depth e {r} low went =
      elim (Result-cases (validate_each steps path (depth + 1) 0 e)) [
        | inl (m, q) ↦
            let inner = each_sound steps path (depth + 1) 0 e {r = m} low q in
            ground (arith, q, inner, repeat-Counted times (unrolled steps) e m {r = r})
        | inr (x, q) ↦ ground (arith, q)
      ]
  step_sound (detector_condition d c steps b) path depth e {r} low went =
      ground (arith, confidence_iff c, each_sound steps path (depth + 1) 0 e {r = r})

  each_sound :
      (ss : Steps) (path : Text) (depth i e : ℕ) {r : ℕ}
      → e ≤ max_expanded_steps
      → validate_each ss path depth i e ≡ ok r
      → AreSteps depth ss × Counted e (unrolled ss) r
  each_sound nil path depth i e {r} low went = ground arith
  each_sound (cons s rest) path depth i e {r} low went =
      let (counted, c, went') = >>=-eq-ok (count_more e 1) _ {out = r} went in
      let (after, t, went'') =
        >>=-eq-ok (validate_step s (step_path path i) depth counted) _ {out = r} went' in
      let one = count_more_sound e 1 {r = counted} c in
      let first = step_sound s (step_path path i) depth counted {r = after} one.1 t in
      let others = each_sound rest path depth (i + 1) after {r = r} first.1.1 went'' in
      ((first.0, others.0), omega (arith, one, first.1, others.1))

validate_ok : (program : NectarProgram) → IsBounded program → validate program ≡ ok tt
unfolding validate
validate_ok program b = ground (arith, each_ok program.steps (codes "steps") 0 0 0 b.formed)

validate_sound : (program : NectarProgram) → validate program ≡ ok tt → IsBounded program
unfolding validate
validate_sound program went =
    elim (Result-cases (validate_each program.steps (codes "steps") 0 0 0)) [
      | inl (m, q) ↦
          let inner = each_sound program.steps (codes "steps") 0 0 0 {r = m} (omega arith) q in
          ground (arith, q, inner)
      | inr (x, q) ↦ ground (arith, q)
    ]

-- `validate` accepts a program exactly when it is bounded: its schema version is 1, its name is not
-- blank and it has a step; every duration lies in 1..=900000 ms, every speed in 0.05..=1, every angle
-- is finite, not zero and within 1440 degrees, every repetition runs 1 to 100 times over a list that
-- is not empty, every detector condition names a detector, asks for a confidence in 0..=1 and has a
-- step; steps nest at most 16 levels deep; and the whole program unrolls to at most 10000 steps, each
-- repetition counted as often as it runs.
pub validate-IsBounded_iff :
    (program : NectarProgram) → (validate program ≡ ok tt) ↔ IsBounded program
validate-IsBounded_iff program = (validate_sound program, validate_ok program)
