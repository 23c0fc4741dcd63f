-- ===== src/Content/Tests.antt =====
-- Descriptions on concrete rules, with integers for `double`.
use alarm_sys_linux.Common.{◌≡◌, refl, true, false, ◌||◌, ◌&&◌, none, [], ◌∷◌, arith, List}
use alarm_sys_linux.Common.Int.{ℤ, pos, eq_ℤ}
use alarm_sys_linux.Common.Integers.{integers}
use alarm_sys_linux.Threat.{default_params}
use alarm_sys_linux.Rules.Context.{AreaParams}
use alarm_sys_linux.Rules.Guards.{Verdict, current_speed_check, in_course_range, height_step}
use alarm_sys_linux.Rules.Tests.{ctx, slow_boats, boat_track}
use alarm_sys_linux.Content.{Sources}
use alarm_sys_linux.Content.Reasons.{
  Wording, speed_satisfies_rule, course_enabled, course_satisfies_rule, height_enabled,
  height_satisfies_rule,
}
use alarm_sys_linux.Content.Agreement.{reasons-judged}

abbrev words : Wording ℤ
words = record { number = λ z. "7"; fixed_1 = λ w. "7.0" }

abbrev weights : List (AreaParams ℤ)
weights = record { group_id = pos 2; area_id = pos 1; params = default_params } ∷ []

abbrev sources : Sources ℤ
sources = record {
  types = record {
    detect = λ id. none;
    target_type = [];
    dict_target_types = "boat" ∷ [];
    number = λ z. "7";
  };
  images = λ id. none;
  has_images = λ id. false;
  threat_params = weights;
}

abbrev passed : Verdict ℤ
passed = record {
  pass = true;
  protect_center = none;
  angle_to_check = pos 45;
  threat_score = pos 0;
  breakdown = none;
}

reasons-judged_example :
    (speed_satisfies_rule boat_track.speed_mps slow_boats.speed_condition slow_boats.speed ≡ (
      (eq_ℤ slow_boats.speed_condition (pos 1) || eq_ℤ slow_boats.speed_condition (pos 2))
      && current_speed_check ctx slow_boats boat_track))
    × (course_satisfies_rule (pos 45) slow_boats
        ≡ (course_enabled slow_boats && in_course_range ctx slow_boats (pos 45)))
    × (height_satisfies_rule boat_track.altitude_metres slow_boats
        ≡ (height_enabled slow_boats && (height_step ctx slow_boats boat_track passed).pass))
reasons-judged_example =
    reasons-judged ctx slow_boats boat_track (pos 45) passed (λ n. ground arith) (λ n. ground arith)
      (λ n. ground arith) refl
