-- ===== src/Content/Agreement.antt =====
-- Where the description of an alarm (src/dialog/alarm/AlarmContentBuilder.cpp) says what the judgement of
-- the candidate (`updataAlarmTrackToDB`, src/dialog/alarm/TrackAlarmThread.cpp) looked at.
use alarm_sys_linux.Common.{◌≡◌, Bool, true, not, ◌&&◌, ◌||◌, List, [], ◌∷◌, any, arith}
use alarm_sys_linux.Common.Int.{ℤ, pos, eq_ℤ, eq_ℤ_iff}
use alarm_sys_linux.Common.Double.{Double}
use alarm_sys_linux.Common.Text.{Text}
use alarm_sys_linux.Alarms.Tracks.{Track}
use alarm_sys_linux.Rules.Context.{AlarmRule, AreaParams, Context}
use alarm_sys_linux.Rules.Guards.{
  Verdict, current_speed_check, in_course_range, height_step, find_params,
}
use alarm_sys_linux.Content.{Sources, resolve_in, hundred}
use alarm_sys_linux.Content.Reasons.{
  Wording, speed_satisfies_rule, course_enabled, course_satisfies_rule, height_enabled,
  height_satisfies_rule,
}

module _ {W R : Type 0} ⦃d : Double W⦄ (ctx : Context W R) (rule : AlarmRule) where
  -- Whether there are weights for the area of the rule.
  abbrev pub has_weights : List (AreaParams W) → Bool
  has_weights threat_params =
      any (λ p. eq_ℤ p.group_id rule.group_id && eq_ℤ p.area_id rule.area_id) threat_params

  -- The greatest scores that a description names are a hundred times the weights with which the
  -- threat was computed, if there are weights for the area of the rule.
  pub resolve_in-find_params :
      (qt : Text) (w : Wording W) (src : Sources W) (threat_params : List (AreaParams W))
      → has_weights threat_params ≡ true
      → let used = find_params ctx rule threat_params in
        resolve_in qt w src rule threat_params ≡ (
          hundred qt w src used.type_weight,
          hundred qt w src used.speed_weight,
          hundred qt w src used.angle_weight,
          hundred qt w src used.distance_weight,
        )
  unfolding resolve_in find_params
  resolve_in-find_params qt w src [] h = cc
  resolve_in-find_params qt w src (p ∷ rest) h =
      ground (arith, h, resolve_in-find_params qt w src rest)

  -- A double that is a number and not NaN: of it and an integer, one is at most the other exactly if
  -- the other is not below it.
  abbrev pub IsNumber : W → Type 0
  IsNumber w =
      (n : ℤ)
      → (d.le w (d.of_ℤ n) ≡ not (d.lt (d.of_ℤ n) w))
        × (d.le (d.of_ℤ n) w ≡ not (d.lt w (d.of_ℤ n)))

  -- Where the speed, the height and the angle of the course are numbers and not NaN: the speed is a
  -- reason in a description exactly if the rule has a condition on it that the judgement accepts, and
  -- the course and the height are if the description takes the rule for one about them and the
  -- judgement, where nothing else has failed, accepts them.
  pub reasons-judged :
      (track : Track W) (angle : W) (v : Verdict W)
      → IsNumber track.speed_mps
      → IsNumber angle
      → IsNumber track.altitude_metres
      → v.pass ≡ true
      → (speed_satisfies_rule track.speed_mps rule.speed_condition rule.speed ≡ (
          (eq_ℤ rule.speed_condition (pos 1) || eq_ℤ rule.speed_condition (pos 2))
          && current_speed_check ctx rule track))
        × (course_satisfies_rule angle rule
            ≡ (course_enabled rule && in_course_range ctx rule angle))
        × (height_satisfies_rule track.altitude_metres rule
            ≡ (height_enabled rule && (height_step ctx rule track v).pass))
  unfolding speed_satisfies_rule current_speed_check course_satisfies_rule in_course_range
      course_enabled height_satisfies_rule height_step height_enabled
  reasons-judged track angle v speed course height p = (
    ground (
      arith,
      speed rule.speed,
      eq_ℤ_iff rule.speed_condition (pos 1),
      eq_ℤ_iff rule.speed_condition (pos 2),
    ),
    ground (arith, course rule.course_min, course rule.course_max),
    ground (arith, p, height rule.height_min, height rule.height_max),
  )
