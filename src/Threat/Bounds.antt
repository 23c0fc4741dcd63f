-- ===== src/Threat/Bounds.antt =====
-- The bounds of the threat level and its description (src/dialog/alarm/TrackAlarmThread.cpp).
use alarm_sys_linux.Common.{◌≡◌, ◌↔◌, String, true, false, Option, str_eq_iff, arith}
use alarm_sys_linux.Common.Int.{pos}
use alarm_sys_linux.Common.Double.{Double}
use alarm_sys_linux.Alarms.Tracks.{Track}
use alarm_sys_linux.Alarms.Save.{BasePoint}
use alarm_sys_linux.Threat.{
  ThreatAssessmentParams, ProtectArea, clamp, describe, calculate_threat_assessment,
}

-- Facts of the comparisons of doubles with the small integers of the code.
pub record IsOrdered {W : Type 0} (d : Double W) : Type 0 where
  pub zero_zero : d.lt (d.of_ℤ (pos 0)) (d.of_ℤ (pos 0)) ≡ false
  pub hundred_zero : d.lt (d.of_ℤ (pos 100)) (d.of_ℤ (pos 0)) ≡ false
  pub hundred_hundred : d.lt (d.of_ℤ (pos 100)) (d.of_ℤ (pos 100)) ≡ false
  pub above_70 : (w : W) → d.le (d.of_ℤ (pos 70)) w ≡ true → d.lt (d.of_ℤ (pos 0)) w ≡ true
  pub above_30 : (w : W) → d.le (d.of_ℤ (pos 30)) w ≡ true → d.lt (d.of_ℤ (pos 0)) w ≡ true

module _ {W : Type 0} ⦃d : Double W⦄ (o : IsOrdered d) where
  clamp_lem :
      (w : W)
      → (d.lt (clamp w) (d.of_ℤ (pos 0)) ≡ false) × (d.lt (d.of_ℤ (pos 100)) (clamp w) ≡ false)
  unfolding clamp
  clamp_lem w = ground (arith, o.zero_zero, o.hundred_zero, o.hundred_hundred)

  describe_iff : (w : W) → (describe w ≡ "无威胁") ↔ (d.lt (d.of_ℤ (pos 0)) w ≡ false)
  unfolding describe
  describe_iff w = ground (
    arith,
    o.above_70 w,
    o.above_30 w,
    str_eq_iff "高威胁" "无威胁",
    str_eq_iff "中威胁" "无威胁",
    str_eq_iff "低威胁" "无威胁",
  )

  -- The total threat level is not below 0 and not above 100, whatever the weights, the scores and the
  -- track are, and the threat is described as none exactly when the level is not above 0; where
  -- doubles compare small integers as they should.
  pub assessment_bounds :
      (b : BasePoint W) (p : ThreatAssessmentParams W) (area : Option (ProtectArea W))
      (type : String) (track : Track W)
      → let result = calculate_threat_assessment b p area type track in
        (d.lt result.total_threat_level (d.of_ℤ (pos 0)) ≡ false)
        × (d.lt (d.of_ℤ (pos 100)) result.total_threat_level ≡ false)
        × ((result.threat_description ≡ "无威胁")
            ↔ (d.lt (d.of_ℤ (pos 0)) result.total_threat_level ≡ false))
  unfolding calculate_threat_assessment
  assessment_bounds b p area type track =
      let result = calculate_threat_assessment b p area type track in
      let total =
        d.add
          (d.add (d.add result.weighted_type_score result.weighted_angle_score)
            result.weighted_speed_score)
          result.weighted_distance_score in
      ((clamp_lem total).0, (clamp_lem total).1, describe_iff (clamp total))
