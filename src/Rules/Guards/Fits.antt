-- ===== src/Rules/Guards/Fits.antt =====
-- What the conditions of a rule ask of a candidate (`updataAlarmTrackToDB`,
-- src/dialog/alarm/TrackAlarmThread.cpp), said apart from the code that tests it.
use alarm_sys_linux.Common.{◌≡◌, ◌≢◌, ◌⊎◌, ℕ, ◌^◌, true, false, String, Option, none, some}
use Prim.Native.Nat.{bit_and}
use alarm_sys_linux.Common.Int.{ℤ, pos, ◌*ℤ◌, ◌≤ℤ◌, ◌<ℤ◌}
use alarm_sys_linux.Common.Dict.{lookup, int_key}
use alarm_sys_linux.Common.Double.{Double}
use alarm_sys_linux.Alarms.Tracks.{Track, int_max}
use alarm_sys_linux.Suspicious.{Point, CheckMap}
use alarm_sys_linux.Threat.{ThreatAssessmentResult, convert_target_type_string_to_bitmask}
use alarm_sys_linux.Threat.Arrival.{calculate_time_to_protect_area}
use alarm_sys_linux.Rules.Context.{AlarmRule, TargetInfoFilter, DetectionTypeResult, Context}
use alarm_sys_linux.Rules.Guards.{
  Verdict, or_no_area, last_circle, searched_areas, protect_info, angle_of_course, protect_radius,
  edge_distance,
}

module _ {W R : Type 0} ⦃d : Double W⦄ (ctx : Context W R) (rule : AlarmRule) where
  -- The speed: there is no condition, or it holds, and it held the last time, if that is asked.
  abbrev pub SpeedFits : ℤ → ℤ → Track W → CheckMap → Type 0
  SpeedFits type track_id track checks =
      let limit = d.of_ℤ rule.speed in
      (rule.speed_condition ≤ℤ pos 0)
      ⊎ (((rule.speed_condition ≢ pos 1) ⊎ (d.le limit track.speed_mps ≡ false))
          × ((rule.speed_condition ≢ pos 2) ⊎ (d.le track.speed_mps limit ≡ false))
          × (((type ≢ pos 0) × (ctx.cfg.speed_double_check_fuse_track_only ≢ pos 0))
              ⊎ (lookup track_id checks ≡ some true)))

  abbrev pub HeightFits : Track W → Type 0
  HeightFits track =
      (rule.height_min ≡ rule.height_max)
      ⊎ ((d.lt track.altitude_metres (d.of_ℤ rule.height_min) ≡ false)
          × (d.lt (d.of_ℤ rule.height_max) track.altitude_metres ≡ false))

  -- The angle of the course, to the centre of the protected circle if there is one.
  abbrev pub course_angle : Track W → W
  course_angle track =
      angle_of_course ctx rule track
        (last_circle (or_no_area (protect_info ctx rule)).1 none (searched_areas ctx rule))

  -- A range of courses that goes over 0 is one whose least course is above its greatest.
  abbrev pub CourseFits : Track W → Type 0
  CourseFits track =
      let angle = course_angle track in
      let not_below = d.lt angle (d.of_ℤ rule.course_min) ≡ false in
      let not_above = d.lt (d.of_ℤ rule.course_max) angle ≡ false in
      (rule.course_min ≡ rule.course_max)
      ⊎ ((rule.course_min ≤ℤ rule.course_max) × not_below × not_above)
      ⊎ ((rule.course_max <ℤ rule.course_min) × (not_below ⊎ not_above))

  -- The distance to the edge of the protected circle.
  abbrev pub DistFits : Track W → Option (Point W) → Type 0
  DistFits track centre =
      (rule.dist_to_protect_area <ℤ pos 0)
      ⊎ (centre ≡ none)
      ⊎ ((c : Point W) × (centre ≡ some c)
          × (d.lt (edge_distance ctx rule track c) (d.of_ℤ rule.dist_to_protect_area) ≡ true))

  -- The time to the protected circle, in seconds; the rule sets minutes.
  abbrev pub EntryFits : Track W → Option (Point W) → Type 0
  EntryFits track centre =
      (rule.entry_time ≤ℤ pos 0)
      ⊎ (centre ≡ none)
      ⊎ ((c : Point W) × (centre ≡ some c)
          × (let time = calculate_time_to_protect_area track c (protect_radius ctx rule) in
              (d.lt time (d.of_ℤ (pos 0)) ≡ false)
              × (d.lt (d.of_ℤ (rule.entry_time *ℤ pos 60)) time ≡ false)))

  -- What is known of the target: its side is one that the rule asks for, if it asks for any, and it is
  -- on the list of partners or is not, as the rule asks.
  abbrev pub AttributesFit : ℤ → Type 0
  AttributesFit target_id =
      (target_id ≤ℤ pos 0)
      ⊎ (int_max <ℤ target_id)
      ⊎ (lookup target_id ctx.target_info_filter ≡ none)
      ⊎ ((info : TargetInfoFilter) × (lookup target_id ctx.target_info_filter ≡ some info)
          × ((rule.affiliation_judge ≡ 0)
              ⊎ (bit_and rule.affiliation_judge (2 ^ info.affiliation_attr) ≢ 0))
          × ((rule.corp_judge ≢ pos 1) ⊎ (info.corp_attr ≡ pos 1))
          × ((rule.corp_judge ≢ pos 2) ⊎ (info.corp_attr ≢ pos 1)))

  -- A recognised type is one that a mask asks for, if it asks for any.
  abbrev pub MaskFits : ℕ → String → Type 0
  MaskFits mask name =
      let bit = convert_target_type_string_to_bitmask ctx.text name in
      (mask ≡ 0) ⊎ ((bit ≢ 0) × (bit_and mask bit ≢ 0))

  -- What was recognised: the rule asks nothing, or nothing was recognised of a track in the air, or all
  -- three sources fit.
  abbrev pub DetectionFits : ℤ → Option DetectionTypeResult → Type 0
  DetectionFits type detected =
      ((rule.camera_detect_type ≡ 0)
        × (rule.llm_detect_type ≡ 0)
        × (rule.uav_detect_type ≡ 0)
        × (rule.threat_level1 ≤ℤ pos 0)
        × (rule.threat_level2 ≤ℤ pos 0))
      ⊎ ((detected ≡ none) × (type ≡ pos 3))
      ⊎ ((found : DetectionTypeResult) × (detected ≡ some found)
          × MaskFits rule.camera_detect_type found.cam_target_type
          × MaskFits rule.llm_detect_type found.llm_target_type
          × MaskFits rule.uav_detect_type found.uav_target_type)

  -- A threat is asked for at a level that is not positive, or there is one that is not below it.
  abbrev pub IsThreat : Verdict W → Type 0
  IsThreat v =
      (rule.threat_level1 ≤ℤ pos 0)
      ⊎ ((r : ThreatAssessmentResult W) × (v.breakdown ≡ some r)
          × (d.lt r.total_threat_level (d.of_ℤ rule.threat_level1) ≡ false))
