-- ===== src/Rules/Guards.antt =====
-- The conditions of a rule (`updataAlarmTrackToDB`, src/dialog/alarm/TrackAlarmThread.cpp). Each looks
-- at a candidate that passed those before it. The reasons of a refusal are only logged, and are left
-- out.
pub mod Fits
pub mod Laws
pub mod Pass
use alarm_sys_linux.Common.{
  ℕ, ◌^◌, ◌==◌, ltb, String, Bool, true, false, not, ◌&&◌, ◌||◌, Option, none, some, is_some,
  first_some, List, [], ◌∷◌, list_or_empty, if◌then◌else◌,
}
use Prim.Native.Nat.{bit_and}
use alarm_sys_linux.Common.Int.{ℤ, pos, ◌*ℤ◌, eq_ℤ, leb_ℤ, ltb_ℤ, max_ℤ}
use alarm_sys_linux.Common.Dict.{Dict, lookup, insert, int_key, string_key}
use alarm_sys_linux.Common.Double.{Double}
use alarm_sys_linux.Geometry.{get_distance, calculate_bearing, course_angle_diff}
use alarm_sys_linux.Alarms.Tracks.{Track, int_max}
use alarm_sys_linux.Suspicious.{Point, CheckMap, was_ok}
use alarm_sys_linux.Suspicious.Areas.{AlarmArea}
use alarm_sys_linux.Threat.{
  ThreatAssessmentParams, ThreatAssessmentResult, ProtectArea, calculate_threat_assessment,
  default_params, convert_target_type_string_to_bitmask,
}
use alarm_sys_linux.Threat.Arrival.{calculate_time_to_protect_area}
use alarm_sys_linux.Rules.Context.{
  AlarmRule, TargetInfoFilter, DetectionTypeResult, AreaParams, Context, area_key,
}

-- What is known of a candidate while it is judged: whether it passes, the centre of the protected area
-- where one was found, the angle of its course, its threat score and how that is made up.
pub record Verdict (W : Type 0) : Type 0 where
  pub pass : Bool
  pub protect_center : Option (Point W)
  pub angle_to_check : W
  pub threat_score : ℤ
  pub breakdown : Option (ThreatAssessmentResult W)

module _ {W R : Type 0} where
  -- The centre of the circle of the id: the last one, and the first one.
  unfoldable pub last_circle : ℤ → Option (Point W) → List (AlarmArea W R) → Option (Point W)
  last_circle id found [] = found
  last_circle id found (area ∷ rest) =
      last_circle id
        (if eq_ℤ area.area_id id && eq_ℤ area.alert_area_type (pos 2)
          then some area.start_p
          else found)
        rest

  unfoldable pub first_circle : ℤ → List (AlarmArea W R) → Option (Point W)
  first_circle id [] = none
  first_circle id (area ∷ rest) =
      if eq_ℤ area.area_id id && eq_ℤ area.alert_area_type (pos 2)
      then some area.start_p
      else first_circle id rest

  -- The start and the end of the first area of the id, or of an area with nothing set.
  unfoldable pub ends_of : Point W → ℤ → List (AlarmArea W R) → Point W × Point W
  ends_of null_point id [] = (null_point, null_point)
  ends_of null_point id (area ∷ rest) =
      if eq_ℤ area.area_id id then (area.start_p, area.end_p) else ends_of null_point id rest

-- A rule with the area that the active scheme protects for the rule's area.
abbrev pub or_no_area : Option (ℤ × ℤ) → ℤ × ℤ
or_no_area none = (pos 0, pos 0)
or_no_area (some p) = p

-- A test of a mask against a type: the type must be known, and in the mask, if the mask asks for any.
unfoldable pub in_mask : ℕ → ℕ → Bool
in_mask mask bit = mask == 0 || (not (bit == 0) && not (bit_and mask bit == 0))

module _ {W R : Type 0} ⦃d : Double W⦄ (ctx : Context W R) (rule : AlarmRule) where
  unfoldable pub current_speed_check : Track W → Bool
  current_speed_check track =
      let limit = d.of_ℤ rule.speed in
      if eq_ℤ rule.speed_condition (pos 1) && d.le limit track.speed_mps
      then false
      else not (eq_ℤ rule.speed_condition (pos 2) && d.le track.speed_mps limit)

  -- The condition on the speed, which for some kinds of tracks must hold twice in a row.
  unfoldable pub speed_step : ℤ → ℤ → Track W → CheckMap → CheckMap × Bool
  speed_step type track_id track last_check =
      let current = current_speed_check track in
      let twice = eq_ℤ type (pos 0) || eq_ℤ ctx.cfg.speed_double_check_fuse_track_only (pos 0) in
      if leb_ℤ rule.speed_condition (pos 0) then (last_check, true) else (
        insert track_id current last_check,
        if twice then was_ok (lookup track_id last_check) && current else current,
      )

  unfoldable pub height_step : Track W → Verdict W → Verdict W
  height_step track v =
      let height = track.altitude_metres in
      if v.pass
        && not (eq_ℤ rule.height_min rule.height_max)
        && (d.lt height (d.of_ℤ rule.height_min) || d.lt (d.of_ℤ rule.height_max) height)
      then record v { pass = false }
      else v

  -- The group and the area that are protected, and the areas of that group.
  unfoldable pub protect_info : Option (ℤ × ℤ)
  protect_info = lookup (area_key ctx.number rule.group_id rule.area_id) ctx.scheme_protect_areas

  unfoldable pub areas_of : ℤ → List (AlarmArea W R)
  areas_of group_id = list_or_empty (lookup group_id ctx.maparea)

  -- The areas that are searched for a circle.
  unfoldable pub searched_areas : List (AlarmArea W R)
  searched_areas = elim protect_info [
    | none ↦ []
    | some (group_id, area_id) ↦
        if ltb_ℤ (pos 0) group_id && leb_ℤ (pos 0) area_id then areas_of group_id else []
  ]

  unfoldable pub angle_of_course : Track W → Option (Point W) → W
  angle_of_course track none = track.course_degrees
  angle_of_course track (some (x, y)) = d.to_float (
      course_angle_diff track.course_degrees (calculate_bearing track.lat_degs track.long_degs x y))

  -- A range that crosses 0 is given by a minimum above the maximum.
  unfoldable pub in_course_range : W → Bool
  in_course_range angle =
      let below = d.lt angle (d.of_ℤ rule.course_min) in
      let above = d.lt (d.of_ℤ rule.course_max) angle in
      if leb_ℤ rule.course_min rule.course_max then not (below || above) else not (below && above)

  unfoldable pub course_step : Track W → Verdict W → Verdict W
  course_step track v =
      let center = last_circle (or_no_area protect_info).1 none searched_areas in
      let angle = angle_of_course track center in
      if v.pass && not (eq_ℤ rule.course_min rule.course_max)
      then record v {
        pass = in_course_range angle;
        protect_center = center;
        angle_to_check = angle;
      }
      else v

  unfoldable pub protect_radius : W
  protect_radius =
      let (group_id, area_id) = or_no_area protect_info in
      let (start_p, end_p) = ends_of ctx.null_point area_id (areas_of group_id) in
      get_distance start_p.1 start_p.0 end_p.1 end_p.0

  -- The distance to the edge of the protected circle, 0 inside it.
  unfoldable pub edge_distance : Track W → Point W → W
  edge_distance track center =
      let dist = get_distance track.long_degs track.lat_degs center.1 center.0 in
      if d.lt protect_radius dist then d.sub dist protect_radius else d.of_ℤ (pos 0)

  is_near : Track W → Option (Point W) → Bool
  is_near track none = true
  is_near track (some center) = d.lt (edge_distance track center) (d.of_ℤ rule.dist_to_protect_area)

  -- Without a protected circle the condition is passed over.
  unfoldable pub dist_step : Track W → Verdict W → Verdict W
  unfolding is_near
  dist_step track v =
      let center =
        first_some v.protect_center (first_circle (or_no_area protect_info).1 searched_areas) in
      if v.pass && leb_ℤ (pos 0) rule.dist_to_protect_area
      then record v { pass = is_near track center; protect_center = center }
      else v

  arrives_in_time : Track W → Option (Point W) → Bool
  arrives_in_time track none = true
  arrives_in_time track (some center) =
      let time = calculate_time_to_protect_area track center protect_radius in
      not (d.lt time (d.of_ℤ (pos 0))) && not (d.lt (d.of_ℤ (rule.entry_time *ℤ pos 60)) time)

  unfoldable pub entry_step : Track W → Verdict W → Verdict W
  unfolding arrives_in_time
  entry_step track v =
      if v.pass && ltb_ℤ (pos 0) rule.entry_time
      then record v { pass = arrives_in_time track v.protect_center }
      else v

  -- The entry of the target in the table of filters, whose keys are `int`s.
  unfoldable pub target_info : ℤ → Option TargetInfoFilter
  target_info target_id =
      if ltb_ℤ (pos 0) target_id && leb_ℤ target_id int_max
      then lookup target_id ctx.target_info_filter
      else none

  unfoldable pub attributes_ok : Option TargetInfoFilter → Bool
  attributes_ok none = true
  attributes_ok (some info) =
      (rule.affiliation_judge == 0
        || not (bit_and rule.affiliation_judge (2 ^ info.affiliation_attr) == 0))
      && not (eq_ℤ rule.corp_judge (pos 1) && not (eq_ℤ info.corp_attr (pos 1)))
      && not (eq_ℤ rule.corp_judge (pos 2) && eq_ℤ info.corp_attr (pos 1))

  unfoldable pub attribute_step : ℤ → Verdict W → Verdict W
  attribute_step target_id v =
      if v.pass then record v { pass = attributes_ok (target_info target_id) } else v

  -- Whether the rule asks what was recognised.
  unfoldable pub asks_detection : Bool
  asks_detection =
      not (rule.camera_detect_type == 0)
      || not (rule.llm_detect_type == 0)
      || not (rule.uav_detect_type == 0)
      || ltb_ℤ (pos 0) rule.threat_level1
      || ltb_ℤ (pos 0) rule.threat_level2

  -- Nothing was recognised: a track in the air is let through.
  unfoldable pub detection_ok : ℤ → Option DetectionTypeResult → Bool
  detection_ok type none = eq_ℤ type (pos 3)
  detection_ok type (some found) =
      let bit : String → ℕ = λ name. convert_target_type_string_to_bitmask ctx.text name in
      in_mask rule.camera_detect_type (bit found.cam_target_type)
      && in_mask rule.llm_detect_type (bit found.llm_target_type)
      && in_mask rule.uav_detect_type (bit found.uav_target_type)

  unfoldable pub find_params : List (AreaParams W) → ThreatAssessmentParams W
  find_params [] = default_params
  find_params (p ∷ rest) =
      if eq_ℤ p.group_id rule.group_id && eq_ℤ p.area_id rule.area_id
      then p.params
      else find_params rest

  unfoldable pub q_bound : ℤ → ℤ → ℤ → ℤ
  q_bound low value high = max_ℤ low (if ltb_ℤ high value then high else value)

  abbrev final_type : Option DetectionTypeResult → String
  final_type none = ""
  final_type (some found) = found.final_target_type

  abbrev area_of : Verdict W → Option (Point W) → Option (ProtectArea W)
  area_of v none = none
  area_of v (some center) = some (record { center = center; entry_angle = v.angle_to_check })

  unfoldable pub assess :
      Track W → Option DetectionTypeResult → Verdict W → ThreatAssessmentResult W
  assess track found v =
      calculate_threat_assessment ctx.base (find_params ctx.threat_params)
        (area_of v v.protect_center) (final_type found) track

  unfoldable pub threat_step : Track W → Option DetectionTypeResult → Verdict W → Verdict W
  threat_step track found v =
      let result = assess track found v in
      let asked = ltb_ℤ (pos 0) rule.threat_level1 in
      if v.pass && (asked || ltb_ℤ (pos 0) rule.threat_level2)
      then record v {
        pass = not (asked && d.lt result.total_threat_level (d.of_ℤ rule.threat_level1));
        threat_score = q_bound (pos 0) (ctx.q_round result.total_threat_level) (pos 100);
        breakdown = some result;
      }
      else v

  unfoldable pub detection_step : ℤ → Track W → Verdict W → Verdict W
  detection_step type track v =
      let found = ctx.detect track.unique_id in
      if v.pass && asks_detection
      then threat_step track found (record v { pass = detection_ok type found })
      else v

  -- What is known before the conditions but that on the speed.
  abbrev pub unjudged : Bool → Verdict W
  unjudged speed_ok = record {
    pass = speed_ok;
    protect_center = none;
    angle_to_check = d.of_ℤ (pos 0);
    threat_score = ctx.cfg.al.default_threat_score;
    breakdown = none;
  }

  unfoldable pub judge : ℤ → ℤ → Track W → Bool → Verdict W
  judge type target_id track speed_ok =
      let start = unjudged speed_ok in
      detection_step type track (
        attribute_step target_id
          (entry_step track (dist_step track (course_step track (height_step track start)))))
