-- ===== src/Threat.antt =====
-- The threat of a target (`calculateThreatAssessment`, `calculateThreatLevel`,
-- `convertTargetTypeStringToBitmask`, src/dialog/alarm/TrackAlarmThread.cpp).
pub mod Bounds
pub mod Arrival
mod Tests
use alarm_sys_linux.Common.{
  ℕ, String, Bool, true, false, not, ◌&&◌, ◌||◌, Option, none, some, str_eq, is_empty,
  if◌then◌else◌,
}
use alarm_sys_linux.Common.Int.{ℤ, pos, eq_ℤ}
use alarm_sys_linux.Common.Double.{Double}
use alarm_sys_linux.Common.Text.{Text}
use alarm_sys_linux.Geometry.{get_distance}
use alarm_sys_linux.Alarms.Tracks.{Track}
use alarm_sys_linux.Alarms.Save.{BasePoint}
use alarm_sys_linux.Suspicious.{Point}

-- `ThreatAssessmentParams`, by the fields that are read.
pub record ThreatAssessmentParams (W : Type 0) : Type 0 where
  pub sea_speedboat_score : W
  pub sea_warship_score : W
  pub sea_motorboat_score : W
  pub sea_fishing_boat_score : W
  pub sea_ship_score : W
  pub sea_cargo_ship_score : W
  pub sea_unknown_score : W
  pub sea_buoy_score : W
  pub air_drone_score : W
  pub air_drone_swarm_score : W
  pub air_compound_wing_score : W
  pub air_rotorcraft_score : W
  pub air_aircraft_score : W
  pub air_bird_score : W
  pub air_bird_flock_score : W
  pub type_weight : W
  pub angle_weight : W
  pub speed_weight : W
  pub distance_weight : W
  pub speed_threshold_low : W
  pub speed_threshold_high : W
  pub max_effective_distance : W

-- `ThreatAssessmentResult`, by the fields that are set.
pub record ThreatAssessmentResult (W : Type 0) : Type 0 where
  pub target_type_score : W
  pub capability_score : W
  pub speed_score : W
  pub distance_score : W
  pub weighted_type_score : W
  pub weighted_speed_score : W
  pub weighted_angle_score : W
  pub weighted_distance_score : W
  pub total_threat_level : W
  pub threat_description : String

-- The bit of a type of target; several for the type of all ships.
unfoldable pub convert_target_type_string_to_bitmask : Text → String → ℕ
convert_target_type_string_to_bitmask text target_type =
    let lower = text.to_lower target_type in
    let is : String → Bool = λ name. str_eq lower name in
    if is_empty target_type
    then 0
    else if is "ship"
    then 30
    else if is "speedboat" || is "yacht" || is "游艇"
    then 2
    else if is "buoy" || is "浮标"
    then 4
    else if is "cargoship" || is "cargo" || is "货轮"
    then 8
    else if is "fishingboat" || is "fishing" || is "渔船"
    then 16
    else if is "uav" || is "drone" || is "无人机"
    then 32
    else if is "missile" || is "missle" || is "巡飞弹"
    then 64
    else if is "unknown" || is "未知" || is "未知目标"
    then 128
    else 0

-- The protected area, where there is one: its centre (x is the latitude), and the angle of entry.
pub record ProtectArea (W : Type 0) : Type 0 where
  pub center : Point W
  pub entry_angle : W

module _ {W : Type 0} ⦃d : Double W⦄ where
  abbrev num : ℕ → W
  num n = d.of_ℤ (pos n)

  -- The recognised type, or the type of a drone for a track that is one.
  unfoldable pub final_type_of : String → Track W → String
  final_type_of final_target_type track =
      if is_empty final_target_type && eq_ℤ track.reserved1 (pos 3)
      then "drone"
      else final_target_type

  unfoldable pub type_score : ThreatAssessmentParams W → String → W
  type_score p type =
      let is : String → Bool = λ name. str_eq type name in
      if is_empty type
      then num 0
      else if is "speedboat" || is "yacht"
      then p.sea_speedboat_score
      else if is "warship"
      then p.sea_warship_score
      else if is "motorboat"
      then p.sea_motorboat_score
      else if is "fishingboat"
      then p.sea_fishing_boat_score
      else if is "ship"
      then p.sea_ship_score
      else if is "cargoship"
      then p.sea_cargo_ship_score
      else if is "buoy"
      then p.sea_buoy_score
      else if is "uav" || is "drone"
      then p.air_drone_score
      else if is "drone_swarm"
      then p.air_drone_swarm_score
      else if is "compound_wing"
      then p.air_compound_wing_score
      else if is "rotorcraft"
      then p.air_rotorcraft_score
      else if is "aircraft"
      then p.air_aircraft_score
      else if is "bird"
      then p.air_bird_score
      else if is "bird_flock"
      then p.air_bird_flock_score
      else p.sea_unknown_score

  unfoldable pub speed_score_of : ThreatAssessmentParams W → W → W
  speed_score_of p speed =
      if d.lt speed p.speed_threshold_low
      then num 0
      else if d.le speed p.speed_threshold_high
      then d.mul
          (d.div (d.sub speed p.speed_threshold_low)
            (d.sub p.speed_threshold_high p.speed_threshold_low))
          (num 10)
      else num 10

  unfoldable pub distance_score_of : ThreatAssessmentParams W → W → W
  distance_score_of p distance =
      let far = p.max_effective_distance in
      let score = d.mul (d.div (d.sub far distance) far) (num 10) in
      if d.lt (num 0) distance && d.lt (num 0) far
      then if d.lt (num 0) score then score else num 0
      else num 0

  unfoldable pub distance_of : BasePoint W → Option (ProtectArea W) → Track W → W
  distance_of b none track =
      if eq_ℤ b.use_base_point (pos 1)
      then get_distance track.long_degs track.lat_degs b.lon b.lat
      else track.range_metres
  distance_of b (some area) track =
      get_distance track.long_degs track.lat_degs area.center.1 area.center.0

  unfoldable pub angle_of : Option (ProtectArea W) → Track W → W
  angle_of none track = track.course_degrees
  angle_of (some area) track = area.entry_angle

  unfoldable pub clamp : W → W
  clamp total =
      let low = if d.lt total (num 0) then num 0 else total in
      if d.lt (num 100) low then num 100 else low

  unfoldable pub describe : W → String
  describe total =
      if d.le (num 70) total
      then "高威胁"
      else if d.le (num 30) total
      then "中威胁"
      else if d.lt (num 0) total
      then "低威胁"
      else "无威胁"

  unfoldable pub weighted : W → W → W
  weighted score weight = d.mul (d.div (d.mul score weight) (num 10)) (num 100)

  unfoldable pub calculate_threat_assessment :
      BasePoint W
      → ThreatAssessmentParams W
      → Option (ProtectArea W)
      → String
      → Track W
      → ThreatAssessmentResult W
  calculate_threat_assessment b p area final_target_type track =
      let type = final_type_of final_target_type track in
      let type_s = type_score p type in
      let speed_s = speed_score_of p track.speed_mps in
      let distance_s = distance_score_of p (distance_of b area track) in
      let capability_s =
        if str_eq type "buoy"
        then num 0
        else d.abs (d.mul (d.div (d.sub (num 180) (angle_of area track)) (num 180)) (num 10)) in
      let wt = weighted type_s p.type_weight in
      let wa = weighted capability_s p.angle_weight in
      let ws = weighted speed_s p.speed_weight in
      let wd = weighted distance_s p.distance_weight in
      let total = clamp (d.add (d.add (d.add wt wa) ws) wd) in
      record {
        target_type_score = type_s;
        capability_score = capability_s;
        speed_score = speed_s;
        distance_score = distance_s;
        weighted_type_score = wt;
        weighted_speed_score = ws;
        weighted_angle_score = wa;
        weighted_distance_score = wd;
        total_threat_level = total;
        threat_description = describe total;
      }

  -- The parameters of an area that has none (the constructor of `ThreatAssessmentParams`).
  unfoldable pub default_params : ThreatAssessmentParams W
  default_params = record {
    sea_speedboat_score = num 10;
    sea_warship_score = num 10;
    sea_motorboat_score = num 8;
    sea_fishing_boat_score = num 4;
    sea_ship_score = num 4;
    sea_cargo_ship_score = num 2;
    sea_unknown_score = num 5;
    sea_buoy_score = num 0;
    air_drone_score = num 10;
    air_drone_swarm_score = num 10;
    air_compound_wing_score = num 10;
    air_rotorcraft_score = num 10;
    air_aircraft_score = num 0;
    air_bird_score = num 0;
    air_bird_flock_score = num 0;
    type_weight = d.decimal 420 3;
    angle_weight = d.decimal 180 3;
    speed_weight = d.decimal 160 3;
    distance_weight = d.decimal 240 3;
    speed_threshold_low = num 5;
    speed_threshold_high = num 30;
    max_effective_distance = num 50;
  }
