-- ===== src/Threat/Tests.antt =====
-- Threat assessment on a concrete track, with integers for `double`.
use alarm_sys_linux.Common.{◌≡◌, refl, ◌↔◌, false, some, [], arith}
use alarm_sys_linux.Common.Int.{ℤ, pos}
use alarm_sys_linux.Common.Integers.{integers}
use alarm_sys_linux.Alarms.Tracks.{Track}
use alarm_sys_linux.Alarms.Save.{BasePoint}
use alarm_sys_linux.Threat.{ThreatAssessmentParams, ProtectArea, calculate_threat_assessment}
use alarm_sys_linux.Threat.Bounds.{IsOrdered, assessment_bounds}

integers-IsOrdered : IsOrdered integers
integers-IsOrdered = record {
  zero_zero = refl;
  hundred_zero = refl;
  hundred_hundred = refl;
  above_70 = λ w h. ground arith;
  above_30 = λ w h. ground arith;
}

abbrev base_point : BasePoint ℤ
base_point = record { use_base_point = pos 0; lon = pos 0; lat = pos 0 }

abbrev area : ProtectArea ℤ
area = record { center = (pos 30, pos 120); entry_angle = pos 45 }

abbrev drone : Track ℤ
drone = record {
  lat_degs = pos 30;
  long_degs = pos 120;
  speed_mps = pos 9;
  course_degrees = pos 45;
  range_metres = pos 3;
  reserved1 = pos 3;
  unique_id = pos 7;
  msg_time_secs = pos 1;
  fusion_track_id = [];
  fusion_sensors = 0;
  altitude_metres = pos 0;
  norm_id = pos 0;
  source_code = pos 0;
}

abbrev params : ThreatAssessmentParams ℤ
params = record {
  sea_speedboat_score = pos 10;
  sea_warship_score = pos 10;
  sea_motorboat_score = pos 8;
  sea_fishing_boat_score = pos 4;
  sea_ship_score = pos 4;
  sea_cargo_ship_score = pos 2;
  sea_unknown_score = pos 5;
  sea_buoy_score = pos 0;
  air_drone_score = pos 10;
  air_drone_swarm_score = pos 10;
  air_compound_wing_score = pos 10;
  air_rotorcraft_score = pos 10;
  air_aircraft_score = pos 0;
  air_bird_score = pos 0;
  air_bird_flock_score = pos 0;
  type_weight = pos 1;
  angle_weight = pos 1;
  speed_weight = pos 1;
  distance_weight = pos 1;
  speed_threshold_low = pos 5;
  speed_threshold_high = pos 30;
  max_effective_distance = pos 50;
}

assessment_bounds_example :
    let result = calculate_threat_assessment base_point params (some area) "" drone in
    (integers.lt result.total_threat_level (pos 0) ≡ false)
    × (integers.lt (pos 100) result.total_threat_level ≡ false)
    × ((result.threat_description ≡ "无威胁")
        ↔ (integers.lt (pos 0) result.total_threat_level ≡ false))
assessment_bounds_example =
    assessment_bounds integers-IsOrdered base_point params (some area) "" drone
