-- ===== src/Suspicious/Tests.antt =====
-- The suspicious targets on concrete tracks, with integers for `double`.
use alarm_sys_linux.Common.{◌≡◌, refl, sym, ap, ◌∙◌, String, true, List, [], ◌∷◌, arith}
use alarm_sys_linux.Common.Int.{ℤ, pos}
use alarm_sys_linux.Common.Dict.{Dict, lookup, has_key, string_key, int_key}
use alarm_sys_linux.Common.Ascii.{ascii}
use alarm_sys_linux.Common.Integers.{integers}
use alarm_sys_linux.Alarms.Clock.{letters, letters-ReadsBack}
use alarm_sys_linux.Alarms.Tracks.{Track}
use alarm_sys_linux.Suspicious.{
  SuspiciousTargetConfig, BirdFilter, SuspicionState, process_suspicious_targets, clear_checks,
  apply_speed_double_check, is_air_drone_track, should_skip_bird_air_track_for_suspicious,
  find_bird_skip_fusion_track_id, is_bird_self_report_sensor_filtered, find_in,
}
use alarm_sys_linux.Suspicious.Checks.{Injective}
use alarm_sys_linux.Suspicious.Rounds.{sea_two_rounds}
use alarm_sys_linux.Suspicious.Areas.{AlarmArea}

abbrev number : ℤ → String
number = letters.to_text

number-Injective : Injective number
number-Injective a b q =
    let e = sym (letters-ReadsBack a) ∙ ap letters.parse_ms q ∙ letters-ReadsBack b in
    ground (arith, e)

abbrev config : SuspiciousTargetConfig ℤ
config = record {
  speed_low_threshold_mps = pos 3;
  speed_high_threshold_mps = pos 8;
  protect_angle_max_deg = pos 30;
  speed_check_clear_interval_min = pos 30;
}

abbrev fast : Track ℤ
fast = record {
  lat_degs = pos 30;
  long_degs = pos 120;
  speed_mps = pos 9;
  course_degrees = pos 45;
  range_metres = pos 3;
  reserved1 = pos 3;
  unique_id = pos 7;
  msg_time_secs = pos 1;
  fusion_track_id = pos 4 ∷ [];
  fusion_sensors = 0;
  altitude_metres = pos 0;
  norm_id = pos 0;
  source_code = pos 0;
}

abbrev birds : BirdFilter
birds = record {
  bird_filter_mode = pos 1;
  bird_self_report_substrings = "";
  bird_skip_track_ids = pos 4 ∷ [];
}

abbrev split_none : String → List String
split_none s = s ∷ []

abbrev start : SuspicionState
start = record { low_sea = []; high_sea = []; low_air = []; high_air = []; last_clear_ms = pos 1 }

abbrev one_track : Dict ℤ (Track ℤ)
one_track = (pos 7, fast) ∷ []

abbrev circle : AlarmArea ℤ (Unit {0})
circle = record {
  group_id = pos 2;
  area_id = pos 1;
  area_name = "port";
  alert_area_type = pos 2;
  start_p = (pos 30, pos 120);
  end_p = (pos 31, pos 120);
  alert_area_rect = tt;
  alert_area_polygon = [];
  road = [];
}

sea_two_rounds_example :
    let once =
      process_suspicious_targets number config [] ascii split_none birds one_track [] start in
    has_key
      (number (pos 7))
      (process_suspicious_targets number config [] ascii split_none birds one_track [] once.0).1
    ≡ true
unfolding has_key lookup alarm_sys_linux.Suspicious.speed_high_now
sea_two_rounds_example =
    sea_two_rounds config number ascii split_none birds number-Injective [] [] one_track []
      one_track [] start (pos 7) fast fast (refl, tt) (refl, tt) refl refl
