-- ===== src/Rules/Tests.antt =====
-- The rules on concrete tracks, with integers for `double`.
use alarm_sys_linux.Common.{
  ◌≡◌, refl, inr, String, true, none, some, [], ◌∷◌, arith, All, list_or_empty, str_eq_iff,
}
use alarm_sys_linux.Common.Int.{ℤ, pos, ◌-ℤ◌}
use alarm_sys_linux.Common.Dict.{lookup, has_key, string_key, int_key, pair_key}
use alarm_sys_linux.Common.Ascii.{ascii}
use alarm_sys_linux.Common.Integers.{integers}
use alarm_sys_linux.Alarms.State.{AlarmData, AlarmLogicConfig, Alarms}
use alarm_sys_linux.Alarms.Clock.{letters, letters-ReadsBack}
use alarm_sys_linux.Alarms.Save.Dedup.{IsTable}
use alarm_sys_linux.Alarms.Tracks.{Track}
use alarm_sys_linux.Suspicious.{
  BirdFilter, apply_speed_double_check, should_skip_bird_air_track_for_suspicious,
}
use alarm_sys_linux.Suspicious.Areas.{AreaInfo, AlarmArea, Reading, plain_area, load_alarm_areas}
use alarm_sys_linux.Rules.Areas.{get_alarm_area, watched_rules}
use alarm_sys_linux.Rules.Areas.Agreement.{get_alarm_area-load, watched_rules-missing}
use alarm_sys_linux.Rules.Context.{AlarmRule, RuleConfig, Context, RuleState}
use alarm_sys_linux.Rules.Candidate.{find_candidate}
use alarm_sys_linux.Rules.Guards.{judge, target_info, detection_ok}
use alarm_sys_linux.Rules.Guards.Laws.{judge-IsScore, IsScore}
use alarm_sys_linux.Rules.Update.{black_white, ignored, update_candidate, updata_alarm_track_to_db}
use alarm_sys_linux.Rules.Update.Effect.{lookup-untouched, batch-IsHandedOn, IsHandedOn}
use alarm_sys_linux.Rules.Update.Outcome.{already-update_candidate, already_at}

abbrev config : AlarmLogicConfig
config = record {
  save_alarm_to_db = pos 1;
  alarm_map_prune_non_first_stale_ms = pos 5;
  dedup_same_alarm_window_ms = pos 60;
  dedup_match_condition_and_track = pos 1;
  origin_time_from_track_msg = pos 1;
  origin_track_time_is_ms = pos 0;
  track_already_has_alarm_window_ms = pos 60;
  alarm_filter_ttl_ms = pos 3600;
  default_threat_score = pos 90;
}

abbrev pub boat_alarm : AlarmData ℤ
boat_alarm = record {
  alarm_id = "a1";
  condition_id = "c1";
  mode_id = pos 1;
  track_id = pos 0;
  unique_id = pos 7;
  targettype = pos 0;
  targetbehavior = pos 0;
  targetdist = pos 3;
  targetlon = pos 120;
  targetlat = pos 30;
  targetspeed = pos 5;
  targetdir = pos 45;
  time = "+iii";
  origintime = "+iii";
  alarm_status = pos 0;
  alarm_count = pos 1;
  group_id = pos 2;
  area_id = pos 1;
  threat_score = pos 40;
  task_status = pos 0;
  alarm_content = "";
  threat_time_ms = pos 3;
}

abbrev pub boat_track : Track ℤ
boat_track = record {
  lat_degs = pos 30;
  long_degs = pos 120;
  speed_mps = pos 5;
  course_degrees = pos 45;
  range_metres = pos 3;
  reserved1 = pos 0;
  unique_id = pos 7;
  msg_time_secs = pos 1;
  fusion_track_id = pos 4 ∷ [];
  fusion_sensors = 0;
  altitude_metres = pos 5;
  norm_id = pos 0;
  source_code = pos 0;
}

abbrev birds : BirdFilter
birds = record {
  bird_filter_mode = pos 1;
  bird_self_report_substrings = "";
  bird_skip_track_ids = pos 4 ∷ [];
}

abbrev rule_config : RuleConfig
rule_config = record {
  al = config;
  birds = birds;
  bird_radar_source_id = pos 9;
  no_alarm_group_ids = [];
  area_group_id_allow = [];
  speed_double_check_fuse_track_only = pos 1;
  mode = pos 0;
}

abbrev number : ℤ → String
number z = "1"

abbrev pub ctx : Context ℤ (Unit {0})
ctx = record {
  cfg = rule_config;
  base = record { use_base_point = pos 0; lon = pos 0; lat = pos 0 };
  fuse_track = (pos 7, boat_track) ∷ (pos 8, boat_track) ∷ [];
  radar_track = [];
  bird_radar_track = (pos 7, boat_track) ∷ [];
  target_info_filter = [];
  maparea = [];
  scheme_protect_areas = [];
  threat_params = [];
  text = ascii;
  split_commas = λ s. s ∷ [];
  number = number;
  clock = letters;
  now = pos 4;
  in_rect = λ r p. true;
  in_polygon = λ ps p. true;
  null_point = (pos 0, pos 0);
  detect = λ id. none;
  build_content = λ rule id track air input. "content";
  q_round = λ w. w;
  uuid = λ id. "u";
  blank_alarm = boat_alarm;
  blank_track = boat_track;
}

abbrev pub slow_boats : AlarmRule
slow_boats = record {
  condition_id = "c1";
  name = "slow";
  alarmstate = pos 1;
  track_type = pos 0;
  speed_condition = pos 1;
  speed = pos 9;
  area_judge = pos 1;
  direction = pos 0;
  alarm_level = pos 1;
  distance_condition = pos 0;
  distance = pos 0;
  targetattr_type = pos 0;
  group_id = pos 2;
  area_id = pos 1;
  area_name = "port";
  height_min = pos 0;
  height_max = pos 10;
  course_min = pos 0;
  course_max = pos 90;
  blacklist_judge = pos 1;
  whitelist_judge = pos 1;
  affiliation_judge = 2;
  corp_judge = pos 1;
  camera_detect_type = 0;
  llm_detect_type = 0;
  uav_detect_type = 0;
  threat_level1 = pos 0;
  threat_level2 = pos 0;
  dist_to_protect_area = pos 5;
  entry_time = pos 3;
}

abbrev pub start : RuleState ℤ
start = record {
  alarms = record {
    alarm_data = ("a1", boat_alarm) ∷ [];
    manual_alarm_data = [];
    manual_alarm_air_track = [];
    alarm_filter_expire_ms = [];
    manual_confirmed_unique_ids = [];
    manual_confirm_resolved_time = [];
    alarm_identification_resolved_time = [];
    target_type = [];
    list_alarm_data = [];
    db_writes = [];
  };
  speed_last_check = (pos 8, true) ∷ [];
  area_alarm_data = [];
}

pub start-IsTable : IsTable start.alarms.alarm_data
unfolding has_key
start-IsTable = record { keyed = (refl, tt); distinct = (refl, tt) }

abbrev after : RuleState ℤ
after = updata_alarm_track_to_db ctx slow_boats (pos 0) (pos 0) (pos 8 ∷ []) start

lookup-untouched_example : lookup "a1" after.alarms.alarm_data ≡ some boat_alarm
unfolding lookup
lookup-untouched_example =
    lookup-untouched ctx slow_boats (pos 0) (pos 0) (pos 8 ∷ []) start "a1" boat_alarm start-IsTable
      tt refl (inr (ground arith, λ e. ground (arith, (str_eq_iff "u" "a1").1 e)), tt)

abbrev twice : RuleState ℤ
twice = updata_alarm_track_to_db ctx slow_boats (pos 0) (pos 0) (pos 7 ∷ pos 8 ∷ []) start

batch-IsHandedOn_example :
    All (IsHandedOn (pos 7 ∷ pos 8 ∷ [])) (list_or_empty (lookup "slow" twice.area_alarm_data))
batch-IsHandedOn_example =
    batch-IsHandedOn ctx slow_boats (pos 0) (pos 0) (pos 7 ∷ pos 8 ∷ []) start

already-update_candidate_example :
    already_at ctx slow_boats
      (pos 0)
      (pos 0)
      (pos 9)
      (pos 7)
      (update_candidate ctx slow_boats (pos 0) (pos 0) (pos 7) start).alarms
    ≡ true
unfolding alarm_sys_linux.Alarms.Filter.is_unique_id_alarm_filtered
    alarm_sys_linux.Alarms.Filter.is_active lookup
    alarm_sys_linux.Alarms.Filter.prune_expired_alarm_filters find_candidate
    alarm_sys_linux.Rules.Zones.in_no_alarm_group black_white target_info
    alarm_sys_linux.Rules.Update.already_has_alarm ◌-ℤ◌ alarm_sys_linux.Alarms.State.epoch_ms
    alarm_sys_linux.Alarms.Clock.read_time alarm_sys_linux.Alarms.Clock.count
already-update_candidate_example =
    already-update_candidate ctx slow_boats (pos 0) (pos 0) (pos 9) (pos 7) boat_track start
      letters-ReadsBack start-IsTable refl refl refl refl refl (λ e. ground (arith, e)) refl refl

judge-IsScore_example :
    IsScore ctx slow_boats (judge ctx slow_boats (pos 0) (pos 8) boat_track true).threat_score
judge-IsScore_example =
    judge-IsScore ctx slow_boats (pos 0) (pos 8) boat_track true (ground arith) (ground arith)

-- Texts that all read as four ones.
abbrev pub ones : Reading ℤ (Unit {0})
ones = record {
  split_commas = λ s. "1" ∷ "1" ∷ "1" ∷ "1" ∷ [];
  to_float = λ s. some (pos 1);
  to_int = λ s. some (pos 1);
  normalized = λ p q. tt;
  corners = λ r. [];
  null_point = (pos 0, pos 0);
  null_rect = tt;
}

abbrev pub port : AreaInfo
port = record {
  group_id = pos 2;
  area_id = pos 0;
  area_name = "port";
  area_type = pos 1;
  strat_point = "1,1";
  end_point = "1,1";
  area_rect = "1,1,1,1";
  area_points = "1,1,1,1";
}

get_alarm_area-load_example : get_alarm_area ones (port ∷ []) ≡ load_alarm_areas ones (port ∷ [])
unfolding alarm_sys_linux.Suspicious.Areas.parse_area_rect
get_alarm_area-load_example = get_alarm_area-load ones (port ∷ []) (refl, tt)

abbrev open_sea : AlarmArea ℤ (Unit {0})
open_sea = plain_area ones port

watched_rules-missing_example :
    watched_rules open_sea [] (slow_boats ∷ slow_boats ∷ []) ≡ watched_rules open_sea [] []
unfolding alarm_sys_linux.Rules.Areas.area_of_rule lookup
watched_rules-missing_example =
    watched_rules-missing open_sea [] [] (slow_boats ∷ []) slow_boats refl refl
