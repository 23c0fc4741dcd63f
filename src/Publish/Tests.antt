-- ===== src/Publish/Tests.antt =====
-- The publishing of alarms on concrete tables, with integers for `double`.
use alarm_sys_linux.Common.{◌≢◌, inr, refl, Bool, true, false, none, List, [], ◌∷◌, arith, All}
use alarm_sys_linux.Common.Int.{◌+ℤ◌, ℤ, pos}
use alarm_sys_linux.Common.Dict.{lookup, has_key, string_key, int_key, pair_key}
use alarm_sys_linux.Common.Ascii.{ascii}
use alarm_sys_linux.Common.Integers.{integers}
use alarm_sys_linux.Alarms.State.{AlarmData, AlarmLogicConfig, Alarms}
use alarm_sys_linux.Alarms.Clock.{letters, letters-ReadsBack}
use alarm_sys_linux.Alarms.Tracks.{Track}
use alarm_sys_linux.Identification.{Json, Sources}
use alarm_sys_linux.Publish.{AlarmInfo, Publisher}
use alarm_sys_linux.Publish.Rank.{Ranked, level_map}
use alarm_sys_linux.Publish.Sync.{sync_manual_alarms}
use alarm_sys_linux.Publish.Event.{send_all_alarm_event_msg}
use alarm_sys_linux.Publish.Levels.{level_map-IsAbove, IsAbove}
use alarm_sys_linux.Publish.Quiet.{send-silenced}
use alarm_sys_linux.Alarms.Filter.{add_alarm_filter}
use alarm_sys_linux.Publish.Manual.{lookup-sync_manual_alarms, IsSynced}
use alarm_sys_linux.Publish.Pushes.{pushes, pushes-IsSpaced, IsSpaced}

abbrev config : AlarmLogicConfig
config = record {
  save_alarm_to_db = pos 0;
  alarm_map_prune_non_first_stale_ms = pos 5;
  dedup_same_alarm_window_ms = pos 60;
  dedup_match_condition_and_track = pos 1;
  origin_time_from_track_msg = pos 1;
  origin_track_time_is_ms = pos 0;
  track_already_has_alarm_window_ms = pos 60;
  alarm_filter_ttl_ms = pos 3600;
  default_threat_score = pos 90;
}

abbrev boat : Track ℤ
boat = record {
  lat_degs = pos 30;
  long_degs = pos 120;
  speed_mps = pos 5;
  course_degrees = pos 45;
  range_metres = pos 3;
  reserved1 = pos 0;
  unique_id = pos 7;
  msg_time_secs = pos 1;
  fusion_track_id = [];
  fusion_sensors = 0;
  altitude_metres = pos 5;
  norm_id = pos 0;
  source_code = pos 0;
}

abbrev alarm : AlarmData ℤ
alarm = record {
  alarm_id = "a1";
  condition_id = "c1";
  mode_id = pos 1;
  track_id = pos 0;
  unique_id = pos 7;
  targettype = pos 0;
  targetbehavior = pos 0;
  targetdist = pos 3;
  targetlon = pos 120;
  targetlat = pos 30;
  targetspeed = pos 5;
  targetdir = pos 45;
  time = "+iii";
  origintime = "+iii";
  alarm_status = pos 0;
  alarm_count = pos 1;
  group_id = pos 2;
  area_id = pos 1;
  threat_score = pos 40;
  task_status = pos 0;
  alarm_content = "";
  threat_time_ms = pos 3;
}

abbrev no_json : Json Bool
no_json = record {
  parse = λ s. none;
  contains = λ o name. false;
  to_bool = λ o name. false;
  to_int = λ o name. pos 0;
  to_string = λ o name. "";
}

abbrev sources : Sources Bool
sources = record {
  text = ascii;
  json = no_json;
  clock = letters;
  has_metadata = λ id pattern. false;
  number = letters.to_text;
  now_ms = pos 4;
}

abbrev pub publisher : Publisher ℤ Bool
publisher = record {
  al = config;
  tracks = record {
    bird_fuse_track = [];
    bird_radar_track = [];
    fuse_track = (pos 7, boat) ∷ [];
    radar_track = [];
  };
  alarm_rule = [];
  sources = sources;
  area_rule_ids = [];
  identification_rules = [];
  to_long_long = letters.parse_ms;
  manual_content = λ id air speed dir. "manual";
}

abbrev tables : Alarms ℤ
tables = record {
  alarm_data = ("a1", alarm) ∷ [];
  manual_alarm_data = ("manual-7", alarm) ∷ [];
  manual_alarm_air_track = [];
  alarm_filter_expire_ms = ((pos 0, pos 8), pos 100) ∷ [];
  manual_confirmed_unique_ids = [];
  manual_confirm_resolved_time = [];
  alarm_identification_resolved_time = [];
  target_type = ("+iiiiiiii", pos 1) ∷ ("+iiiiiii", pos 2) ∷ [];
  list_alarm_data = [];
  db_writes = [];
}

abbrev ranked : List Ranked
ranked = ("a1", pos 40) ∷ ("a2", pos 60) ∷ []

level_map-IsAbove_example : IsAbove "a2" "a1" (level_map ranked)
unfolding has_key
level_map-IsAbove_example =
    level_map-IsAbove ranked "a2" "a1" (pos 60) (pos 40) (refl, (refl, tt)) refl refl (ground arith)

lookup-sync_manual_alarms_example :
    IsSynced publisher
      (lookup "manual-7" tables.manual_alarm_data)
      (lookup "manual-7" (sync_manual_alarms publisher tables).manual_alarm_data)
unfolding has_key
lookup-sync_manual_alarms_example = lookup-sync_manual_alarms publisher tables "manual-7" (refl, tt)

pushes-IsSpaced_example : IsSpaced (pushes true (pos 5 ∷ pos 900 ∷ pos 1005 ∷ []) (pos 0))
pushes-IsSpaced_example =
    pushes-IsSpaced true (pos 5 ∷ pos 900 ∷ pos 1005 ∷ [])
      (ground arith, (ground arith, (ground arith, tt)))

send-silenced_example :
    All
      (λ (info : AlarmInfo ℤ). info.track_id ≢ letters.to_text (pos 7))
      (send_all_alarm_event_msg publisher
        (add_alarm_filter letters.to_text config (pos 2) (pos 1) (pos 7) tables)).1
unfolding has_key ◌+ℤ◌
send-silenced_example =
    send-silenced publisher (pos 2) (pos 1) (pos 7) tables letters-ReadsBack (refl, tt) (inr refl)
      (ground arith) refl
