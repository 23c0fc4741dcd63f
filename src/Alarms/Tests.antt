-- ===== src/Alarms/Tests.antt =====
-- The tables of alarms on concrete calls, with integers for `double`.
use alarm_sys_linux.Common.{
  ◌≡◌, refl, inr, String, true, false, some, [], ◌∷◌, if◌then◌else◌, arith,
}
use alarm_sys_linux.Common.Int.{ℤ, pos, ◌+ℤ◌, ◌-ℤ◌, eq_ℤ}
use alarm_sys_linux.Common.Dict.{lookup, has_key, string_key, int_key, pair_key}
use alarm_sys_linux.Common.Integers.{integers}
use alarm_sys_linux.Alarms.State.{AlarmData, AlarmLogicConfig, Alarms}
use alarm_sys_linux.Alarms.Clock.{letters, letters-ReadsBack}
use alarm_sys_linux.Alarms.Filter.{
  add_alarm_filter, remove_alarm_filter_for_unique_id, is_unique_id_alarm_filtered, is_active,
}
use alarm_sys_linux.Alarms.Filter.Blocking.{filtered-add_alarm_filter}
use alarm_sys_linux.Alarms.Save.{Candidate, BasePoint, save_to_db}
use alarm_sys_linux.Alarms.Save.Dedup.{IsTable}
use alarm_sys_linux.Alarms.Save.Repeat.{has_key-save_twice}
use alarm_sys_linux.Alarms.Prune.{prune_alarms}
use alarm_sys_linux.Alarms.Prune.Stale.{lookup-prune_alarms, fresh}
use alarm_sys_linux.Alarms.Tracks.{Track, Tracks, TrackHit}
use alarm_sys_linux.Alarms.Confirm.{Texts, confirm_rules}
use alarm_sys_linux.Alarms.Confirm.Effect.{resolved-confirm_rules, stamp_of}

abbrev pub number : ℤ → String
number z = if eq_ℤ z (pos 7) then "7" else "8"

abbrev pub config : AlarmLogicConfig
config = record {
  save_alarm_to_db = pos 1;
  alarm_map_prune_non_first_stale_ms = pos 5;
  dedup_same_alarm_window_ms = pos 60;
  dedup_match_condition_and_track = pos 0;
  origin_time_from_track_msg = pos 1;
  origin_track_time_is_ms = pos 0;
  track_already_has_alarm_window_ms = pos 60;
  alarm_filter_ttl_ms = pos 3600;
  default_threat_score = pos 90;
}

abbrev pub boat_alarm : AlarmData ℤ
boat_alarm = record {
  alarm_id = "a1";
  condition_id = "c1";
  mode_id = pos 1;
  track_id = pos 0;
  unique_id = pos 7;
  targettype = pos 0;
  targetbehavior = pos 0;
  targetdist = pos 3;
  targetlon = pos 120;
  targetlat = pos 30;
  targetspeed = pos 5;
  targetdir = pos 45;
  time = "+iii";
  origintime = "+iii";
  alarm_status = pos 0;
  alarm_count = pos 1;
  group_id = pos 2;
  area_id = pos 1;
  threat_score = pos 40;
  task_status = pos 0;
  alarm_content = "";
  threat_time_ms = pos 3;
}

abbrev pub no_alarms : Alarms ℤ
no_alarms = record {
  alarm_data = [];
  manual_alarm_data = [];
  manual_alarm_air_track = [];
  alarm_filter_expire_ms = [];
  manual_confirmed_unique_ids = [];
  manual_confirm_resolved_time = [];
  alarm_identification_resolved_time = [];
  target_type = [];
  list_alarm_data = [];
  db_writes = [];
}

abbrev pub one_alarm : Alarms ℤ
one_alarm = record no_alarms { alarm_data = ("a1", boat_alarm) ∷ [] }

abbrev base_point : BasePoint ℤ
base_point = record { use_base_point = pos 0; lon = pos 0; lat = pos 0 }

abbrev boat : Candidate ℤ
boat = record {
  condition_id = "c1";
  group_id = pos 2;
  area_id = pos 1;
  target_id = pos 7;
  lat = pos 30;
  lon = pos 120;
  speed = pos 5;
  dir = pos 45;
  dis = pos 3;
  threat_score = pos 50;
  timestamp_sec = pos 1;
  radar_source_id = pos 0;
  alarm_content = "near";
}

abbrev pub boat_track : Track ℤ
boat_track = record {
  lat_degs = pos 30;
  long_degs = pos 120;
  speed_mps = pos 5;
  course_degrees = pos 45;
  range_metres = pos 3;
  reserved1 = pos 0;
  unique_id = pos 7;
  msg_time_secs = pos 1;
  fusion_track_id = [];
  fusion_sensors = 0;
  altitude_metres = pos 0;
  norm_id = pos 0;
  source_code = pos 0;
}

abbrev pub tracks : Tracks ℤ
tracks = record {
  bird_fuse_track = [];
  bird_radar_track = [];
  fuse_track = (pos 9, boat_track) ∷ [];
  radar_track = [];
}

abbrev pub texts : Texts ℤ
texts = record { number = number; manual_content = λ id air speed dir. "manual" }

abbrev boat_hit : TrackHit ℤ
boat_hit = record { track = boat_track; is_air_track = false }

one_alarm-IsTable : IsTable one_alarm.alarm_data
unfolding has_key
one_alarm-IsTable = record { keyed = (refl, tt); distinct = (refl, tt) }

filtered-add_alarm_filter_example :
    (is_unique_id_alarm_filtered
      (pos 3605)
      (pos 7)
      (add_alarm_filter number config (pos 10) (pos 1) (pos 7) one_alarm)).1
    ≡ true
unfolding is_active lookup ◌+ℤ◌
filtered-add_alarm_filter_example =
    filtered-add_alarm_filter number config (pos 10) (pos 1) (pos 7) one_alarm (pos 3605) (pos 7) tt
      (inr refl) (omega arith)

has_key-save_twice_example :
    let once = save_to_db letters config base_point (pos 4) "new" boat_alarm boat no_alarms in
    let twice = save_to_db letters config base_point (pos 9) "newer" boat_alarm boat once in
    has_key "newer" twice.alarm_data ≡ has_key "newer" once.alarm_data
unfolding is_unique_id_alarm_filtered is_active ◌-ℤ◌ lookup
    alarm_sys_linux.Alarms.Filter.prune_expired_alarm_filters
has_key-save_twice_example =
    has_key-save_twice letters config base_point letters-ReadsBack (pos 4) (pos 9) "new" "newer"
      boat_alarm boat boat no_alarms (record { keyed = tt; distinct = tt }) (refl, refl) refl
      (refl, refl) "newer"

lookup-prune_alarms_example :
    lookup "a1" (prune_alarms letters config (pos 100) one_alarm).alarm_data
    ≡ fresh letters config (pos 100) (lookup "a1" one_alarm.alarm_data)
lookup-prune_alarms_example =
    lookup-prune_alarms letters config (pos 100) one_alarm "a1" one_alarm-IsTable

resolved-confirm_rules_example :
    lookup "a1"
      (confirm_rules letters config (pos 2) (pos 7) one_alarm).0.alarm_identification_resolved_time
    ≡ some (stamp_of letters config (pos 2) (pos 7) one_alarm)
unfolding lookup
resolved-confirm_rules_example =
    resolved-confirm_rules letters config (pos 2) (pos 7) one_alarm "a1"
