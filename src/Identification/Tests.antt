-- ===== src/Identification/Tests.antt =====
-- Identification on concrete rules, with a parser that knows one text.
use alarm_sys_linux.Common.{
  ◌≡◌, refl, ◌≢◌, ◌↔◌, ◌⊎◌, String, Bool, true, false, none, some, List, [], ◌∷◌, if◌then◌else◌,
  str_eq,
}
use alarm_sys_linux.Common.Int.{ℤ, pos, eq_ℤ}
use alarm_sys_linux.Common.Dict.{has_key, string_key, int_key, Dict}
use alarm_sys_linux.Common.Ascii.{ascii}
use alarm_sys_linux.Alarms.State.{AlarmData, AlarmLogicConfig, Alarms, TimeText}
use alarm_sys_linux.Identification.{
  RuleSub, Json, Sources, eval_single_rule_criteria_intersection, eval_identification_rules_union,
  group_ok, rule_ids_of, base_status, resolve_rule_alarm_disposition,
}
use alarm_sys_linux.Identification.Rules.{single_rule_iff, rows_of}
use alarm_sys_linux.Identification.Disposition.{counts, resolve_twice}

-- A clock whose texts carry no time.
abbrev clock : TimeText
clock = record {
  to_text = λ ms. "now";
  parse_ms = λ s. none;
  parse_sec = λ s. none;
  invalid_ms = pos 0;
}

abbrev optic_only : Json Bool
optic_only = record {
  parse = λ s. some true;
  contains = λ o name. str_eq name "optic";
  to_bool = λ o name. o;
  to_int = λ o name. pos 0;
  to_string = λ o name. "";
}

abbrev sources : Sources Bool
sources = record {
  text = ascii;
  json = optic_only;
  clock = clock;
  has_metadata = λ id pattern. eq_ℤ id (pos 7);
  number = λ z. if eq_ℤ z (pos 2) then "2" else "1";
  now_ms = pos 100;
}

abbrev optic_row : RuleSub
optic_row = record { criteria_id = "k"; detection_rules_json = "optic"; enabled = true }

abbrev alarm : AlarmData ℤ
alarm = record {
  alarm_id = "a1";
  condition_id = "c1";
  mode_id = pos 1;
  track_id = pos 0;
  unique_id = pos 7;
  targettype = pos 0;
  targetbehavior = pos 0;
  targetdist = pos 3;
  targetlon = pos 120;
  targetlat = pos 30;
  targetspeed = pos 5;
  targetdir = pos 45;
  time = "t";
  origintime = "t";
  alarm_status = pos 0;
  alarm_count = pos 1;
  group_id = pos 2;
  area_id = pos 1;
  threat_score = pos 40;
  task_status = pos 1;
  alarm_content = "";
  threat_time_ms = pos 3;
}

abbrev tables : Alarms ℤ
tables = record {
  alarm_data = ("a1", alarm) ∷ [];
  manual_alarm_data = [];
  manual_alarm_air_track = [];
  alarm_filter_expire_ms = [];
  manual_confirmed_unique_ids = (pos 7, tt) ∷ [];
  manual_confirm_resolved_time = [];
  alarm_identification_resolved_time = [];
  target_type = [];
  list_alarm_data = [];
  db_writes = [];
}

abbrev config : AlarmLogicConfig
config = record {
  save_alarm_to_db = pos 1;
  alarm_map_prune_non_first_stale_ms = pos 5;
  dedup_same_alarm_window_ms = pos 60;
  dedup_match_condition_and_track = pos 0;
  origin_time_from_track_msg = pos 1;
  origin_track_time_is_ms = pos 0;
  track_already_has_alarm_window_ms = pos 60;
  alarm_filter_ttl_ms = pos 3600;
  default_threat_score = pos 90;
}

abbrev subs : Dict String (List RuleSub)
subs = ("c1", optic_row ∷ []) ∷ []

single_rule_iff_example :
    (eval_single_rule_criteria_intersection sources alarm (optic_row ∷ []) ≡ true) ↔ (
      (key : String) × (rows_of sources alarm key (optic_row ∷ []) ≢ [])
      × (group_ok sources alarm (rows_of sources alarm key (optic_row ∷ [])) ≡ true))
single_rule_iff_example = single_rule_iff sources alarm (optic_row ∷ [])

resolve_twice_example :
    let once = resolve_rule_alarm_disposition clock config (pos 5) (false, false) alarm tables in
    let twice = resolve_rule_alarm_disposition clock config (pos 9) (true, true) alarm once.0 in
    ((counts clock config (true, true) alarm tables ≡ true) × (twice ≡ once))
    ⊎ ((counts clock config (true, true) alarm tables ≡ false)
        × (twice ≡ (
          once.0,
          record { task_status = base_status alarm.task_status; resolved_time_str = "" },
        )))
unfolding has_key resolve_rule_alarm_disposition alarm_sys_linux.Identification.record_resolved
resolve_twice_example =
    resolve_twice clock config (pos 5) (pos 9) (false, false) (true, true) alarm tables refl
