-- ===== src/Alarms/State.antt =====
-- `AlarmData`, `AlarmLogicConfig` (src/datastruct/commonStruct.h) and the tables of
-- src/customconfig.h that hold alarms. Times of alarms are texts in the source: `TimeText` stands for
-- the conversions of `QDateTime`.
use alarm_sys_linux.Common.{String, Bool, Option, none, some, List, ◌≡◌}
use alarm_sys_linux.Common.Int.{ℤ}
use alarm_sys_linux.Common.Dict.{Dict}

-- `W` is the type of `double`.
pub record AlarmData (W : Type 0) : Type 0 where
  pub alarm_id : String
  pub condition_id : String
  pub mode_id : ℤ
  pub track_id : ℤ
  pub unique_id : ℤ
  pub targettype : ℤ
  pub targetbehavior : ℤ
  pub targetdist : W
  pub targetlon : W
  pub targetlat : W
  pub targetspeed : W
  pub targetdir : W
  pub time : String
  pub origintime : String
  pub alarm_status : ℤ
  pub alarm_count : ℤ
  pub group_id : ℤ
  pub area_id : ℤ
  pub threat_score : ℤ
  pub task_status : ℤ
  pub alarm_content : String
  pub threat_time_ms : ℤ

-- The fields of `AlarmLogicConfig` that these operations read.
pub record AlarmLogicConfig : Type 0 where
  pub save_alarm_to_db : ℤ
  pub alarm_map_prune_non_first_stale_ms : ℤ
  pub dedup_same_alarm_window_ms : ℤ
  pub dedup_match_condition_and_track : ℤ
  pub origin_time_from_track_msg : ℤ
  pub origin_track_time_is_ms : ℤ
  pub track_already_has_alarm_window_ms : ℤ
  pub alarm_filter_ttl_ms : ℤ
  pub default_threat_score : ℤ

-- What the code asks of the database about alarms.
pub data DbWrite (W : Type 0) : Type 0 where
  -- `addAlarmData` and `updateAlarmData`.
  add_alarm : AlarmData W → DbWrite W
  update_alarm : String → AlarmData W → DbWrite W
  -- `setSystemEvaluationAlarmTimeOnce(alarm id, unique id, threat time, alarm time)`.
  set_evaluation_time : String → ℤ → ℤ → ℤ → DbWrite W

-- The tables, with what was written to the database so far, newest first.
pub record Alarms (W : Type 0) : Type 0 where
  pub alarm_data : Dict String (AlarmData W)
  pub manual_alarm_data : Dict String (AlarmData W)
  pub manual_alarm_air_track : Dict ℤ Bool
  pub alarm_filter_expire_ms : Dict (ℤ × ℤ) ℤ
  pub manual_confirmed_unique_ids : Dict ℤ (Unit {0})
  pub manual_confirm_resolved_time : Dict ℤ String
  pub alarm_identification_resolved_time : Dict String String
  pub target_type : Dict String ℤ
  -- `m_listAlarmData` of the alarm thread.
  pub list_alarm_data : List (AlarmData W)
  pub db_writes : List (DbWrite W)

-- `toString` and `fromString` of `QDateTime` with the two formats of the code, between texts and
-- milliseconds since the epoch; `invalid_ms` is what an invalid `QDateTime` gives as milliseconds.
pub record TimeText : Type 0 where
  pub to_text : ℤ → String
  pub parse_ms : String → Option ℤ
  pub parse_sec : String → Option ℤ
  pub invalid_ms : ℤ

-- `QDateTime::fromString(text, "yyyy-MM-dd hh:mm:ss.zzz").toMSecsSinceEpoch()`.
unfoldable pub epoch_ms : TimeText → String → ℤ
epoch_ms c text = elim (c.parse_ms text) [ none ↦ c.invalid_ms | some ms ↦ ms ]

-- A time that was written is read back.
abbrev pub ReadsBack : TimeText → Type 0
ReadsBack c = (ms : ℤ) → c.parse_ms (c.to_text ms) ≡ some ms

pub epoch_ms-to_text : (c : TimeText) → ReadsBack c → (ms : ℤ) → epoch_ms c (c.to_text ms) ≡ ms
unfolding epoch_ms
epoch_ms-to_text c r ms = rw (epoch_ms, r ms)
