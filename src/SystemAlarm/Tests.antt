-- ===== src/SystemAlarm/Tests.antt =====
-- The pool of system alarms on concrete calls.
use alarm_sys_linux.Common.{◌≡◌, refl, true, none, some, List, [], ◌∷◌, length, ◌≤◌}
use alarm_sys_linux.Common.Int.{pos}
use alarm_sys_linux.Common.Dict.{lookup, string_key}
use alarm_sys_linux.SystemAlarm.{
  SystemAlarmItem, report, is_valid_kind, GetActiveAlarmsRequest, get_active_alarms, size,
}
use alarm_sys_linux.SystemAlarm.History.{Call, reports, cancels, run, latest, run-latest}
use alarm_sys_linux.SystemAlarm.Queries.{get_active_alarms-le-size}

abbrev camera_alarm : SystemAlarmItem
camera_alarm = record {
  alarm_id = "alarm_camera_1";
  system_id = "sys-005";
  description = "lens blocked";
  timestamp_ms = pos 1000;
  raised_time_ms = pos 990;
  canceled_time_ms = pos 7;
  alarm_kind = pos 1;
  entity_id = "";
  level = pos 2;
  reserved1 = "";
  reserved2 = "";
  reserved3 = "";
}

abbrev radar_alarm : SystemAlarmItem
radar_alarm = record camera_alarm { alarm_id = "alarm_radar_1"; system_id = "sys-009" }

abbrev bad_kind : SystemAlarmItem
bad_kind = record camera_alarm { alarm_kind = pos 7 }

-- The newest call first.
abbrev calls : List Call
calls =
    cancels "alarm_radar_1" "sys-009" (pos 3000)
    ∷ reports bad_kind
    ∷ reports radar_alarm
    ∷ reports camera_alarm
    ∷ []

abbrev of_camera : GetActiveAlarmsRequest
of_camera = record {
  system_id = "sys-005";
  alarm_kind = pos 0;
  level_filter_set = true;
  level = pos 2;
}

refused_kind : (report [] bad_kind).1.err ≡ "invalid_param: alarm_kind"
unfolding report is_valid_kind
refused_kind = refl

run-latest_example : lookup "alarm_radar_1" (run calls) ≡ none
unfolding latest is_valid_kind
run-latest_example = run-latest calls "alarm_radar_1"

get_active_alarms-le-size_example :
    length (get_active_alarms (run calls) (some of_camera)) ≤ size (run calls)
get_active_alarms-le-size_example = get_active_alarms-le-size (run calls) of_camera
