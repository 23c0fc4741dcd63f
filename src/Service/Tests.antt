-- ===== src/Service/Tests.antt =====
-- A turn and a request on concrete tables, with integers for `double`.
use alarm_sys_linux.Common.{◌≡◌, refl, String, Bool, true, some, List, [], ◌∷◌, arith, str_eq_iff}
use alarm_sys_linux.Common.Int.{ℤ, pos}
use alarm_sys_linux.Common.Dict.{lookup, has_key, string_key, pair_key}
use alarm_sys_linux.Common.Ascii.{ascii}
use alarm_sys_linux.Common.Integers.{integers}
use alarm_sys_linux.Alarms.Save.Dedup.{IsTable}
use alarm_sys_linux.Alarms.Filter.{is_unique_id_alarm_filtered}
use alarm_sys_linux.Rules.Tests.{ctx, boat_alarm, ones, port, start-IsTable}
use alarm_sys_linux.Rules.Round.Tests.{line, at_sea, trails, blank, rules, quiet, quiet_round}
use alarm_sys_linux.Publish.{AlarmInfo}
use alarm_sys_linux.Publish.Tests.{publisher}
use alarm_sys_linux.Http.Request.{Bytes}
use alarm_sys_linux.Http.Tests.{bytes, json, env, filter_body}
use alarm_sys_linux.Service.{
  Service, TurnInput, clear_speed_checks, refresh_filters, after_rules, turn, request, start,
  turned, requested,
}
use alarm_sys_linux.Service.Turns.{turn_start, fresh_at}
use alarm_sys_linux.Service.Tables.{Reach-IsTable}
use alarm_sys_linux.Service.Silence.{turn-silenced}

abbrev quiet_service : Service ℤ
quiet_service = record {
  server = record { alarms = quiet.alarms; push_full = true; reloads = [] };
  speed_last_check = quiet.speed_last_check;
  area_alarm_data = quiet.area_alarm_data;
  target_info_filter = [];
  last_clear_ms = pos 0;
}

abbrev input : TurnInput ℤ (Unit {0}) Bool
input = record {
  config = ctx;
  area_list = port ∷ [];
  waring_list = rules;
  trails = trails;
  publisher = publisher;
  now_ms = pos 4;
  refresh_each_loop = true;
  db_target_info_filter = [];
}

abbrev turned_service : Service ℤ × List (AlarmInfo ℤ)
turned_service = after_rules input (turn_start input quiet_service) quiet_round.0

quiet_turn :
    turn line at_sea 3 (λ ids. ids) ones blank input quiet_service
    ≡ some (turned_service.0, turned_service.1)
unfolding turn refresh_filters clear_speed_checks
quiet_turn = rw (quiet_round.1, turn) refl

turn-silenced_example :
    lookup "a1" turned_service.0.server.alarms.alarm_data ≡ fresh_at input (some boat_alarm)
unfolding lookup is_unique_id_alarm_filtered has_key alarm_sys_linux.Alarms.Filter.is_active
    alarm_sys_linux.Alarms.Filter.prune_expired_alarm_filters
turn-silenced_example =
    turn-silenced line at_sea 3 (λ ids. ids) ones blank input quiet_service turned_service.0
      turned_service.1 "a1" boat_alarm start-IsTable (refl, tt) refl refl
      (λ id e. ground (arith, (str_eq_iff "u" "a1").1 e)) quiet_turn

abbrev posted_bytes : Bytes String
posted_bytes = record bytes { split_spaces = λ s. "POST" ∷ "/api/alarm_filter" ∷ "HTTP/1.1" ∷ [] }

Reach-IsTable_example :
    IsTable
      (request posted_bytes
        (json filter_body)
        ascii
        env
        ""
        turned_service.0).server.alarms.alarm_data
Reach-IsTable_example =
    Reach-IsTable line at_sea 3 (λ ids. ids) ones blank posted_bytes (json filter_body) ascii
      quiet_service (request posted_bytes (json filter_body) ascii env "" turned_service.0)
      start-IsTable (requested env "" (turned input turned_service.1 start quiet_turn))
