-- ===== src/SystemAlarm/Queries.antt =====
-- What a query of the active alarms returns.
use alarm_sys_linux.Common.{
  ◌≡◌, refl, ◌≤◌, String, Bool, not, ◌&&◌, ◌||◌, Option, none, some, List, [], ◌∷◌, arith, str_eq,
  str_eq_iff, is_empty, if◌then◌else◌, find_first, length,
}
use alarm_sys_linux.Common.Int.{eq_ℤ}
use alarm_sys_linux.Common.Dict.{lookup, string_key}
use alarm_sys_linux.Common.Dict.Laws.{lookup-has_key}
use alarm_sys_linux.SystemAlarm.{
  SystemAlarmItem, Store, is_listed, list_active, size, kind_unspecified, GetActiveAlarmsRequest,
  get_active_alarms,
}
use alarm_sys_linux.SystemAlarm.History.{IsPool, run, run-IsPool, Call, latest, run-latest}

-- The documented filters: an empty system id, the kind UNSPECIFIED and an unset level pass all.
unfoldable pub passes : GetActiveAlarmsRequest → SystemAlarmItem → Bool
passes r a =
    (is_empty r.system_id || str_eq a.system_id r.system_id)
    && (eq_ℤ r.alarm_kind kind_unspecified || eq_ℤ a.alarm_kind r.alarm_kind)
    && (not r.level_filter_set || eq_ℤ a.level r.level)

abbrev pub when_passes : GetActiveAlarmsRequest → Option SystemAlarmItem → Option SystemAlarmItem
when_passes r none = none
when_passes r (some a) = if passes r a then some a else none

-- The item of an id in an answer.
abbrev pub answer : String → List SystemAlarmItem → Option SystemAlarmItem
answer id = find_first (λ a. str_eq a.alarm_id id)

is_listed-passes :
    (r : GetActiveAlarmsRequest) (a : SystemAlarmItem)
    → is_listed r.system_id r.alarm_kind r.level_filter_set r.level a ≡ passes r a
unfolding is_listed passes
is_listed-passes r a = ground arith

answer-list_active :
    (active : Store) (r : GetActiveAlarmsRequest) (id : String)
    → IsPool active
    → answer id (list_active active r.system_id r.alarm_kind r.level_filter_set r.level)
      ≡ when_passes r (lookup id active)
unfolding list_active lookup
answer-list_active [] r id v = refl
answer-list_active ((k, a) ∷ rest) r id v = ground (
  arith,
  answer-list_active rest r id (record { entries = v.entries.1; distinct = v.distinct.1 }),
  is_listed-passes r a,
  lookup-has_key k rest,
  v.entries.0.keyed,
  str_eq_iff k id,
)

-- After any calls, a query answers for each id with the item of the newest well-formed call about
-- that id, if that call is a report and the item passes the filters of the request, and else with
-- nothing.
pub get_active_alarms-latest :
    (cs : List Call) (r : GetActiveAlarmsRequest) (id : String)
    → answer id (get_active_alarms (run cs) (some r)) ≡ when_passes r (latest id cs)
unfolding get_active_alarms
get_active_alarms-latest cs r id =
    ground (arith, answer-list_active (run cs) r id (run-IsPool cs), run-latest cs id)

-- A query returns at most as many items as the pool has.
pub get_active_alarms-le-size :
    (active : Store) (r : GetActiveAlarmsRequest)
    → length (get_active_alarms active (some r)) ≤ size active
unfolding get_active_alarms list_active size
get_active_alarms-le-size [] r = omega arith
get_active_alarms-le-size (_ ∷ rest) r = ground (arith, get_active_alarms-le-size rest r)
