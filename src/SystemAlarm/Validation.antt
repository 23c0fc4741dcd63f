-- ===== src/SystemAlarm/Validation.antt =====
-- Which calls of the pool are accepted, and what each call changes.
use alarm_sys_linux.Common.{
  ◌≡◌, ◌≢◌, ◌↔◌, String, true, none, some, arith, str_eq, str_eq_iff, if◌then◌else◌, ◌&&◌,
}
use alarm_sys_linux.Common.Int.{ℤ, pos, negsuc, ◌≤ℤ◌, ◌<ℤ◌}
use alarm_sys_linux.Common.Dict.{lookup, string_key}
use alarm_sys_linux.Common.Dict.Laws.{lookup-insert, lookup-erase}
use alarm_sys_linux.SystemAlarm.{SystemAlarmItem, Store, report, cancel, is_valid_kind, stored_item}

-- The documented obligations of a reported item.
pub record IsReportable (item : SystemAlarmItem) : Type 0 where
  pub has_alarm_id : item.alarm_id ≢ ""
  pub has_system_id : item.system_id ≢ ""
  pub has_description : item.description ≢ ""
  pub timestamp_pos : pos 0 <ℤ item.timestamp_ms
  pub raised_time_pos : pos 0 <ℤ item.raised_time_ms
  pub kind_ge : pos 1 ≤ℤ item.alarm_kind
  pub kind_le : item.alarm_kind ≤ℤ pos 6

is_valid_kind_iff : (k : ℤ) → (is_valid_kind k ≡ true) ↔ ((pos 1 ≤ℤ k) × (k ≤ℤ pos 6))
unfolding is_valid_kind
is_valid_kind_iff (pos k) = ground arith
is_valid_kind_iff (negsuc k) = ground arith

-- A report is accepted exactly when the item is reportable.
pub report-ok_iff :
    (active : Store) (item : SystemAlarmItem)
    → ((report active item).1.ok ≡ true) ↔ IsReportable item
unfolding report
report-ok_iff active item = ground (
  arith,
  str_eq_iff item.alarm_id "",
  str_eq_iff item.system_id "",
  str_eq_iff item.description "",
  is_valid_kind_iff item.alarm_kind,
)

-- Whatever a report answers, every alarm id looks up as before, but for the id of an accepted item,
-- which looks up to that item with its cancellation time reset.
pub lookup-report :
    (active : Store) (item : SystemAlarmItem) (id : String)
    → lookup id (report active item).0 ≡ (
        if (report active item).1.ok && str_eq item.alarm_id id
        then some (stored_item item)
        else lookup id active)
unfolding report
lookup-report active item id =
    ground (arith, lookup-insert id item.alarm_id (stored_item item) active)

-- A cancellation is accepted exactly when its two ids are there, its time is positive and the alarm
-- is active.
pub cancel-ok_iff :
    (active : Store) (alarm_id system_id : String) (time : ℤ)
    → ((cancel active alarm_id system_id time).1.ok ≡ true)
      ↔ ((alarm_id ≢ "") × (system_id ≢ "") × (pos 0 <ℤ time) × (lookup alarm_id active ≢ none))
unfolding cancel
cancel-ok_iff active alarm_id system_id time =
    ground (arith, str_eq_iff alarm_id "", str_eq_iff system_id "")

-- Whatever a cancellation answers, only the alarm of an accepted one is gone.
pub lookup-cancel :
    (active : Store) (alarm_id system_id : String) (time : ℤ) (id : String)
    → lookup id (cancel active alarm_id system_id time).0 ≡ (
        if (cancel active alarm_id system_id time).1.ok && str_eq alarm_id id
        then none
        else lookup id active)
unfolding cancel
lookup-cancel active alarm_id system_id time id = ground (arith, lookup-erase id alarm_id active)
