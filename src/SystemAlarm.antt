-- ===== src/SystemAlarm.antt =====
-- src/grpc_system_alarm: the in-memory pool of system alarms (SystemAlarmStore.cpp) and the three
-- gRPC handlers over it (SystemAlarmServiceImpl.cpp). Each call holds the store's mutex for its
-- effect, so the calls of several clients are a sequence. A protobuf enum is its number.
mod Validation
mod History
mod Queries
mod Tests
use alarm_sys_linux.Common.{
  ℕ, String, Bool, true, false, not, ◌&&◌, ◌||◌, Option, none, some, List, [], ◌∷◌, str_eq,
  is_empty, if◌then◌else◌, length,
}
use alarm_sys_linux.Common.Int.{ℤ, pos, eq_ℤ, leb_ℤ}
use alarm_sys_linux.Common.Dict.{Dict, string_key, lookup, insert, erase}

-- `message SystemAlarmItem`.
pub record SystemAlarmItem : Type 0 where
  pub alarm_id : String
  pub system_id : String
  pub description : String
  pub timestamp_ms : ℤ
  pub raised_time_ms : ℤ
  pub canceled_time_ms : ℤ
  pub alarm_kind : ℤ
  pub entity_id : String
  pub level : ℤ
  pub reserved1 : String
  pub reserved2 : String
  pub reserved3 : String

-- `m_active`. The source's map is unordered: the order of the entries means nothing.
abbrev pub Store : Type 0
Store = Dict String SystemAlarmItem

-- What a call of the store returns: its Boolean and the text that it leaves in `*err`.
pub record Reply : Type 0 where
  pub ok : Bool
  pub err : String

abbrev pub kind_unspecified : ℤ
kind_unspecified = pos 0

-- EQUIPMENT = 1, DATA_COMM, TASK, ENVIRONMENT, COMPREHENSIVE, SYSTEM_AUTH = 6.
unfoldable pub is_valid_kind : ℤ → Bool
is_valid_kind kind =
    eq_ℤ kind (pos 1)
    || eq_ℤ kind (pos 2)
    || eq_ℤ kind (pos 3)
    || eq_ℤ kind (pos 4)
    || eq_ℤ kind (pos 5)
    || eq_ℤ kind (pos 6)

abbrev refuse : Store → String → Store × Reply
refuse active why = (active, record { ok = false; err = why })

abbrev accept : Store → Store × Reply
accept active = (active, record { ok = true; err = "ok" })

-- What the pool keeps of a reported item.
abbrev pub stored_item : SystemAlarmItem → SystemAlarmItem
stored_item item = record item { canceled_time_ms = pos 0 }

unfoldable pub report : Store → SystemAlarmItem → Store × Reply
report active item =
    if is_empty item.alarm_id
    then refuse active "invalid_param: alarm_id empty"
    else if is_empty item.system_id
    then refuse active "invalid_param: system_id empty"
    else if is_empty item.description
    then refuse active "invalid_param: description empty"
    else if leb_ℤ item.timestamp_ms (pos 0)
    then refuse active "invalid_param: timestamp_ms"
    else if leb_ℤ item.raised_time_ms (pos 0)
    then refuse active "invalid_param: raised_time_ms"
    else if not (is_valid_kind item.alarm_kind)
    then refuse active "invalid_param: alarm_kind"
    else accept (insert item.alarm_id (stored_item item) active)

-- The lookup of `m_active.find` and the erasure by the iterator that it returned.
erase_found : Store → String → Option SystemAlarmItem → Store × Reply
erase_found active alarm_id none = refuse active "not_found"
erase_found active alarm_id (some it) = accept (erase alarm_id active)

unfoldable pub cancel : Store → String → String → ℤ → Store × Reply
unfolding erase_found
cancel active alarm_id system_id canceled_time_ms =
    if is_empty alarm_id
    then refuse active "invalid_param: alarm_id empty"
    else if is_empty system_id
    then refuse active "invalid_param: system_id empty"
    else if leb_ℤ canceled_time_ms (pos 0)
    then refuse active "invalid_param: canceled_time_ms"
    else erase_found active alarm_id (lookup alarm_id active)

-- The three `continue` guards of `listActive`, for one item.
unfoldable pub is_listed : String → ℤ → Bool → ℤ → SystemAlarmItem → Bool
is_listed system_id_filter kind_filter level_filter_set level_filter a =
    if not (is_empty system_id_filter) && not (str_eq a.system_id system_id_filter)
    then false
    else if not (eq_ℤ kind_filter kind_unspecified) && not (eq_ℤ a.alarm_kind kind_filter)
    then false
    else if level_filter_set && not (eq_ℤ a.level level_filter)
    then false
    else true

unfoldable pub list_active : Store → String → ℤ → Bool → ℤ → List SystemAlarmItem
list_active [] system_id_filter kind_filter level_filter_set level_filter = []
list_active ((_, a) ∷ rest) system_id_filter kind_filter level_filter_set level_filter =
    let out = list_active rest system_id_filter kind_filter level_filter_set level_filter in
    if is_listed system_id_filter kind_filter level_filter_set level_filter a then a ∷ out else out

unfoldable pub size : Store → ℕ
size active = length active

-- `message CommonAck`.
pub record CommonAck : Type 0 where
  pub ok : Bool
  pub message : String
  pub server_time_ms : ℤ

abbrev ack : ℤ → Reply → CommonAck
ack now reply = record { ok = reply.ok; message = reply.err; server_time_ms = now }

-- The request may be null, and its `alarm` may be absent.
unfoldable pub report_alarm : ℤ → Store → Option (Option SystemAlarmItem) → Store × CommonAck
unfolding report
report_alarm now active none =
    (active, ack now (record { ok = false; err = "invalid_param: alarm missing" }))
report_alarm now active (some none) =
    (active, ack now (record { ok = false; err = "invalid_param: alarm missing" }))
report_alarm now active (some (some alarm)) =
    let (active', reply) = report active alarm in (active', ack now reply)

-- `message CancelAlarmRequest`.
pub record CancelAlarmRequest : Type 0 where
  pub alarm_id : String
  pub system_id : String
  pub timestamp_ms : ℤ
  pub canceled_time_ms : ℤ
  pub reason : String

unfoldable pub cancel_alarm : ℤ → Store → Option CancelAlarmRequest → Store × CommonAck
unfolding cancel
cancel_alarm now active none = (active, ack now (record { ok = false; err = "invalid_param" }))
cancel_alarm now active (some r) =
    let (active', reply) = cancel active r.alarm_id r.system_id r.canceled_time_ms in
    (active', ack now reply)

-- `message GetActiveAlarmsRequest`.
pub record GetActiveAlarmsRequest : Type 0 where
  pub system_id : String
  pub alarm_kind : ℤ
  pub level_filter_set : Bool
  pub level : ℤ

unfoldable pub get_active_alarms : Store → Option GetActiveAlarmsRequest → List SystemAlarmItem
unfolding list_active
get_active_alarms active none = list_active active "" kind_unspecified false (pos 0)
get_active_alarms active (some r) =
    list_active active r.system_id r.alarm_kind r.level_filter_set r.level
