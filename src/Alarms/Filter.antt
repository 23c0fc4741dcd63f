-- ===== src/Alarms/Filter.antt =====
-- src/customconfig.cpp: the filters by which an operator silences the alarms of a target
-- (`pruneExpiredAlarmFiltersLocked`, `removeAlarmFilterForUniqueId`, `addAlarmFilter`,
-- `isUniqueIdAlarmFiltered`). The clock's reading is an argument.
pub mod Blocking
use alarm_sys_linux.Common.{
  String, Bool, true, false, ◌&&◌, ◌||◌, Option, none, some, List, [], ◌∷◌, if◌then◌else◌,
}
use alarm_sys_linux.Common.Int.{ℤ, pos, ◌+ℤ◌, eq_ℤ, leb_ℤ, ltb_ℤ, max_ℤ}
use alarm_sys_linux.Common.Dict.{Dict, lookup, insert, erase, pair_key, string_key, int_key}
use alarm_sys_linux.Alarms.State.{AlarmData, AlarmLogicConfig, Alarms}

abbrev pub Filters : Type 0
Filters = Dict (ℤ × ℤ) ℤ

unfoldable pub prune_expired_alarm_filters : ℤ → Filters → Filters
prune_expired_alarm_filters now_ms [] = []
prune_expired_alarm_filters now_ms ((key, expire_ms) ∷ rest) =
    if leb_ℤ expire_ms now_ms
    then prune_expired_alarm_filters now_ms rest
    else (key, expire_ms) ∷ prune_expired_alarm_filters now_ms rest

-- The loops of `addAlarmFilter` over one table: the keys of the target's alarms, and their removal.
unfoldable pub keys_of_target : {W : Type 0} → ℤ → Dict String (AlarmData W) → List String
keys_of_target target_id [] = []
keys_of_target target_id ((k, alarm) ∷ rest) =
    if eq_ℤ alarm.unique_id target_id
    then k ∷ keys_of_target target_id rest
    else keys_of_target target_id rest

unfoldable pub remove_keys : {V : Type 0} → List String → Dict String V → Dict String V
remove_keys [] m = m
remove_keys (k ∷ ks) m = remove_keys ks (erase k m)

unfoldable pub is_active : ℤ → Filters → ℤ → ℤ → Bool
is_active now_ms filters type unique_id = elim (lookup (type, unique_id) filters) [
  | none ↦ false
  | some expire_ms ↦ ltb_ℤ now_ms expire_ms
]

module _ {W : Type 0} where
  -- The tables lose their expired filters, and the answer is whether a filter of either type is left.
  unfoldable pub is_unique_id_alarm_filtered : ℤ → ℤ → Alarms W → Alarms W × Bool
  is_unique_id_alarm_filtered now_ms unique_id s =
      let filters = prune_expired_alarm_filters now_ms s.alarm_filter_expire_ms in
      if leb_ℤ unique_id (pos 0) then (s, false) else (
        record s { alarm_filter_expire_ms = filters },
        is_active now_ms filters (pos 0) unique_id || is_active now_ms filters (pos 1) unique_id,
      )

  unfoldable pub remove_alarm_filter_for_unique_id : ℤ → Alarms W → Alarms W
  remove_alarm_filter_for_unique_id unique_id s = if leb_ℤ unique_id (pos 0) then s else record s {
    alarm_filter_expire_ms =
        erase (pos 1, unique_id) (erase (pos 0, unique_id) s.alarm_filter_expire_ms);
  }

  -- `number` stands for `QString::number`.
  unfoldable pub add_alarm_filter :
      (ℤ → String) → AlarmLogicConfig → ℤ → ℤ → ℤ → Alarms W → Alarms W
  add_alarm_filter number al now_ms type target_id s =
      let expire_ms = now_ms +ℤ max_ℤ (pos 1000) al.alarm_filter_ttl_ms in
      if leb_ℤ target_id (pos 0) then s else record s {
        alarm_filter_expire_ms = insert (type, target_id) expire_ms s.alarm_filter_expire_ms;
        alarm_data = remove_keys (keys_of_target target_id s.alarm_data) s.alarm_data;
        manual_alarm_data =
            remove_keys (keys_of_target target_id s.manual_alarm_data) s.manual_alarm_data;
        target_type = erase (number target_id) s.target_type;
      }
