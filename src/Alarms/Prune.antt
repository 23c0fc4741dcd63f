-- ===== src/Alarms/Prune.antt =====
-- The end of a round of `TrackAlarmThread::run` (src/dialog/alarm/TrackAlarmThread.cpp): the alarms
-- that were not refreshed in time leave the table. The clock is read once for a round.
pub mod Stale
use alarm_sys_linux.Common.{String, Bool, true, false, List, [], ◌∷◌, if◌then◌else◌}
use alarm_sys_linux.Common.Int.{ℤ, ◌-ℤ◌, ltb_ℤ}
use alarm_sys_linux.Common.Dict.{Dict, erase, string_key}
use alarm_sys_linux.Alarms.State.{AlarmData, AlarmLogicConfig, Alarms, TimeText, epoch_ms}

abbrev pub reverse_onto {ℓ} : {A : Type ℓ} → List A → List A → List A
reverse_onto [] back = back
reverse_onto (x ∷ xs) back = reverse_onto xs (x ∷ back)

module _ {W : Type 0} where
  unfoldable pub is_stale : TimeText → AlarmLogicConfig → ℤ → AlarmData W → Bool
  is_stale clock al now ad =
      ltb_ℤ al.alarm_map_prune_non_first_stale_ms (now -ℤ epoch_ms clock ad.time)

  -- The walk from the last entry to the first, over the entries that stood at its start. What is
  -- removed is the entry of the alarm's own id.
  unfoldable pub prune_walk :
      TimeText
      → AlarmLogicConfig
      → ℤ
      → Dict String (AlarmData W)
      → Dict String (AlarmData W)
      → Dict String (AlarmData W)
  prune_walk clock al now [] m = m
  prune_walk clock al now ((_, ad) ∷ before) m =
      prune_walk clock al now before (if is_stale clock al now ad then erase ad.alarm_id m else m)

  unfoldable pub prune_alarms : TimeText → AlarmLogicConfig → ℤ → Alarms W → Alarms W
  prune_alarms clock al now s = record s {
    alarm_data = prune_walk clock al now (reverse_onto s.alarm_data []) s.alarm_data;
  }
