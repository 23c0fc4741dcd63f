-- ===== src/Publish/Sync.antt =====
-- `syncManualAlarmsBeforePublish` (src/customconfig.cpp): the manual alarms follow their tracks, and go
-- ten minutes after their track is gone.
use alarm_sys_linux.Common.{String, Bool, ◌&&◌, Option, none, some, [], ◌∷◌, ◌++◌, if◌then◌else◌}
use alarm_sys_linux.Common.Int.{ℤ, pos, ◌-ℤ◌, ltb_ℤ}
use alarm_sys_linux.Common.Dict.{Dict, insert, erase, string_key, int_key}
use alarm_sys_linux.Common.Double.{Double}
use alarm_sys_linux.Alarms.State.{AlarmData, Alarms, epoch_ms}
use alarm_sys_linux.Alarms.Tracks.{TrackHit, find_track_by_unique_id}
use alarm_sys_linux.Alarms.Confirm.{build_manual_alarm_data_from_track}
use alarm_sys_linux.Publish.{Publisher}

-- The two tables of manual alarms.
pub record ManualTables (W : Type 0) : Type 0 where
  pub alarms : Dict String (AlarmData W)
  pub air_track : Dict ℤ Bool

module _ {W J : Type 0} ⦃d : Double W⦄ (p : Publisher W J) where
  unfoldable pub updated_manual : TrackHit W → AlarmData W → AlarmData W
  updated_manual hit prev =
      let built =
        build_manual_alarm_data_from_track p.sources.number p.sources.clock p.sources.now_ms
          hit.track prev.unique_id p.al.default_threat_score (some prev) in
      record built {
        alarm_count = prev.alarm_count;
        origintime = prev.origintime;
        threat_time_ms = prev.threat_time_ms;
        alarm_content =
            p.manual_content prev.unique_id hit.is_air_track built.targetspeed built.targetdir;
      }

  -- Whether an alarm without a track goes.
  unfoldable pub is_expired : AlarmData W → Bool
  is_expired ad =
      let alarm_ms = epoch_ms p.sources.clock ad.time in
      ltb_ℤ (pos 0) alarm_ms && ltb_ℤ (pos 600000) (p.sources.now_ms -ℤ alarm_ms)

  -- One turn of the loop, which stands at an entry: what stands in its place, and the other table.
  unfoldable pub sync_entry :
      String → AlarmData W → Dict ℤ Bool → Option (TrackHit W) → ManualTables W
  sync_entry key ad air none =
      if is_expired ad
      then record { alarms = []; air_track = erase ad.unique_id air }
      else record { alarms = (key, ad) ∷ []; air_track = air }
  sync_entry key ad air (some hit) = record {
    alarms = (key, updated_manual hit ad) ∷ [];
    air_track = insert ad.unique_id hit.is_air_track air;
  }

  unfoldable pub sync_entries : Dict String (AlarmData W) → Dict ℤ Bool → ManualTables W
  sync_entries [] air = record { alarms = []; air_track = air }
  sync_entries ((key, ad) ∷ rest) air =
      let here = sync_entry key ad air (find_track_by_unique_id p.tracks ad.unique_id) in
      let later = sync_entries rest here.air_track in
      record { alarms = here.alarms ++ later.alarms; air_track = later.air_track }

  unfoldable pub sync_manual_alarms : Alarms W → Alarms W
  sync_manual_alarms s =
      let synced = sync_entries s.manual_alarm_data s.manual_alarm_air_track in
      record s { manual_alarm_data = synced.alarms; manual_alarm_air_track = synced.air_track }
