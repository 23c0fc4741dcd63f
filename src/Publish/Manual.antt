-- ===== src/Publish/Manual.antt =====
-- What becomes of a manual alarm before the event is sent (`syncManualAlarmsBeforePublish`,
-- src/customconfig.cpp).
use alarm_sys_linux.Common.{
  ◌≡◌, ◌⊎◌, refl, ◌∙◌, String, Bool, true, false, Option, none, some, [], ◌∷◌, ◌++◌, arith, str_eq,
  str_eq_iff, Bool-cases, Option-cases, inl, inr, if◌then◌else◌,
}
use alarm_sys_linux.Common.Int.{ℤ, pos, ◌-ℤ◌, ◌≤ℤ◌, ◌<ℤ◌}
use alarm_sys_linux.Common.Dict.{Dict, lookup, Distinct, string_key, int_key}
use alarm_sys_linux.Common.Dict.Laws.{lookup-has_key}
use alarm_sys_linux.Common.Double.{Double}
use alarm_sys_linux.Alarms.State.{AlarmData, Alarms, epoch_ms}
use alarm_sys_linux.Alarms.Tracks.{TrackHit, find_track_by_unique_id}
use alarm_sys_linux.Alarms.Confirm.{build_manual_alarm_data_from_track}
use alarm_sys_linux.Publish.{Publisher}
use alarm_sys_linux.Publish.Sync.{
  ManualTables, updated_manual, is_expired, sync_entry, sync_entries, sync_manual_alarms,
}

module _ {W J : Type 0} ⦃d : Double W⦄ (p : Publisher W J) where
  -- An alarm whose track is found follows it; another stays until it is expired.
  abbrev pub followed : AlarmData W → Option (TrackHit W) → Option (AlarmData W)
  followed ad none = if is_expired p ad then none else some ad
  followed ad (some hit) = some (updated_manual p hit ad)

  abbrev pub followed_if : Option (AlarmData W) → Option (AlarmData W)
  followed_if none = none
  followed_if (some ad) = followed ad (find_track_by_unique_id p.tracks ad.unique_id)

  lookup-sync_entry :
      (key j : String) (ad : AlarmData W) (air : Dict ℤ Bool) (found : Option (TrackHit W))
      (rest : Dict String (AlarmData W))
      → lookup j rest ≡ none
      → str_eq key j ≡ true
      → lookup j ((sync_entry p key ad air found).alarms ++ rest) ≡ followed ad found
  unfolding sync_entry lookup
  lookup-sync_entry key j ad air none rest n e = ground (arith, n, e)
  lookup-sync_entry key j ad air (some hit) rest n e = ground (arith, e)

  lookup-sync_other :
      (key j : String) (ad : AlarmData W) (air : Dict ℤ Bool) (found : Option (TrackHit W))
      (rest : Dict String (AlarmData W))
      → str_eq key j ≡ false
      → lookup j ((sync_entry p key ad air found).alarms ++ rest) ≡ lookup j rest
  unfolding sync_entry lookup
  lookup-sync_other key j ad air none rest e = ground (arith, e)
  lookup-sync_other key j ad air (some hit) rest e = ground (arith, e)

  lookup-sync_entries :
      (m : Dict String (AlarmData W)) (air : Dict ℤ Bool) (j : String)
      → Distinct m
      → lookup j (sync_entries p m air).alarms ≡ followed_if (lookup j m)
  unfolding sync_entries lookup
  lookup-sync_entries [] air j k = refl
  lookup-sync_entries ((key, ad) ∷ rest) air j k =
      let found = find_track_by_unique_id p.tracks ad.unique_id in
      let here : ManualTables W = sync_entry p key ad air found in
      let later : ManualTables W = sync_entries p rest here.air_track in
      let next = lookup-sync_entries rest here.air_track j k.1 in
      elim (Bool-cases (str_eq key j)) [
        | inl e ↦
            let gone : lookup j rest ≡ none =
              lookup-has_key j rest (ground (arith, k.0, e, str_eq_iff key j)) in
            let none_later : lookup j later.alarms ≡ none = next ∙ rw gone refl in
            rw e (lookup-sync_entry key j ad air found later.alarms none_later e)
        | inr e ↦ rw e (lookup-sync_other key j ad air found later.alarms e ∙ next)
      ]

  lookup-synced :
      (s : Alarms W) (j : String)
      → Distinct s.manual_alarm_data
      → lookup j (sync_manual_alarms p s).manual_alarm_data
        ≡ followed_if (lookup j s.manual_alarm_data)
  unfolding sync_manual_alarms
  lookup-synced s j k = lookup-sync_entries s.manual_alarm_data s.manual_alarm_air_track j k

  -- The new alarm has the place, the speed and the course of the track, the present time, the text for
  -- them, and of the old alarm its target, type, count and first times; its score is not below the old
  -- one.
  abbrev pub IsFollowing : AlarmData W → TrackHit W → AlarmData W → Type 0
  IsFollowing ad hit new =
      (new.unique_id ≡ ad.unique_id)
      × (new.targetlon ≡ hit.track.long_degs)
      × (new.targetlat ≡ hit.track.lat_degs)
      × (new.targetspeed ≡ hit.track.speed_mps)
      × (new.targetdir ≡ hit.track.course_degrees)
      × (new.time ≡ p.sources.clock.to_text p.sources.now_ms)
      × (new.alarm_content
          ≡ p.manual_content ad.unique_id hit.is_air_track hit.track.speed_mps
              hit.track.course_degrees)
      × (new.targettype ≡ ad.targettype)
      × (new.alarm_count ≡ ad.alarm_count)
      × (new.origintime ≡ ad.origintime)
      × (new.threat_time_ms ≡ ad.threat_time_ms)
      × (ad.threat_score ≤ℤ new.threat_score)

  -- What may stand in the place of an alarm.
  abbrev pub IsSynced : Option (AlarmData W) → Option (AlarmData W) → Type 0
  IsSynced none after = after ≡ none
  IsSynced (some ad) after =
      let found = find_track_by_unique_id p.tracks ad.unique_id in
      let written_ms = epoch_ms p.sources.clock ad.time in
      ((hit : TrackHit W) × (found ≡ some hit)
        × ((new : AlarmData W) × (after ≡ some new) × IsFollowing ad hit new))
      ⊎ ((found ≡ none)
          × (pos 0 <ℤ written_ms)
          × (pos 600000 <ℤ (p.sources.now_ms -ℤ written_ms))
          × (after ≡ none))
      ⊎ ((found ≡ none)
          × ((written_ms ≤ℤ pos 0) ⊎ ((p.sources.now_ms -ℤ written_ms) ≤ℤ pos 600000))
          × (after ≡ some ad))

  updated_manual-IsFollowing :
      (ad : AlarmData W) (hit : TrackHit W) → IsFollowing ad hit (updated_manual p hit ad)
  unfolding updated_manual build_manual_alarm_data_from_track
  updated_manual-IsFollowing ad hit =
      let base = p.al.default_threat_score in
      let higher : ad.threat_score ≤ℤ (updated_manual p hit ad).threat_score = ground arith in
      (refl, refl, refl, refl, refl, refl, refl, refl, refl, refl, refl, higher)

  is_expired_cases :
      (ad : AlarmData W)
      → let written_ms = epoch_ms p.sources.clock ad.time in
        ((is_expired p ad ≡ true)
          × (pos 0 <ℤ written_ms)
          × (pos 600000 <ℤ (p.sources.now_ms -ℤ written_ms)))
        ⊎ ((is_expired p ad ≡ false)
            × ((written_ms ≤ℤ pos 0) ⊎ ((p.sources.now_ms -ℤ written_ms) ≤ℤ pos 600000)))
  unfolding is_expired
  is_expired_cases ad = ground arith

  followed_if-IsSynced : (before : Option (AlarmData W)) → IsSynced before (followed_if before)
  followed_if-IsSynced none = refl
  followed_if-IsSynced (some ad) =
      elim (Option-cases (find_track_by_unique_id p.tracks ad.unique_id)) [
        | inr (hit, e) ↦
            inl (hit, e, (updated_manual p hit ad, rw e refl, updated_manual-IsFollowing ad hit))
        | inl e ↦ elim (is_expired_cases ad) [
          | inl (x, known, old) ↦ inr (inl (e, known, old, rw e (rw x refl)))
          | inr (x, young) ↦ inr (inr (e, young, rw e (rw x refl)))
        ]
      ]

  -- Before the event is sent, a manual alarm whose track is found takes the place, the speed, the
  -- course and the present time from it, and keeps its target, type, count and first times, with a
  -- score that is not lower. One whose track is not found is gone if its time is known and is more than
  -- ten minutes ago, and stays as it is if not. No alarm is added. The ids of the table are distinct.
  pub lookup-sync_manual_alarms :
      (s : Alarms W) (j : String)
      → Distinct s.manual_alarm_data
      → IsSynced
          (lookup j s.manual_alarm_data)
          (lookup j (sync_manual_alarms p s).manual_alarm_data)
  lookup-sync_manual_alarms s j k =
      rw (lookup-synced s j k) (followed_if-IsSynced (lookup j s.manual_alarm_data))
