-- ===== src/Rules/Watch/Fast.antt =====
-- Rules about the speed of tracks in an area, where `area_judge` asks for nothing (`processAlarms` where
-- `speed_condition` is 1 or 2, src/dialog/alarm/TrackAlarmThread.cpp). The area itself is not asked for.
use alarm_sys_linux.Common.{Bool, ◌&&◌, List, [], ◌∷◌, length, ltb, if◌then◌else◌}
use alarm_sys_linux.Common.Int.{ℤ, pos, eq_ℤ}
use alarm_sys_linux.Common.Dict.{Dict}
use alarm_sys_linux.Common.Double.{Double}
use alarm_sys_linux.Alarms.Tracks.{Track}
use alarm_sys_linux.Rules.Context.{AlarmRule, Context, RuleState}
use alarm_sys_linux.Rules.Watch.{AisTrack, TrailMap, Trails, trail_of, touch_all, update_found}
use alarm_sys_linux.Rules.Watch.Stay.{trail_count}

module _ {W R : Type 0} ⦃d : Double W⦄ (ctx : Context W R) (info : AlarmRule) where
  unfoldable pub fits_speed : W → Bool
  fits_speed speed_mps =
      if eq_ℤ info.speed_condition (pos 1)
      then d.le speed_mps (d.of_ℤ info.speed)
      else eq_ℤ info.speed_condition (pos 2) && d.lt (d.of_ℤ info.speed) speed_mps

  -- The loop over a table: `speed` is that of its entries.
  unfoldable pub speed_ids : {A : Type 0} → (A → W) → TrailMap W → Dict ℤ A → List ℤ
  speed_ids speed trails [] = []
  speed_ids speed trails ((key, value) ∷ rest) =
      let later = speed_ids speed trails rest in
      if fits_speed (speed value) && ltb trail_count (length (trail_of key trails))
      then key ∷ later
      else later

  unfoldable pub speed_search : Trails W → List ℤ
  speed_search t =
      if eq_ℤ info.track_type (pos 0)
      then speed_ids (λ (track : Track W). track.speed_mps) t.fuse_trail ctx.fuse_track
      else if eq_ℤ info.track_type (pos 1)
      then speed_ids (λ (track : Track W). track.speed_mps) t.radar_trail ctx.radar_track
      else if eq_ℤ info.track_type (pos 2)
      then speed_ids (λ (a : AisTrack W). a.speed_mps) t.ais_trail t.ais_track
      else []

  unfoldable pub fits_track : Track W → Bool
  fits_track track = fits_speed track.speed_mps

  unfoldable pub fits_ais : AisTrack W → Bool
  fits_ais a = fits_speed a.speed_mps

  -- The trails after the search: those that are read are there.
  unfoldable pub trails_after_speed : Trails W → Trails W
  unfolding fits_track fits_ais
  trails_after_speed t =
      if eq_ℤ info.track_type (pos 0)
      then record t { fuse_trail = touch_all fits_track ctx.fuse_track t.fuse_trail }
      else if eq_ℤ info.track_type (pos 1)
      then record t { radar_trail = touch_all fits_track ctx.radar_track t.radar_trail }
      else if eq_ℤ info.track_type (pos 2)
      then record t { ais_trail = touch_all fits_ais t.ais_track t.ais_trail }
      else t

  unfoldable pub apply_speed : (List ℤ → List ℤ) → Trails W → RuleState W → Trails W × RuleState W
  apply_speed to_list t s = (
    trails_after_speed t,
    update_found ctx to_list info info.track_type (pos 0) (speed_search t) s,
  )
