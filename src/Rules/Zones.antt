-- ===== src/Rules/Zones.antt =====
-- In which areas a point lies, and the areas in which no alarm is raised (`isTrackInGroupArea`,
-- `isTrackInGroupAreaByGroupId`, `trackHasPublishedAlarm`, src/dialog/alarm/TrackAlarmThread.cpp).
use alarm_sys_linux.Common.{
  String, Bool, false, not, ◌&&◌, ◌||◌, none, some, first_some, List, [], ◌∷◌, any, is_nil,
  list_or_empty, if◌then◌else◌,
}
use alarm_sys_linux.Common.Int.{ℤ, pos, ◌-ℤ◌, eq_ℤ, leb_ℤ, ltb_ℤ}
use alarm_sys_linux.Common.Dict.{Dict, lookup, int_key, string_key}
use alarm_sys_linux.Common.Double.{Double}
use alarm_sys_linux.Geometry.{get_distance2}
use alarm_sys_linux.Alarms.State.{AlarmData, TimeText}
use alarm_sys_linux.Suspicious.{Point}
use alarm_sys_linux.Suspicious.Areas.{AlarmArea}
use alarm_sys_linux.Rules.Context.{Context}

module _ {W : Type 0} where
  -- Neither format gives a time: the alarm is passed over.
  unfoldable pub is_recent : TimeText → ℤ → ℤ → AlarmData W → Bool
  is_recent clock now window_ms ad =
      elim (first_some (clock.parse_ms ad.time) (clock.parse_sec ad.time)) [
        | none ↦ false
        | some t0 ↦ ltb_ℤ (now -ℤ t0) window_ms
      ]

  has_published : TimeText → ℤ → ℤ → ℤ → Dict String (AlarmData W) → Bool
  has_published clock now target_id window_ms [] = false
  has_published clock now target_id window_ms ((_, ad) ∷ rest) =
      (eq_ℤ ad.unique_id target_id
        && not (eq_ℤ ad.alarm_status (pos 2))
        && is_recent clock now window_ms ad)
      || has_published clock now target_id window_ms rest

  unfoldable pub track_has_published_alarm : TimeText → ℤ → ℤ → ℤ → Dict String (AlarmData W) → Bool
  unfolding has_published
  track_has_published_alarm clock now target_id window_ms m =
      if leb_ℤ target_id (pos 0) || leb_ℤ window_ms (pos 0)
      then false
      else has_published clock now target_id window_ms m

module _ {W R : Type 0} ⦃d : Double W⦄ (ctx : Context W R) where
  -- Whether a point lies in an area: a rectangle, a circle, or a polygon.
  unfoldable pub in_area : Point W → AlarmArea W R → Bool
  in_area pt area =
      let radius =
        d.to_float (get_distance2 area.start_p.0 area.start_p.1 area.end_p.0 area.end_p.1) in
      let dis = d.to_float (get_distance2 area.start_p.0 area.start_p.1 pt.0 pt.1) in
      if eq_ℤ area.alert_area_type (pos 1)
      then ctx.in_rect area.alert_area_rect pt
      else if eq_ℤ area.alert_area_type (pos 2)
      then d.le dis radius
      else if eq_ℤ area.alert_area_type (pos 3)
      then ctx.in_polygon area.alert_area_polygon pt
      else false

  -- The loop over the areas of the allowed groups.
  unfoldable pub is_track_in_group_area : List (AlarmArea W R) → Point W → Bool
  is_track_in_group_area [] pt = false
  is_track_in_group_area (area ∷ rest) pt =
      let allow_g = ctx.cfg.area_group_id_allow in
      let later = is_track_in_group_area rest pt in
      if not (is_nil allow_g) && not (any (λ g. eq_ℤ g area.group_id) allow_g)
      then later
      else in_area pt area || later

  unfoldable pub is_track_in_group_area_by_group_id : Point W → ℤ → Bool
  is_track_in_group_area_by_group_id pt group_id =
      if ltb_ℤ group_id (pos 0)
      then false
      else any (λ area. in_area pt area) (list_or_empty (lookup group_id ctx.maparea))

  -- Whether the point lies in a group in which no alarm is raised.
  unfoldable pub in_no_alarm_group : Point W → Bool
  in_no_alarm_group pt =
      any (λ gid. is_track_in_group_area_by_group_id pt gid) ctx.cfg.no_alarm_group_ids
