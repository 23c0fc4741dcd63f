-- ===== src/Rules/Watch/Stay.antt =====
-- Rules about tracks that stay in an area (`processAlarms` where `area_judge` is 1,
-- src/dialog/alarm/TrackAlarmThread.cpp), for each table of tracks.
use alarm_sys_linux.Common.{
  ℕ, zero, suc, Bool, true, false, ◌&&◌, ◌||◌, Option, none, some, List, [], ◌∷◌, length, ltb,
  if◌then◌else◌,
}
use alarm_sys_linux.Common.Int.{ℤ, pos, eq_ℤ}
use alarm_sys_linux.Common.Dict.{Dict, int_key}
use alarm_sys_linux.Common.Double.{Double}
use alarm_sys_linux.Alarms.Tracks.{Track}
use alarm_sys_linux.Suspicious.{Point}
use alarm_sys_linux.Suspicious.Areas.{AlarmArea}
use alarm_sys_linux.Rules.Context.{AlarmRule, Context, RuleState}
use alarm_sys_linux.Rules.Zones.{in_area}
use alarm_sys_linux.Rules.Watch.{
  AisTrack, TrailMap, Trails, trail_of, touch_all, collect, is_outside, update_found,
}

abbrev pub track_count : ℕ
track_count = 10

abbrev pub trail_count : ℕ
trail_count = 2

module _ {W R : Type 0} ⦃d : Double W⦄ (ctx : Context W R) (info : AlarmRule)
    (area : AlarmArea W R) where
  abbrev pub point_of : Track W → Point W
  point_of track = (track.lat_degs, track.long_degs)

  abbrev pub ais_point : AisTrack W → Point W
  ais_point track = (track.lat_deg, track.long_deg)

  -- Whether none of the first points is out of the area. The loop stops at the first that is, and
  -- reads past the end of a trail that is too short.
  unfoldable pub stayed_in : ℕ → List (Point W) → Option Bool
  stayed_in zero trail = some true
  stayed_in (suc n) [] = none
  stayed_in (suc n) (p ∷ trail) =
      let later = stayed_in n trail in if is_outside ctx area p then some false else later

  abbrev pub add_if : ℤ → Option Bool → Option (List ℤ)
  add_if key none = none
  add_if key (some false) = some []
  add_if key (some true) = some (key ∷ [])

  abbrev pub in_heights : W → Bool
  in_heights height = d.le (d.of_ℤ info.height_min) height && d.le height (d.of_ℤ info.height_max)

  abbrev between_heights : W → Bool
  between_heights height =
      d.lt (d.of_ℤ info.height_min) height && d.lt height (d.of_ℤ info.height_max)

  -- A trail that is long enough, of a track at a height of the rule.
  unfoldable pub linger : Bool → ℤ → List (Point W) → Option (List ℤ)
  linger fits key trail =
      let stayed = add_if key (stayed_in track_count trail) in
      if ltb track_count (length trail) && fits then stayed else some []

  unfoldable pub pick_fuse : TrailMap W → ℤ → Track W → Option (List ℤ)
  pick_fuse trails key track =
      let found = linger (in_heights track.altitude_metres) key (trail_of key trails) in
      if in_area ctx (point_of track) area then found else some []

  -- In a circle neither the trail's length nor the height is asked.
  unfoldable pub pick_radar : TrailMap W → ℤ → Track W → Option (List ℤ)
  pick_radar trails key track =
      let trail = trail_of key trails in
      let found = linger (in_heights track.altitude_metres) key trail in
      let in_circle = add_if key (stayed_in track_count trail) in
      if in_area ctx (point_of track) area
      then if eq_ℤ area.alert_area_type (pos 2) then in_circle else found
      else some []

  -- In a circle a short trail is enough, and the track goes by its MMSI.
  unfoldable pub pick_ais : TrailMap W → ℤ → AisTrack W → Option (List ℤ)
  pick_ais trails key track =
      let trail = trail_of key trails in
      let found = linger (in_heights (d.of_ℤ (pos 0))) key trail in
      let in_circle = if ltb trail_count (length trail) then track.mmsi ∷ [] else [] in
      if in_area ctx (ais_point track) area
      then if eq_ℤ area.alert_area_type (pos 2) then some in_circle else found
      else some []

  abbrev pub some_height : W → Bool
  some_height height =
      let low = d.of_ℤ info.height_min in
      let high = d.of_ℤ info.height_max in
      if eq_ℤ area.alert_area_type (pos 3)
      then d.lt low height || d.lt height high
      else d.le low height || d.le height high

  unfoldable pub pick_bird : TrailMap W → ℤ → Track W → Option (List ℤ)
  pick_bird trails key track =
      let drone = if eq_ℤ ctx.cfg.mode (pos 0) then eq_ℤ track.reserved1 (pos 3) else true in
      if drone
        && in_area ctx (point_of track) area
        && ltb trail_count (length (trail_of key trails))
        && some_height track.altitude_metres
      then some (key ∷ [])
      else some []

  unfoldable pub pick_drone : TrailMap W → ℤ → Track W → Option (List ℤ)
  pick_drone trails key track =
      let fits =
        if eq_ℤ area.alert_area_type (pos 3)
        then between_heights track.altitude_metres
        else in_heights track.altitude_metres in
      let found = linger (fits && eq_ℤ track.reserved1 (pos 3)) key (trail_of key trails) in
      if in_area ctx (point_of track) area then found else some []

  unfoldable pub stay_fuse : TrailMap W → Option (List ℤ)
  stay_fuse trails = collect (pick_fuse trails) ctx.fuse_track

  unfoldable pub stay_radar : TrailMap W → Option (List ℤ)
  stay_radar trails = collect (pick_radar trails) ctx.radar_track

  unfoldable pub stay_ais : TrailMap W → Dict ℤ (AisTrack W) → Option (List ℤ)
  stay_ais trails tracks = collect (pick_ais trails) tracks

  unfoldable pub stay_bird : TrailMap W → Option (List ℤ)
  stay_bird trails = collect (pick_bird trails) ctx.bird_radar_track

  unfoldable pub stay_drone : TrailMap W → Option (List ℤ)
  stay_drone trails = collect (pick_drone trails) ctx.bird_radar_track

  unfoldable pub is_in : Track W → Bool
  is_in track = in_area ctx (point_of track) area

  unfoldable pub is_ais_in : AisTrack W → Bool
  is_ais_in track = in_area ctx (ais_point track) area

  -- The trails of birds are read only for those that the mode lets through.
  unfoldable pub is_bird_in : Track W → Bool
  is_bird_in track =
      (if eq_ℤ ctx.cfg.mode (pos 0) then eq_ℤ track.reserved1 (pos 3) else true)
      && in_area ctx (point_of track) area

  -- The trails after the search: those that are read are there.
  unfoldable pub trails_after_stay : Trails W → Trails W
  unfolding is_in is_ais_in is_bird_in
  trails_after_stay t =
      if eq_ℤ info.track_type (pos 0)
      then record t { fuse_trail = touch_all is_in ctx.fuse_track t.fuse_trail }
      else if eq_ℤ info.track_type (pos 1)
      then record t { radar_trail = touch_all is_in ctx.radar_track t.radar_trail }
      else if eq_ℤ info.track_type (pos 2)
      then record t { ais_trail = touch_all is_ais_in t.ais_track t.ais_trail }
      else if eq_ℤ info.track_type (pos 3)
      then record t {
        bird_radar_trail = touch_all is_bird_in ctx.bird_radar_track t.bird_radar_trail;
      }
      else if eq_ℤ info.track_type (pos 4)
      then record t { bird_radar_trail = touch_all is_in ctx.bird_radar_track t.bird_radar_trail }
      else t

  -- The ids that are found, with the kind of track and the radar source that they are handed on with.
  unfoldable pub stay_search : Trails W → Option (List ℤ × ℤ × ℤ)
  stay_search t =
      let with : ℤ → ℤ → Option (List ℤ) → Option (List ℤ × ℤ × ℤ) =
        λ type source found. elim found [ none ↦ none | some ids ↦ some (ids, type, source) ] in
      if eq_ℤ info.track_type (pos 0)
      then with (pos 0) (pos 0) (stay_fuse t.fuse_trail)
      else if eq_ℤ info.track_type (pos 1)
      then with (pos 1) (pos 0) (stay_radar t.radar_trail)
      else if eq_ℤ info.track_type (pos 2)
      then with (pos 2) (pos 0) (stay_ais t.ais_trail t.ais_track)
      else if eq_ℤ info.track_type (pos 3)
      then with (pos 3) (pos 9) (stay_bird t.bird_radar_trail)
      else if eq_ℤ info.track_type (pos 4)
      then with (pos 1) (pos 7) (stay_drone t.bird_radar_trail)
      else some ([], pos 0, pos 0)

  unfoldable pub apply_stay :
      (List ℤ → List ℤ) → Trails W → RuleState W → Option (Trails W × RuleState W)
  apply_stay to_list t s = elim (stay_search t) [
    | none ↦ none
    | some (ids, type, source) ↦
        some (trails_after_stay t, update_found ctx to_list info type source ids s)
  ]
