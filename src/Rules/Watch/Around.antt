-- ===== src/Rules/Watch/Around.antt =====
-- Rules without an area, and rules about the distance from the point of the drones (`processAlarms` where
-- the group and the area of the rule are -10 or -20, src/dialog/alarm/TrackAlarmThread.cpp). That point is
-- `m_uavLat` and `m_uavLon` of the thread, which no code sets: an argument here.
use alarm_sys_linux.Common.{
  Bool, not, ◌&&◌, Option, none, some, List, [], ◌∷◌, any, length, ltb, if◌then◌else◌,
}
use alarm_sys_linux.Common.Int.{ℤ, pos, eq_ℤ}
use alarm_sys_linux.Common.Dict.{Dict}
use alarm_sys_linux.Common.Double.{Double}
use alarm_sys_linux.Geometry.{get_distance2}
use alarm_sys_linux.Alarms.Tracks.{Track}
use alarm_sys_linux.Suspicious.{Point}
use alarm_sys_linux.Rules.Context.{AlarmRule, Context, RuleState}
use alarm_sys_linux.Rules.Watch.{
  AisTrack, TrailMap, Trails, trail_of, touch_all, collect, update_found,
}
use alarm_sys_linux.Rules.Watch.Stay.{trail_count}

-- `keys()` of a table.
unfoldable pub keys_of : {A : Type 0} → Dict ℤ A → List ℤ
keys_of [] = []
keys_of ((key, value) ∷ rest) = key ∷ keys_of rest

module _ {W R : Type 0} ⦃d : Double W⦄ (ctx : Context W R) (info : AlarmRule) where
  unfoldable pub everywhere_search : Trails W → List ℤ
  everywhere_search t =
      if eq_ℤ info.track_type (pos 0)
      then keys_of ctx.fuse_track
      else if eq_ℤ info.track_type (pos 1)
      then keys_of ctx.radar_track
      else if eq_ℤ info.track_type (pos 2)
      then keys_of t.ais_track
      else []

  -- Only rules about tracks that are in the area, which is everywhere.
  unfoldable pub apply_everywhere : (List ℤ → List ℤ) → Trails W → RuleState W → RuleState W
  apply_everywhere to_list t s =
      if eq_ℤ info.area_judge (pos 1)
      then update_found ctx to_list info info.track_type (pos 0) (everywhere_search t) s
      else s

  module _ (uav : Point W) where
    unfoldable pub uav_distance : Point W → W
    uav_distance pt = d.to_float (get_distance2 uav.0 uav.1 pt.0 pt.1)

    unfoldable pub radius : W
    radius = d.to_float (d.of_ℤ info.distance)

    -- `area_judge` is 1: at most the distance of the rule, or farther.
    unfoldable pub fits_distance : Point W → Bool
    unfolding radius uav_distance
    fits_distance pt =
        if eq_ℤ info.distance_condition (pos 1)
        then d.le (uav_distance pt) radius
        else d.lt radius (uav_distance pt)

    -- `area_judge` is 3: less than a mile out of the circle, or less than a mile inside it.
    unfoldable pub fits_margin : Point W → Bool
    unfolding radius uav_distance
    fits_margin pt =
        let dis = uav_distance pt in
        let mile = d.of_ℤ (pos 1852) in
        if eq_ℤ info.distance_condition (pos 1)
        then d.le dis (d.to_float (d.add radius mile)) && d.lt radius dis
        else d.le dis radius && d.lt (d.to_float (d.sub radius mile)) dis

    -- The loop over a table: `point` is that of its entries.
    unfoldable pub around_ids :
        {A : Type 0} → (A → Point W) → (Point W → Bool) → TrailMap W → Dict ℤ A → List ℤ
    around_ids point fits trails [] = []
    around_ids point fits trails ((key, value) ∷ rest) =
        let later = around_ids point fits trails rest in
        if fits (point value) && ltb trail_count (length (trail_of key trails))
        then key ∷ later
        else later

    abbrev pub track_at : Track W → Point W
    track_at track = (track.lat_degs, track.long_degs)

    abbrev pub ais_at : AisTrack W → Point W
    ais_at track = (track.lat_deg, track.long_deg)

    unfoldable pub around_search : (Point W → Bool) → Trails W → List ℤ
    around_search fits t =
        if eq_ℤ info.track_type (pos 0)
        then around_ids track_at fits t.fuse_trail ctx.fuse_track
        else if eq_ℤ info.track_type (pos 1)
        then around_ids track_at fits t.radar_trail ctx.radar_track
        else if eq_ℤ info.track_type (pos 2)
        then around_ids ais_at fits t.ais_trail t.ais_track
        else []

    -- The trails after the search: those that are read are there.
    unfoldable pub trails_after_around : (Point W → Bool) → Trails W → Trails W
    trails_after_around fits t =
        let track_fits : Track W → Bool = λ track. fits (track_at track) in
        let ais_fits : AisTrack W → Bool = λ track. fits (ais_at track) in
        if eq_ℤ info.track_type (pos 0)
        then record t { fuse_trail = touch_all track_fits ctx.fuse_track t.fuse_trail }
        else if eq_ℤ info.track_type (pos 1)
        then record t { radar_trail = touch_all track_fits ctx.radar_track t.radar_trail }
        else if eq_ℤ info.track_type (pos 2)
        then record t { ais_trail = touch_all ais_fits t.ais_track t.ais_trail }
        else t

    -- `area_judge` is 2: the newest point is on one side of the circle, and one before it on the other.
    -- The side is chosen by the condition on the speed.
    unfoldable pub crossed : Point W → List (Point W) → Bool
    unfolding radius uav_distance
    crossed pt earlier =
        let is_within : Point W → Bool = λ p. d.le (uav_distance p) radius in
        let is_beyond : Point W → Bool = λ p. d.lt radius (uav_distance p) in
        if eq_ℤ info.speed_condition (pos 1)
        then not (is_within pt) && any is_within earlier
        else eq_ℤ info.speed_condition (pos 2) && not (is_beyond pt) && any is_beyond earlier

    -- `at(0)` of an empty trail is read.
    unfoldable pub pick_crossed : ℤ → List (Point W) → Option (List ℤ)
    pick_crossed key [] = none
    pick_crossed key (pt ∷ earlier) = if crossed pt earlier then some (key ∷ []) else some []

    unfoldable pub crossed_trails : TrailMap W → Option (List ℤ)
    crossed_trails trails = collect pick_crossed trails

    unfoldable pub crossed_search : Trails W → Option (List ℤ)
    crossed_search t =
        if eq_ℤ info.track_type (pos 0)
        then crossed_trails t.fuse_trail
        else if eq_ℤ info.track_type (pos 1)
        then crossed_trails t.radar_trail
        else if eq_ℤ info.track_type (pos 2)
        then crossed_trails t.ais_trail
        else some []

    unfoldable pub apply_crossed :
        (List ℤ → List ℤ) → Trails W → RuleState W → Option (Trails W × RuleState W)
    apply_crossed to_list t s = elim (crossed_search t) [
      | none ↦ none
      | some ids ↦ some (t, update_found ctx to_list info info.track_type (pos 0) ids s)
    ]

    unfoldable pub apply_around :
        (List ℤ → List ℤ) → Trails W → RuleState W → Option (Trails W × RuleState W)
    apply_around to_list t s =
        let found : List ℤ → RuleState W =
          λ ids. update_found ctx to_list info info.track_type (pos 0) ids s in
        if eq_ℤ info.area_judge (pos 1)
        then some (trails_after_around fits_distance t, found (around_search fits_distance t))
        else if eq_ℤ info.area_judge (pos 2)
        then apply_crossed to_list t s
        else if eq_ℤ info.area_judge (pos 3)
        then some (trails_after_around fits_margin t, found (around_search fits_margin t))
        else some (t, s)
