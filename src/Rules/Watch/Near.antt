-- ===== src/Rules/Watch/Near.antt =====
-- Rules about tracks that come near an area (`processAlarms` where `area_judge` is 3,
-- src/dialog/alarm/TrackAlarmThread.cpp), with the projection of src/alarm_geoproj.cpp and
-- `CommonFunc::pointToSegmentDistance` of src/common/commonfunc.cpp.
use alarm_sys_linux.Common.{Bool, false, not, ◌&&◌, List, [], ◌∷◌, any, length, ltb, if◌then◌else◌}
use alarm_sys_linux.Common.Int.{ℤ, pos, eq_ℤ}
use alarm_sys_linux.Common.Dict.{Dict}
use alarm_sys_linux.Common.Double.{Double}
use alarm_sys_linux.Geometry.{rad, get_distance2}
use alarm_sys_linux.Alarms.Save.{BasePoint}
use alarm_sys_linux.Alarms.Tracks.{Track}
use alarm_sys_linux.Suspicious.{Point}
use alarm_sys_linux.Suspicious.Areas.{AlarmArea}
use alarm_sys_linux.Rules.Context.{AlarmRule, Context, RuleState}
use alarm_sys_linux.Rules.Watch.{AisTrack, TrailMap, Trails, trail_of, touch_all, update_found}
use alarm_sys_linux.Rules.Watch.Stay.{trail_count}

-- Qt's vectors: `QVector2D` of a `QPoint` of two doubles, and of a `QPointF` of them, its operations,
-- `qFuzzyIsNull`, and the four corners of a `QRectF`, from the top left one on around it.
pub record Vectors (W R V : Type 0) : Type 0 where
  pub of_metres : W → W → V
  pub of_metres_f : W → W → V
  pub add : V → V → V
  pub sub : V → V → V
  pub scale : W → V → V
  pub dot : V → V → W
  pub len : V → W
  pub fuzzy_is_null : W → Bool
  pub corners : R → List (Point W)

-- `AlarmLatLongToMetres` of a latitude and a longitude, around the base point.
unfoldable pub alarm_lat_long_to_metres :
    {W : Type 0} ⦃d : Double W⦄ → BasePoint W → Point W → W × W
alarm_lat_long_to_metres ⦃d⦄ base (lat, lon) =
    let metres_per_deg = d.of_ℤ (pos 111320) in
    (
      d.mul (d.sub lon base.lon) (d.mul metres_per_deg (d.cos (rad base.lat))),
      d.mul (d.sub lat base.lat) metres_per_deg,
    )

module _ {W R V : Type 0} ⦃d : Double W⦄ (q : Vectors W R V) where
  unfoldable pub point_to_segment_distance : V → V → V → W
  point_to_segment_distance point segment_start segment_end =
      let direction = q.sub segment_end segment_start in
      let denom = q.dot direction direction in
      let t = d.div (q.dot (q.sub point segment_start) direction) denom in
      let projection = q.add segment_start (q.scale t direction) in
      if q.fuzzy_is_null denom
      then q.len (q.sub point segment_start)
      else if d.lt t (d.of_ℤ (pos 0))
      then q.len (q.sub point segment_start)
      else if d.lt (d.of_ℤ (pos 1)) t
      then q.len (q.sub point segment_end)
      else q.len (q.sub point projection)

  unfoldable pub metres_of : BasePoint W → Point W → V
  metres_of base pt = let (x, y) = alarm_lat_long_to_metres base pt in q.of_metres x y

  -- The edges of a closed line: from each point to the next, and from the last one to the first.
  unfoldable pub edges : Point W → List (Point W) → List (Point W × Point W)
  edges first [] = []
  edges first (a ∷ []) = (a, first) ∷ []
  edges first (a ∷ b ∷ rest) = (a, b) ∷ edges first (b ∷ rest)

  abbrev closed : List (Point W) → List (Point W × Point W)
  closed [] = []
  closed (a ∷ rest) = edges a (a ∷ rest)

  -- Within a mile of one of the edges.
  unfoldable pub is_near_edges : BasePoint W → Point W → List (Point W) → Bool
  is_near_edges base pt corners =
      any
        (λ (e : Point W × Point W).
          d.lt
            (d.to_float (
              point_to_segment_distance (metres_of base pt) (metres_of base e.0)
                (metres_of base e.1)))
            (d.of_ℤ (pos 1852)))
        (closed corners)

  module _ (ctx : Context W R) (area : AlarmArea W R) where
    unfoldable pub is_near_area : Point W → Bool
    is_near_area pt =
        let radius =
          d.to_float (get_distance2 area.start_p.0 area.start_p.1 area.end_p.0 area.end_p.1) in
        let dis = d.to_float (get_distance2 area.start_p.0 area.start_p.1 pt.0 pt.1) in
        if eq_ℤ area.alert_area_type (pos 1)
        then not (ctx.in_rect area.alert_area_rect pt)
          && is_near_edges ctx.base pt (q.corners area.alert_area_rect)
        else if eq_ℤ area.alert_area_type (pos 2)
        then d.lt radius dis && d.lt dis (d.to_float (d.add radius (d.of_ℤ (pos 1852))))
        else if eq_ℤ area.alert_area_type (pos 3)
        then not (ctx.in_polygon area.alert_area_polygon pt)
          && is_near_edges ctx.base pt area.alert_area_polygon
        else false

    -- The loop over a table: `point` and `id` are those of its entries.
    unfoldable pub near_ids :
        {A : Type 0} → (A → Point W) → (ℤ → A → ℤ) → TrailMap W → Dict ℤ A → List ℤ
    near_ids point id trails [] = []
    near_ids point id trails ((key, value) ∷ rest) =
        let later = near_ids point id trails rest in
        if is_near_area (point value) && ltb trail_count (length (trail_of key trails))
        then id key value ∷ later
        else later

    abbrev own_key : {A : Type 0} → ℤ → A → ℤ
    own_key key value = key

    abbrev track_point : Track W → Point W
    track_point track = (track.lat_degs, track.long_degs)

    unfoldable pub near_search : AlarmRule → Trails W → List ℤ
    near_search info t =
        if eq_ℤ info.track_type (pos 0)
        then near_ids track_point own_key t.fuse_trail ctx.fuse_track
        else if eq_ℤ info.track_type (pos 1)
        then near_ids track_point own_key t.radar_trail ctx.radar_track
        else if eq_ℤ info.track_type (pos 2)
        then near_ids (λ (a : AisTrack W). (a.lat_deg, a.long_deg)) (λ key (a : AisTrack W). a.mmsi)
            t.ais_trail t.ais_track
        else []

    unfoldable pub near_track : Track W → Bool
    near_track track = is_near_area (track_point track)

    unfoldable pub near_ais : AisTrack W → Bool
    near_ais a = is_near_area (a.lat_deg, a.long_deg)

    -- The trails after the search: those that are read are there.
    unfoldable pub trails_after_near : AlarmRule → Trails W → Trails W
    unfolding near_track near_ais
    trails_after_near info t =
        if eq_ℤ info.track_type (pos 0)
        then record t { fuse_trail = touch_all near_track ctx.fuse_track t.fuse_trail }
        else if eq_ℤ info.track_type (pos 1)
        then record t { radar_trail = touch_all near_track ctx.radar_track t.radar_trail }
        else if eq_ℤ info.track_type (pos 2)
        then record t { ais_trail = touch_all near_ais t.ais_track t.ais_trail }
        else t

    unfoldable pub apply_near :
        (List ℤ → List ℤ) → AlarmRule → Trails W → RuleState W → Trails W × RuleState W
    apply_near to_list info t s = (
      trails_after_near info t,
      update_found ctx to_list info info.track_type (pos 0) (near_search info t) s,
    )
