-- ===== src/Rules/Watch/Routes.antt =====
-- Rules about tracks that move away from a route or come closer to it (`processAlarms` where
-- `direction` is 1 or 2, src/dialog/alarm/TrackAlarmThread.cpp), by the two newest points of their trails.
-- The code for the two directions and the three tables of trails is the same but for the comparison,
-- and for the test of the length of a trail, which only the fused tracks that move away have.
use alarm_sys_linux.Common.{Bool, ◌&&◌, Option, none, some, List, [], ◌∷◌, any, if◌then◌else◌}
use alarm_sys_linux.Common.Int.{ℤ, pos, eq_ℤ}
use alarm_sys_linux.Common.Double.{Double}
use alarm_sys_linux.Suspicious.{Point}
use alarm_sys_linux.Suspicious.Areas.{AlarmArea}
use alarm_sys_linux.Alarms.Save.{BasePoint}
use alarm_sys_linux.Rules.Context.{AlarmRule, Context, RuleState}
use alarm_sys_linux.Rules.Watch.{TrailMap, Trails, collect, update_found}
use alarm_sys_linux.Rules.Watch.Near.{
  Vectors, alarm_lat_long_to_metres, metres_of, point_to_segment_distance,
}

-- The legs of a route, from each point to the next.
unfoldable pub legs : {A : Type 0} → List A → List (A × A)
legs [] = []
legs (a ∷ []) = []
legs (a ∷ b ∷ rest) = (a, b) ∷ legs (b ∷ rest)

module _ {W R V : Type 0} ⦃d : Double W⦄ (q : Vectors W R V) where
  unfoldable pub exact_metres_of : BasePoint W → Point W → V
  exact_metres_of base pt = let (x, y) = alarm_lat_long_to_metres base pt in q.of_metres_f x y

  unfoldable pub leg_distance : BasePoint W → Point W → Point W × Point W → W
  leg_distance base pt (a, b) =
      point_to_segment_distance q (metres_of q base pt) (exact_metres_of base a)
        (exact_metres_of base b)

  -- `dis1 > dis2` and `dis1 < dis2`, of the newest point and the one before it.
  abbrev pub moves_away : W → W → Bool
  moves_away dis1 dis2 = d.lt dis2 dis1

  abbrev pub comes_closer : W → W → Bool
  comes_closer dis1 dis2 = d.lt dis1 dis2

  module _ (ctx : Context W R) (area : AlarmArea W R) where
    -- The newest point is within a mile of a leg to which the track moves as is asked for.
    unfoldable pub is_moving : (W → W → Bool) → Point W → Point W → Bool
    is_moving moves pt pt2 =
        eq_ℤ area.alert_area_type (pos 4)
        && any
            (λ (leg : Point W × Point W).
              let dis1 = leg_distance ctx.base pt leg in
              d.lt dis1 (d.of_ℤ (pos 1852)) && moves dis1 (leg_distance ctx.base pt2 leg))
            (legs area.road)

    -- `short` is the answer for a trail of fewer than two points: none where the code reads past its
    -- end.
    unfoldable pub pick_moving :
        (W → W → Bool) → Option (List ℤ) → ℤ → List (Point W) → Option (List ℤ)
    pick_moving moves short key [] = short
    pick_moving moves short key (pt ∷ []) = short
    pick_moving moves short key (pt ∷ pt2 ∷ earlier) =
        if is_moving moves pt pt2 then some (key ∷ []) else some []

    unfoldable pub moving_trails : (W → W → Bool) → Option (List ℤ) → TrailMap W → Option (List ℤ)
    moving_trails moves short trails = collect (pick_moving moves short) trails

    -- The ids that are found for the rule's kind of track; `fused_short` is the answer for a short
    -- trail of a fused track.
    unfoldable pub route_search :
        AlarmRule → (W → W → Bool) → Option (List ℤ) → Trails W → Option (List ℤ)
    route_search info moves fused_short t =
        if eq_ℤ info.track_type (pos 0)
        then moving_trails moves fused_short t.fuse_trail
        else if eq_ℤ info.track_type (pos 1)
        then moving_trails moves none t.radar_trail
        else if eq_ℤ info.track_type (pos 2)
        then moving_trails moves none t.ais_trail
        else some []

    unfoldable pub apply_route :
        (List ℤ → List ℤ)
        → AlarmRule
        → (W → W → Bool)
        → Option (List ℤ)
        → Trails W
        → RuleState W
        → Option (RuleState W)
    apply_route to_list info moves fused_short t s = elim (route_search info moves fused_short t) [
      | none ↦ none
      | some ids ↦ some (update_found ctx to_list info info.track_type (pos 0) ids s)
    ]
