-- ===== src/Rules/Watch/Leave.antt =====
-- Rules about tracks that leave an area (`processAlarms` where `area_judge` is 2,
-- src/dialog/alarm/TrackAlarmThread.cpp). The loops over the three tables of trails are the same.
use alarm_sys_linux.Common.{Bool, not, ◌&&◌, Option, none, some, List, [], ◌∷◌, any, if◌then◌else◌}
use alarm_sys_linux.Common.Int.{ℤ, pos, eq_ℤ}
use alarm_sys_linux.Common.Double.{Double}
use alarm_sys_linux.Suspicious.{Point}
use alarm_sys_linux.Suspicious.Areas.{AlarmArea}
use alarm_sys_linux.Rules.Context.{AlarmRule, Context, RuleState}
use alarm_sys_linux.Rules.Zones.{in_area}
use alarm_sys_linux.Rules.Watch.{TrailMap, Trails, collect, update_found}

module _ {W R : Type 0} ⦃d : Double W⦄ (ctx : Context W R) (area : AlarmArea W R) where
  -- The newest point is not in the area, and one before it is.
  unfoldable pub has_left : Point W → List (Point W) → Bool
  has_left pt earlier = not (in_area ctx pt area) && any (λ p. in_area ctx p area) earlier

  -- `at(0)` of an empty trail is read.
  unfoldable pub pick_left : ℤ → List (Point W) → Option (List ℤ)
  pick_left key [] = none
  pick_left key (pt ∷ earlier) = if has_left pt earlier then some (key ∷ []) else some []

  unfoldable pub leave_trails : TrailMap W → Option (List ℤ)
  leave_trails trails = collect pick_left trails

  -- The ids that are found for the rule's kind of track.
  unfoldable pub leave_search : AlarmRule → Trails W → Option (List ℤ)
  leave_search info t =
      if eq_ℤ info.track_type (pos 0)
      then leave_trails t.fuse_trail
      else if eq_ℤ info.track_type (pos 1)
      then leave_trails t.radar_trail
      else if eq_ℤ info.track_type (pos 2)
      then leave_trails t.ais_trail
      else some []

  unfoldable pub apply_leave :
      (List ℤ → List ℤ) → AlarmRule → Trails W → RuleState W → Option (RuleState W)
  apply_leave to_list info t s = elim (leave_search info t) [
    | none ↦ none
    | some ids ↦ some (update_found ctx to_list info info.track_type (pos 0) ids s)
  ]
