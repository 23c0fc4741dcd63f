-- ===== src/Rules/Round.antt =====
-- A round of the alarm thread (`processAlarms`, src/dialog/alarm/TrackAlarmThread.cpp): the copies of the
-- trails of the tracks that are there, and the loop over the rules, each of which is tried by its kind.
pub mod Steady
pub mod Ends
pub mod Circles
pub mod Rest
pub mod Total
pub mod Kept
pub mod Tables
pub mod Copies
pub mod Tests
use alarm_sys_linux.Common.{
  ℕ, Bool, ◌&&◌, ◌||◌, Option, none, some, List, [], ◌∷◌, ◌>>=◌, if◌then◌else◌,
}
use alarm_sys_linux.Common.Int.{ℤ, pos, negsuc, eq_ℤ, leb_ℤ}
use alarm_sys_linux.Common.Dict.{Dict, lookup, insert, int_key}
use alarm_sys_linux.Common.Double.{Double}
use alarm_sys_linux.Suspicious.{Point}
use alarm_sys_linux.Suspicious.Areas.{AreaInfo, AlarmArea, Reading}
use alarm_sys_linux.Rules.Context.{AlarmRule, Context, RuleState}
use alarm_sys_linux.Rules.Areas.{get_alarm_area, watched_rules}
use alarm_sys_linux.Rules.Watch.{TrailMap, Trails}
use alarm_sys_linux.Rules.Watch.Stay.{apply_stay}
use alarm_sys_linux.Rules.Watch.Enter.{apply_enter}
use alarm_sys_linux.Rules.Watch.Leave.{apply_leave}
use alarm_sys_linux.Rules.Watch.Near.{Vectors, apply_near}
use alarm_sys_linux.Rules.Watch.Fast.{apply_speed}
use alarm_sys_linux.Rules.Watch.Routes.{moves_away, comes_closer, apply_route}
use alarm_sys_linux.Rules.Watch.Around.{apply_everywhere, apply_around}

-- `copyTrailForLiveTracks`: the trails of the keys that the table of tracks has.
unfoldable pub copy_trails : {W A : Type 0} → TrailMap W → TrailMap W → Dict ℤ A → TrailMap W
copy_trails dst src [] = dst
copy_trails dst src ((key, value) ∷ rest) = elim (lookup key src) [
  | none ↦ copy_trails dst src rest
  | some trail ↦ copy_trails (insert key trail dst) src rest
]

module _ {W R V : Type 0} ⦃d : Double W⦄ (q : Vectors W R V) (uav : Point W) (fuel : ℕ)
    (to_list : List ℤ → List ℤ) where
  -- The trails, and what the rules write.
  abbrev pub RoundState : Type 0
  RoundState = Trails W × RuleState W

  abbrev in_same_trails : Trails W → Option (RuleState W) → Option RoundState
  in_same_trails t none = none
  in_same_trails t (some s) = some (t, s)

  module _ (ctx : Context W R) where
    -- A rule about an area, by what it asks for.
    unfoldable pub apply_in_area : AlarmRule → AlarmArea W R → RoundState → Option RoundState
    apply_in_area info area (t, s) =
        if eq_ℤ info.area_judge (pos 1)
        then apply_stay ctx info area to_list t s
        else if eq_ℤ info.area_judge (pos 4)
        then apply_enter ctx info area fuel to_list t s
        else if eq_ℤ info.area_judge (pos 2)
        then in_same_trails t (apply_leave ctx area to_list info t s)
        else if eq_ℤ info.area_judge (pos 3)
        then some (apply_near q ctx area to_list info t s)
        else if eq_ℤ info.speed_condition (pos 1) || eq_ℤ info.speed_condition (pos 2)
        then some (apply_speed ctx info to_list t s)
        else if eq_ℤ info.direction (pos 1)
        then in_same_trails t (apply_route q ctx area to_list info (moves_away q) (some []) t s)
        else if eq_ℤ info.direction (pos 2)
        then in_same_trails t (apply_route q ctx area to_list info (comes_closer q) none t s)
        else some (t, s)

    unfoldable pub apply_rule : AlarmRule → AlarmArea W R → RoundState → Option RoundState
    apply_rule info area (t, s) =
        if leb_ℤ (pos 0) info.group_id && leb_ℤ (pos 0) info.area_id
        then apply_in_area info area (t, s)
        else if eq_ℤ info.group_id (negsuc 9) && eq_ℤ info.area_id (negsuc 9)
        then some (t, apply_everywhere ctx info to_list t s)
        else if eq_ℤ info.group_id (negsuc 19) && eq_ℤ info.area_id (negsuc 19)
        then apply_around ctx info uav to_list t s
        else some (t, s)

    unfoldable pub apply_rules : List (AlarmRule × AlarmArea W R) → RoundState → Option RoundState
    apply_rules [] state = some state
    apply_rules ((info, area) ∷ rest) state = do
      next ← apply_rule info area state
      apply_rules rest next

    -- The copies at the start of a round. Those of AIS are whole.
    unfoldable pub round_trails : Trails W → Trails W
    round_trails t = record t {
      fuse_trail = copy_trails [] t.fuse_trail ctx.fuse_track;
      radar_trail = copy_trails [] t.radar_trail ctx.radar_track;
      bird_radar_trail = copy_trails [] t.bird_radar_trail ctx.bird_radar_track;
    }

  -- A round: the areas are read, the trails copied, and the rules that are looked at applied in turn.
  -- There is no answer where the code reads past the end of a trail or never ends.
  unfoldable pub process_alarms :
      Reading W R
      → AlarmArea W R
      → Context W R
      → List AreaInfo
      → List AlarmRule
      → Trails W
      → RuleState W
      → Option (RuleState W)
  process_alarms rd blank config area_list waring_list t s =
      let ctx = record config { maparea = get_alarm_area rd area_list } in
      let watched = watched_rules blank ctx.maparea waring_list in
      elim (apply_rules ctx watched (round_trails ctx t, s)) [
        | none ↦ none
        | some (_, after) ↦ some after
      ]
