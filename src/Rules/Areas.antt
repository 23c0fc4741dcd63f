-- ===== src/Rules/Areas.antt =====
-- The areas of the alarm thread and the rules that a round looks at (`getAlarmArea` and the loop of
-- `processAlarms`, src/dialog/alarm/TrackAlarmThread.cpp). The texts of an area are read as by the thread
-- of suspicious targets (Suspicious.Areas), whose functions for that the source repeats.
pub mod Agreement
use alarm_sys_linux.Common.{
  ℕ, zero, suc, String, Bool, true, false, not, ◌&&◌, ◌||◌, Option, none, some, is_some, List, [],
  ◌∷◌, ◌++◌, is_empty, is_nil, list_or_empty, if◌then◌else◌,
}
use alarm_sys_linux.Common.Int.{ℤ, pos, pos_part, eq_ℤ, leb_ℤ}
use alarm_sys_linux.Common.Dict.{Dict, lookup, int_key}
use alarm_sys_linux.Suspicious.Areas.{
  AreaInfo, AlarmArea, Reading, plain_area, append_polygon_points, parse_coord_pair,
  parse_area_rect, add_area,
}
use alarm_sys_linux.Rules.Context.{AlarmRule}

module _ {W R : Type 0} (rd : Reading W R) where
  -- The area, or none where the loop goes on to the next one.
  unfoldable pub get_area : AreaInfo → Option (AlarmArea W R)
  get_area info =
      let area = append_polygon_points rd info.area_points info.area_type (plain_area rd info) in
      let has_ends =
        is_some (parse_coord_pair rd info.strat_point)
        && is_some (parse_coord_pair rd info.end_point) in
      if eq_ℤ info.area_type (pos 2) && not has_ends
      then none
      else if eq_ℤ info.area_type (pos 1)
      then if is_some (parse_area_rect rd info.area_rect)
        then some (record area { alert_area_polygon = rd.corners area.alert_area_rect })
        else none
      else if eq_ℤ info.area_type (pos 3) && is_nil area.alert_area_polygon
      then none
      else some area

  unfoldable pub get_onto :
      List AreaInfo → Dict ℤ (List (AlarmArea W R)) → Dict ℤ (List (AlarmArea W R))
  get_onto [] maparea = maparea
  get_onto (info ∷ rest) maparea = get_onto rest (add_area rd info.group_id (get_area info) maparea)

  unfoldable pub get_alarm_area : List AreaInfo → Dict ℤ (List (AlarmArea W R))
  get_alarm_area area_list = get_onto area_list []

  -- `m_listGroupArea`: the areas of the groups 1 and 2.
  unfoldable pub list_group_area : Dict ℤ (List (AlarmArea W R)) → List (AlarmArea W R)
  list_group_area maparea =
      list_or_empty (lookup (pos 1) maparea) ++ list_or_empty (lookup (pos 2) maparea)

-- `at(n)`, where there is such an element.
abbrev pub get_elem : {A : Type 0} → ℕ → List A → Option A
get_elem n [] = none
get_elem zero (x ∷ xs) = some x
get_elem (suc n) (x ∷ xs) = get_elem n xs

module _ {W R : Type 0} (blank : AlarmArea W R) (maparea : Dict ℤ (List (AlarmArea W R))) where
  named : Option (AlarmArea W R) → Option (AlarmArea W R)
  named none = none
  named (some area) = if is_empty area.area_name then none else some area

  -- The area of a rule, which the number of the area counts out of its group; an area with nothing
  -- set, `blank`, for a rule without one; none where the area is missing.
  unfoldable pub area_of_rule : AlarmRule → Option (AlarmArea W R)
  unfolding named
  area_of_rule info =
      if leb_ℤ (pos 0) info.group_id && leb_ℤ (pos 0) info.area_id
      then named (get_elem (pos_part info.area_id) (list_or_empty (lookup info.group_id maparea)))
      else some blank

  -- The rules that are looked at, each with its area: the loop ends at the first rule whose area is
  -- missing.
  unfoldable pub watched_rules : List AlarmRule → List (AlarmRule × AlarmArea W R)
  watched_rules [] = []
  watched_rules (info ∷ rest) =
      let later = watched_rules rest in
      if eq_ℤ info.alarmstate (pos 0)
      then later
      else elim (area_of_rule info) [ none ↦ [] | some area ↦ (info, area) ∷ later ]
