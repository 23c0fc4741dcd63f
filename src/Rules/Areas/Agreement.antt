-- ===== src/Rules/Areas/Agreement.antt =====
-- Where the two threads read the same areas, and which rules are looked at (`getAlarmArea`,
-- `processAlarms`, src/dialog/alarm/TrackAlarmThread.cpp; `loadAlarmAreas`,
-- src/dialog/alarm/SuspiciousTargetThread.cpp).
use alarm_sys_linux.Common.{
  ◌≡◌, refl, Bool, true, false, not, ◌||◌, none, is_some, List, [], ◌∷◌, ◌++◌, All, arith,
}
use alarm_sys_linux.Common.Int.{ℤ, pos, eq_ℤ}
use alarm_sys_linux.Common.Dict.{Dict, int_key}
use alarm_sys_linux.Suspicious.Areas.{
  AreaInfo, AlarmArea, Reading, parse_area_rect, add_area, load_area, load_onto, load_alarm_areas,
}
use alarm_sys_linux.Rules.Context.{AlarmRule}
use alarm_sys_linux.Rules.Areas.{get_area, get_onto, get_alarm_area, area_of_rule, watched_rules}

module _ {W R : Type 0} (rd : Reading W R) where
  -- The rectangle of an area of type 1 can be read.
  abbrev pub has_rect : AreaInfo → Bool
  has_rect info = not (eq_ℤ info.area_type (pos 1)) || is_some (parse_area_rect rd info.area_rect)

  get_area_lem : (info : AreaInfo) → has_rect info ≡ true → get_area rd info ≡ load_area rd info
  unfolding get_area load_area
  get_area_lem info h = ground (arith, h)

  get_onto_lem :
      (area_list : List AreaInfo) (maparea : Dict ℤ (List (AlarmArea W R)))
      → All (λ info. has_rect info ≡ true) area_list
      → get_onto rd area_list maparea ≡ load_onto rd area_list maparea
  unfolding get_onto load_onto
  get_onto_lem [] maparea h = refl
  get_onto_lem (info ∷ rest) maparea h =
      rw (get_area_lem info h.0)
        (get_onto_lem rest (add_area rd info.group_id (load_area rd info) maparea) h.1)

  -- The alarm thread and the thread of suspicious targets read the same areas, if the rectangle of
  -- every area of type 1 can be read.
  pub get_alarm_area-load :
      (area_list : List AreaInfo)
      → All (λ info. has_rect info ≡ true) area_list
      → get_alarm_area rd area_list ≡ load_alarm_areas rd area_list
  unfolding get_alarm_area load_alarm_areas
  get_alarm_area-load area_list h = get_onto_lem area_list [] h

module _ {W R : Type 0} (blank : AlarmArea W R) (maparea : Dict ℤ (List (AlarmArea W R))) where
  -- No rule after an active one whose area is missing is looked at: the rules that are looked at are
  -- those that are without it and what follows it.
  pub watched_rules-missing :
      (before after : List AlarmRule) (info : AlarmRule)
      → eq_ℤ info.alarmstate (pos 0) ≡ false
      → area_of_rule blank maparea info ≡ none
      → watched_rules blank maparea (before ++ info ∷ after) ≡ watched_rules blank maparea before
  unfolding watched_rules
  watched_rules-missing [] after info active missing = ground (arith, active, missing)
  watched_rules-missing (first ∷ before) after info active missing =
      ground (arith, watched_rules-missing before after info active missing)
