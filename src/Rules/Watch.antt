-- ===== src/Rules/Watch.antt =====
-- The search for the candidates of a rule (`processAlarms`, src/dialog/alarm/TrackAlarmThread.cpp): the
-- tracks that stay in the area of the rule, enter it or leave it, by their trails, newest point first.
-- The source repeats the code for each table of tracks; its children are about one kind of rule each.
pub mod Stay
pub mod Enter
pub mod Leave
pub mod Near
pub mod Routes
pub mod Around
pub mod Sides
pub mod Fast
pub mod Misses
pub mod Linger
pub mod Crossing
pub mod Hang
mod Tests
use alarm_sys_linux.Common.{
  ℕ, zero, suc, ◌-◌, Bool, true, false, not, ◌&&◌, ◌||◌, Option, none, some, List, [], ◌∷◌, ◌++◌,
  any, length, list_or_empty, is_nil, if◌then◌else◌,
}
use alarm_sys_linux.Common.Int.{ℤ, pos, pos_part, eq_ℤ, leb_ℤ, ltb_ℤ}
use alarm_sys_linux.Common.Dict.{Dict, lookup, insert, has_key, int_key}
use alarm_sys_linux.Common.Double.{Double}
use alarm_sys_linux.Geometry.{get_distance2}
use alarm_sys_linux.Alarms.Tracks.{Track}
use alarm_sys_linux.Suspicious.{Point}
use alarm_sys_linux.Suspicious.Areas.{AlarmArea}
use alarm_sys_linux.Rules.Context.{AlarmRule, Context, RuleState}
use alarm_sys_linux.Rules.Update.{updata_alarm_track_to_db}

-- `AISTrack`, by the fields that are read.
pub record AisTrack (W : Type 0) : Type 0 where
  pub lat_deg : W
  pub long_deg : W
  pub mmsi : ℤ
  pub speed_mps : W

abbrev pub TrailMap : Type 0 → Type 0
TrailMap W = Dict ℤ (List (Point W))

-- The copies of the trails that a round works on, and the table of AIS.
pub record Trails (W : Type 0) : Type 0 where
  pub fuse_trail : TrailMap W
  pub radar_trail : TrailMap W
  pub bird_radar_trail : TrailMap W
  pub ais_trail : TrailMap W
  pub ais_track : Dict ℤ (AisTrack W)

-- `map[key]` reads the empty trail where there is none, and leaves it in the map.
abbrev pub trail_of : {W : Type 0} → ℤ → TrailMap W → List (Point W)
trail_of key trails = list_or_empty (lookup key trails)

unfoldable pub touch : {W : Type 0} → ℤ → TrailMap W → TrailMap W
touch key trails = if has_key key trails then trails else insert key [] trails

abbrev pub first_of : {A : Type 0} → ℕ → List A → List A
first_of zero xs = []
first_of (suc n) [] = []
first_of (suc n) (x ∷ xs) = x ∷ first_of n xs

-- The loop over a table: the ids that its entries put into the set, or none where the code reads a
-- trail past its end.
unfoldable pub collect : {A : Type 0} → (ℤ → A → Option (List ℤ)) → Dict ℤ A → Option (List ℤ)
collect pick [] = some []
collect pick ((key, value) ∷ rest) = elim (pick key value) [
  | none ↦ none
  | some found ↦ elim (collect pick rest) [ none ↦ none | some ids ↦ some (found ++ ids) ]
]

-- The trails that a loop over a table reads through `[]`.
unfoldable pub touch_all : {W A : Type 0} → (A → Bool) → Dict ℤ A → TrailMap W → TrailMap W
touch_all is_read [] trails = trails
touch_all is_read ((key, value) ∷ rest) trails =
    touch_all is_read rest (if is_read value then touch key trails else trails)

module _ {W R : Type 0} ⦃d : Double W⦄ (ctx : Context W R) where
  -- Whether a point of a trail lies out of an area, as the loops over trails ask it.
  unfoldable pub is_outside : AlarmArea W R → Point W → Bool
  is_outside area pt =
      let radius =
        d.to_float (get_distance2 area.start_p.0 area.start_p.1 area.end_p.0 area.end_p.1) in
      let dis = d.to_float (get_distance2 area.start_p.0 area.start_p.1 pt.0 pt.1) in
      if eq_ℤ area.alert_area_type (pos 1)
      then not (ctx.in_rect area.alert_area_rect pt)
      else if eq_ℤ area.alert_area_type (pos 2)
      then d.lt radius dis
      else if eq_ℤ area.alert_area_type (pos 3)
      then not (ctx.in_polygon area.alert_area_polygon pt)
      else false

  -- The candidates, if there are any, are handed to `updataAlarmTrackToDB`. `to_list` is
  -- `QSet::toList`.
  unfoldable pub update_found :
      (List ℤ → List ℤ) → AlarmRule → ℤ → ℤ → List ℤ → RuleState W → RuleState W
  update_found to_list info type radar_source_id ids s =
      if is_nil ids
      then s
      else updata_alarm_track_to_db ctx info type radar_source_id (to_list ids) s
