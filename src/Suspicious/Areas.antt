-- ===== src/Suspicious/Areas.antt =====
-- The areas of `SuspiciousTargetThread` (src/dialog/alarm/SuspiciousTargetThread.cpp): reading them
-- (`parseCoordPair`, `parseAreaRect`, `appendPolygonPoints`, `loadAlarmAreas`), and the centres of
-- those that are protected (`collectProtectCenters`). Reading a number and `QRectF` are Qt's, and
-- arguments here.
pub mod Centers
use alarm_sys_linux.Common.{
  ℕ, zero, suc, ◌+◌, ◌*◌, ◌-◌, leb, ltb, String, append, Bool, true, false, not, ◌&&◌, ◌||◌, Option,
  none, some, List, [], ◌∷◌, ◌++◌, length, if◌then◌else◌, list_or_empty, any, str_eq, ◌>>=◌,
}
use alarm_sys_linux.Common.Int.{ℤ, pos, eq_ℤ, leb_ℤ, ltb_ℤ}
use alarm_sys_linux.Common.Dict.{Dict, lookup, insert, has_key, int_key, string_key}
use alarm_sys_linux.Suspicious.{Point}

-- `split(',', SkipEmptyParts)`; `trimmed().toFloat` and `trimmed().toInt`; and of `QRectF` the
-- normalised rectangle of two corners, and the polygon of a rectangle.
pub record Reading (W R : Type 0) : Type 0 where
  pub split_commas : String → List String
  pub to_float : String → Option W
  pub to_int : String → Option ℤ
  pub normalized : Point W → Point W → R
  pub corners : R → List (Point W)
  pub null_point : Point W
  pub null_rect : R

-- `AreaInfo`, by the fields that are read.
pub record AreaInfo : Type 0 where
  pub group_id : ℤ
  pub area_id : ℤ
  pub area_name : String
  pub area_type : ℤ
  pub strat_point : String
  pub end_point : String
  pub area_rect : String
  pub area_points : String

-- `AlarmArea`, by the fields that are set. Types: 1 rectangle, 2 circle, 3 polygon, 4 line.
pub record AlarmArea (W R : Type 0) : Type 0 where
  pub group_id : ℤ
  pub area_id : ℤ
  pub area_name : String
  pub alert_area_type : ℤ
  pub start_p : Point W
  pub end_p : Point W
  pub alert_area_rect : R
  pub alert_area_polygon : List (Point W)
  pub road : List (Point W)

abbrev pub or_default : {A : Type 0} → A → Option A → A
or_default a none = a
or_default a (some b) = b

module _ {W R : Type 0} (rd : Reading W R) where
  unfoldable pub parse_two : List String → Option (Point W)
  parse_two [] = none
  parse_two (a ∷ []) = none
  parse_two (a ∷ b ∷ rest) = do x ← rd.to_float a; y ← rd.to_float b; some (x, y)

  unfoldable pub parse_coord_pair : String → Option (Point W)
  parse_coord_pair csv = parse_two (rd.split_commas csv)

  parse_four : List String → Option (Point W × Point W)
  parse_four (a ∷ b ∷ c ∷ e ∷ rest) = do
    x1 ← rd.to_float a
    y1 ← rd.to_float b
    x2 ← rd.to_float c
    y2 ← rd.to_float e
    some ((x1, y1), (x2, y2))
  parse_four _ = none

  unfoldable pub parse_area_rect : String → Option (Point W × Point W)
  unfolding parse_four
  parse_area_rect csv = parse_four (rd.split_commas csv)

  -- The points that can be read, at most as many as are asked for; one that cannot is skipped.
  unfoldable pub read_points : ℕ → List String → List (Point W)
  read_points zero parts = []
  read_points (suc n) [] = []
  read_points (suc n) (a ∷ []) = []
  read_points (suc n) (a ∷ b ∷ rest) =
      let later = read_points n rest in
      elim (parse_two (a ∷ b ∷ [])) [ none ↦ later | some pt ↦ pt ∷ later ]

  -- The points of the text, if it starts with their number and has enough parts.
  unfoldable pub polygon_points : List String → List (Point W)
  polygon_points [] = []
  polygon_points (count ∷ parts) = elim (rd.to_int count) [
    | none ↦ []
    | some (ℤ.negsuc n) ↦ []
    | some (ℤ.pos p_size) ↦
        if ltb p_size 2 || ltb (length (count ∷ parts)) (1 + (p_size - 1) * 2)
        then []
        else read_points (p_size - 1) parts
  ]

  unfoldable pub append_polygon_points : String → ℤ → AlarmArea W R → AlarmArea W R
  append_polygon_points area_points area_type alert_area =
      let points = polygon_points (rd.split_commas area_points) in
      if eq_ℤ area_type (pos 4)
      then record alert_area { road = alert_area.road ++ points }
      else if eq_ℤ area_type (pos 3)
      then record alert_area { alert_area_polygon = alert_area.alert_area_polygon ++ points }
      else alert_area

  unfoldable pub rect_of : Option (Point W × Point W) → R
  rect_of none = rd.null_rect
  rect_of (some (a, b)) = rd.normalized a b

  -- The record of an area before its points are read.
  unfoldable pub plain_area : AreaInfo → AlarmArea W R
  plain_area info = record {
    group_id = info.group_id;
    area_id = info.area_id;
    area_name = info.area_name;
    alert_area_type = info.area_type;
    start_p = or_default rd.null_point (parse_coord_pair info.strat_point);
    end_p = or_default rd.null_point (parse_coord_pair info.end_point);
    alert_area_rect = rect_of (parse_area_rect info.area_rect);
    alert_area_polygon = [];
    road = [];
  }

  abbrev has_point : Option (Point W) → Bool
  has_point none = false
  has_point (some p) = true

  abbrev no_points : List (Point W) → Bool
  no_points [] = true
  no_points (p ∷ ps) = false

  -- The area, or none where the loop goes on to the next one.
  unfoldable pub load_area : AreaInfo → Option (AlarmArea W R)
  load_area info =
      let area = append_polygon_points info.area_points info.area_type (plain_area info) in
      let has_ends =
        has_point (parse_coord_pair info.strat_point)
        && has_point (parse_coord_pair info.end_point) in
      if eq_ℤ info.area_type (pos 2) && not has_ends
      then none
      else if eq_ℤ info.area_type (pos 1)
      then elim (parse_area_rect info.area_rect) [
        | none ↦ some area
        | some _ ↦ some (record area { alert_area_polygon = rd.corners area.alert_area_rect })
      ]
      else if eq_ℤ info.area_type (pos 3) && no_points area.alert_area_polygon
      then none
      else some area

  unfoldable pub add_area :
      ℤ → Option (AlarmArea W R) → Dict ℤ (List (AlarmArea W R)) → Dict ℤ (List (AlarmArea W R))
  add_area group_id none maparea = maparea
  add_area group_id (some area) maparea =
      insert group_id (list_or_empty (lookup group_id maparea) ++ area ∷ []) maparea

  unfoldable pub load_onto :
      List AreaInfo → Dict ℤ (List (AlarmArea W R)) → Dict ℤ (List (AlarmArea W R))
  load_onto [] maparea = maparea
  load_onto (info ∷ rest) maparea = load_onto rest (add_area info.group_id (load_area info) maparea)

  unfoldable pub load_alarm_areas : List AreaInfo → Dict ℤ (List (AlarmArea W R))
  load_alarm_areas area_list = load_onto area_list []

module _ {W R : Type 0} where
  -- The first area of the id in the group: its centre, if it is a circle.
  unfoldable pub center_of : ℤ → List (AlarmArea W R) → List (Point W)
  center_of protect_area_id [] = []
  center_of protect_area_id (area ∷ rest) =
      if eq_ℤ area.area_id protect_area_id
      then if eq_ℤ area.alert_area_type (pos 2) then area.start_p ∷ [] else []
      else center_of protect_area_id rest

  -- The loop over the protected areas of the scheme, with the keys seen so far.
  unfoldable pub collect_from :
      (ℤ → String)
      → Dict ℤ (List (AlarmArea W R))
      → Dict String (ℤ × ℤ)
      → Dict String (Unit {0})
      → List (Point W)
  collect_from number maparea [] seen = []
  collect_from number maparea ((_, (group_id, area_id)) ∷ rest) seen =
      let key = append (number group_id) (append "_" (number area_id)) in
      let skip = leb_ℤ group_id (pos 0) || ltb_ℤ area_id (pos 0) || has_key key seen in
      let later = collect_from number maparea rest (if skip then seen else insert key tt seen) in
      if skip then later else center_of area_id (list_or_empty (lookup group_id maparea)) ++ later

  unfoldable pub collect_protect_centers :
      (ℤ → String) → Dict ℤ (List (AlarmArea W R)) → Dict String (ℤ × ℤ) → List (Point W)
  collect_protect_centers number maparea protect_areas =
      collect_from number maparea protect_areas []
