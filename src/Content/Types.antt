-- ===== src/Content/Types.antt =====
-- The type of a target in the description of its alarm (src/dialog/alarm/AlarmContentBuilder.cpp).
use alarm_sys_linux.Common.{
  ◌-◌, String, not, ◌&&◌, Option, none, some, first_some, List, [], ◌∷◌, is_empty, length, leb,
  if◌then◌else◌,
}
use alarm_sys_linux.Common.Int.{ℤ, pos, pos_part, ltb_ℤ}
use alarm_sys_linux.Common.Dict.{Dict, lookup, string_key}
use alarm_sys_linux.Common.Text.{Text}
use alarm_sys_linux.Rules.Context.{DetectionTypeResult}
use alarm_sys_linux.Rules.Areas.{get_elem}

-- `getDetectionTypesByReId`, where a row is found, `m_mapTargetType`, `getDictTargetTypes` and
-- `QString::number`.
pub record TypeSources : Type 0 where
  pub detect : ℤ → Option DetectionTypeResult
  pub target_type : Dict String ℤ
  pub dict_target_types : List String
  pub number : ℤ → String

abbrev pub labels : Dict String String
labels =
    ("ship", "船舶")
    ∷ ("speedboat", "快艇")
    ∷ ("yacht", "游艇")
    ∷ ("buoy", "浮标")
    ∷ ("cargoship", "货轮")
    ∷ ("cargo", "货轮")
    ∷ ("fishingboat", "渔船")
    ∷ ("fishing", "渔船")
    ∷ ("warship", "军舰")
    ∷ ("motorboat", "摩托艇")
    ∷ ("uav", "无人机")
    ∷ ("drone", "无人机")
    ∷ ("missile", "巡飞弹")
    ∷ ("missle", "巡飞弹")
    ∷ ("bird", "鸟类")
    ∷ ("aircraft", "飞机")
    ∷ ("unknown", "未知目标")
    ∷ []

abbrev or_text : String → Option String → String
or_text other none = other
or_text other (some s) = s

module _ (qt : Text) where
  unfoldable pub target_type_to_chinese : String → String
  target_type_to_chinese raw =
      if is_empty raw then "" else or_text raw (lookup (qt.to_lower (qt.trimmed raw)) labels)

  -- The first type that a result names: the final one, the camera's, or the language model's.
  unfoldable pub named_type : DetectionTypeResult → Option String
  named_type det =
      if not (is_empty det.final_target_type)
      then some (qt.to_lower (qt.trimmed det.final_target_type))
      else if not (is_empty det.cam_target_type)
      then some (qt.to_lower (qt.trimmed det.cam_target_type))
      else if not (is_empty det.llm_target_type)
      then some (qt.to_lower (qt.trimmed det.llm_target_type))
      else none

  abbrev pub type_in : Option DetectionTypeResult → Option String
  type_in none = none
  type_in (some det) = named_type det

  -- The result that is at hand, then the one of the database.
  unfoldable pub resolve_type_raw : TypeSources → ℤ → Option DetectionTypeResult → String
  resolve_type_raw src unique_id detection =
      or_text "unknown" (first_some (type_in detection) (type_in (src.detect unique_id)))

  -- The entry of the dictionary of types, which counts from 1.
  unfoldable pub type_of_dict : TypeSources → ℤ → Option String
  type_of_dict src unique_id = elim (lookup (src.number unique_id) src.target_type) [
    | none ↦ none
    | some type_id ↦
        if ltb_ℤ (pos 0) type_id && leb (pos_part type_id) (length src.dict_target_types)
        then get_elem (pos_part type_id - 1) src.dict_target_types
        else none
  ]

  unfoldable pub resolve_type_label : TypeSources → ℤ → Option DetectionTypeResult → String
  resolve_type_label src unique_id detection =
      let label = target_type_to_chinese (resolve_type_raw src unique_id detection) in
      if not (is_empty label) then label else or_text "未知类型" (type_of_dict src unique_id)
