-- ===== src/Content.antt =====
-- The description of an alarm (src/dialog/alarm/AlarmContentBuilder.cpp): a summary in words and the
-- values behind it, as a JSON object. Numbers are written by Qt, and JSON text is made by Qt: arguments
-- here, as are the database and the tables of the configuration.
pub mod Types
pub mod Reasons
pub mod Agreement
mod Tests
use alarm_sys_linux.Common.{
  ℕ, String, append, Bool, true, false, not, ◌&&◌, Option, none, some, List, [], ◌∷◌, ◌++◌,
  is_empty, is_some, if◌then◌else◌,
}
use alarm_sys_linux.Common.Int.{ℤ, pos, eq_ℤ, leb_ℤ}
use alarm_sys_linux.Common.Double.{Double}
use alarm_sys_linux.Common.Text.{Text}
use alarm_sys_linux.Threat.{ThreatAssessmentParams, ThreatAssessmentResult}
use alarm_sys_linux.Rules.Context.{AlarmRule, DetectionTypeResult, AreaParams}
use alarm_sys_linux.Content.Types.{
  TypeSources, target_type_to_chinese, resolve_type_raw, resolve_type_label,
}
use alarm_sys_linux.Content.Reasons.{ContentBuildInput, Wording, say, format_rule_trigger_summary}

-- A value of the JSON object.
pub data JsonField (W : Type 0) : Type 0 where
  null : JsonField W
  integer : ℤ → JsonField W
  real : W → JsonField W
  string : String → JsonField W

-- `MinioMetadataResult`, where it is found.
pub record ImageMeta : Type 0 where
  pub minio_bucket : String
  pub minio_object_key : String
  pub download_url : String
  pub camera_index : String
  pub uploaded_at : String

-- What the database and the configuration know: of the types, of the images of a target, and of the
-- weights of the areas.
pub record Sources (W : Type 0) : Type 0 where
  pub types : TypeSources
  pub images : ℤ → Option ImageMeta
  pub has_images : ℤ → Bool
  pub threat_params : List (AreaParams W)

module _ {W : Type 0} ⦃d : Double W⦄ (qt : Text) (w : Wording W) (src : Sources W) where
  unfoldable pub format_threat_breakdown_suffix : ContentBuildInput W → String
  format_threat_breakdown_suffix input = elim input.threat_breakdown [
    | none ↦ ""
    | some t ↦ say (
        "，威胁分：总分 "
        ∷ w.fixed_1 t.total_threat_level
        ∷ "（类型 "
        ∷ w.fixed_1 t.weighted_type_score
        ∷ "，速度 "
        ∷ w.fixed_1 t.weighted_speed_score
        ∷ "，"
        ∷ (if input.has_protect_area then "进攻方向" else "航向")
        ∷ " "
        ∷ w.fixed_1 t.weighted_angle_score
        ∷ "，距离 "
        ∷ w.fixed_1 t.weighted_distance_score
        ∷ "）"
        ∷ [])
  ]

  abbrev eo_of : DetectionTypeResult → Bool → String
  eo_of det pictured =
      if not (is_empty det.cam_target_type)
      then say ("，光电取证确认为「" ∷ target_type_to_chinese qt det.cam_target_type ∷ "」" ∷ [])
      else if not (is_empty det.llm_target_type)
      then say ("，大模型研判为「" ∷ target_type_to_chinese qt det.llm_target_type ∷ "」" ∷ [])
      else if pictured
      then "，并经过光电取证"
      else ""

  -- A result that is not found has empty texts.
  abbrev no_detection : DetectionTypeResult
  no_detection = record {
    final_target_type = "";
    llm_target_type = "";
    cam_target_type = "";
    uav_target_type = "";
  }

  unfoldable pub format_eo_verification_suffix : ℤ → Option DetectionTypeResult → String
  format_eo_verification_suffix unique_id (some det) = eo_of det (src.has_images unique_id)
  format_eo_verification_suffix unique_id none = elim (src.types.detect unique_id) [
    | none ↦ eo_of no_detection (src.has_images unique_id)
    | some det ↦ eo_of det (src.has_images unique_id)
  ]

  -- The greatest scores of type, speed, angle and distance.
  abbrev pub Maxes : Type 0
  Maxes = W × W × W × W

  abbrev pub hundred : W → W
  hundred weight = d.mul weight (d.of_ℤ (pos 100))

  unfoldable pub default_maxes : Maxes
  default_maxes = (d.of_ℤ (pos 42), d.of_ℤ (pos 16), d.of_ℤ (pos 18), d.of_ℤ (pos 24))

  unfoldable pub resolve_in : AlarmRule → List (AreaParams W) → Maxes
  unfolding default_maxes
  resolve_in rule [] = default_maxes
  resolve_in rule (p ∷ rest) =
      if eq_ℤ p.group_id rule.group_id && eq_ℤ p.area_id rule.area_id
      then (
        hundred p.params.type_weight,
        hundred p.params.speed_weight,
        hundred p.params.angle_weight,
        hundred p.params.distance_weight,
      )
      else resolve_in rule rest

  unfoldable pub resolve_score_maxes : ContentBuildInput W → Maxes
  unfolding resolve_in
  resolve_score_maxes input = elim input.rule [
    | none ↦ default_maxes
    | some rule ↦ resolve_in rule src.threat_params
  ]

  abbrev if_there : String → String → List (String × JsonField W)
  if_there key s = if is_empty s then [] else (key, string s) ∷ []

  abbrev image_of : Option ImageMeta → List (String × JsonField W)
  image_of none = []
  image_of (some meta) =
      ("image_bucket", string meta.minio_bucket)
      ∷ ("image_object_key", string meta.minio_object_key)
      ∷ (if_there "image_download_url" meta.download_url
          ++ if_there "image_camera_index" meta.camera_index
          ++ if_there "image_uploaded_at" meta.uploaded_at)

  -- `appendImageFields`.
  unfoldable pub image_fields : ℤ → List (String × JsonField W)
  image_fields unique_id = if leb_ℤ unique_id (pos 0) then [] else image_of (src.images unique_id)

  abbrev pub no_scores : List (String × JsonField W)
  no_scores =
      ("threat_total", null)
      ∷ ("score_type", null)
      ∷ ("score_speed", null)
      ∷ ("score_angle", null)
      ∷ ("score_distance", null)
      ∷ []

  unfoldable pub score_fields : ContentBuildInput W → List (String × JsonField W)
  score_fields input =
      let (type_max, speed_max, angle_max, distance_max) = resolve_score_maxes input in
      elim input.threat_breakdown [
        | none ↦ no_scores
        | some t ↦
            ("threat_total", real t.total_threat_level)
            ∷ ("score_type", real t.weighted_type_score)
            ∷ ("score_speed", real t.weighted_speed_score)
            ∷ ("score_angle", real t.weighted_angle_score)
            ∷ ("score_distance", real t.weighted_distance_score)
            ∷ ("score_max_type", real type_max)
            ∷ ("score_max_speed", real speed_max)
            ∷ ("score_max_angle", real angle_max)
            ∷ ("score_max_distance", real distance_max)
            ∷ []
      ]

  abbrev domain_of : Bool → String
  domain_of is_air_track = if is_air_track then "空中" else "海上"

  abbrev domain_key : Bool → String
  domain_key is_air_track = if is_air_track then "air" else "sea"

  unfoldable pub rule_summary : ContentBuildInput W → String
  rule_summary input =
      let angle = if input.has_protect_area then input.attack_angle_deg else input.course_deg in
      say (
        domain_of input.is_air_track
        ∷ "目标"
        ∷ resolve_type_label qt src.types input.unique_id input.detection
        ∷ "（ID "
        ∷ w.number input.unique_id
        ∷ "）速度 "
        ∷ w.fixed_1 input.speed_mps
        ∷ " m/s，"
        ∷ (if input.has_protect_area then "进攻方向" else "航向")
        ∷ " "
        ∷ w.fixed_1 angle
        ∷ " 度，触发告警规则："
        ∷ format_rule_trigger_summary w input
        ∷ format_threat_breakdown_suffix input
        ∷ format_eo_verification_suffix input.unique_id input.detection
        ∷ [])

  abbrev head_fields : ℤ → Bool → String → Option DetectionTypeResult → List (String × JsonField W)
  head_fields unique_id is_air_track summary detection =
      ("v", integer (pos 1))
      ∷ ("summary", string summary)
      ∷ ("unique_id", integer unique_id)
      ∷ ("domain", string (domain_key is_air_track))
      ∷ ("target_type", string (resolve_type_raw qt src.types unique_id detection))
      ∷ ("target_type_label", string (resolve_type_label qt src.types unique_id detection))
      ∷ []

  -- The fields of the object, in the order in which they are set.
  unfoldable pub build_rule_alarm_content : ContentBuildInput W → List (String × JsonField W)
  build_rule_alarm_content input =
      head_fields input.unique_id input.is_air_track (rule_summary input) input.detection
      ++ ("angle_label", string (if input.has_protect_area then "进攻方向" else "航向")) ∷ []
      ++ score_fields input
      ++ image_fields input.unique_id

  unfoldable pub build_manual_alarm_content : ℤ → Bool → List (String × JsonField W)
  build_manual_alarm_content unique_id is_air_track =
      let label = resolve_type_label qt src.types unique_id none in
      let summary = say (
        domain_of is_air_track ∷ "目标" ∷ label ∷ "（ID " ∷ w.number unique_id ∷ "）由用户判定为威胁目标" ∷ []) in
      head_fields unique_id is_air_track summary none ++ no_scores ++ image_fields unique_id
