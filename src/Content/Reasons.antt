-- ===== src/Content/Reasons.antt =====
-- Why an alarm was raised, in words (`formatRuleTriggerSummary` and what it calls,
-- src/dialog/alarm/AlarmContentBuilder.cpp).
use alarm_sys_linux.Common.{
  ltb, String, append, Bool, true, false, not, ◌&&◌, ◌||◌, Option, none, some, List, [], ◌∷◌, ◌++◌,
  is_empty, str_eq, if◌then◌else◌,
}
use alarm_sys_linux.Common.Int.{ℤ, pos, eq_ℤ, leb_ℤ, ltb_ℤ}
use alarm_sys_linux.Common.Double.{Double}
use alarm_sys_linux.Threat.{ThreatAssessmentResult}
use alarm_sys_linux.Rules.Context.{AlarmRule, DetectionTypeResult}

-- `AlarmContentBuildInput`.
pub record ContentBuildInput (W : Type 0) : Type 0 where
  pub rule : Option AlarmRule
  pub unique_id : ℤ
  pub speed_mps : W
  pub course_deg : W
  pub attack_angle_deg : W
  pub height_m : W
  pub threat_score : ℤ
  pub has_protect_area : Bool
  pub is_air_track : Bool
  pub threat_breakdown : Option (ThreatAssessmentResult W)
  pub trigger_path : String
  pub detection : Option DetectionTypeResult

-- `QString::number`, and `arg(x, 0, 'f', 1)`.
pub record Wording (W : Type 0) : Type 0 where
  pub number : ℤ → String
  pub fixed_1 : W → String

-- Texts one after the other.
abbrev pub say : List String → String
say [] = ""
say (s ∷ rest) = append s (say rest)

-- `join`.
unfoldable pub join : String → List String → String
join sep [] = ""
join sep (s ∷ []) = s
join sep (s ∷ t ∷ rest) = append s (append sep (join sep (t ∷ rest)))

unfoldable pub course_enabled : AlarmRule → Bool
course_enabled rule =
    not (eq_ℤ rule.course_min rule.course_max)
    && not (eq_ℤ rule.course_min (pos 0) && eq_ℤ rule.course_max (pos 360))

unfoldable pub height_enabled : AlarmRule → Bool
height_enabled rule =
    not (eq_ℤ rule.height_min rule.height_max)
    && not (
        eq_ℤ rule.height_min (pos 0)
        && (eq_ℤ rule.height_max (pos 100) || eq_ℤ rule.height_max (pos 1000)))

module _ {W : Type 0} ⦃d : Double W⦄ where
  unfoldable pub speed_satisfies_rule : W → ℤ → ℤ → Bool
  speed_satisfies_rule speed_mps speed_condition speed_threshold =
      if leb_ℤ speed_condition (pos 0)
      then false
      else if eq_ℤ speed_condition (pos 1)
      then d.lt speed_mps (d.of_ℤ speed_threshold)
      else eq_ℤ speed_condition (pos 2) && d.lt (d.of_ℤ speed_threshold) speed_mps

  unfoldable pub course_satisfies_rule : W → AlarmRule → Bool
  unfolding course_enabled
  course_satisfies_rule angle rule =
      let above = d.le (d.of_ℤ rule.course_min) angle in
      let below = d.le angle (d.of_ℤ rule.course_max) in
      course_enabled rule
      && (if leb_ℤ rule.course_min rule.course_max then above && below else above || below)

  unfoldable pub height_satisfies_rule : W → AlarmRule → Bool
  unfolding height_enabled
  height_satisfies_rule height rule =
      height_enabled rule
      && d.le (d.of_ℤ rule.height_min) height
      && d.le height (d.of_ℤ rule.height_max)

  module _ (w : Wording W) where
    unfoldable pub format_speed_rule_text : ℤ → ℤ → String
    format_speed_rule_text speed_condition speed_threshold =
        if eq_ℤ speed_condition (pos 1)
        then say ("速度小于 " ∷ w.number speed_threshold ∷ " m/s" ∷ [])
        else if eq_ℤ speed_condition (pos 2)
        then say ("速度大于 " ∷ w.number speed_threshold ∷ " m/s" ∷ [])
        else ""

    -- The texts about the course and the height are empty where the condition is not enabled.
    unfoldable pub format_course_rule_text : AlarmRule → Bool → String
    format_course_rule_text rule has_protect_area =
        if not (course_enabled rule)
        then ""
        else say (
            (if has_protect_area then "进攻方向在 " else "航向在 ")
            ∷ w.number rule.course_min
            ∷ "~"
            ∷ w.number rule.course_max
            ∷ " 度"
            ∷ [])

    unfoldable pub format_height_rule_text : AlarmRule → String
    format_height_rule_text rule =
        if not (height_enabled rule)
        then ""
        else say ("高度 " ∷ w.number rule.height_min ∷ "~" ∷ w.number rule.height_max ∷ " m" ∷ [])

    abbrev pub part_if : Bool → String → List String
    part_if true s = s ∷ []
    part_if false s = []

    -- Whether a type that the result names was asked for.
    abbrev pub names : (DetectionTypeResult → String) → Option DetectionTypeResult → Bool
    names type none = false
    names type (some det) = not (is_empty (type det))

    abbrev pub angle_value : ContentBuildInput W → W
    angle_value input = if input.has_protect_area then input.attack_angle_deg else input.course_deg

    -- The reasons, in the order in which they are written.
    unfoldable pub parts_of : ContentBuildInput W → AlarmRule → List String
    parts_of input rule =
        part_if (speed_satisfies_rule input.speed_mps rule.speed_condition rule.speed)
          (format_speed_rule_text rule.speed_condition rule.speed)
        ++ part_if (course_satisfies_rule (angle_value input) rule)
            (format_course_rule_text rule input.has_protect_area)
        ++ part_if (height_satisfies_rule input.height_m rule) (format_height_rule_text rule)
        ++ part_if
            (ltb 0 rule.camera_detect_type && names (λ det. det.cam_target_type) input.detection)
            "光电检测目标类型匹配"
        ++ part_if
            (ltb 0 rule.llm_detect_type && names (λ det. det.llm_target_type) input.detection)
            "大模型研判目标类型匹配"
        ++ part_if
            (ltb 0 rule.uav_detect_type && names (λ det. det.uav_target_type) input.detection)
            "无人机检测目标类型匹配"
        ++ part_if (ltb_ℤ (pos 0) rule.targetattr_type) "目标属性类型匹配"
        ++ part_if (leb_ℤ (pos 0) rule.dist_to_protect_area)
            (say ("距保护区小于 " ∷ w.number rule.dist_to_protect_area ∷ " m" ∷ []))
        ++ part_if (ltb_ℤ (pos 0) rule.threat_level1 && leb_ℤ rule.threat_level1 input.threat_score)
            (append "威胁度≥" (w.number rule.threat_level1))

    abbrev pub or_name : AlarmRule → List String → List String
    or_name rule [] = if is_empty rule.name then [] else rule.name ∷ []
    or_name rule (part ∷ parts) = part ∷ parts

    abbrev or_plain : List String → String
    or_plain [] = "区域/规则条件满足"
    or_plain (part ∷ parts) = join "，" (part ∷ parts)

    unfoldable pub format_rule_trigger_summary : ContentBuildInput W → String
    format_rule_trigger_summary input =
        if str_eq input.trigger_path "blacklist" then "黑名单目标" else elim input.rule [
          | none ↦ "区域/规则条件满足"
          | some rule ↦ or_plain (or_name rule (parts_of input rule))
        ]
