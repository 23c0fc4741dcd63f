-- ===== src/Identification.antt =====
-- src/customconfig.cpp: the rules by which an alarm is identified (`trackDurationExceeded`,
-- `evalOneRowDetectionRules`, `ruleHasDetectionConstraints`, `evalSingleRuleCriteriaIntersection`,
-- `evalIdentificationRulesUnion`), and the disposition that follows (`resolveRuleAlarmDisposition`).
-- JSON, the database and the clock are arguments.
pub mod Rules
pub mod Disposition
mod Tests
use alarm_sys_linux.Common.{
  String, append, Bool, true, false, not, ◌&&◌, ◌||◌, Option, none, some, List, [], ◌∷◌, ◌++◌,
  str_eq, is_empty, if◌then◌else◌, any, is_some, first_some, list_or_empty,
}
use alarm_sys_linux.Common.Int.{ℤ, pos, negsuc, ◌-ℤ◌, eq_ℤ, leb_ℤ, ltb_ℤ}
use alarm_sys_linux.Common.Dict.{Dict, lookup, insert, has_key, string_key, int_key}
use alarm_sys_linux.Common.Text.{Text}
use alarm_sys_linux.Alarms.State.{
  AlarmData, AlarmLogicConfig, Alarms, DbWrite, set_evaluation_time, TimeText,
}
use alarm_sys_linux.Alarms.Save.{ms_of_sec}
use alarm_sys_linux.Alarms.Confirm.{text_or}

-- `AlarmIdentificationRuleSub`, by the fields that are read.
pub record RuleSub : Type 0 where
  pub criteria_id : String
  pub detection_rules_json : String
  pub enabled : Bool

-- What the code reads of `QJsonDocument`: `parse` gives an object, or none for a text that is not one.
pub record Json (J : Type 0) : Type 0 where
  pub parse : String → Option J
  pub contains : J → String → Bool
  pub to_bool : J → String → Bool
  pub to_int : J → String → ℤ
  pub to_string : J → String → String

-- What the rules are evaluated with: Qt's texts and times, the database, and the time of the call.
pub record Sources (J : Type 0) : Type 0 where
  pub text : Text
  pub json : Json J
  pub clock : TimeText
  pub has_metadata : ℤ → String → Bool
  pub number : ℤ → String
  pub now_ms : ℤ

module _ {W : Type 0} where
  unfoldable pub track_duration_exceeded : TimeText → ℤ → AlarmData W → ℤ → Bool
  track_duration_exceeded clock now_ms ad seconds =
      let ot = if is_empty ad.origintime then ad.time else ad.origintime in
      if leb_ℤ seconds (pos 0)
      then false
      else elim (first_some (clock.parse_ms ot) (clock.parse_sec ot)) [
        | none ↦ false
        | some t0 ↦ leb_ℤ (ms_of_sec seconds) (now_ms -ℤ t0)
      ]

  module _ {J : Type 0} (src : Sources J) (ad : AlarmData W) where
    unfoldable pub eval_object : J → Bool
    eval_object o =
        let json = src.json in
        let need_optic = json.contains o "optic" && json.to_bool o "optic" in
        let track_dur_sec =
          if json.contains o "track_duration" then json.to_int o "track_duration" else pos 0 in
        let need_track_dur = json.contains o "track_duration" && ltb_ℤ (pos 0) track_dur_sec in
        let like_pattern =
          if json.contains o "file_name_like" then json.to_string o "file_name_like" else "%" in
        (not need_optic || src.has_metadata ad.unique_id like_pattern)
        && (not need_track_dur || track_duration_exceeded src.clock src.now_ms ad track_dur_sec)

    unfoldable pub eval_one_row_detection_rules : String → Bool
    eval_one_row_detection_rules json_str =
        if is_empty (src.text.trimmed json_str)
        then true
        else elim (src.json.parse json_str) [ none ↦ false | some o ↦ eval_object o ]

    unfoldable pub rule_has_detection_constraints : List RuleSub → Bool
    rule_has_detection_constraints [] = false
    rule_has_detection_constraints (s ∷ rest) =
        (s.enabled && not (is_empty (src.text.trimmed s.detection_rules_json)))
        || rule_has_detection_constraints rest

    abbrev pub criteria_key : RuleSub → String
    criteria_key s =
        if is_empty (src.text.trimmed s.criteria_id)
        then "__default__"
        else src.text.trimmed s.criteria_id

    -- The enabled rows by their criteria, in the order in which they come.
    unfoldable pub group_by_criteria :
        List RuleSub → Dict String (List RuleSub) → Dict String (List RuleSub)
    group_by_criteria [] by_criteria = by_criteria
    group_by_criteria (s ∷ rest) by_criteria =
        let key = criteria_key s in
        group_by_criteria rest (
          if s.enabled
          then insert key (list_or_empty (lookup key by_criteria) ++ s ∷ []) by_criteria
          else by_criteria)

    unfoldable pub group_ok : List RuleSub → Bool
    group_ok [] = true
    group_ok (row ∷ rest) = eval_one_row_detection_rules row.detection_rules_json && group_ok rest

    unfoldable pub any_group_ok : Dict String (List RuleSub) → Bool
    any_group_ok [] = false
    any_group_ok ((_, rows) ∷ rest) = group_ok rows || any_group_ok rest

    unfoldable pub eval_single_rule_criteria_intersection : List RuleSub → Bool
    eval_single_rule_criteria_intersection subs = any_group_ok (group_by_criteria subs [])

    -- The loop over the rules; the answer is whether a rule had constraints, and the verdict.
    unfoldable pub eval_rule_ids : Dict String (List RuleSub) → List String → Bool → Bool × Bool
    eval_rule_ids map_subs [] had = (had, false)
    eval_rule_ids map_subs (rid ∷ rest) had =
        let subs = list_or_empty (lookup rid map_subs) in
        let constrained = rule_has_detection_constraints subs in
        let later = eval_rule_ids map_subs rest (constrained || had) in
        if constrained && eval_single_rule_criteria_intersection subs then (true, true) else later

    -- The rules of the alarm's area and the alarm's own rule.
    unfoldable pub rule_ids_of : Dict String (List String) → List String
    rule_ids_of area_to_rule_ids =
        let area_key = append (src.number ad.group_id) (append "_" (src.number ad.area_id)) in
        let rule_ids = list_or_empty (lookup area_key area_to_rule_ids) in
        if any (λ rid. str_eq rid ad.condition_id) rule_ids
        then rule_ids
        else rule_ids ++ ad.condition_id ∷ []

    unfoldable pub eval_identification_rules_union :
        Dict String (List String) → Dict String (List RuleSub) → Bool × Bool
    eval_identification_rules_union area_to_rule_ids map_subs =
        eval_rule_ids map_subs (rule_ids_of area_to_rule_ids) false

-- `AlarmEffectiveDisposition`.
pub record AlarmEffectiveDisposition : Type 0 where
  pub task_status : ℤ
  pub resolved_time_str : String

abbrev pub base_status : ℤ → ℤ
base_status task_status =
    if eq_ℤ task_status (pos 0)
    then pos 0
    else if eq_ℤ task_status (pos 1)
    then pos 1
    else if eq_ℤ task_status (pos 2)
    then pos 2
    else pos 3

module _ {W : Type 0} (clock : TimeText) (al : AlarmLogicConfig) (now_ms : ℤ) where
  -- The first time at which an alarm counts as identified is recorded.
  unfoldable pub record_resolved : AlarmData W → Alarms W → Alarms W
  record_resolved ad s =
      let resolved_at =
        text_or (clock.to_text now_ms) (lookup ad.unique_id s.manual_confirm_resolved_time) in
      if has_key ad.alarm_id s.alarm_identification_resolved_time then s else record s {
        alarm_identification_resolved_time =
            insert ad.alarm_id resolved_at s.alarm_identification_resolved_time;
        db_writes =
            if eq_ℤ al.save_alarm_to_db (pos 0)
            then s.db_writes
            else set_evaluation_time ad.alarm_id ad.unique_id ad.threat_time_ms now_ms
              ∷ s.db_writes;
      }

  unfoldable pub resolved_time : AlarmData W → Alarms W → String
  resolved_time ad s =
      let stored = text_or "" (lookup ad.alarm_id s.alarm_identification_resolved_time) in
      if is_empty stored
      then text_or "" (lookup ad.unique_id s.manual_confirm_resolved_time)
      else stored

  -- `verdict` is what the rules say: whether one had constraints, and whether one is met.
  unfoldable pub resolve_rule_alarm_disposition :
      Bool × Bool → AlarmData W → Alarms W → Alarms W × AlarmEffectiveDisposition
  resolve_rule_alarm_disposition (any_rule_had_constraints, verify_ok) ad s =
      let manually_confirmed = has_key ad.unique_id s.manual_confirmed_unique_ids in
      let recorded = record_resolved ad s in
      if manually_confirmed || (any_rule_had_constraints && verify_ok)
      then (recorded, record { task_status = pos 3; resolved_time_str = resolved_time ad recorded })
      else (s, record { task_status = base_status ad.task_status; resolved_time_str = "" })
