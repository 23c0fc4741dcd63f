-- ===== src/Rules/Update.antt =====
-- `updataAlarmTrackToDB` (src/dialog/alarm/TrackAlarmThread.cpp): the candidates of a rule are looked at
-- one by one, and an alarm is saved (Alarms.Save) for those on the blacklist, those that meet the
-- conditions, and those that have a fresh alarm of the rule.
pub mod Effect
pub mod Outcome
use alarm_sys_linux.Common.{
  String, Bool, true, false, not, ◌&&◌, ◌||◌, Option, none, some, is_some, List, [], ◌∷◌, is_nil,
  str_eq, if◌then◌else◌,
}
use alarm_sys_linux.Common.Int.{ℤ, pos, ◌-ℤ◌, eq_ℤ, leb_ℤ, ltb_ℤ}
use alarm_sys_linux.Common.Dict.{Dict, insert, string_key}
use alarm_sys_linux.Common.Double.{Double}
use alarm_sys_linux.Alarms.State.{AlarmData, Alarms, TimeText, epoch_ms}
use alarm_sys_linux.Alarms.Save.{Candidate, save_to_db}
use alarm_sys_linux.Alarms.Tracks.{Track}
use alarm_sys_linux.Suspicious.{CheckMap}
use alarm_sys_linux.Rules.Context.{
  AlarmRule, TargetInfoFilter, DetectionTypeResult, ContentInput, Context, RuleState,
}
use alarm_sys_linux.Rules.Candidate.{find_candidate}
use alarm_sys_linux.Rules.Zones.{in_no_alarm_group, track_has_published_alarm}
use alarm_sys_linux.Rules.Guards.{Verdict, speed_step, target_info, judge}

-- What the lists say of a target: to raise an alarm, to ignore it, or to go by the conditions.
pub data Listing : Type 0 where
  blacklisted : Listing
  ignored : Listing
  by_conditions : Listing

unfoldable pub black_white : AlarmRule → Option TargetInfoFilter → Listing
black_white info none = by_conditions
black_white info (some target) =
    if eq_ℤ info.blacklist_judge (pos 1) && eq_ℤ target.black_white_attr (pos 2)
    then blacklisted
    else if eq_ℤ info.whitelist_judge (pos 1) && not (eq_ℤ target.black_white_attr (pos 1))
    then ignored
    else by_conditions

module _ {W : Type 0} where
  -- Whether the target has an alarm of the rule that is younger than the window.
  unfoldable pub already_has_alarm :
      TimeText → ℤ → String → ℤ → ℤ → Dict String (AlarmData W) → Bool
  already_has_alarm clock now condition_id target_id window_ms [] = false
  already_has_alarm clock now condition_id target_id window_ms ((_, ad) ∷ rest) =
      (str_eq ad.condition_id condition_id
        && eq_ℤ ad.unique_id target_id
        && ltb_ℤ (now -ℤ epoch_ms clock ad.time) window_ms)
      || already_has_alarm clock now condition_id target_id window_ms rest

module _ {W R : Type 0} ⦃d : Double W⦄ (ctx : Context W R) (info : AlarmRule)
    (type radar_source_id : ℤ) where
  -- The call of `SaveToDB` for a candidate.
  unfoldable pub candidate_of : ℤ → Track W → ℤ → String → Candidate W
  candidate_of target_id track score content = record {
    condition_id = info.condition_id;
    group_id = info.group_id;
    area_id = info.area_id;
    target_id = target_id;
    lat = d.to_float track.lat_degs;
    lon = d.to_float track.long_degs;
    speed = d.to_float track.speed_mps;
    dir = d.to_float track.course_degrees;
    dis = d.to_float track.range_metres;
    threat_score = score;
    timestamp_sec = track.msg_time_secs;
    radar_source_id = radar_source_id;
    alarm_content = content;
  }

  unfoldable pub save : ℤ → Track W → ℤ → String → Alarms W → Alarms W
  save target_id track score content s =
      save_to_db ctx.clock ctx.cfg.al ctx.base ctx.now (ctx.uuid target_id) ctx.blank_alarm
        (candidate_of target_id track score content) s

  abbrev is_air : Bool
  is_air = ltb_ℤ (pos 0) info.track_type || eq_ℤ type (pos 3)

  unfoldable pub blacklist_content : ℤ → Track W → String
  blacklist_content target_id track = ctx.build_content info target_id track is_air (record {
    trigger_path = "blacklist";
    has_protect_area = false;
    attack_angle = track.course_degrees;
    threat_score = ctx.cfg.al.default_threat_score;
    threat_breakdown = none;
    detection = none;
  })

  unfoldable pub rule_content : ℤ → Track W → Verdict W → String
  rule_content target_id track v =
      let key = if ltb_ℤ (pos 0) track.unique_id then track.unique_id else target_id in
      let direct = ltb_ℤ (pos 0) info.threat_level1 && leb_ℤ info.threat_level1 v.threat_score in
      ctx.build_content info target_id track is_air (record {
        trigger_path = if direct then "threat_direct" else "rule_match";
        has_protect_area = is_some v.protect_center;
        attack_angle = v.angle_to_check;
        threat_score = v.threat_score;
        threat_breakdown = v.breakdown;
        detection = ctx.detect key;
      })

  -- An alarm that goes on though the conditions fail keeps its description.
  unfoldable pub save_if : ℤ → Track W → Verdict W → Bool → Alarms W → Alarms W
  save_if target_id track v already s =
      let content = if v.pass then rule_content target_id track v else "" in
      if v.pass || already then save target_id track v.threat_score content s else s

  -- The candidate is judged by the conditions of the rule.
  unfoldable pub by_rule : ℤ → Track W → RuleState W → RuleState W
  by_rule target_id track s =
      let (checks, speed_ok) = speed_step ctx info type target_id track s.speed_last_check in
      let already =
        already_has_alarm ctx.clock ctx.now info.condition_id target_id
          ctx.cfg.al.track_already_has_alarm_window_ms s.alarms.alarm_data in
      record s {
        speed_last_check = checks;
        alarms =
            save_if target_id track (judge ctx info type target_id track speed_ok) already s.alarms;
      }

  unfoldable pub by_listing : ℤ → Track W → RuleState W → Listing → RuleState W
  by_listing target_id track s blacklisted = record s {
    alarms =
        save target_id track ctx.cfg.al.default_threat_score (blacklist_content target_id track)
          s.alarms;
  }
  by_listing target_id track s ignored = s
  by_listing target_id track s by_conditions = by_rule target_id track s

  -- A target in a group without alarms is passed over, unless it has an alarm that is published.
  unfoldable pub is_in_quiet_zone : ℤ → Track W → Alarms W → Bool
  is_in_quiet_zone target_id track s =
      in_no_alarm_group ctx (track.lat_degs, track.long_degs)
      && not (
          track_has_published_alarm ctx.clock ctx.now target_id
            ctx.cfg.al.track_already_has_alarm_window_ms s.alarm_data)

  unfoldable pub update_track : ℤ → RuleState W → Option (Track W) → RuleState W
  update_track target_id s none = s
  update_track target_id s (some track) =
      if is_in_quiet_zone target_id track s.alarms
      then s
      else by_listing target_id track s (black_white info (target_info ctx info target_id))

  unfoldable pub update_candidate : ℤ → RuleState W → RuleState W
  update_candidate target_id s =
      update_track target_id s (find_candidate ctx type radar_source_id target_id)

  unfoldable pub update_candidates : List ℤ → RuleState W → RuleState W
  update_candidates [] s = s
  update_candidates (id ∷ rest) s = update_candidates rest (update_candidate id s)

  -- `list_id` are the candidates in the order of `QSet::toList`.
  unfoldable pub updata_alarm_track_to_db : List ℤ → RuleState W → RuleState W
  updata_alarm_track_to_db list_id s =
      let start = record s { alarms = record s.alarms { list_alarm_data = [] } } in
      let done = update_candidates list_id start in
      record done {
        area_alarm_data = insert info.name done.alarms.list_alarm_data done.area_alarm_data;
      }
