-- ===== src/Publish/Event.antt =====
-- The event of `SendAllAlarmEventMsg` (src/customconfig.cpp): the alarms of the rules, the manual alarms,
-- and the targets that have a type but no alarm. The tables of filters and of the times of
-- identification change on the way.
use alarm_sys_linux.Common.{
  ℕ, String, append, Bool, true, false, not, ◌&&◌, ◌||◌, Option, none, some, is_some, List, [], ◌∷◌,
  ◌++◌, any, str_eq, is_nil, if◌then◌else◌,
}
use alarm_sys_linux.Common.Int.{ℤ, pos, ◌-ℤ◌, leb_ℤ, ltb_ℤ}
use alarm_sys_linux.Common.Dict.{Dict, lookup, has_key, string_key, int_key}
use alarm_sys_linux.Common.Double.{Double}
use alarm_sys_linux.Alarms.State.{AlarmData, Alarms, epoch_ms}
use alarm_sys_linux.Alarms.Filter.{is_unique_id_alarm_filtered}
use alarm_sys_linux.Alarms.Tracks.{TrackHit, find_track_by_unique_id, or_else, hit_of}
use alarm_sys_linux.Alarms.Confirm.{text_or}
use alarm_sys_linux.Suspicious.{was_ok}
use alarm_sys_linux.Identification.{
  AlarmEffectiveDisposition, eval_identification_rules_union, resolve_rule_alarm_disposition,
}
use alarm_sys_linux.Publish.{
  Publisher, AlarmInfo, TrackType, active, bird, fuse, unassigned, verify_success, is_air_rule,
  area_name_of, status_of, task_status_of, legacy_dds_track_id,
}
use alarm_sys_linux.Publish.Rank.{alarm_level_of, level_map, valid_alarms}
use alarm_sys_linux.Publish.Sync.{sync_manual_alarms}

abbrev pub air_or_fuse : Bool → TrackType
air_or_fuse is_air = if is_air then bird else fuse

module _ {W J : Type 0} ⦃d : Double W⦄ (p : Publisher W J) where
  abbrev number : ℤ → String
  number z = p.sources.number z

  unfoldable pub is_old : AlarmData W → Bool
  is_old ad = ltb_ℤ (pos 600000) (p.sources.now_ms -ℤ epoch_ms p.sources.clock ad.time)

  -- `resolveRuleAlarmDisposition` of an alarm.
  unfoldable pub disposition_of : AlarmData W → Alarms W → Alarms W × AlarmEffectiveDisposition
  disposition_of ad s =
      resolve_rule_alarm_disposition p.sources.clock p.al p.sources.now_ms
        (eval_identification_rules_union p.sources ad p.area_rule_ids p.identification_rules) ad s

  unfoldable pub alarm_info : Dict String ℕ → AlarmData W → AlarmEffectiveDisposition → AlarmInfo W
  alarm_info levels ad disposition = record {
    status = status_of ad.alarm_status;
    alarm_rule_id = ad.condition_id ∷ [];
    alarm_id = ad.alarm_id;
    task_status = task_status_of disposition.task_status;
    alarm_content = number (pos (alarm_level_of levels ad.alarm_id));
    alarm_level = ad.threat_score;
    area_id = append (number ad.group_id) (append "_" (number ad.area_id));
    area_name = area_name_of p ad.group_id ad.area_id p.alarm_rule;
    track_id = number ad.unique_id;
    class_id = ad.targettype;
    behavior_id = ad.targetbehavior;
    longitude = ad.targetlon;
    latitude = ad.targetlat;
    altitude = d.of_ℤ (pos 0);
    update_time = ad.time;
    resolved_time = some disposition.resolved_time_str;
    legacy_track_id = legacy_dds_track_id ad.unique_id;
    mmsi = some (legacy_dds_track_id ad.unique_id);
    course = ad.targetdir;
    speed = ad.targetspeed;
    track_type = air_or_fuse (is_air_rule p ad.condition_id);
  }

  unfoldable pub manual_info : Dict String ℕ → Alarms W → AlarmData W → AlarmInfo W
  manual_info levels s ad = record {
    status = active;
    alarm_rule_id = ad.condition_id ∷ [];
    alarm_id = ad.alarm_id;
    task_status = verify_success;
    alarm_content = number (pos (alarm_level_of levels ad.alarm_id));
    alarm_level = ad.threat_score;
    area_id = "";
    area_name = "";
    track_id = number ad.unique_id;
    class_id = ad.targettype;
    behavior_id = ad.targetbehavior;
    longitude = ad.targetlon;
    latitude = ad.targetlat;
    altitude = d.of_ℤ (pos 0);
    update_time = ad.time;
    resolved_time = some (text_or ad.time (lookup ad.unique_id s.manual_confirm_resolved_time));
    legacy_track_id = legacy_dds_track_id ad.unique_id;
    mmsi = some (legacy_dds_track_id ad.unique_id);
    course = ad.targetdir;
    speed = ad.targetspeed;
    track_type = air_or_fuse (was_ok (lookup ad.unique_id s.manual_alarm_air_track));
  }

  -- One turn of a loop: the tables, and what it adds to the event.
  unfoldable pub rule_step : Dict String ℕ → AlarmData W → Alarms W → Alarms W × List (AlarmInfo W)
  rule_step levels ad s =
      let (checked, filtered) = is_unique_id_alarm_filtered p.sources.now_ms ad.unique_id s in
      let (resolved, disposition) = disposition_of ad checked in
      if filtered || is_old ad
      then (checked, [])
      else (resolved, alarm_info levels ad disposition ∷ [])

  unfoldable pub manual_step :
      Dict String ℕ → AlarmData W → Alarms W → Alarms W × List (AlarmInfo W)
  manual_step levels ad s =
      let (checked, filtered) = is_unique_id_alarm_filtered p.sources.now_ms ad.unique_id s in
      if filtered || (is_old ad || not (is_some (find_track_by_unique_id p.tracks ad.unique_id)))
      then (checked, [])
      else (checked, manual_info levels checked ad ∷ [])

  -- The track of a target that has a type: a fused one, or one in the air.
  unfoldable pub typed_track : ℤ → Option (TrackHit W)
  typed_track id =
      or_else (hit_of false (lookup id p.tracks.fuse_track))
        (hit_of true (lookup id p.tracks.bird_fuse_track))

  unfoldable pub type_info : String → ℤ → ℤ → TrackHit W → Alarms W → AlarmInfo W
  type_info id_text id class hit s =
      let confirmed = has_key id s.manual_confirmed_unique_ids in
      let current_time = p.sources.clock.to_text p.sources.now_ms in
      record {
        status = active;
        alarm_rule_id = [];
        alarm_id = "-1";
        task_status = if confirmed then verify_success else unassigned;
        alarm_content = append "目标类型更新: target_id " (number id);
        alarm_level = pos 1;
        area_id = "";
        area_name = "";
        track_id = id_text;
        class_id = class;
        behavior_id = pos 0;
        longitude = hit.track.long_degs;
        latitude = hit.track.lat_degs;
        altitude = hit.track.altitude_metres;
        update_time = current_time;
        resolved_time =
            if confirmed
            then some (text_or current_time (lookup id s.manual_confirm_resolved_time))
            else none;
        legacy_track_id = legacy_dds_track_id id;
        mmsi = none;
        course = hit.track.course_degrees;
        speed = hit.track.speed_mps;
        track_type = air_or_fuse hit.is_air_track;
      }

  unfoldable pub info_of_hit : String → ℤ → ℤ → Alarms W → Option (TrackHit W) → List (AlarmInfo W)
  info_of_hit id_text id class s none = []
  info_of_hit id_text id class s (some hit) = type_info id_text id class hit s ∷ []

  unfoldable pub type_of_id : String → ℤ → Alarms W → Option ℤ → Alarms W × List (AlarmInfo W)
  type_of_id id_text class s none = (s, [])
  type_of_id id_text class s (some id) =
      let (checked, filtered) = is_unique_id_alarm_filtered p.sources.now_ms id s in
      if leb_ℤ id (pos 0)
      then (s, [])
      else if filtered
      then (checked, [])
      else (checked, info_of_hit id_text id class checked (typed_track id))

  unfoldable pub type_step : List String → String → ℤ → Alarms W → Alarms W × List (AlarmInfo W)
  type_step processed id_text class s =
      if any (λ t. str_eq t id_text) processed
      then (s, [])
      else type_of_id id_text class s (p.to_long_long id_text)

  unfoldable pub targets_of : Dict String (AlarmData W) → List String
  targets_of [] = []
  targets_of ((_, ad) ∷ rest) = number ad.unique_id ∷ targets_of rest

-- The loop over a table: its turns, one after the other.
unfoldable pub walk :
    {W K V : Type 0}
    → (K → V → Alarms W → Alarms W × List (AlarmInfo W))
    → Dict K V
    → Alarms W
    → Alarms W × List (AlarmInfo W)
walk step [] s = (s, [])
walk step ((k, v) ∷ rest) s =
    let (next, infos) = step k v s in
    let (end, later) = walk step rest next in (end, infos ++ later)

module _ {W J : Type 0} ⦃d : Double W⦄ (p : Publisher W J) where
  -- The event, where there is an alarm of either table: without one it is empty.
  unfoldable pub alarm_event : Alarms W → Alarms W × List (AlarmInfo W)
  alarm_event s =
      let levels = level_map (valid_alarms p s) in
      let (ruled, rule_infos) = walk (λ k ad t. rule_step p levels ad t) s.alarm_data s in
      let (manual, manual_infos) =
        walk (λ k ad t. manual_step p levels ad t) s.manual_alarm_data ruled in
      let processed = targets_of p s.alarm_data ++ targets_of p s.manual_alarm_data in
      let (typed, type_infos) = walk (type_step p processed) s.target_type manual in
      if is_nil s.alarm_data && is_nil s.manual_alarm_data
      then (s, [])
      else (typed, rule_infos ++ manual_infos ++ type_infos)

  -- The event that is sent in a call of `SendAllAlarmEventMsg`, where publishing is on and the
  -- publisher is there; its returns where they are not are left out.
  unfoldable pub send_all_alarm_event_msg : Alarms W → Alarms W × List (AlarmInfo W)
  send_all_alarm_event_msg s = alarm_event (sync_manual_alarms p s)
