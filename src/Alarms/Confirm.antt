-- ===== src/Alarms/Confirm.antt =====
-- src/customconfig.cpp: an operator confirms the alarms of a target (`confirmAlarmByUniqueId`,
-- `buildManualAlarmDataFromTrack`). The clock is read once for a call. The text of a manual alarm
-- (`buildManualAlarmContent`) and `QString::number` are arguments.
pub mod Effect
pub mod Manual
use alarm_sys_linux.Common.{
  String, append, Bool, true, false, not, ◌&&◌, ◌||◌, Option, none, some, List, [], ◌∷◌, is_empty,
  if◌then◌else◌,
}
use alarm_sys_linux.Common.Int.{ℤ, pos, ◌+ℤ◌, eq_ℤ, leb_ℤ, ltb_ℤ, max_ℤ}
use alarm_sys_linux.Common.Dict.{Dict, lookup, insert, has_key, string_key, int_key}
use alarm_sys_linux.Common.Double.{Double}
use alarm_sys_linux.Alarms.State.{
  AlarmData, AlarmLogicConfig, Alarms, DbWrite, set_evaluation_time, TimeText,
}
use alarm_sys_linux.Alarms.Filter.{remove_alarm_filter_for_unique_id}
use alarm_sys_linux.Alarms.Tracks.{
  Track, Tracks, TrackHit, find_track_by_unique_id, effective_unique_id_from_track_hit,
}

-- `ManualConfirmTrackHint` where it is valid.
pub record TrackHint (W : Type 0) : Type 0 where
  pub is_air_track : Bool
  pub lat_degs : W
  pub lon_degs : W
  pub speed_mps : W
  pub course_deg : W

-- What the functions outside the model give: the texts and the clock.
pub record Texts (W : Type 0) : Type 0 where
  pub number : ℤ → String
  pub manual_content : ℤ → Bool → W → W → String

-- `defaultThreatScore`, or 90 where it is not positive.
unfoldable pub confirm_threat_floor : AlarmLogicConfig → ℤ
confirm_threat_floor al =
    if ltb_ℤ (pos 0) al.default_threat_score then al.default_threat_score else pos 90

-- What the loop over the rule alarms keeps: the resolved times, the writes to the database, and
-- whether an alarm of the target was met.
pub record Confirming (W : Type 0) : Type 0 where
  pub resolved : Dict String String
  pub writes : List (DbWrite W)
  pub had_rule_alarm : Bool

-- An insertion that keeps an entry that stands: the first confirmation's time stays.
unfoldable pub insert_new : ℤ → String → Dict ℤ String → Dict ℤ String
insert_new k v m = if has_key k m then m else insert k v m

unfoldable pub text_or : String → Option String → String
text_or default none = default
text_or default (some text) = text

module _ {W : Type 0} where
  unfoldable pub raise_threat : ℤ → AlarmData W → AlarmData W
  raise_threat floor ad = record ad {
    threat_score = if ltb_ℤ ad.threat_score floor then floor else ad.threat_score;
  }

  unfoldable pub resolve_alarm :
      AlarmLogicConfig → ℤ → String → ℤ → AlarmData W → Confirming W → Confirming W
  resolve_alarm al unique_id stamp now_ms ad acc =
      if has_key ad.alarm_id acc.resolved then record acc { had_rule_alarm = true } else record {
        resolved = insert ad.alarm_id stamp acc.resolved;
        writes =
            if eq_ℤ al.save_alarm_to_db (pos 0)
            then acc.writes
            else set_evaluation_time ad.alarm_id unique_id ad.threat_time_ms now_ms ∷ acc.writes;
        had_rule_alarm = true;
      }

  unfoldable pub confirm_rule_alarms :
      AlarmLogicConfig
      → ℤ
      → String
      → ℤ
      → Dict String (AlarmData W)
      → Confirming W
      → Dict String (AlarmData W) × Confirming W
  confirm_rule_alarms al unique_id stamp now_ms [] acc = ([], acc)
  confirm_rule_alarms al unique_id stamp now_ms ((k, ad) ∷ rest) acc =
      let is_target = eq_ℤ ad.unique_id unique_id in
      let confirmed =
        confirm_rule_alarms al unique_id stamp now_ms rest
          (if is_target then resolve_alarm al unique_id stamp now_ms ad acc else acc) in
      let kept = if is_target then raise_threat (confirm_threat_floor al) ad else ad in
      ((k, kept) ∷ confirmed.0, confirmed.1)

  unfoldable pub mark_confirmed : ℤ → String → Alarms W → Alarms W
  mark_confirmed unique_id now_text s = record s {
    manual_confirm_resolved_time = insert_new unique_id now_text s.manual_confirm_resolved_time;
    manual_confirmed_unique_ids = insert unique_id tt s.manual_confirmed_unique_ids;
  }

  -- The first half of the call: the filter is lifted, and the rule alarms of the target are confirmed.
  unfoldable pub lift_and_mark : TimeText → ℤ → ℤ → Alarms W → Alarms W
  lift_and_mark clock now_ms unique_id s =
      mark_confirmed unique_id (clock.to_text now_ms)
        (remove_alarm_filter_for_unique_id unique_id s)

  unfoldable pub confirm_marked : AlarmLogicConfig → ℤ → ℤ → Alarms W → Alarms W × Bool
  confirm_marked al now_ms unique_id s =
      let stamp = text_or "" (lookup unique_id s.manual_confirm_resolved_time) in
      let confirmed = confirm_rule_alarms al unique_id stamp now_ms s.alarm_data (record {
        resolved = s.alarm_identification_resolved_time;
        writes = s.db_writes;
        had_rule_alarm = false;
      }) in
      (
        record s {
          alarm_data = confirmed.0;
          alarm_identification_resolved_time = confirmed.1.resolved;
          db_writes = confirmed.1.writes;
        },
        confirmed.1.had_rule_alarm,
      )

  unfoldable pub confirm_rules : TimeText → AlarmLogicConfig → ℤ → ℤ → Alarms W → Alarms W × Bool
  confirm_rules clock al now_ms unique_id s =
      confirm_marked al now_ms unique_id (lift_and_mark clock now_ms unique_id s)

module _ {W : Type 0} ⦃d : Double W⦄ where
  unfoldable pub build_manual_alarm_data_from_track :
      (ℤ → String) → TimeText → ℤ → Track W → ℤ → ℤ → Option (AlarmData W) → AlarmData W
  build_manual_alarm_data_from_track number clock now_ms track unique_id score existing = record {
    alarm_id = append "manual-" (number unique_id);
    condition_id = "manual_confirm";
    mode_id = pos 1;
    track_id = pos 0;
    unique_id = unique_id;
    targettype = elim existing [ none ↦ pos 0 | some old ↦ old.targettype ];
    targetbehavior = pos 0;
    targetdist = d.div track.range_metres (d.of_ℤ (pos 1852));
    targetlon = track.long_degs;
    targetlat = track.lat_degs;
    targetspeed = track.speed_mps;
    targetdir = track.course_degrees;
    time = clock.to_text now_ms;
    origintime = elim existing [
      | none ↦ clock.to_text now_ms
      | some old ↦ if is_empty old.origintime then clock.to_text now_ms else old.origintime
    ];
    alarm_status = pos 0;
    alarm_count = elim existing [ none ↦ pos 1 | some old ↦ old.alarm_count +ℤ pos 1 ];
    group_id = pos 0;
    area_id = pos 0;
    threat_score =
        max_ℤ (elim existing [ none ↦ pos 0 | some old ↦ old.threat_score ])
          (if ltb_ℤ (pos 0) score then score else pos 90);
    task_status = pos 0;
    alarm_content = "";
    threat_time_ms = elim existing [
      | none ↦ now_ms
      | some old ↦ if ltb_ℤ (pos 0) old.threat_time_ms then old.threat_time_ms else now_ms
    ];
  }

  -- The track that is made of the client's hint; the other fields are 0.
  unfoldable pub track_of_hint : ℤ → ℤ → TrackHint W → TrackHit W
  track_of_hint now_sec unique_id hint = record {
    track = record {
      lat_degs = hint.lat_degs;
      long_degs = hint.lon_degs;
      speed_mps = hint.speed_mps;
      course_degrees = hint.course_deg;
      range_metres = d.of_ℤ (pos 0);
      reserved1 = pos 0;
      unique_id = if leb_ℤ unique_id (pos 4294967295) then unique_id else pos 0;
      msg_time_secs = now_sec;
      fusion_track_id = [];
      fusion_sensors = 0;
      altitude_metres = d.of_ℤ (pos 0);
      norm_id = pos 0;
      source_code = pos 0;
    };
    is_air_track = hint.is_air_track;
  }

  unfoldable pub hit_or_hint :
      ℤ → ℤ → Option (TrackHit W) → Option (TrackHint W) → Option (TrackHit W × Bool)
  hit_or_hint now_sec unique_id (some hit) hint = some (hit, false)
  hit_or_hint now_sec unique_id none (some hint) = some (track_of_hint now_sec unique_id hint, true)
  hit_or_hint now_sec unique_id none none = none

  -- The second half: a manual alarm is made of the track.
  unfoldable pub make_manual_alarm :
      Texts W → TimeText → AlarmLogicConfig → ℤ → ℤ → TrackHit W → Alarms W → Alarms W
  make_manual_alarm texts clock al now_ms unique_id hit s =
      let storage_id = effective_unique_id_from_track_hit hit unique_id in
      let lifted : Alarms W =
        if eq_ℤ storage_id unique_id then s else remove_alarm_filter_for_unique_id storage_id s in
      let marked : Alarms W = mark_confirmed storage_id (clock.to_text now_ms) lifted in
      let manual_alarm_id = append "manual-" (texts.number storage_id) in
      let alarm =
        build_manual_alarm_data_from_track texts.number clock now_ms hit.track storage_id
          al.default_threat_score (lookup manual_alarm_id marked.manual_alarm_data) in
      let content =
        texts.manual_content storage_id hit.is_air_track alarm.targetspeed alarm.targetdir in
      record marked {
        manual_alarm_data =
            insert manual_alarm_id (record alarm { alarm_content = content })
              marked.manual_alarm_data;
        manual_alarm_air_track = insert storage_id hit.is_air_track marked.manual_alarm_air_track;
      }

  -- The answer is whether the call succeeds, and its message.
  unfoldable pub confirm_alarm_by_unique_id :
      Texts W
      → TimeText
      → AlarmLogicConfig
      → ℤ
      → ℤ
      → Tracks W
      → ℤ
      → Option (TrackHint W)
      → Alarms W
      → Alarms W × Bool × String
  confirm_alarm_by_unique_id texts clock al now_ms now_sec tracks unique_id hint s =
      let (confirmed, had_rule_alarm) = confirm_rules clock al now_ms unique_id s in
      let found = hit_or_hint now_sec unique_id (find_track_by_unique_id tracks unique_id) hint in
      if leb_ℤ unique_id (pos 0)
      then (s, false, "invalid uniqueId")
      else if had_rule_alarm
      then (confirmed, true, "ok")
      else elim found [
        | none ↦ (confirmed, false, "track not found for uniqueId (not in fuse/radar map)")
        | some (hit, used_hint) ↦ (
          make_manual_alarm texts clock al now_ms unique_id hit confirmed,
          true,
          if used_hint
              then "ok (manual alarm created from client track hint)"
              else "ok (manual alarm created for dds)",
        )
      ]
