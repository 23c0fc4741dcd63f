-- ===== src/Alarms/Save.antt =====
-- `TrackAlarmThread::SaveToDB` (src/dialog/alarm/TrackAlarmThread.cpp): an alarm of a target is either
-- a repetition of one that is in the table, which is refreshed, or new. The clock is read once for a
-- call, and the fresh uuid is an argument.
pub mod Dedup
pub mod Repeat
use alarm_sys_linux.Common.{
  ℕ, ◌+◌, ◌*◌, String, Bool, true, false, not, ◌&&◌, ◌||◌, Option, none, some, List, [], ◌∷◌, ◌++◌,
  str_eq, is_empty, if◌then◌else◌,
}
use alarm_sys_linux.Common.Int.{ℤ, pos, ◌+ℤ◌, ◌-ℤ◌, eq_ℤ, leb_ℤ, ltb_ℤ}
use alarm_sys_linux.Common.Dict.{Dict, insert, string_key}
use alarm_sys_linux.Common.Double.{Double}
use alarm_sys_linux.Geometry.{get_distance, get_angle2}
use alarm_sys_linux.Alarms.State.{
  AlarmData, AlarmLogicConfig, Alarms, DbWrite, add_alarm, update_alarm, TimeText, epoch_ms,
}
use alarm_sys_linux.Alarms.Filter.{is_unique_id_alarm_filtered}

-- The arguments of the call: those of the rule that are read, and the target's state.
pub record Candidate (W : Type 0) : Type 0 where
  pub condition_id : String
  pub group_id : ℤ
  pub area_id : ℤ
  pub target_id : ℤ
  pub lat : W
  pub lon : W
  pub speed : W
  pub dir : W
  pub dis : W
  pub threat_score : ℤ
  pub timestamp_sec : ℤ
  pub radar_source_id : ℤ
  pub alarm_content : String

-- The base point of `BasicConfig`.
pub record BasePoint (W : Type 0) : Type 0 where
  pub use_base_point : ℤ
  pub lon : W
  pub lat : W

abbrev pub ms_of_sec : ℤ → ℤ
ms_of_sec (ℤ.pos n) = ℤ.pos (n * 1000)
ms_of_sec (ℤ.negsuc n) = ℤ.negsuc (n * 1000 + 999)

module _ {W : Type 0} ⦃d : Double W⦄ where
  unfoldable pub matches_dedup_key : AlarmLogicConfig → Candidate W → AlarmData W → Bool
  matches_dedup_key al c ad =
      if not (eq_ℤ al.dedup_match_condition_and_track (pos 0))
      then str_eq ad.condition_id c.condition_id && eq_ℤ ad.unique_id c.target_id
      else eq_ℤ ad.unique_id c.target_id

  -- The search of the table, in the order of its keys, for an alarm that the candidate repeats.
  unfoldable pub find_duplicate :
      TimeText
      → AlarmLogicConfig
      → ℤ
      → Candidate W
      → Dict String (AlarmData W)
      → Option (AlarmData W)
  find_duplicate clock al now c [] = none
  find_duplicate clock al now c ((_, ad) ∷ rest) =
      let age_ms = now -ℤ epoch_ms clock ad.time in
      if matches_dedup_key al c ad && ltb_ℤ age_ms al.dedup_same_alarm_window_ms
      then some ad
      else find_duplicate clock al now c rest

  unfoldable pub target_dist : BasePoint W → Candidate W → W
  target_dist b c =
      if eq_ℤ b.use_base_point (pos 1)
      then d.div (get_distance c.lon c.lat b.lon b.lat) (d.of_ℤ (pos 1852))
      else d.div c.dis (d.of_ℤ (pos 1852))

  unfoldable pub target_dir : BasePoint W → Candidate W → W
  target_dir b c =
      if eq_ℤ b.use_base_point (pos 1) then get_angle2 c.lat c.lon b.lat b.lon else c.dir

  -- The time of the threat, of which `buildOriginTime` makes a text.
  unfoldable pub threat_time : AlarmLogicConfig → ℤ → Candidate W → ℤ
  threat_time al now c =
      if eq_ℤ al.origin_time_from_track_msg (pos 0)
      then now
      else if not (eq_ℤ al.origin_track_time_is_ms (pos 0))
      then c.timestamp_sec
      else ms_of_sec c.timestamp_sec

  -- The new record. `blank` holds what the source leaves uninitialised: the target's type, if the
  -- radar source is 0, and its behaviour.
  unfoldable pub new_alarm :
      TimeText
      → AlarmLogicConfig
      → BasePoint W
      → ℤ
      → String
      → AlarmData W
      → Candidate W
      → AlarmData W
  new_alarm clock al b now uuid blank c = record blank {
    alarm_id = uuid;
    condition_id = c.condition_id;
    mode_id = pos 1;
    track_id = pos 0;
    unique_id = c.target_id;
    targettype = if eq_ℤ c.radar_source_id (pos 0) then blank.targettype else c.radar_source_id;
    targetdist = target_dist b c;
    targetlon = c.lon;
    targetlat = c.lat;
    targetspeed = c.speed;
    targetdir = target_dir b c;
    time = clock.to_text now;
    origintime = clock.to_text (threat_time al now c);
    alarm_status = pos 0;
    alarm_count = pos 1;
    group_id = c.group_id;
    area_id = c.area_id;
    threat_score = c.threat_score;
    task_status = pos 0;
    alarm_content = c.alarm_content;
    threat_time_ms = threat_time al now c;
  }

  unfoldable pub refreshed_alarm :
      TimeText → BasePoint W → ℤ → Candidate W → AlarmData W → AlarmData W
  refreshed_alarm clock b now c old = record old {
    unique_id = c.target_id;
    track_id = pos 0;
    targettype = if eq_ℤ c.radar_source_id (pos 0) then old.targettype else c.radar_source_id;
    targetdist = target_dist b c;
    targetlon = c.lon;
    targetlat = c.lat;
    targetspeed = c.speed;
    targetdir = target_dir b c;
    time = clock.to_text now;
    alarm_count = old.alarm_count +ℤ pos 1;
    group_id = c.group_id;
    area_id = c.area_id;
    threat_score = c.threat_score;
    alarm_content = if is_empty c.alarm_content then old.alarm_content else c.alarm_content;
  }

  unfoldable pub add_new : AlarmLogicConfig → AlarmData W → Alarms W → Alarms W
  add_new al alarm s = record s {
    alarm_data = insert alarm.alarm_id alarm s.alarm_data;
    db_writes =
        if eq_ℤ al.save_alarm_to_db (pos 0) then s.db_writes else add_alarm alarm ∷ s.db_writes;
  }

  unfoldable pub refresh : AlarmLogicConfig → AlarmData W → Alarms W → Alarms W
  refresh al alarm s =
      if eq_ℤ alarm.alarm_status (pos 0)
      then record s {
        list_alarm_data = s.list_alarm_data ++ alarm ∷ [];
        alarm_data = insert alarm.alarm_id alarm s.alarm_data;
        db_writes =
            if eq_ℤ al.save_alarm_to_db (pos 0)
            then s.db_writes
            else update_alarm alarm.alarm_id alarm ∷ s.db_writes;
      }
      else record s { alarm_data = insert alarm.alarm_id alarm s.alarm_data }

  unfoldable pub save_candidate :
      TimeText
      → AlarmLogicConfig
      → BasePoint W
      → ℤ
      → String
      → AlarmData W
      → Candidate W
      → Alarms W
      → Option (AlarmData W)
      → Alarms W
  unfolding add_new refresh
  save_candidate clock al b now uuid blank c s none =
      add_new al (new_alarm clock al b now uuid blank c) s
  save_candidate clock al b now uuid blank c s (some old) =
      refresh al (refreshed_alarm clock b now c old) s

  unfoldable pub save_to_db :
      TimeText
      → AlarmLogicConfig
      → BasePoint W
      → ℤ
      → String
      → AlarmData W
      → Candidate W
      → Alarms W
      → Alarms W
  unfolding save_candidate
  save_to_db clock al b now uuid blank c s =
      let (checked, filtered) = is_unique_id_alarm_filtered now c.target_id s in
      let saved =
        save_candidate clock al b now uuid blank c checked
          (find_duplicate clock al now c checked.alarm_data) in
      if leb_ℤ c.target_id (pos 0) then s else if filtered then checked else saved
