-- ===== src/Publish.antt =====
-- The publishing of alarms (`SendAllAlarmEventMsg` and its helpers, src/customconfig.cpp): what the event
-- says of each alarm and each target. Publish.Rank orders the alarms by their score, Publish.Sync brings
-- the manual alarms up to date before, and Publish.Event makes the event.
pub mod Rank
pub mod Sync
pub mod Event
pub mod Levels
pub mod Silence
pub mod Unchanged
pub mod Quiet
pub mod Pushes
pub mod Manual
pub mod Tests
use alarm_sys_linux.Common.{
  ℕ, ◌%◌, ◌^◌, String, append, Bool, true, false, not, ◌&&◌, ◌||◌, Option, none, some, List, [],
  ◌∷◌, str_eq, find_first, if◌then◌else◌,
}
use alarm_sys_linux.Common.Int.{ℤ, pos, negsuc, ◌-ℤ◌, eq_ℤ, leb_ℤ, ltb_ℤ}
use alarm_sys_linux.Common.Dict.{Dict, lookup, string_key}
use alarm_sys_linux.Alarms.State.{AlarmData, AlarmLogicConfig, TimeText}
use alarm_sys_linux.Alarms.Tracks.{Tracks}
use alarm_sys_linux.Identification.{Sources, RuleSub}
use alarm_sys_linux.Rules.Context.{AlarmRule}

-- `AlarmStatus`, `TrackType` and `AlarmTaskStatus` of the event.
pub data AlarmStatus : Type 0 where
  active : AlarmStatus
  focus : AlarmStatus
  deleted : AlarmStatus

pub data TrackType : Type 0 where
  bird : TrackType
  fuse : TrackType

pub data TaskStatus : Type 0 where
  unassigned : TaskStatus
  assigned : TaskStatus
  verify_failed : TaskStatus
  verify_success : TaskStatus

-- `AlarmInfo`, with the parts of its position, target box and track. The mmsi is set for alarms only.
pub record AlarmInfo (W : Type 0) : Type 0 where
  pub status : AlarmStatus
  pub alarm_rule_id : List String
  pub alarm_id : String
  pub task_status : TaskStatus
  pub alarm_content : String
  pub alarm_level : ℤ
  pub area_id : String
  pub area_name : String
  pub track_id : String
  pub class_id : ℤ
  pub behavior_id : ℤ
  pub longitude : W
  pub latitude : W
  pub altitude : W
  pub update_time : String
  pub resolved_time : Option String
  pub legacy_track_id : ℤ
  pub mmsi : Option ℤ
  pub course : W
  pub speed : W
  pub track_type : TrackType

-- What the publisher reads: the configuration, the tables of tracks and rules, and the rules of
-- identification with their sources, which hold the clock's reading and Qt's texts.
pub record Publisher (W J : Type 0) : Type 0 where
  pub al : AlarmLogicConfig
  pub tracks : Tracks W
  pub alarm_rule : Dict String AlarmRule
  pub sources : Sources J
  pub area_rule_ids : Dict String (List String)
  pub identification_rules : Dict String (List RuleSub)
  pub to_long_long : String → Option ℤ
  pub manual_content : ℤ → Bool → W → W → String

-- The 31 low bits of an id that is above them all, and 0 for one that is not positive.
abbrev pub low_31 : ℤ → ℤ
low_31 (ℤ.pos n) = if leb_ℤ (pos n) (pos 2147483647) then pos n else pos (n % 2 ^ 31)
low_31 (ℤ.negsuc n) = pos 0

unfoldable pub legacy_dds_track_id : ℤ → ℤ
legacy_dds_track_id target_id = low_31 target_id

module _ {W J : Type 0} (p : Publisher W J) where
  -- The rule's kind of track, 0 for a rule that is not known.
  unfoldable pub is_air_rule : String → Bool
  is_air_rule condition_id = elim (lookup condition_id p.alarm_rule) [
    | none ↦ false
    | some rule ↦ ltb_ℤ (pos 0) rule.track_type
  ]

  -- The name of the area, of the first rule for it.
  unfoldable pub area_name_of : ℤ → ℤ → Dict String AlarmRule → String
  area_name_of group_id area_id [] = ""
  area_name_of group_id area_id ((_, rule) ∷ rest) =
      if eq_ℤ rule.area_id area_id && eq_ℤ rule.group_id group_id
      then rule.area_name
      else area_name_of group_id area_id rest

unfoldable pub status_of : ℤ → AlarmStatus
status_of alarm_status =
    if eq_ℤ alarm_status (pos 1)
    then focus
    else if eq_ℤ alarm_status (pos 2)
    then deleted
    else active

unfoldable pub task_status_of : ℤ → TaskStatus
task_status_of task_status =
    if eq_ℤ task_status (pos 0)
    then unassigned
    else if eq_ℤ task_status (pos 1)
    then assigned
    else if eq_ℤ task_status (pos 2)
    then verify_failed
    else verify_success
