-- ===== src/Rules/Context.antt =====
-- What `updataAlarmTrackToDB` (src/dialog/alarm/TrackAlarmThread.cpp) reads: the rule (`AlarmRule`), the
-- configuration, the tables of the thread, and what the outside answers.
use alarm_sys_linux.Common.{ℕ, String, append, Bool, Option, List}
use alarm_sys_linux.Common.Int.{ℤ}
use alarm_sys_linux.Common.Dict.{Dict}
use alarm_sys_linux.Common.Text.{Text}
use alarm_sys_linux.Alarms.State.{AlarmData, AlarmLogicConfig, Alarms, TimeText}
use alarm_sys_linux.Alarms.Save.{BasePoint}
use alarm_sys_linux.Alarms.Tracks.{Track}
use alarm_sys_linux.Suspicious.{Point, BirdFilter, CheckMap}
use alarm_sys_linux.Suspicious.Areas.{AlarmArea}
use alarm_sys_linux.Threat.{ThreatAssessmentParams, ThreatAssessmentResult}

-- `AlarmRule`, by the fields that are read. The masks of bits are natural numbers: a negative one is
-- treated as 0, as by the code, which asks whether a mask is positive.
pub record AlarmRule : Type 0 where
  pub condition_id : String
  pub name : String
  pub alarmstate : ℤ
  pub track_type : ℤ
  pub speed_condition : ℤ
  pub speed : ℤ
  pub area_judge : ℤ
  pub direction : ℤ
  pub alarm_level : ℤ
  pub distance_condition : ℤ
  pub distance : ℤ
  pub targetattr_type : ℤ
  pub group_id : ℤ
  pub area_id : ℤ
  pub area_name : String
  pub height_min : ℤ
  pub height_max : ℤ
  pub course_min : ℤ
  pub course_max : ℤ
  pub blacklist_judge : ℤ
  pub whitelist_judge : ℤ
  pub affiliation_judge : ℕ
  pub corp_judge : ℤ
  pub camera_detect_type : ℕ
  pub llm_detect_type : ℕ
  pub uav_detect_type : ℕ
  pub threat_level1 : ℤ
  pub threat_level2 : ℤ
  pub dist_to_protect_area : ℤ
  pub entry_time : ℤ

-- `TargetInfoFilter`. The affiliation is one of 1 to 5.
pub record TargetInfoFilter : Type 0 where
  pub black_white_attr : ℤ
  pub affiliation_attr : ℕ
  pub corp_attr : ℤ

-- `DetectionTypeResult`, where it is found.
pub record DetectionTypeResult : Type 0 where
  pub final_target_type : String
  pub llm_target_type : String
  pub cam_target_type : String
  pub uav_target_type : String

-- The fields of `AlarmLogicConfig` that only the rules read.
pub record RuleConfig : Type 0 where
  pub al : AlarmLogicConfig
  pub birds : BirdFilter
  pub bird_radar_source_id : ℤ
  pub no_alarm_group_ids : List ℤ
  pub area_group_id_allow : List ℤ
  pub speed_double_check_fuse_track_only : ℤ
  pub mode : ℤ

-- `ThreatAssessmentParams` of an area.
pub record AreaParams (W : Type 0) : Type 0 where
  pub group_id : ℤ
  pub area_id : ℤ
  pub params : ThreatAssessmentParams W

-- What a description of an alarm is made of (`AlarmContentBuildInput`).
pub record ContentInput (W : Type 0) : Type 0 where
  pub trigger_path : String
  pub has_protect_area : Bool
  pub attack_angle : W
  pub threat_score : ℤ
  pub threat_breakdown : Option (ThreatAssessmentResult W)
  pub detection : Option DetectionTypeResult

-- The tables, the configuration, and Qt, the database and the clock as functions.
pub record Context (W R : Type 0) : Type 0 where
  pub cfg : RuleConfig
  pub base : BasePoint W
  pub fuse_track : Dict ℤ (Track W)
  pub radar_track : Dict ℤ (Track W)
  pub bird_radar_track : Dict ℤ (Track W)
  pub target_info_filter : Dict ℤ TargetInfoFilter
  pub maparea : Dict ℤ (List (AlarmArea W R))
  pub scheme_protect_areas : Dict String (ℤ × ℤ)
  pub threat_params : List (AreaParams W)
  pub text : Text
  pub split_commas : String → List String
  pub number : ℤ → String
  pub clock : TimeText
  pub now : ℤ
  -- `QRectF::contains` and `QPolygonF::containsPoint`.
  pub in_rect : R → Point W → Bool
  pub in_polygon : List (Point W) → Point W → Bool
  pub null_point : Point W
  -- `getDetectionTypesByReId`.
  pub detect : ℤ → Option DetectionTypeResult
  pub build_content : AlarmRule → ℤ → Track W → Bool → ContentInput W → String
  -- `qRound` to an `int`.
  pub q_round : W → ℤ
  -- The uuid for a new alarm of a candidate, and what the source leaves uninitialised.
  pub uuid : ℤ → String
  pub blank_alarm : AlarmData W
  pub blank_track : Track W

-- What the loop changes.
pub record RuleState (W : Type 0) : Type 0 where
  pub alarms : Alarms W
  pub speed_last_check : CheckMap
  pub area_alarm_data : Dict String (List (AlarmData W))

-- The key of an area, `"%1_%2"`.
abbrev pub area_key : (ℤ → String) → ℤ → ℤ → String
area_key number group_id area_id = append (number group_id) (append "_" (number area_id))
