-- ===== src/Service.antt =====
-- The alarm thread (`TrackAlarmThread::run`, src/dialog/alarm/TrackAlarmThread.cpp) and the requests of
-- operators (src/AlarmHttpServer.cpp) over the same tables of alarms. A turn of the loop in `run` is one
-- step, and so is a request.
pub mod Requests
pub mod Turns
pub mod Tables
pub mod Silence
mod Tests
use alarm_sys_linux.Common.{
  ℕ, String, Bool, Option, none, some, List, [], ◌∷◌, ◌≡◌, is_nil, if◌then◌else◌,
}
use alarm_sys_linux.Common.Int.{ℤ, pos, ◌-ℤ◌, eq_ℤ, leb_ℤ}
use alarm_sys_linux.Common.Dict.{Dict}
use alarm_sys_linux.Common.Double.{Double}
use alarm_sys_linux.Common.Text.{Text}
use alarm_sys_linux.Suspicious.{CheckMap, Point}
use alarm_sys_linux.Suspicious.Areas.{AlarmArea, AreaInfo, Reading}
use alarm_sys_linux.Alarms.State.{AlarmData, Alarms}
use alarm_sys_linux.Alarms.Prune.{prune_alarms}
use alarm_sys_linux.Rules.Context.{AlarmRule, Context, RuleState, TargetInfoFilter}
use alarm_sys_linux.Rules.Watch.{Trails}
use alarm_sys_linux.Rules.Watch.Near.{Vectors}
use alarm_sys_linux.Rules.Round.{process_alarms}
use alarm_sys_linux.Publish.{Publisher, AlarmInfo}
use alarm_sys_linux.Publish.Event.{send_all_alarm_event_msg}
use alarm_sys_linux.Http.{Server, Env, handle_client_request}
use alarm_sys_linux.Http.Request.{Bytes, Json}

-- What the thread and the requests change. `m_lastSpeedCheckMapClearMs` is 0 at the start.
pub record Service (W : Type 0) : Type 0 where
  pub server : Server W
  pub speed_last_check : CheckMap
  pub area_alarm_data : Dict String (List (AlarmData W))
  pub target_info_filter : Dict ℤ TargetInfoFilter
  pub last_clear_ms : ℤ

-- What a turn reads: the tables of tracks and the configuration, the rules, the trails, what the event
-- is made of, the clock, and the filters of targets in the database.
pub record TurnInput (W R J : Type 0) : Type 0 where
  pub config : Context W R
  pub area_list : List AreaInfo
  pub waring_list : List AlarmRule
  pub trails : Trails W
  pub publisher : Publisher W J
  pub now_ms : ℤ
  pub refresh_each_loop : Bool
  pub db_target_info_filter : Dict ℤ TargetInfoFilter

module _ {W : Type 0} where
  -- The passed judgements of speeds are forgotten every half an hour.
  unfoldable pub clear_speed_checks : ℤ → Service W → Service W
  clear_speed_checks now_ms s =
      if eq_ℤ s.last_clear_ms (pos 0)
      then record s { last_clear_ms = now_ms }
      else if leb_ℤ (pos 1800000) (now_ms -ℤ s.last_clear_ms)
      then record s { speed_last_check = []; last_clear_ms = now_ms }
      else s

  unfoldable pub refresh_filters : {R J : Type 0} → TurnInput W R J → Service W → Service W
  refresh_filters x s =
      if x.refresh_each_loop then record s { target_info_filter = x.db_target_info_filter } else s

  abbrev pub rule_state : Service W → RuleState W
  rule_state s = record {
    alarms = s.server.alarms;
    speed_last_check = s.speed_last_check;
    area_alarm_data = s.area_alarm_data;
  }

  abbrev pub with_alarms : Alarms W → Service W → Service W
  with_alarms alarms s = record s { server = record s.server { alarms = alarms } }

module _ {W : Type 0} ⦃d : Double W⦄ where
  unfoldable pub request :
      {B K : Type 0} → Bytes B → Json B K W → Text → Env W → B → Service W → Service W
  request bytes json qt env request_data s = record s {
    server = (handle_client_request bytes json qt env s.server request_data).0;
  }

module _ {W R J : Type 0} ⦃d : Double W⦄ (x : TurnInput W R J) where
  -- The event is sent, and where there are alarms the old ones leave the table.
  unfoldable pub finish_turn : Alarms W → Alarms W × List (AlarmInfo W)
  finish_turn alarms =
      let (sent, infos) = send_all_alarm_event_msg x.publisher alarms in
      let pruned = prune_alarms x.config.clock x.config.cfg.al x.config.now sent in
      (if is_nil sent.alarm_data then sent else pruned, infos)

  abbrev pub read_with : Service W → Context W R
  read_with s = record x.config { target_info_filter = s.target_info_filter }

  abbrev pub after_rules : Service W → RuleState W → Service W × List (AlarmInfo W)
  after_rules s ruled =
      let (alarms, infos) = finish_turn ruled.alarms in
      (
        record (with_alarms alarms s) {
          speed_last_check = ruled.speed_last_check;
          area_alarm_data = ruled.area_alarm_data;
        },
        infos,
      )

module _ {W R V : Type 0} ⦃d : Double W⦄ (q : Vectors W R V) (uav : Point W) (fuel : ℕ)
    (to_list : List ℤ → List ℤ) (rd : Reading W R) (blank : AlarmArea W R) where
  -- The body of the loop in `run`, with the event that is sent; none where `processAlarms` has no
  -- answer.
  unfoldable pub turn :
      {J : Type 0} → TurnInput W R J → Service W → Option (Service W × List (AlarmInfo W))
  turn x s =
      let start = refresh_filters x (clear_speed_checks x.now_ms s) in
      elim (process_alarms q uav fuel to_list rd blank (read_with x start) x.area_list x.waring_list
        x.trails (rule_state start)) [ none ↦ none | some ruled ↦ some (after_rules x start ruled) ]

  -- Turns and requests in any order, from one state to a later one.
  pub data Reach {B K : Type 0} (bytes : Bytes B) (json : Json B K W) (qt : Text) (J : Type 0)
      (s : Service W) : Service W → Type 0 where
    start : Reach bytes json qt J s s
    turned :
        {t u : Service W} (x : TurnInput W R J) (infos : List (AlarmInfo W))
        → Reach bytes json qt J s t
        → turn x t ≡ some (u, infos)
        → Reach bytes json qt J s u
    requested :
        {t : Service W} (env : Env W) (request_data : B)
        → Reach bytes json qt J s t
        → Reach bytes json qt J s (request bytes json qt env request_data t)
