-- ===== src/Service/Tables.antt =====
-- The table of alarms over any turns and requests (src/dialog/alarm/TrackAlarmThread.cpp,
-- src/AlarmHttpServer.cpp, src/customconfig.cpp).
use alarm_sys_linux.Common.{◌≡◌, ℕ, List, some}
use alarm_sys_linux.Common.Int.{ℤ}
use alarm_sys_linux.Common.Double.{Double}
use alarm_sys_linux.Common.Text.{Text}
use alarm_sys_linux.Suspicious.{Point}
use alarm_sys_linux.Suspicious.Areas.{AlarmArea, Reading}
use alarm_sys_linux.Alarms.Save.Dedup.{IsTable}
use alarm_sys_linux.Rules.Watch.Near.{Vectors}
use alarm_sys_linux.Rules.Round.Tables.{round-IsTable}
use alarm_sys_linux.Publish.{AlarmInfo}
use alarm_sys_linux.Http.Request.{Bytes, Json}
use alarm_sys_linux.Service.{
  Service, TurnInput, read_with, rule_state, turn, request, Reach, start, turned, requested,
}
use alarm_sys_linux.Service.Requests.{request-IsTable}
use alarm_sys_linux.Service.Turns.{turn_start, start-server, finish-IsTable, turn_cases}

module _ {W R V J : Type 0} ⦃d : Double W⦄ (q : Vectors W R V) (uav : Point W) (fuel : ℕ)
    (to_list : List ℤ → List ℤ) (rd : Reading W R) (blank : AlarmArea W R) where
  turn-IsTable :
      (x : TurnInput W R J) (s u : Service W) (infos : List (AlarmInfo W))
      → IsTable s.server.alarms.alarm_data
      → turn q uav fuel to_list rd blank x s ≡ some (u, infos)
      → IsTable u.server.alarms.alarm_data
  turn-IsTable x s u infos t e =
      let begin = turn_start x s in
      let (ruled, n, same) = turn_cases q uav fuel to_list rd blank x s u infos e in
      let table : IsTable begin.server.alarms.alarm_data = rw (start-server x s) t in
      let after =
        round-IsTable q uav fuel to_list rd blank (read_with x begin) x.area_list x.waring_list
          x.trails (rule_state begin) ruled table n in
      rw same (finish-IsTable x ruled.alarms after)

  -- After any turns of the alarm thread and requests of operators, in any order, the table of alarms
  -- has every alarm under its own id, and no id twice, as it had before them.
  pub Reach-IsTable :
      {B K : Type 0} (bytes : Bytes B) (json : Json B K W) (qt : Text) (s u : Service W)
      → IsTable s.server.alarms.alarm_data
      → Reach q uav fuel to_list rd blank bytes json qt J s u
      → IsTable u.server.alarms.alarm_data
  unfolding request
  Reach-IsTable bytes json qt s u t start = t
  Reach-IsTable bytes json qt s u t (turned {t = v} x infos earlier e) =
      turn-IsTable x v u infos (Reach-IsTable bytes json qt s v t earlier) e
  Reach-IsTable bytes json qt s u t (requested {t = v} env request_data earlier) =
      request-IsTable bytes json qt env v.server request_data
        (Reach-IsTable bytes json qt s v t earlier)
