-- ===== src/Service/Silence.antt =====
-- What a turn does to the alarms of a silenced target (`TrackAlarmThread::run`,
-- src/dialog/alarm/TrackAlarmThread.cpp).
use alarm_sys_linux.Common.{◌≡◌, ◌≢◌, ◌∙◌, ap, ℕ, String, true, List, some}
use alarm_sys_linux.Common.Int.{ℤ}
use alarm_sys_linux.Common.Dict.{lookup, string_key, Distinct, pair_key}
use alarm_sys_linux.Common.Double.{Double}
use alarm_sys_linux.Suspicious.{Point}
use alarm_sys_linux.Suspicious.Areas.{AlarmArea, Reading}
use alarm_sys_linux.Alarms.State.{AlarmData}
use alarm_sys_linux.Alarms.Filter.{is_unique_id_alarm_filtered}
use alarm_sys_linux.Alarms.Save.Dedup.{IsTable}
use alarm_sys_linux.Rules.Watch.Near.{Vectors}
use alarm_sys_linux.Rules.Round.Tables.{round-silenced, round-IsTable}
use alarm_sys_linux.Publish.{AlarmInfo}
use alarm_sys_linux.Service.{Service, TurnInput, read_with, rule_state, turn}
use alarm_sys_linux.Service.Turns.{turn_start, start-server, fresh_at, lookup-finish, turn_cases}

module _ {W R V J : Type 0} ⦃d : Double W⦄ (q : Vectors W R V) (uav : Point W) (fuel : ℕ)
    (to_list : List ℤ → List ℤ) (rd : Reading W R) (blank : AlarmArea W R)
    (x : TurnInput W R J) where
  -- A turn that ends leaves the alarm of a silenced target as it was, or removes it: it is gone
  -- exactly if its last time is further back than the configured span. Every alarm stands under its
  -- own id before, no filter is there twice, and the ids of new alarms are not the alarm's.
  pub turn-silenced :
      (s u : Service W) (infos : List (AlarmInfo W)) (j : String) (ad : AlarmData W)
      → IsTable s.server.alarms.alarm_data
      → Distinct s.server.alarms.alarm_filter_expire_ms
      → lookup j s.server.alarms.alarm_data ≡ some ad
      → (is_unique_id_alarm_filtered x.config.now ad.unique_id s.server.alarms).1 ≡ true
      → ((id : ℤ) → x.config.uuid id ≢ j)
      → turn q uav fuel to_list rd blank x s ≡ some (u, infos)
      → lookup j u.server.alarms.alarm_data ≡ fresh_at x (some ad)
  turn-silenced s u infos j ad t f e silenced new done =
      let begin = turn_start x s in
      let same = start-server x s in
      let (ruled, n, after) = turn_cases q uav fuel to_list rd blank x s u infos done in
      let table : IsTable begin.server.alarms.alarm_data = rw same t in
      let kept =
        round-silenced q uav fuel to_list rd blank (read_with x begin) x.area_list x.waring_list
          x.trails (rule_state begin) ruled j ad table (rw same f) (rw same e) (rw same silenced)
          new n in
      let next =
        round-IsTable q uav fuel to_list rd blank (read_with x begin) x.area_list x.waring_list
          x.trails (rule_state begin) ruled table n in
      rw after (lookup-finish x ruled.alarms j next ∙ ap (fresh_at x) kept)
