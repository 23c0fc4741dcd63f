-- ===== src/Service/Turns.antt =====
-- What a turn of the loop in `run` (src/dialog/alarm/TrackAlarmThread.cpp) is made of: a round of the
-- rules, the event, and the pruning.
use alarm_sys_linux.Common.{◌≡◌, refl, ℕ, String, Option, some, List, arith, Option-cases, inl, inr}
use alarm_sys_linux.Common.Int.{ℤ}
use alarm_sys_linux.Common.Dict.{lookup, string_key}
use alarm_sys_linux.Common.Double.{Double}
use alarm_sys_linux.Suspicious.{Point}
use alarm_sys_linux.Suspicious.Areas.{AlarmArea, Reading}
use alarm_sys_linux.Alarms.State.{AlarmData, Alarms}
use alarm_sys_linux.Alarms.Save.Dedup.{IsTable}
use alarm_sys_linux.Alarms.Prune.Stale.{fresh, lookup-prune_alarms, prune_alarms-IsTable}
use alarm_sys_linux.Rules.Context.{RuleState}
use alarm_sys_linux.Rules.Watch.Near.{Vectors}
use alarm_sys_linux.Rules.Round.{process_alarms}
use alarm_sys_linux.Publish.{AlarmInfo}
use alarm_sys_linux.Publish.Event.{send_all_alarm_event_msg}
use alarm_sys_linux.Publish.Unchanged.{send-alarm_data}
use alarm_sys_linux.Service.{
  Service, TurnInput, clear_speed_checks, refresh_filters, rule_state, read_with, after_rules,
  finish_turn, turn,
}

module _ {W R J : Type 0} ⦃d : Double W⦄ (x : TurnInput W R J) where
  abbrev pub turn_start : Service W → Service W
  turn_start s = refresh_filters x (clear_speed_checks x.now_ms s)

  pub start-server : (s : Service W) → (turn_start s).server ≡ s.server
  unfolding refresh_filters clear_speed_checks
  start-server s = ground arith

  pub finish-IsTable :
      (alarms : Alarms W) → IsTable alarms.alarm_data → IsTable (finish_turn x alarms).0.alarm_data
  unfolding finish_turn
  finish-IsTable alarms t =
      let sent : Alarms W = (send_all_alarm_event_msg x.publisher alarms).0 in
      let same : IsTable sent.alarm_data = rw (send-alarm_data x.publisher alarms) t in
      ground
        (arith, same, prune_alarms-IsTable x.config.clock x.config.cfg.al x.config.now sent same)

  abbrev pub fresh_at : Option (AlarmData W) → Option (AlarmData W)
  fresh_at = fresh x.config.clock x.config.cfg.al x.config.now

  pub lookup-finish :
      (alarms : Alarms W) (j : String)
      → IsTable alarms.alarm_data
      → lookup j (finish_turn x alarms).0.alarm_data ≡ fresh_at (lookup j alarms.alarm_data)
  unfolding finish_turn lookup
  lookup-finish alarms j t =
      let sent : Alarms W = (send_all_alarm_event_msg x.publisher alarms).0 in
      let same = send-alarm_data x.publisher alarms in
      let table : IsTable sent.alarm_data = rw same t in
      let pruned = lookup-prune_alarms x.config.clock x.config.cfg.al x.config.now sent j table in
      ground (arith, same, pruned)

module _ {W R V J : Type 0} ⦃d : Double W⦄ (q : Vectors W R V) (uav : Point W) (fuel : ℕ)
    (to_list : List ℤ → List ℤ) (rd : Reading W R) (blank : AlarmArea W R)
    (x : TurnInput W R J) where
  -- A turn that ends has a round of the rules that ends.
  pub turn_cases :
      (s u : Service W) (infos : List (AlarmInfo W))
      → turn q uav fuel to_list rd blank x s ≡ some (u, infos)
      → (ruled : RuleState W) × (process_alarms q uav fuel to_list rd blank
            (read_with x (turn_start x s))
            x.area_list
            x.waring_list
            x.trails
            (rule_state (turn_start x s))
          ≡ some ruled)
        × (u.server.alarms ≡ (finish_turn x ruled.alarms).0)
  unfolding turn
  turn_cases s u infos e =
      let start = turn_start x s in
      elim (Option-cases (
        process_alarms q uav fuel to_list rd blank (read_with x start) x.area_list x.waring_list
          x.trails (rule_state start))) [
            | inl n ↦ absurd (ground (arith, e, n))
            | inr (ruled, n) ↦
                let same : (after_rules x start ruled).0 ≡ u = ground (arith, e, n) in
                (ruled, n, rw (← same) refl)
          ]
