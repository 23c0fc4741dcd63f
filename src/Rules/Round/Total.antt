-- ===== src/Rules/Round/Total.antt =====
-- A round with trails that are long enough returns (`processAlarms`,
-- src/dialog/alarm/TrackAlarmThread.cpp).
use alarm_sys_linux.Common.{
  ◌≡◌, ◌⊎◌, inl, inr, ℕ, ◌<◌, some, List, [], ◌∷◌, arith, All, Bool-cases, Option-cases, length,
}
use alarm_sys_linux.Common.Int.{ℤ, pos, eq_ℤ}
use alarm_sys_linux.Common.Dict.{Dict, int_key}
use alarm_sys_linux.Common.Double.{Double}
use alarm_sys_linux.Suspicious.{Point}
use alarm_sys_linux.Suspicious.Areas.{AreaInfo, AlarmArea, Reading}
use alarm_sys_linux.Rules.Areas.{get_alarm_area, area_of_rule, watched_rules}
use alarm_sys_linux.Rules.Context.{AlarmRule, Context, RuleState}
use alarm_sys_linux.Rules.Watch.{Trails}
use alarm_sys_linux.Rules.Watch.Near.{Vectors}
use alarm_sys_linux.Rules.Round.{round_trails, process_alarms}
use alarm_sys_linux.Rules.Round.Copies.{copy_trails-IsSteady, length-copy_trails-le}
use alarm_sys_linux.Rules.Round.Ends.{AreSteady, IsNotEntering}
use alarm_sys_linux.Rules.Round.Rest.{rules_end}

module _ {W R : Type 0} (blank : AlarmArea W R) (maparea : Dict ℤ (List (AlarmArea W R))) where
  watched_rules-All :
      (P : AlarmRule → Type 0) (waring_list : List AlarmRule)
      → All P waring_list
      → All (λ (e : AlarmRule × AlarmArea W R). P e.0) (watched_rules blank maparea waring_list)
  unfolding watched_rules
  watched_rules-All P [] h = tt
  watched_rules-All P (info ∷ rest) h =
      let later = watched_rules-All P rest h.1 in
      elim (Bool-cases (eq_ℤ info.alarmstate (pos 0))) [
        | inl off ↦ rw (off, watched_rules) later
        | inr on ↦ elim (Option-cases (area_of_rule blank maparea info)) [
          | inl e ↦ rw (on, e, watched_rules) tt
          | inr (area, e) ↦ rw (on, e, watched_rules) (h.0, later)
        ]
      ]

module _ {W R V : Type 0} ⦃d : Double W⦄ (q : Vectors W R V) (uav : Point W) (fuel : ℕ)
    (to_list : List ℤ → List ℤ) (rd : Reading W R) (blank : AlarmArea W R)
    (config : Context W R) where
  round_trails-AreSteady :
      (ctx : Context W R) (t : Trails W)
      → AreSteady ctx t
      → AreSteady ctx (round_trails q uav fuel to_list ctx t)
  unfolding round_trails
  round_trails-AreSteady ctx t h = record {
    fused = copy_trails-IsSteady t.fuse_trail ctx.fuse_track h.fused;
    radar = copy_trails-IsSteady t.radar_trail ctx.radar_track h.radar;
    birds = copy_trails-IsSteady t.bird_radar_trail ctx.bird_radar_track h.birds;
    ais = h.ais;
  }

  -- A round returns, reading no trail past its end, if every track has a trail and every trail has at
  -- least ten points, and if there are no birds or no rule about fused tracks that enter an area. One
  -- turn more than there are fused tracks is enough.
  pub round-returns :
      (area_list : List AreaInfo) (waring_list : List AlarmRule) (t : Trails W) (s : RuleState W)
      → AreSteady config t
      → length config.fuse_track < fuel
      → All (λ info. (config.bird_radar_track ≡ []) ⊎ IsNotEntering info) waring_list
      → (after : RuleState W) × (process_alarms q uav fuel to_list rd blank config area_list
            waring_list t s
          ≡ some after)
  unfolding process_alarms round_trails
  round-returns area_list waring_list t s h enough may =
      let ctx : Context W R = record config { maparea = get_alarm_area rd area_list } in
      let start = round_trails q uav fuel to_list ctx t in
      let same : AreSteady ctx t = record {
        fused = h.fused;
        radar = h.radar;
        birds = h.birds;
        ais = h.ais;
      } in
      let steady = round_trails-AreSteady ctx t same in
      let may_watched =
        watched_rules-All blank ctx.maparea
          (λ info. (config.bird_radar_track ≡ []) ⊎ IsNotEntering info) waring_list may in
      let short : length start.fuse_trail < fuel =
        omega (arith, length-copy_trails-le t.fuse_trail config.fuse_track) in
      let watched = watched_rules blank ctx.maparea waring_list in
      let (after, e) = rules_end ctx start steady q uav fuel to_list watched s short may_watched in
      (after, rw (e, process_alarms))
