-- ===== src/Rules/Round/Kept.antt =====
-- What every update of a rule keeps, a round keeps (`processAlarms`,
-- src/dialog/alarm/TrackAlarmThread.cpp).
use alarm_sys_linux.Common.{
  inl, inr, ℕ, Bool, Option, none, some, List, [], ◌∷◌, arith, Bool-cases, Option-cases, is_nil,
}
use alarm_sys_linux.Common.Int.{ℤ, pos}
use alarm_sys_linux.Common.Dict.{string_key, int_key, pair_key}
use alarm_sys_linux.Common.Double.{Double}
use alarm_sys_linux.Suspicious.{Point}
use alarm_sys_linux.Suspicious.Areas.{AlarmArea}
use alarm_sys_linux.Rules.Context.{AlarmRule, Context, RuleState}
use alarm_sys_linux.Rules.Update.{updata_alarm_track_to_db}
use alarm_sys_linux.Rules.Watch.{Trails, update_found}
use alarm_sys_linux.Rules.Watch.Stay.{stay_search, apply_stay}
use alarm_sys_linux.Rules.Watch.Enter.{
  enter_fuse, enter_birds, enter_trails, entering, enter_fused, enter_rule, apply_enter,
}
use alarm_sys_linux.Rules.Watch.Leave.{leave_search, apply_leave}
use alarm_sys_linux.Rules.Watch.Near.{Vectors, near_search, apply_near}
use alarm_sys_linux.Rules.Watch.Fast.{speed_search, apply_speed}
use alarm_sys_linux.Rules.Watch.Routes.{route_search, apply_route, moves_away, comes_closer}
use alarm_sys_linux.Rules.Watch.Around.{
  apply_everywhere, apply_crossed, apply_around, everywhere_search, around_search, crossed_search,
  fits_distance, fits_margin,
}
use alarm_sys_linux.Rules.Round.{in_same_trails, apply_in_area, apply_rule, apply_rules}

-- A fact about the answer, if there is one.
abbrev pub Holds {ℓ} : {A : Type ℓ} → (A → Type 0) → Option A → Type 0
Holds P none = Unit {0}
Holds P (some a) = P a

module _ {W R V : Type 0} ⦃d : Double W⦄ (q : Vectors W R V) (uav : Point W) (fuel : ℕ)
    (to_list : List ℤ → List ℤ) (ctx : Context W R) (Q : RuleState W → Type 0)
    (keep : (info : AlarmRule) (type source : ℤ) (ids : List ℤ) (s : RuleState W)
      → Q s
      → Q (updata_alarm_track_to_db ctx info type source ids s)) where
  update_found-Kept :
      (info : AlarmRule) (type source : ℤ) (ids : List ℤ) (s : RuleState W)
      → Q s
      → Q (update_found ctx to_list info type source ids s)
  unfolding update_found
  update_found-Kept info type source ids s h = elim (Bool-cases (is_nil ids)) [
    | inl e ↦ rw e h
    | inr e ↦ rw e (keep info type source (to_list ids) s h)
  ]

  abbrev pub Kept : Option (Trails W × RuleState W) → Type 0
  Kept = Holds (λ state. Q state.1)

  stay-Kept :
      (info : AlarmRule) (area : AlarmArea W R) (t : Trails W) (s : RuleState W)
      → Q s
      → Kept (apply_stay ctx info area to_list t s)
  unfolding apply_stay
  stay-Kept info area t s h = elim (Option-cases (stay_search ctx info area t)) [
    | inl e ↦ rw (e, apply_stay) tt
    | inr ((ids, type, source), e) ↦ rw (e, apply_stay) (update_found-Kept info type source ids s h)
  ]

  entering-Kept :
      (info : AlarmRule) (area : AlarmArea W R) (type : ℤ) (found : Option (List ℤ))
      (s : RuleState W)
      → Q s
      → Holds Q (entering ctx info area to_list type found s)
  unfolding entering
  entering-Kept info area type none s h = tt
  entering-Kept info area type (some ids) s h = update_found-Kept info type (pos 0) ids s h

  enter_fused-Kept :
      (info : AlarmRule) (area : AlarmArea W R) (fused birds : Option (List ℤ)) (s : RuleState W)
      → Q s
      → Holds Q (enter_fused ctx info area to_list fused birds s)
  unfolding enter_fused entering
  enter_fused-Kept info area none birds s h = tt
  enter_fused-Kept info area (some ids) none s h = tt
  enter_fused-Kept info area (some ids) (some found) s h =
      let first = update_found ctx to_list info (pos 0) (pos 0) ids s in
      update_found-Kept info (pos 1) (pos 0) found first
        (update_found-Kept info (pos 0) (pos 0) ids s h)

  enter_rule-Kept :
      (info : AlarmRule) (area : AlarmArea W R) (t : Trails W) (s : RuleState W)
      → Q s
      → Holds Q (enter_rule ctx info area fuel to_list t s)
  unfolding enter_rule
  enter_rule-Kept info area t s h =
      let fused = enter_fuse ctx info area fuel t.fuse_trail [] in
      let birds = enter_birds ctx info area t.bird_radar_trail in
      ground (
        arith,
        h,
        enter_fused-Kept info area fused birds s h,
        entering-Kept info area (pos 1) (enter_trails ctx info area t.radar_trail) s h,
        entering-Kept info area (pos 2) (enter_trails ctx info area t.ais_trail) s h,
      )

  enter-Kept :
      (info : AlarmRule) (area : AlarmArea W R) (t : Trails W) (s : RuleState W)
      → Q s
      → Kept (apply_enter ctx info area fuel to_list t s)
  unfolding apply_enter
  enter-Kept info area t s h =
      let k = enter_rule-Kept info area t s h in
      elim (Option-cases (enter_rule ctx info area fuel to_list t s)) [
        | inl e ↦ rw (e, apply_enter) tt
        | inr (after, e) ↦ rw (e, apply_enter) (rw e at k)
      ]

  same_trails-Kept :
      (t : Trails W) (o : Option (RuleState W))
      → Holds Q o
      → Kept (in_same_trails q uav fuel to_list t o)
  same_trails-Kept t none h = tt
  same_trails-Kept t (some s) h = h

  leave-Kept :
      (info : AlarmRule) (area : AlarmArea W R) (t : Trails W) (s : RuleState W)
      → Q s
      → Holds Q (apply_leave ctx area to_list info t s)
  unfolding apply_leave
  leave-Kept info area t s h = elim (Option-cases (leave_search ctx area info t)) [
    | inl e ↦ rw (e, apply_leave) tt
    | inr (ids, e) ↦ rw (e, apply_leave) (update_found-Kept info info.track_type (pos 0) ids s h)
  ]

  route-Kept :
      (info : AlarmRule) (area : AlarmArea W R) (moves : W → W → Bool) (short : Option (List ℤ))
      (t : Trails W) (s : RuleState W)
      → Q s
      → Holds Q (apply_route q ctx area to_list info moves short t s)
  unfolding apply_route
  route-Kept info area moves short t s h =
      elim (Option-cases (route_search q ctx area info moves short t)) [
        | inl e ↦ rw (e, apply_route) tt
        | inr (ids, e) ↦
            rw (e, apply_route) (update_found-Kept info info.track_type (pos 0) ids s h)
      ]

  in_area-Kept :
      (info : AlarmRule) (area : AlarmArea W R) (t : Trails W) (s : RuleState W)
      → Q s
      → Kept (apply_in_area q uav fuel to_list ctx info area (t, s))
  unfolding apply_in_area apply_near apply_speed
  in_area-Kept info area t s h =
      let type = info.track_type in
      let away = apply_route q ctx area to_list info (moves_away q) (some []) t s in
      let closer = apply_route q ctx area to_list info (comes_closer q) none t s in
      ground (
        arith,
        h,
        stay-Kept info area t s h,
        enter-Kept info area t s h,
        same_trails-Kept t (apply_leave ctx area to_list info t s) (leave-Kept info area t s h),
        update_found-Kept info type (pos 0) (near_search q ctx area info t) s h,
        update_found-Kept info type (pos 0) (speed_search ctx info t) s h,
        same_trails-Kept t away (route-Kept info area (moves_away q) (some []) t s h),
        same_trails-Kept t closer (route-Kept info area (comes_closer q) none t s h),
      )

  around-Kept :
      (info : AlarmRule) (t : Trails W) (s : RuleState W)
      → Q s
      → Kept (apply_around ctx info uav to_list t s)
  unfolding apply_around apply_crossed
  around-Kept info t s h =
      let kept = λ (ids : List ℤ). update_found-Kept info info.track_type (pos 0) ids s h in
      let by_distance = around_search ctx info uav (fits_distance ctx info uav) t in
      let by_margin = around_search ctx info uav (fits_margin ctx info uav) t in
      elim (Option-cases (crossed_search ctx info uav t)) [
        | inl e ↦ ground (arith, e, h, kept by_distance, kept by_margin)
        | inr (ids, e) ↦ ground (arith, e, h, kept ids, kept by_distance, kept by_margin)
      ]

  rule-Kept :
      (info : AlarmRule) (area : AlarmArea W R) (t : Trails W) (s : RuleState W)
      → Q s
      → Kept (apply_rule q uav fuel to_list ctx info area (t, s))
  unfolding apply_rule apply_everywhere
  rule-Kept info area t s h =
      let everywhere = everywhere_search ctx info t in
      ground (
        arith,
        h,
        in_area-Kept info area t s h,
        around-Kept info t s h,
        update_found-Kept info info.track_type (pos 0) everywhere s h,
      )

  pub rules-Kept :
      (watched : List (AlarmRule × AlarmArea W R)) (t : Trails W) (s : RuleState W)
      → Q s
      → Kept (apply_rules q uav fuel to_list ctx watched (t, s))
  unfolding apply_rules
  rules-Kept [] t s h = h
  rules-Kept ((info, area) ∷ rest) t s h =
      let k = rule-Kept info area t s h in
      elim (Option-cases (apply_rule q uav fuel to_list ctx info area (t, s))) [
        | inl e ↦ rw (e, apply_rules) tt
        | inr ((u, next), e) ↦ rw (e, apply_rules) (rules-Kept rest u next (rw e at k))
      ]
