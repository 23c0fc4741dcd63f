-- ===== src/Rules/Round/Rest.antt =====
-- A round over trails that are long enough comes to an end and leaves the trails as they are
-- (`processAlarms`, src/dialog/alarm/TrackAlarmThread.cpp).
use alarm_sys_linux.Common.{
  ◌≡◌, refl, ◌⊎◌, inl, inr, ℕ, ◌≤◌, ◌<◌, Bool, true, false, Option, none, some, List, [], ◌∷◌,
  arith, All, is_some, length,
}
use alarm_sys_linux.Common.Int.{ℤ, pos, eq_ℤ}
use alarm_sys_linux.Common.Dict.{int_key}
use alarm_sys_linux.Common.Double.{Double}
use alarm_sys_linux.Suspicious.{Point}
use alarm_sys_linux.Suspicious.Areas.{AlarmArea}
use alarm_sys_linux.Rules.Context.{AlarmRule, Context, RuleState}
use alarm_sys_linux.Rules.Watch.{TrailMap, Trails, update_found}
use alarm_sys_linux.Rules.Watch.Near.{
  Vectors, near_track, near_ais, trails_after_near, near_search, apply_near,
}
use alarm_sys_linux.Rules.Watch.Fast.{
  fits_track, fits_ais, trails_after_speed, speed_search, apply_speed,
}
use alarm_sys_linux.Rules.Watch.Routes.{
  pick_moving, moving_trails, route_search, apply_route, moves_away, comes_closer,
}
use alarm_sys_linux.Rules.Watch.Around.{apply_everywhere}
use alarm_sys_linux.Rules.Round.{in_same_trails, apply_in_area, apply_rule, apply_rules}
use alarm_sys_linux.Rules.Round.Steady.{touch_all-same}
use alarm_sys_linux.Rules.Round.Ends.{
  AreSteady, IsNotEntering, Ends, if-Ends, long-collect, stay-Ends, enter-Ends, apply_leave-is_some,
}
use alarm_sys_linux.Rules.Round.Circles.{around-Ends}

module _ {W R : Type 0} ⦃d : Double W⦄ (ctx : Context W R) (t : Trails W) (steady : AreSteady ctx t)
    (info : AlarmRule) (area : AlarmArea W R) (to_list : List ℤ → List ℤ) {V : Type 0}
    (q : Vectors W R V) (uav : Point W) where
  after_near : trails_after_near q ctx area info t ≡ t
  unfolding trails_after_near
  after_near = ground (
    arith,
    touch_all-same (near_track q ctx area) ctx.fuse_track t.fuse_trail steady.fused,
    touch_all-same (near_track q ctx area) ctx.radar_track t.radar_trail steady.radar,
    touch_all-same (near_ais q ctx area) t.ais_track t.ais_trail steady.ais,
  )

  pick_moving-is_some :
      (moves : W → W → Bool) (short : Option (List ℤ)) (key : ℤ) (trail : List (Point W))
      → 10 ≤ length trail
      → is_some (pick_moving q ctx area moves short key trail) ≡ true
  unfolding pick_moving
  pick_moving-is_some moves short key [] h = absurd (omega (arith, h))
  pick_moving-is_some moves short key (p ∷ []) h = absurd (omega (arith, h))
  pick_moving-is_some moves short key (p ∷ p2 ∷ ps) h = ground arith

  moving-is_some :
      (moves : W → W → Bool) (short : Option (List ℤ)) (trails : TrailMap W)
      → All (λ (e : ℤ × List (Point W)). 10 ≤ length e.1) trails
      → is_some (moving_trails q ctx area moves short trails) ≡ true
  unfolding moving_trails
  moving-is_some moves short trails h =
      long-collect (pick_moving q ctx area moves short) trails (pick_moving-is_some moves short) h

  apply_route-is_some :
      (moves : W → W → Bool) (short : Option (List ℤ)) (s : RuleState W)
      → is_some (apply_route q ctx area to_list info moves short t s) ≡ true
  unfolding apply_route route_search
  apply_route-is_some moves short s = ground (
    arith,
    moving-is_some moves short t.fuse_trail steady.fused.1,
    moving-is_some moves none t.radar_trail steady.radar.1,
    moving-is_some moves none t.ais_trail steady.ais.1,
  )

  same_trails-Ends :
      (fuel : ℕ) (o : Option (RuleState W))
      → is_some o ≡ true
      → Ends t (in_same_trails q uav fuel to_list t o)
  same_trails-Ends fuel none h = absurd (ground (arith, h))
  same_trails-Ends fuel (some after) h = (after, refl)

  after_speed : trails_after_speed ctx info t ≡ t
  unfolding trails_after_speed
  after_speed = ground (
    arith,
    touch_all-same (fits_track ctx info) ctx.fuse_track t.fuse_trail steady.fused,
    touch_all-same (fits_track ctx info) ctx.radar_track t.radar_trail steady.radar,
    touch_all-same (fits_ais ctx info) t.ais_track t.ais_trail steady.ais,
  )

  -- What a rule about tracks that enter an area needs besides: birds none, or tracks not fused.
  abbrev pub MayEnter : Type 0
  MayEnter = (ctx.bird_radar_track ≡ []) ⊎ IsNotEntering info

  may_enter :
      MayEnter
      → eq_ℤ info.area_judge (pos 4) ≡ true
      → (ctx.bird_radar_track ≡ []) ⊎ (eq_ℤ info.track_type (pos 0) ≡ false)
  may_enter (inl e) four = inl e
  may_enter (inr n) four = inr (ground (arith, n, four))

  near-Ends : (s : RuleState W) → Ends t (some (apply_near q ctx area to_list info t s))
  unfolding apply_near
  near-Ends s = (
    update_found ctx to_list info info.track_type (pos 0) (near_search q ctx area info t) s,
    rw (after_near, apply_near),
  )

  speed-Ends : (s : RuleState W) → Ends t (some (apply_speed ctx info to_list t s))
  unfolding apply_speed
  speed-Ends s = (
    update_found ctx to_list info info.track_type (pos 0) (speed_search ctx info t) s,
    rw (after_speed, apply_speed),
  )

  in_area-Ends :
      (fuel : ℕ) (s : RuleState W)
      → length t.fuse_trail < fuel
      → MayEnter
      → Ends t (apply_in_area q uav fuel to_list ctx info area (t, s))
  unfolding apply_in_area
  in_area-Ends fuel s enough may =
      let away = same_trails-Ends fuel _ (apply_route-is_some (moves_away q) (some []) s) in
      let closer = same_trails-Ends fuel _ (apply_route-is_some (comes_closer q) none s) in
      let by_direction = if-Ends t _ _ _ (λ _. away) (if-Ends t _ _ _ (λ _. closer) (s, refl)) in
      let by_speed = if-Ends t _ _ _ (λ _. speed-Ends s) by_direction in
      let near = if-Ends t _ _ _ (λ _. near-Ends s) by_speed in
      let leave =
        if-Ends t _ _ _
          (λ _. same_trails-Ends fuel _ (apply_leave-is_some ctx t steady info area to_list s))
          near in
      let enter =
        if-Ends t _ _ _
          (λ four. enter-Ends ctx t steady info area to_list fuel s enough (may_enter may four))
          leave in
      if-Ends t _ _ _ (λ _. stay-Ends ctx t steady info area to_list s) enter

  rule-Ends :
      (fuel : ℕ) (s : RuleState W)
      → length t.fuse_trail < fuel
      → MayEnter
      → Ends t (apply_rule q uav fuel to_list ctx info area (t, s))
  unfolding apply_rule
  rule-Ends fuel s enough may =
      let around = if-Ends t _ _ _ (λ _. around-Ends ctx t steady info to_list uav s) (s, refl) in
      let everywhere =
        if-Ends t _ _ _ (λ _. (apply_everywhere ctx info to_list t s, refl)) around in
      if-Ends t _ _ _ (λ _. in_area-Ends fuel s enough may) everywhere

module _ {W R : Type 0} ⦃d : Double W⦄ (ctx : Context W R) (t : Trails W)
    (steady : AreSteady ctx t) where
  pub rules_end :
      {V : Type 0} (q : Vectors W R V) (uav : Point W) (fuel : ℕ) (to_list : List ℤ → List ℤ)
      (watched : List (AlarmRule × AlarmArea W R)) (s : RuleState W)
      → length t.fuse_trail < fuel
      → All
          (λ (e : AlarmRule × AlarmArea W R). (ctx.bird_radar_track ≡ []) ⊎ IsNotEntering e.0)
          watched
      → Ends t (apply_rules q uav fuel to_list ctx watched (t, s))
  unfolding apply_rules
  rules_end q uav fuel to_list [] s enough may = (s, refl)
  rules_end q uav fuel to_list ((info, area) ∷ rest) s enough may =
      let (next, e) = rule-Ends ctx t steady info area to_list q uav fuel s enough may.0 in
      let (after, done) = rules_end q uav fuel to_list rest next enough may.1 in (after, rw e done)
