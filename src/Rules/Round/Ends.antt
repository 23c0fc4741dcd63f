-- ===== src/Rules/Round/Ends.antt =====
-- Rules about tracks that stay in an area, enter it or leave it, over trails that are long enough: they
-- have an answer, and leave the trails as they are (`processAlarms`,
-- src/dialog/alarm/TrackAlarmThread.cpp).
use alarm_sys_linux.Common.{
  ◌≡◌, refl, ap, ◌⊎◌, inl, inr, ℕ, ◌≤◌, ◌<◌, Bool, true, false, Option, some, List, [], ◌∷◌, ◌&&◌,
  arith, All, Option-cases, is_some, length, if◌then◌else◌,
}
use alarm_sys_linux.Common.Int.{ℤ, pos, eq_ℤ}
use alarm_sys_linux.Common.Dict.{int_key}
use alarm_sys_linux.Common.Double.{Double}
use alarm_sys_linux.Suspicious.{Point}
use alarm_sys_linux.Suspicious.Areas.{AlarmArea}
use alarm_sys_linux.Rules.Context.{AlarmRule, Context, RuleState}
use alarm_sys_linux.Rules.Watch.{TrailMap, Trails, collect, update_found}
use alarm_sys_linux.Rules.Watch.Stay.{
  is_in, is_ais_in, is_bird_in, stay_search, trails_after_stay, apply_stay,
}
use alarm_sys_linux.Rules.Watch.Enter.{
  enter_trails, enter_birds, entering, enter_fused, enter_rule, trails_after_enter, is_watched,
  apply_enter,
}
use alarm_sys_linux.Rules.Watch.Crossing.{
  has_empty, enter_fuse-returns, enter_trails_lem, leave_trails_lem,
}
use alarm_sys_linux.Rules.Watch.Leave.{leave_search, apply_leave}
use alarm_sys_linux.Rules.Round.Steady.{
  IsSteady, collect-is_some, touch_all-same, stay_fuse-is_some, stay_radar-is_some,
  stay_ais-is_some, stay_bird-is_some, stay_drone-is_some,
}

-- All the trails of a round.
pub record AreSteady {W R : Type 0} (ctx : Context W R) (t : Trails W) : Type 0 where
  pub fused : IsSteady ctx.fuse_track t.fuse_trail
  pub radar : IsSteady ctx.radar_track t.radar_trail
  pub birds : IsSteady ctx.bird_radar_track t.bird_radar_trail
  pub ais : IsSteady t.ais_track t.ais_trail

-- Not a rule about fused tracks that enter an area, which goes on to the birds.
abbrev pub IsNotEntering : AlarmRule → Type 0
IsNotEntering info = (eq_ℤ info.area_judge (pos 4) && eq_ℤ info.track_type (pos 0)) ≡ false

module _ {W : Type 0} where
  pub not_empty :
      (trails : TrailMap W)
      → All (λ (e : ℤ × List (Point W)). 10 ≤ length e.1) trails
      → has_empty trails ≡ false
  not_empty [] h = refl
  not_empty ((key, []) ∷ rest) h = absurd (omega (arith, h.0))
  not_empty ((key, p ∷ ps) ∷ rest) h = not_empty rest h.1

  pub long-collect :
      (pick : ℤ → List (Point W) → Option (List ℤ)) (trails : TrailMap W)
      → ((key : ℤ) (trail : List (Point W)) → 10 ≤ length trail → is_some (pick key trail) ≡ true)
      → All (λ (e : ℤ × List (Point W)). 10 ≤ length e.1) trails
      → is_some (collect pick trails) ≡ true
  long-collect pick trails p h =
      collect-is_some pick (λ (e : ℤ × List (Point W)). 10 ≤ length e.1) trails p h

module _ {W : Type 0} (t : Trails W) where
  -- The answer is there, with the same trails.
  abbrev pub Ends : Option (Trails W × RuleState W) → Type 0
  Ends o = (after : RuleState W) × (o ≡ some (t, after))

  pub if-Ends :
      (b : Bool) (o other : Option (Trails W × RuleState W))
      → (b ≡ true → Ends o)
      → Ends other
      → Ends (if b then o else other)
  if-Ends true o other h k = h refl
  if-Ends false o other h k = k

module _ {W R : Type 0} ⦃d : Double W⦄ (ctx : Context W R) (t : Trails W)
    (steady : AreSteady ctx t) where
  module _ (info : AlarmRule) (area : AlarmArea W R) (to_list : List ℤ → List ℤ) where
    stay_search-is_some : is_some (stay_search ctx info area t) ≡ true
    unfolding stay_search
    stay_search-is_some = ground (
      arith,
      stay_fuse-is_some ctx info area t.fuse_trail steady.fused,
      stay_radar-is_some ctx info area t.radar_trail steady.radar,
      stay_ais-is_some ctx info area t.ais_trail t.ais_track steady.ais,
      stay_bird-is_some ctx info area t.bird_radar_trail steady.birds,
      stay_drone-is_some ctx info area t.bird_radar_trail steady.birds,
    )

    after_stay : trails_after_stay ctx info area t ≡ t
    unfolding trails_after_stay
    after_stay = ground (
      arith,
      touch_all-same (is_in ctx info area) ctx.fuse_track t.fuse_trail steady.fused,
      touch_all-same (is_in ctx info area) ctx.radar_track t.radar_trail steady.radar,
      touch_all-same (is_ais_in ctx info area) t.ais_track t.ais_trail steady.ais,
      touch_all-same (is_bird_in ctx info area) ctx.bird_radar_track t.bird_radar_trail
          steady.birds,
      touch_all-same (is_in ctx info area) ctx.bird_radar_track t.bird_radar_trail steady.birds,
    )

    pub stay-Ends : (s : RuleState W) → Ends t (apply_stay ctx info area to_list t s)
    unfolding apply_stay
    stay-Ends s = elim (Option-cases (stay_search ctx info area t)) [
      | inl e ↦ absurd (ground (arith, e, stay_search-is_some))
      | inr ((ids, type, source), e) ↦ (
        update_found ctx to_list info type source ids s,
        rw (e, apply_stay)
            (ap (λ u. some (u, update_found ctx to_list info type source ids s)) after_stay),
      )
    ]

    after_enter : trails_after_enter ctx info area t ≡ t
    unfolding trails_after_enter
    after_enter = ground (
      arith,
      touch_all-same (is_watched ctx info area) ctx.bird_radar_track t.bird_radar_trail
          steady.birds,
    )

    entering-is_some :
        (type : ℤ) (trails : TrailMap W) (s : RuleState W)
        → All (λ (e : ℤ × List (Point W)). 10 ≤ length e.1) trails
        → is_some (entering ctx info area to_list type (enter_trails ctx info area trails) s) ≡ true
    unfolding entering
    entering-is_some type trails s h =
        ground (arith, enter_trails_lem ctx info area trails, not_empty trails h)

    no_birds : ctx.bird_radar_track ≡ [] → enter_birds ctx info area t.bird_radar_trail ≡ some []
    unfolding enter_birds collect
    no_birds e = rw e

    enter_rule-is_some :
        (fuel : ℕ) (s : RuleState W)
        → length t.fuse_trail < fuel
        → (ctx.bird_radar_track ≡ []) ⊎ (eq_ℤ info.track_type (pos 0) ≡ false)
        → is_some (enter_rule ctx info area fuel to_list t s) ≡ true
    unfolding enter_rule enter_fused entering
    enter_rule-is_some fuel s enough h =
        let radar = entering-is_some (pos 1) t.radar_trail s steady.radar.1 in
        let ais = entering-is_some (pos 2) t.ais_trail s steady.ais.1 in
        let fused =
          enter_fuse-returns ctx info area fuel t.fuse_trail (not_empty t.fuse_trail steady.fused.1)
            enough in
        elim h [
          | inl none_there ↦ ground (arith, radar, ais, fused, no_birds none_there)
          | inr other ↦ ground (arith, radar, ais, other)
        ]

    pub enter-Ends :
        (fuel : ℕ) (s : RuleState W)
        → length t.fuse_trail < fuel
        → (ctx.bird_radar_track ≡ []) ⊎ (eq_ℤ info.track_type (pos 0) ≡ false)
        → Ends t (apply_enter ctx info area fuel to_list t s)
    unfolding apply_enter
    enter-Ends fuel s enough h = elim (Option-cases (enter_rule ctx info area fuel to_list t s)) [
      | inl e ↦ absurd (ground (arith, e, enter_rule-is_some fuel s enough h))
      | inr (after, e) ↦ (after, rw (e, apply_enter) (ap (λ u. some (u, after)) after_enter))
    ]

    pub apply_leave-is_some :
        (s : RuleState W) → is_some (apply_leave ctx area to_list info t s) ≡ true
    unfolding apply_leave leave_search
    apply_leave-is_some s = ground (
      arith,
      leave_trails_lem ctx info area t.fuse_trail,
      leave_trails_lem ctx info area t.radar_trail,
      leave_trails_lem ctx info area t.ais_trail,
      not_empty t.fuse_trail steady.fused.1,
      not_empty t.radar_trail steady.radar.1,
      not_empty t.ais_trail steady.ais.1,
    )
