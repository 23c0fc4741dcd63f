-- ===== src/Rules/Round/Circles.antt =====
-- Rules about the distance from the drones, over trails that are long enough: they have an answer, and
-- leave the trails as they are (`processAlarms`, src/dialog/alarm/TrackAlarmThread.cpp).
use alarm_sys_linux.Common.{
  ◌≡◌, refl, ap, inl, inr, ◌≤◌, Bool, true, some, List, [], ◌∷◌, arith, All, Option-cases, is_some,
  length,
}
use alarm_sys_linux.Common.Int.{ℤ, pos}
use alarm_sys_linux.Common.Dict.{int_key}
use alarm_sys_linux.Common.Double.{Double}
use alarm_sys_linux.Alarms.Tracks.{Track}
use alarm_sys_linux.Suspicious.{Point}
use alarm_sys_linux.Rules.Context.{AlarmRule, Context, RuleState}
use alarm_sys_linux.Rules.Watch.{AisTrack, TrailMap, Trails, update_found}
use alarm_sys_linux.Rules.Watch.Around.{
  pick_crossed, crossed_trails, crossed_search, trails_after_around, around_search, fits_distance,
  fits_margin, track_at, ais_at, apply_crossed, apply_around,
}
use alarm_sys_linux.Rules.Round.Steady.{touch_all-same}
use alarm_sys_linux.Rules.Round.Ends.{AreSteady, Ends, if-Ends, long-collect}

module _ {W R : Type 0} ⦃d : Double W⦄ (ctx : Context W R) (t : Trails W) (steady : AreSteady ctx t)
    (info : AlarmRule) (to_list : List ℤ → List ℤ) (uav : Point W) where
  pick_crossed-is_some :
      (key : ℤ) (trail : List (Point W))
      → 10 ≤ length trail
      → is_some (pick_crossed ctx info uav key trail) ≡ true
  unfolding pick_crossed
  pick_crossed-is_some key [] h = absurd (omega (arith, h))
  pick_crossed-is_some key (p ∷ ps) h = ground arith

  crossed-is_some :
      (trails : TrailMap W)
      → All (λ (e : ℤ × List (Point W)). 10 ≤ length e.1) trails
      → is_some (crossed_trails ctx info uav trails) ≡ true
  unfolding crossed_trails
  crossed-is_some trails h = long-collect (pick_crossed ctx info uav) trails pick_crossed-is_some h

  crossed_search-is_some : is_some (crossed_search ctx info uav t) ≡ true
  unfolding crossed_search
  crossed_search-is_some = ground (
    arith,
    crossed-is_some t.fuse_trail steady.fused.1,
    crossed-is_some t.radar_trail steady.radar.1,
    crossed-is_some t.ais_trail steady.ais.1,
  )

  after_around : (fits : Point W → Bool) → trails_after_around ctx info uav fits t ≡ t
  unfolding trails_after_around
  after_around fits =
      let track_fits : Track W → Bool = λ track. fits (track_at ctx info uav track) in
      let ais_fits : AisTrack W → Bool = λ track. fits (ais_at ctx info uav track) in
      ground (
        arith,
        touch_all-same track_fits ctx.fuse_track t.fuse_trail steady.fused,
        touch_all-same track_fits ctx.radar_track t.radar_trail steady.radar,
        touch_all-same ais_fits t.ais_track t.ais_trail steady.ais,
      )

  searched-Ends :
      (fits : Point W → Bool) (after : RuleState W)
      → Ends t (some (trails_after_around ctx info uav fits t, after))
  searched-Ends fits after = (after, ap (λ u. some (u, after)) (after_around fits))

  crossed-Ends : (s : RuleState W) → Ends t (apply_crossed ctx info uav to_list t s)
  unfolding apply_crossed
  crossed-Ends s = elim (Option-cases (crossed_search ctx info uav t)) [
    | inl e ↦ absurd (ground (arith, e, crossed_search-is_some))
    | inr (ids, e) ↦
        (update_found ctx to_list info info.track_type (pos 0) ids s, rw (e, apply_crossed))
  ]

  pub around-Ends : (s : RuleState W) → Ends t (apply_around ctx info uav to_list t s)
  unfolding apply_around
  around-Ends s =
      let found : (Point W → Bool) → RuleState W = λ fits.
        update_found ctx to_list info info.track_type (pos 0) (around_search ctx info uav fits t)
          s in
      let in_margin = fits_margin ctx info uav in
      let in_distance = fits_distance ctx info uav in
      let margin = searched-Ends in_margin (found in_margin) in
      let distance = searched-Ends in_distance (found in_distance) in
      let by_margin = if-Ends t _ _ _ (λ _. margin) (s, refl) in
      let crossed = if-Ends t _ _ _ (λ _. crossed-Ends s) by_margin in
      if-Ends t _ _ _ (λ _. distance) crossed
