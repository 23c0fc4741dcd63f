-- ===== src/Rules/Watch/Sides.antt =====
-- What the rules about routes and about the distance from the drones can find (`processAlarms`,
-- src/dialog/alarm/TrackAlarmThread.cpp).
use alarm_sys_linux.Common.{◌≡◌, refl, ◌⊎◌, inl, inr, true, false, none, some, [], ◌∷◌, arith}
use alarm_sys_linux.Common.Int.{pos, eq_ℤ}
use alarm_sys_linux.Common.Double.{Double}
use alarm_sys_linux.Suspicious.{Point}
use alarm_sys_linux.Suspicious.Areas.{AlarmArea}
use alarm_sys_linux.Rules.Context.{AlarmRule, Context}
use alarm_sys_linux.Rules.Watch.{TrailMap, Trails, collect}
use alarm_sys_linux.Rules.Watch.Near.{Vectors}
use alarm_sys_linux.Rules.Watch.Routes.{legs, leg_distance, moves_away, comes_closer, is_moving}
use alarm_sys_linux.Rules.Watch.Around.{crossed, pick_crossed, crossed_trails, crossed_search}

module _ {W R V : Type 0} ⦃d : Double W⦄ (q : Vectors W R V) (ctx : Context W R)
    (area : AlarmArea W R) where
  -- On a route of one leg a track that is found to move away is not found to come closer, where of
  -- two doubles not each is below the other.
  pub one_leg-exclusive :
      (pt pt2 a b : Point W)
      → ((v w : W) → d.lt v w ≡ true → d.lt w v ≡ false)
      → area.road ≡ a ∷ b ∷ []
      → is_moving q ctx area (moves_away q) pt pt2 ≡ true
      → is_moving q ctx area (comes_closer q) pt pt2 ≡ false
  unfolding is_moving legs
  one_leg-exclusive pt pt2 a b asym one =
      let dis1 = leg_distance q ctx.base pt (a, b) in
      let dis2 = leg_distance q ctx.base pt2 (a, b) in rw one (λ h. ground (arith, asym dis2 dis1))

module _ {W R : Type 0} ⦃d : Double W⦄ (ctx : Context W R) (info : AlarmRule) (uav : Point W) where
  crossed_trails-unasked :
      (trails : TrailMap W)
      → eq_ℤ info.speed_condition (pos 1) ≡ false
      → eq_ℤ info.speed_condition (pos 2) ≡ false
      → (crossed_trails ctx info uav trails ≡ none) ⊎ (crossed_trails ctx info uav trails ≡ some [])
  unfolding crossed_trails pick_crossed crossed collect
  crossed_trails-unasked [] n1 n2 = inr refl
  crossed_trails-unasked ((key, []) ∷ rest) n1 n2 = inl refl
  crossed_trails-unasked ((key, p ∷ ps) ∷ rest) n1 n2 =
      ground (arith, n1, n2, crossed_trails-unasked rest n1 n2)

  -- A rule about tracks that cross the circle around the drones finds no track, whatever its condition
  -- on the distance, unless it has a condition on the speed: it finds nothing, or reads past the end
  -- of a trail.
  pub crossed_search-unasked :
      (t : Trails W)
      → eq_ℤ info.speed_condition (pos 1) ≡ false
      → eq_ℤ info.speed_condition (pos 2) ≡ false
      → (crossed_search ctx info uav t ≡ none) ⊎ (crossed_search ctx info uav t ≡ some [])
  unfolding crossed_search
  crossed_search-unasked t n1 n2 = ground (
    arith,
    crossed_trails-unasked t.fuse_trail n1 n2,
    crossed_trails-unasked t.radar_trail n1 n2,
    crossed_trails-unasked t.ais_trail n1 n2,
  )
