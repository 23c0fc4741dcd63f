-- ===== src/Rules/Watch/Crossing.antt =====
-- Which tracks are found to enter or to leave an area (`processAlarms`,
-- src/dialog/alarm/TrackAlarmThread.cpp), and for which trails the search comes to an end.
use alarm_sys_linux.Common.{
  ◌≡◌, refl, ap, ℕ, zero, suc, ◌<◌, Bool, true, false, not, ◌&&◌, none, some, List, [], ◌∷◌, ◌++◌,
  any, length, arith, if◌then◌else◌, append_nil, append_snoc, sym, is_nil,
}
use alarm_sys_linux.Common.Int.{ℤ, pos, eq_ℤ}
use alarm_sys_linux.Common.Dict.{Dict, int_key}
use alarm_sys_linux.Common.Double.{Double}
use alarm_sys_linux.Alarms.Tracks.{Track}
use alarm_sys_linux.Suspicious.{Point}
use alarm_sys_linux.Suspicious.Areas.{AlarmArea}
use alarm_sys_linux.Rules.Context.{AlarmRule, Context}
use alarm_sys_linux.Rules.Zones.{in_area}
use alarm_sys_linux.Rules.Watch.{TrailMap, collect, trail_of, first_of, is_outside}
use alarm_sys_linux.Rules.Watch.Linger.{keys_that}
use alarm_sys_linux.Rules.Watch.Enter.{entered, enter_fuse, pick_entered, enter_trails}
use alarm_sys_linux.Rules.Watch.Leave.{has_left, pick_left, leave_trails}

-- Whether a trail of the map has no point.
abbrev pub is_empty_trail : {W : Type 0} → ℤ × List (Point W) → Bool
is_empty_trail (key, trail) = is_nil trail

abbrev pub has_empty : {W : Type 0} → TrailMap W → Bool
has_empty trails = any is_empty_trail trails

module _ {W R : Type 0} ⦃d : Double W⦄ (ctx : Context W R) (info : AlarmRule)
    (area : AlarmArea W R) where
  -- The trail has a newest point, in the area, and one of the nine before it is out of the area.
  abbrev pub enters : ℤ → List (Point W) → Bool
  enters key [] = false
  enters key (pt ∷ earlier) =
      in_area ctx pt area && any (λ p. is_outside ctx area p) (first_of 9 earlier)

  -- The trail has a newest point, which is not in the area, and one before it is in the area.
  abbrev pub leaves : ℤ → List (Point W) → Bool
  leaves key [] = false
  leaves key (pt ∷ earlier) = not (in_area ctx pt area) && any (λ p. in_area ctx p area) earlier

  -- The same by the test of the code.
  abbrev came_in : ℤ → List (Point W) → Bool
  came_in key [] = false
  came_in key (pt ∷ earlier) = entered ctx info area pt earlier

  came_in-enters : (key : ℤ) (trail : List (Point W)) → came_in key trail ≡ enters key trail
  unfolding entered
  came_in-enters key [] = refl
  came_in-enters key (pt ∷ earlier) = refl

  keys_that-enters : (trails : TrailMap W) → keys_that came_in trails ≡ keys_that enters trails
  keys_that-enters [] = refl
  keys_that-enters ((key, trail) ∷ rest) = rw (came_in-enters key trail, keys_that-enters rest) refl

  enter_fuse-ids :
      (fuel : ℕ) (trails : TrailMap W) (ids : List ℤ)
      → has_empty trails ≡ false
      → length trails < fuel
      → enter_fuse ctx info area fuel trails ids ≡ some (ids ++ keys_that came_in trails)
  unfolding enter_fuse
  enter_fuse-ids zero trails ids e f = absurd (omega (arith, f))
  enter_fuse-ids (suc fuel) [] ids e f = ap some (sym (append_nil ids))
  enter_fuse-ids (suc fuel) ((key, []) ∷ rest) ids e f = cc
  enter_fuse-ids (suc fuel) ((key, pt ∷ earlier) ∷ rest) ids e f =
      let short : length rest < fuel = omega (arith, f) in
      ground (
        arith,
        e,
        enter_fuse-ids fuel rest ids e short,
        enter_fuse-ids fuel rest (ids ++ key ∷ []) e short,
        append_snoc ids key (keys_that came_in rest),
      )

  pub enter_fuse-returns :
      (fuel : ℕ) (trails : TrailMap W)
      → has_empty trails ≡ false
      → length trails < fuel
      → enter_fuse ctx info area fuel trails [] ≡ some (keys_that enters trails)
  enter_fuse-returns fuel trails e f =
      rw (sym (keys_that-enters trails)) (enter_fuse-ids fuel trails [] e f)

  -- The search for fused tracks that enter an area does not come to an end if there is an empty trail:
  -- no number of turns is enough.
  pub enter_fuse-hangs :
      (fuel : ℕ) (trails : TrailMap W) (ids : List ℤ)
      → has_empty trails ≡ true
      → enter_fuse ctx info area fuel trails ids ≡ none
  unfolding enter_fuse
  enter_fuse-hangs zero trails ids e = refl
  enter_fuse-hangs (suc fuel) [] ids e = cc
  enter_fuse-hangs (suc fuel) ((key, []) ∷ rest) ids e =
      enter_fuse-hangs fuel ((key, []) ∷ rest) ids e
  enter_fuse-hangs (suc fuel) ((key, pt ∷ earlier) ∷ rest) ids e =
      enter_fuse-hangs fuel rest (if entered ctx info area pt earlier then ids ++ key ∷ [] else ids)
        e

  pub leave_trails_lem :
      (trails : TrailMap W)
      → leave_trails ctx area trails
        ≡ (if has_empty trails then none else some (keys_that leaves trails))
  unfolding leave_trails pick_left has_left collect
  leave_trails_lem [] = refl
  leave_trails_lem ((key, []) ∷ rest) = refl
  leave_trails_lem ((key, pt ∷ earlier) ∷ rest) = ground (arith, leave_trails_lem rest)

  enter_trails-came_in :
      (trails : TrailMap W)
      → enter_trails ctx info area trails
        ≡ (if has_empty trails then none else some (keys_that came_in trails))
  unfolding enter_trails pick_entered collect
  enter_trails-came_in [] = refl
  enter_trails-came_in ((key, []) ∷ rest) = refl
  enter_trails-came_in ((key, pt ∷ earlier) ∷ rest) = ground (arith, enter_trails-came_in rest)

  -- The same for the search for tracks of the radar or of AIS that enter an area.
  pub enter_trails_lem :
      (trails : TrailMap W)
      → enter_trails ctx info area trails
        ≡ (if has_empty trails then none else some (keys_that enters trails))
  enter_trails_lem trails = rw (sym (keys_that-enters trails)) (enter_trails-came_in trails)

  -- The points of the trail before the newest one, the nine newest of them.
  abbrev pub nine_before : List (Point W) → List (Point W)
  nine_before [] = []
  nine_before (pt ∷ earlier) = first_of 9 earlier

  -- A drone among the birds is in the area, at a height of the rule, and one of the nine points before
  -- its newest one is out of the area; in a circle there need only be such a point.
  abbrev pub misread : TrailMap W → ℤ × Track W → Bool
  misread trails (key, track) =
      let before = nine_before (trail_of key trails) in
      in_area ctx (track.lat_degs, track.long_degs) area
      && eq_ℤ track.reserved1 (pos 3)
      && d.le (d.of_ℤ info.height_min) track.altitude_metres
      && d.le track.altitude_metres (d.of_ℤ info.height_max)
      && (if eq_ℤ area.alert_area_type (pos 2)
          then not (is_nil before)
          else any (λ p. is_outside ctx area p) before)
