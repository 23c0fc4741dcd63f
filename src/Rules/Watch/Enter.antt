-- ===== src/Rules/Watch/Enter.antt =====
-- Rules about tracks that enter an area (`processAlarms` where `area_judge` is 4,
-- src/dialog/alarm/TrackAlarmThread.cpp), for each table of trails.
use alarm_sys_linux.Common.{
  ℕ, zero, suc, Bool, ◌&&◌, Option, none, some, List, [], ◌∷◌, ◌++◌, ◌>>=◌, any, if◌then◌else◌,
}
use alarm_sys_linux.Common.Int.{ℤ, pos, eq_ℤ}
use alarm_sys_linux.Common.Double.{Double}
use alarm_sys_linux.Alarms.Tracks.{Track}
use alarm_sys_linux.Suspicious.{Point}
use alarm_sys_linux.Suspicious.Areas.{AlarmArea}
use alarm_sys_linux.Rules.Context.{AlarmRule, Context, RuleState}
use alarm_sys_linux.Rules.Zones.{in_area}
use alarm_sys_linux.Rules.Watch.{
  TrailMap, Trails, first_of, trail_of, touch_all, collect, is_outside, update_found,
}
use alarm_sys_linux.Rules.Watch.Stay.{in_heights}

module _ {W R : Type 0} ⦃d : Double W⦄ (ctx : Context W R) (info : AlarmRule)
    (area : AlarmArea W R) where
  -- The newest point is in the area, and one of the nine before it is out of it.
  unfoldable pub entered : Point W → List (Point W) → Bool
  entered pt earlier = in_area ctx pt area && any (λ p. is_outside ctx area p) (first_of 9 earlier)

  -- The loop over the trails of the fused tracks goes on to the next one only after a trail that has
  -- a point: at an empty one it stays where it is. The fuel is the number of turns, and without fuel
  -- there is no answer.
  unfoldable pub enter_fuse : ℕ → TrailMap W → List ℤ → Option (List ℤ)
  enter_fuse zero trails ids = none
  enter_fuse (suc fuel) [] ids = some ids
  enter_fuse (suc fuel) ((key, []) ∷ rest) ids = enter_fuse fuel ((key, []) ∷ rest) ids
  enter_fuse (suc fuel) ((key, pt ∷ earlier) ∷ rest) ids =
      enter_fuse fuel rest (if entered pt earlier then ids ++ key ∷ [] else ids)

  -- For the other trails there is no such test: `at(0)` of an empty trail is read.
  unfoldable pub pick_entered : ℤ → List (Point W) → Option (List ℤ)
  pick_entered key [] = none
  pick_entered key (pt ∷ earlier) = if entered pt earlier then some (key ∷ []) else some []

  unfoldable pub enter_trails : TrailMap W → Option (List ℤ)
  enter_trails trails = collect pick_entered trails

  abbrev pub rest_of : {A : Type 0} → List A → List A
  rest_of [] = []
  rest_of (x ∷ xs) = xs

  -- The points of the trail of a drone in the area, at a height of the rule, that the loop looks at.
  unfoldable pub watched_of : TrailMap W → ℤ → Track W → List (Point W)
  watched_of trails key track =
      if in_area ctx (track.lat_degs, track.long_degs) area
        && eq_ℤ track.reserved1 (pos 3)
        && in_heights ctx info area track.altitude_metres
      then first_of 9 (rest_of (trail_of key trails))
      else []

  abbrev pub nothing_read : List (Point W) → Option (List ℤ)
  nothing_read [] = some []
  nothing_read (p ∷ ps) = none

  -- The loop over the birds, after that over the fused trails, is at the end of those trails with
  -- `it`, and takes its key for the bird's: in a circle for every point that is looked at, elsewhere
  -- where one is out of the area. That reads past the end.
  unfoldable pub pick_entered_bird : TrailMap W → ℤ → Track W → Option (List ℤ)
  pick_entered_bird trails key track =
      let watched = watched_of trails key track in
      if eq_ℤ area.alert_area_type (pos 2)
      then nothing_read watched
      else if any (λ p. is_outside ctx area p) watched
      then none
      else some []

  unfoldable pub enter_birds : TrailMap W → Option (List ℤ)
  enter_birds trails = collect (pick_entered_bird trails) ctx.bird_radar_track

  unfoldable pub is_watched : Track W → Bool
  is_watched track =
      in_area ctx (track.lat_degs, track.long_degs) area
      && eq_ℤ track.reserved1 (pos 3)
      && in_heights ctx info area track.altitude_metres

  -- The trails after the search: those of birds that are read are there.
  unfoldable pub trails_after_enter : Trails W → Trails W
  unfolding is_watched
  trails_after_enter t =
      if eq_ℤ info.track_type (pos 0)
      then record t {
        bird_radar_trail = touch_all is_watched ctx.bird_radar_track t.bird_radar_trail;
      }
      else t

  -- The tracks that are found are handed on, and none is where the search has no answer.
  unfoldable pub entering :
      (List ℤ → List ℤ) → ℤ → Option (List ℤ) → RuleState W → Option (RuleState W)
  entering to_list type none s = none
  entering to_list type (some ids) s = some (update_found ctx to_list info type (pos 0) ids s)

  -- The fused tracks that are found, and after them the birds.
  unfoldable pub enter_fused :
      (List ℤ → List ℤ) → Option (List ℤ) → Option (List ℤ) → RuleState W → Option (RuleState W)
  unfolding entering
  enter_fused to_list fused birds s = do
    ids ← fused
    found ← birds
    after ← entering to_list (pos 0) (some ids) s
    entering to_list (pos 1) (some found) after

  -- The rule's kind of track: with the fused tracks go the birds.
  unfoldable pub enter_rule : ℕ → (List ℤ → List ℤ) → Trails W → RuleState W → Option (RuleState W)
  enter_rule fuel to_list t s =
      if eq_ℤ info.track_type (pos 0)
      then enter_fused to_list (enter_fuse fuel t.fuse_trail []) (enter_birds t.bird_radar_trail) s
      else if eq_ℤ info.track_type (pos 1)
      then entering to_list (pos 1) (enter_trails t.radar_trail) s
      else if eq_ℤ info.track_type (pos 2)
      then entering to_list (pos 2) (enter_trails t.ais_trail) s
      else some s

  unfoldable pub apply_enter :
      ℕ → (List ℤ → List ℤ) → Trails W → RuleState W → Option (Trails W × RuleState W)
  apply_enter fuel to_list t s = elim (enter_rule fuel to_list t s) [
    | none ↦ none
    | some after ↦ some (trails_after_enter t, after)
  ]
