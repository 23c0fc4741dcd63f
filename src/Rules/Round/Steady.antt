-- ===== src/Rules/Round/Steady.antt =====
-- When a round comes to an end (`processAlarms`, src/dialog/alarm/TrackAlarmThread.cpp): where every
-- trail is long enough, no search reads past its end, and none leaves an empty trail behind.
use alarm_sys_linux.Common.{
  ◌≡◌, refl, inl, inr, ◌≤◌, Bool, true, false, Option, some, List, [], ◌∷◌, arith, All,
  Option-cases, is_some, length, if◌then◌else◌,
}
use alarm_sys_linux.Common.Int.{ℤ, pos}
use alarm_sys_linux.Common.Dict.{Dict, lookup, has_key, int_key}
use alarm_sys_linux.Common.Dict.Laws.{has_key_iff, lookup-All}
use alarm_sys_linux.Common.Double.{Double}
use alarm_sys_linux.Suspicious.{Point}
use alarm_sys_linux.Suspicious.Areas.{AlarmArea}
use alarm_sys_linux.Rules.Context.{AlarmRule, Context}
use alarm_sys_linux.Rules.Watch.{AisTrack, TrailMap, trail_of, touch, touch_all, collect}
use alarm_sys_linux.Rules.Watch.Stay.{
  in_heights, linger, pick_fuse, pick_radar, pick_ais, pick_bird, pick_drone, stay_fuse, stay_radar,
  stay_ais, stay_bird, stay_drone,
}
use alarm_sys_linux.Rules.Watch.Linger.{stayed_in_lem}

-- Every entry of the table has a trail, and every trail has at least ten points.
abbrev pub IsSteady : {W A : Type 0} → Dict ℤ A → TrailMap W → Type 0
IsSteady {W} {A} table trails =
    All (λ (e : ℤ × A). has_key e.0 trails ≡ true) table
    × All (λ (e : ℤ × List (Point W)). 10 ≤ length e.1) trails

pub collect-is_some :
    {A : Type 0} (pick : ℤ → A → Option (List ℤ)) (P : ℤ × A → Type 0) (m : Dict ℤ A)
    → ((key : ℤ) (value : A) → P (key, value) → is_some (pick key value) ≡ true)
    → All P m
    → is_some (collect pick m) ≡ true
unfolding collect
collect-is_some pick P [] h a = refl
collect-is_some pick P ((key, value) ∷ rest) h a =
    ground (arith, h key value a.0, collect-is_some pick P rest h a.1)

module _ {W : Type 0} where
  long-trail_of :
      (key : ℤ) (trails : TrailMap W)
      → All (λ (e : ℤ × List (Point W)). 10 ≤ length e.1) trails
      → has_key key trails ≡ true
      → 10 ≤ length (trail_of key trails)
  long-trail_of key trails long h = elim (Option-cases (lookup key trails)) [
    | inl e ↦ absurd (ground (arith, e, h, has_key_iff key trails))
    | inr (trail, e) ↦
        rw e (lookup-All (λ (e : ℤ × List (Point W)). 10 ≤ length e.1) key trail trails long e)
  ]

  -- A search over a table has an answer if it has one for every entry with ten points.
  pub collect-steady :
      {A : Type 0} (pick : ℤ → A → Option (List ℤ)) (table : Dict ℤ A) (trails : TrailMap W)
      → IsSteady table trails
      → ((key : ℤ) (value : A)
          → 10 ≤ length (trail_of key trails)
          → is_some (pick key value) ≡ true)
      → is_some (collect pick table) ≡ true
  collect-steady {A} pick table trails h p =
      collect-is_some pick (λ (e : ℤ × A). has_key e.0 trails ≡ true) table
        (λ key value c. p key value (long-trail_of key trails h.1 c)) h.0

  pub touch_all-same :
      {A : Type 0} (is_read : A → Bool) (table : Dict ℤ A) (trails : TrailMap W)
      → IsSteady table trails
      → touch_all is_read table trails ≡ trails
  unfolding touch_all touch
  touch_all-same is_read [] trails h = refl
  touch_all-same is_read ((key, value) ∷ rest) trails h =
      ground (arith, h.0.0, touch_all-same is_read rest trails (h.0.1, h.1))

answer_or_none :
    (b : Bool) (o : Option (List ℤ)) → is_some o ≡ true → is_some (if b then o else some []) ≡ true
answer_or_none true o h = h
answer_or_none false o h = refl

module _ {W R : Type 0} ⦃d : Double W⦄ (ctx : Context W R) (info : AlarmRule)
    (area : AlarmArea W R) where
  linger-is_some :
      (fits : Bool) (key : ℤ) (trail : List (Point W))
      → 10 ≤ length trail
      → is_some (linger ctx info area fits key trail) ≡ true
  unfolding linger
  linger-is_some fits key trail h = ground (arith, h, stayed_in_lem ctx info area 10 trail h)

  pub stay_fuse-is_some :
      (trails : TrailMap W)
      → IsSteady ctx.fuse_track trails
      → is_some (stay_fuse ctx info area trails) ≡ true
  unfolding stay_fuse pick_fuse
  stay_fuse-is_some trails h =
      collect-steady (pick_fuse ctx info area trails) ctx.fuse_track trails h
        (λ key track long. answer_or_none _ _ (linger-is_some _ key (trail_of key trails) long))

  pub stay_radar-is_some :
      (trails : TrailMap W)
      → IsSteady ctx.radar_track trails
      → is_some (stay_radar ctx info area trails) ≡ true
  unfolding stay_radar pick_radar
  stay_radar-is_some trails h =
      collect-steady (pick_radar ctx info area trails) ctx.radar_track trails h (λ key track long.
        let trail = trail_of key trails in
        let found =
          linger-is_some (in_heights ctx info area track.altitude_metres) key trail long in
        ground (arith, found, stayed_in_lem ctx info area 10 trail long))

  pub stay_ais-is_some :
      (trails : TrailMap W) (tracks : Dict ℤ (AisTrack W))
      → IsSteady tracks trails
      → is_some (stay_ais ctx info area trails tracks) ≡ true
  unfolding stay_ais pick_ais
  stay_ais-is_some trails tracks h =
      collect-steady (pick_ais ctx info area trails) tracks trails h (λ key track long.
        let trail = trail_of key trails in
        let found = linger-is_some (in_heights ctx info area (d.of_ℤ (pos 0))) key trail long in
        ground (arith, found))

  pub stay_bird-is_some :
      (trails : TrailMap W)
      → IsSteady ctx.bird_radar_track trails
      → is_some (stay_bird ctx info area trails) ≡ true
  unfolding stay_bird pick_bird
  stay_bird-is_some trails h =
      collect-steady (pick_bird ctx info area trails) ctx.bird_radar_track trails h
        (λ key track long. answer_or_none _ (some (key ∷ [])) refl)

  pub stay_drone-is_some :
      (trails : TrailMap W)
      → IsSteady ctx.bird_radar_track trails
      → is_some (stay_drone ctx info area trails) ≡ true
  unfolding stay_drone pick_drone
  stay_drone-is_some trails h =
      collect-steady (pick_drone ctx info area trails) ctx.bird_radar_track trails h
        (λ key track long. answer_or_none _ _ (linger-is_some _ key (trail_of key trails) long))
