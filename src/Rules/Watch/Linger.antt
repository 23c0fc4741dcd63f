-- ===== src/Rules/Watch/Linger.antt =====
-- Which tracks are found to stay in an area (`processAlarms`, src/dialog/alarm/TrackAlarmThread.cpp), and
-- where the search reads past the end of a trail.
use alarm_sys_linux.Common.{
  ◌≡◌, refl, ℕ, zero, suc, ◌≤◌, ◌<◌, Bool, true, false, not, ◌&&◌, Option, none, some, List, [],
  ◌∷◌, any, length, ltb, arith, if◌then◌else◌,
}
use alarm_sys_linux.Common.Int.{ℤ, pos, eq_ℤ_iff}
use alarm_sys_linux.Common.Dict.{Dict, lookup, int_key}
use alarm_sys_linux.Common.Double.{Double}
use alarm_sys_linux.Alarms.Tracks.{Track}
use alarm_sys_linux.Suspicious.{Point}
use alarm_sys_linux.Suspicious.Areas.{AlarmArea}
use alarm_sys_linux.Rules.Context.{AlarmRule, Context}
use alarm_sys_linux.Rules.Zones.{in_area}
use alarm_sys_linux.Rules.Watch.{TrailMap, first_of, trail_of, collect, is_outside}
use alarm_sys_linux.Rules.Watch.Stay.{
  track_count, point_of, stayed_in, in_heights, linger, pick_fuse, pick_radar, stay_fuse,
  stay_radar,
}

-- The keys of the entries that pass a test.
abbrev pub keys_that : {A : Type 0} → (ℤ → A → Bool) → Dict ℤ A → List ℤ
keys_that test [] = []
keys_that test ((key, value) ∷ rest) =
    if test key value then key ∷ keys_that test rest else keys_that test rest

pub collect-keys_that :
    {A : Type 0} (pick : ℤ → A → Option (List ℤ)) (test : ℤ → A → Bool) (m : Dict ℤ A)
    → ((key : ℤ) (value : A) → pick key value ≡ some (if test key value then key ∷ [] else []))
    → collect pick m ≡ some (keys_that test m)
unfolding collect
collect-keys_that pick test [] h = refl
collect-keys_that pick test ((key, value) ∷ rest) h =
    ground (arith, h key value, collect-keys_that pick test rest h)

pub collect-none :
    {A : Type 0} (pick : ℤ → A → Option (List ℤ)) (m : Dict ℤ A) (key : ℤ) (value : A)
    → lookup key m ≡ some value
    → pick key value ≡ none
    → collect pick m ≡ none
unfolding collect lookup
collect-none pick [] key value e h = cc
collect-none pick ((k, v) ∷ rest) key value e h =
    ground (arith, h, collect-none pick rest key value, eq_ℤ_iff k key)

module _ {W R : Type 0} ⦃d : Double W⦄ (ctx : Context W R) (info : AlarmRule)
    (area : AlarmArea W R) where
  -- None of the first points of the trail lies out of the area.
  abbrev pub kept_in : ℕ → List (Point W) → Bool
  kept_in n trail = not (any (λ p. is_outside ctx area p) (first_of n trail))

  pub stayed_in_lem :
      (n : ℕ) (trail : List (Point W))
      → n ≤ length trail
      → stayed_in ctx info area n trail ≡ some (kept_in n trail)
  unfolding stayed_in
  stayed_in_lem zero trail h = refl
  stayed_in_lem (suc n) [] h = absurd (omega (arith, h))
  stayed_in_lem (suc n) (p ∷ trail) h = ground (arith, stayed_in_lem n trail (omega (arith, h)))

  -- A track is in the area, its trail has more than ten points, its height is one of the rule's, and
  -- none of the first ten points of the trail lies out of the area.
  abbrev pub stays : TrailMap W → ℤ → Track W → Bool
  stays trails key track =
      let trail = trail_of key trails in
      in_area ctx (point_of ctx info area track) area
      && ltb track_count (length trail)
      && in_heights ctx info area track.altitude_metres
      && kept_in track_count trail

  pick_fuse_lem :
      (trails : TrailMap W) (key : ℤ) (track : Track W)
      → pick_fuse ctx info area trails key track
        ≡ some (if stays trails key track then key ∷ [] else [])
  unfolding pick_fuse linger
  pick_fuse_lem trails key track =
      let trail = trail_of key trails in
      ground (arith, λ (h : 10 ≤ length trail). stayed_in_lem 10 trail h)

  -- A rule about tracks that stay finds, among the fused tracks, those in the area at a height of the
  -- rule whose trail has more than ten points of which the first ten are not out of the area. It reads
  -- no trail past its end.
  pub stay_fuse_lem :
      (trails : TrailMap W)
      → stay_fuse ctx info area trails ≡ some (keys_that (stays trails) ctx.fuse_track)
  unfolding stay_fuse
  stay_fuse_lem trails =
      collect-keys_that (pick_fuse ctx info area trails) (stays trails) ctx.fuse_track
        (pick_fuse_lem trails)

  stayed_in-short :
      (n : ℕ) (trail : List (Point W))
      → length trail < n
      → any (λ p. is_outside ctx area p) trail ≡ false
      → stayed_in ctx info area n trail ≡ none
  unfolding stayed_in
  stayed_in-short zero trail h k = absurd (omega (arith, h))
  stayed_in-short (suc n) [] h k = refl
  stayed_in-short (suc n) (p ∷ trail) h k =
      ground (arith, k, stayed_in-short n trail (omega (arith, h)))

  -- A rule about tracks of the radar that stay in a circle reads past the end of a trail, if a track
  -- in the circle has a trail of fewer than ten points, none of them out of the circle.
  pub stay_radar-short :
      (trails : TrailMap W) (key : ℤ) (track : Track W)
      → area.alert_area_type ≡ pos 2
      → lookup key ctx.radar_track ≡ some track
      → in_area ctx (point_of ctx info area track) area ≡ true
      → length (trail_of key trails) < 10
      → any (λ p. is_outside ctx area p) (trail_of key trails) ≡ false
      → stay_radar ctx info area trails ≡ none
  unfolding stay_radar pick_radar
  stay_radar-short trails key track circle e inside short within =
      let trail = trail_of key trails in
      collect-none (pick_radar ctx info area trails) ctx.radar_track key track e (
        ground (
          arith,
          inside,
          eq_ℤ_iff area.alert_area_type (pos 2),
          circle,
          stayed_in-short 10 trail short within,
        ))
