-- ===== src/Rules/Watch/Hang.antt =====
-- The empty trails that a rule about tracks that stay leaves behind, and the rules after it
-- (`processAlarms`, src/dialog/alarm/TrackAlarmThread.cpp).
use alarm_sys_linux.Common.{◌≡◌, refl, ℕ, Bool, true, false, none, some, [], ◌∷◌, arith}
use alarm_sys_linux.Common.Int.{ℤ, pos, eq_ℤ_iff}
use alarm_sys_linux.Common.Dict.{Dict, lookup, has_key, int_key}
use alarm_sys_linux.Common.Dict.Laws.{any-insert}
use alarm_sys_linux.Common.Double.{Double}
use alarm_sys_linux.Alarms.Tracks.{Track}
use alarm_sys_linux.Suspicious.Areas.{AlarmArea}
use alarm_sys_linux.Rules.Context.{AlarmRule, Context}
use alarm_sys_linux.Rules.Zones.{in_area}
use alarm_sys_linux.Rules.Watch.{TrailMap, Trails, touch, touch_all}
use alarm_sys_linux.Rules.Watch.Stay.{is_in, trails_after_stay}
use alarm_sys_linux.Rules.Watch.Enter.{enter_fuse}
use alarm_sys_linux.Rules.Watch.Crossing.{is_empty_trail, has_empty, enter_fuse-hangs}

module _ {W : Type 0} where
  touch_new : (key : ℤ) (m : TrailMap W) → has_key key m ≡ false → has_empty (touch key m) ≡ true
  unfolding touch
  touch_new key m n = ground (arith, n, any-insert is_empty_trail key [] m refl)

  touch_keeps : (key : ℤ) (m : TrailMap W) → has_empty m ≡ true → has_empty (touch key m) ≡ true
  unfolding touch
  touch_keeps key m e = ground (arith, e, any-insert is_empty_trail key [] m refl)

  touch_all-keeps :
      {A : Type 0} (is_read : A → Bool) (table : Dict ℤ A) (m : TrailMap W)
      → has_empty m ≡ true
      → has_empty (touch_all is_read table m) ≡ true
  unfolding touch_all
  touch_all-keeps is_read [] m e = e
  touch_all-keeps is_read ((key, value) ∷ rest) m e = ground (
    arith,
    e,
    touch_keeps key m e,
    touch_all-keeps is_read rest m e,
    touch_all-keeps is_read rest (touch key m) (touch_keeps key m e),
  )

  -- A new key makes an empty trail, and a key that is there changes nothing.
  touch_cases : (key : ℤ) (m : TrailMap W) → has_key key m ≡ true → touch key m ≡ m
  unfolding touch
  touch_cases key m e = rw e

  touch_all-new :
      {A : Type 0} (is_read : A → Bool) (table : Dict ℤ A) (m : TrailMap W) (key : ℤ) (value : A)
      → lookup key table ≡ some value
      → is_read value ≡ true
      → has_key key m ≡ false
      → has_empty (touch_all is_read table m) ≡ true
  unfolding touch_all lookup
  touch_all-new is_read [] m key value e r n = cc
  touch_all-new is_read ((k, v) ∷ rest) m key value e r n =
      let here =
        λ (c : has_key k m ≡ false). touch_all-keeps is_read rest (touch k m) (touch_new k m c) in
      ground (
        arith,
        e,
        r,
        n,
        here,
        touch_cases k m,
        eq_ℤ_iff k key,
        λ (q : lookup key rest ≡ some value). touch_all-new is_read rest m key value q r n,
      )

module _ {W R : Type 0} ⦃d : Double W⦄ (ctx : Context W R) where
  fuse_trail-after :
      (stay : AlarmRule) (area : AlarmArea W R) (t : Trails W)
      → stay.track_type ≡ pos 0
      → (trails_after_stay ctx stay area t).fuse_trail
        ≡ touch_all (is_in ctx stay area) ctx.fuse_track t.fuse_trail
  unfolding trails_after_stay
  fuse_trail-after stay area t fused = ground (arith, fused, eq_ℤ_iff stay.track_type (pos 0))

  -- After a rule about fused tracks that stay in an area was looked at, no number of turns is enough
  -- for the search of any rule about fused tracks that enter an area, if one of the tracks in the area
  -- of the first rule has no trail.
  pub stay_then_enter-hangs :
      (stay enter : AlarmRule) (area entered : AlarmArea W R) (t : Trails W) (key : ℤ)
      (track : Track W) (fuel : ℕ)
      → stay.track_type ≡ pos 0
      → lookup key ctx.fuse_track ≡ some track
      → in_area ctx (track.lat_degs, track.long_degs) area ≡ true
      → has_key key t.fuse_trail ≡ false
      → enter_fuse ctx enter entered fuel (trails_after_stay ctx stay area t).fuse_trail [] ≡ none
  unfolding is_in
  stay_then_enter-hangs stay enter area entered t key track fuel fused e inside n =
      enter_fuse-hangs ctx enter entered fuel (trails_after_stay ctx stay area t).fuse_trail [] (
        rw (fuse_trail-after stay area t fused)
          (touch_all-new (is_in ctx stay area) ctx.fuse_track t.fuse_trail key track e inside n))
