-- ===== src/Rules/Watch/Misses.antt =====
-- What the searches for candidates find at least (`processAlarms`,
-- src/dialog/alarm/TrackAlarmThread.cpp), and where the nearest point of an edge lies
-- (`CommonFunc::pointToSegmentDistance`, src/common/commonfunc.cpp).
use alarm_sys_linux.Common.{
  ◌≡◌, refl, ◌⊎◌, inl, inr, ◌<◌, true, false, some, [], ◌∷◌, any, length, arith, Bool-cases,
}
use alarm_sys_linux.Common.Int.{ℤ, pos, eq_ℤ, eq_ℤ_iff}
use alarm_sys_linux.Common.Dict.{Dict, lookup, int_key}
use alarm_sys_linux.Common.Double.{Double}
use alarm_sys_linux.Alarms.Tracks.{Track}
use alarm_sys_linux.Rules.Context.{AlarmRule, Context}
use alarm_sys_linux.Rules.Guards.{current_speed_check}
use alarm_sys_linux.Rules.Watch.{TrailMap, Trails, trail_of}
use alarm_sys_linux.Rules.Watch.Near.{Vectors, point_to_segment_distance}
use alarm_sys_linux.Rules.Watch.Fast.{fits_speed, speed_ids, speed_search}

module _ {W R : Type 0} ⦃d : Double W⦄ (ctx : Context W R) (info : AlarmRule) where
  speed_ids-found :
      (trails : TrailMap W) (m : Dict ℤ (Track W)) (key : ℤ) (track : Track W)
      → lookup key m ≡ some track
      → fits_speed ctx info track.speed_mps ≡ true
      → 2 < length (trail_of key trails)
      → any (λ id. eq_ℤ id key) (speed_ids ctx info (λ (t : Track W). t.speed_mps) trails m) ≡ true
  unfolding speed_ids lookup
  speed_ids-found trails [] key track e f l = cc
  speed_ids-found trails ((k, t) ∷ rest) key track e f l =
      ground (arith, e, f, l, speed_ids-found trails rest key track, eq_ℤ_iff k key)

  fits-current_speed :
      (track : Track W)
      → ((v w : W) → d.le v w ≡ false → d.lt w v ≡ true)
      → ((v w : W) → d.lt v w ≡ true → d.le v w ≡ true)
      → (info.speed_condition ≡ pos 1) ⊎ (info.speed_condition ≡ pos 2)
      → current_speed_check ctx info track ≡ true
      → fits_speed ctx info track.speed_mps ≡ true
  unfolding current_speed_check fits_speed
  fits-current_speed track total weak c h =
      let limit = d.of_ℤ info.speed in
      ground (
        arith,
        c,
        h,
        total limit track.speed_mps,
        total track.speed_mps limit,
        weak track.speed_mps limit,
        eq_ℤ_iff info.speed_condition (pos 1),
        eq_ℤ_iff info.speed_condition (pos 2),
      )

  -- The search for fused tracks by their speed misses no track with a trail of more than two points
  -- whose speed the condition of the rule accepts; where the comparisons of doubles are those of a
  -- total order.
  pub speed_search_complete :
      (t : Trails W) (key : ℤ) (track : Track W)
      → ((v w : W) → d.le v w ≡ false → d.lt w v ≡ true)
      → ((v w : W) → d.lt v w ≡ true → d.le v w ≡ true)
      → (info.speed_condition ≡ pos 1) ⊎ (info.speed_condition ≡ pos 2)
      → info.track_type ≡ pos 0
      → lookup key ctx.fuse_track ≡ some track
      → current_speed_check ctx info track ≡ true
      → 2 < length (trail_of key t.fuse_trail)
      → any (λ id. eq_ℤ id key) (speed_search ctx info t) ≡ true
  unfolding speed_search
  speed_search_complete t key track total weak c fused e h l = ground (
    arith,
    eq_ℤ_iff info.track_type (pos 0),
    fused,
    speed_ids-found t.fuse_trail ctx.fuse_track key track e
        (fits-current_speed track total weak c h) l,
  )

module _ {W R V : Type 0} ⦃d : Double W⦄ (q : Vectors W R V) where
  -- A point of the segment: one of its ends, or a share of its direction from the start that is
  -- neither negative nor above 1.
  abbrev pub IsOnSegment : V → V → V → Type 0
  IsOnSegment start end point =
      (point ≡ start)
      ⊎ (point ≡ end)
      ⊎ ((t : W) × (d.lt t (d.of_ℤ (pos 0)) ≡ false)
          × (d.lt (d.of_ℤ (pos 1)) t ≡ false)
          × (point ≡ q.add start (q.scale t (q.sub end start))))

  -- The distance of a point to a segment is its distance to a point of the segment.
  pub point_to_segment-IsOnSegment :
      (point start end : V)
      → (near : V) × IsOnSegment start end near
        × (point_to_segment_distance q point start end ≡ q.len (q.sub point near))
  unfolding point_to_segment_distance
  point_to_segment-IsOnSegment point start end =
      let direction = q.sub end start in
      let denom = q.dot direction direction in
      let t = d.div (q.dot (q.sub point start) direction) denom in
      elim (Bool-cases (q.fuzzy_is_null denom)) [
        | inl e ↦ (start, inl refl, ground (arith, e))
        | inr e ↦ elim (Bool-cases (d.lt t (d.of_ℤ (pos 0)))) [
          | inl a ↦ (start, inl refl, ground (arith, e, a))
          | inr a ↦ elim (Bool-cases (d.lt (d.of_ℤ (pos 1)) t)) [
            | inl b ↦ (end, inr (inl refl), ground (arith, e, a, b))
            | inr b ↦ (
              q.add start (q.scale t direction),
              inr (inr (t, a, b, refl)),
              ground (arith, e, a, b),
            )
          ]
        ]
      ]
