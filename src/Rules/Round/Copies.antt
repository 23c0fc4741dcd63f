-- ===== src/Rules/Round/Copies.antt =====
-- What the copies of the trails hold (`copyTrailForLiveTracks`, src/dialog/alarm/TrackAlarmThread.cpp).
use alarm_sys_linux.Common.{
  ◌≡◌, refl, none, [], ◌∷◌, arith, if◌then◌else◌, Option-cases, inl, inr, first_some, ◌≤◌, ◌+◌,
  true, All, length, List,
}
use alarm_sys_linux.Common.Int.{ℤ, eq_ℤ_iff}
use alarm_sys_linux.Common.Dict.{Dict, lookup, insert, has_key, int_key}
use alarm_sys_linux.Common.Dict.Laws.{
  lookup-insert, lookup-All, insert-All, has_key_iff, has_own_keys, length-insert-le,
}
use alarm_sys_linux.Suspicious.{Point}
use alarm_sys_linux.Rules.Watch.{TrailMap}
use alarm_sys_linux.Rules.Round.{copy_trails}
use alarm_sys_linux.Rules.Round.Steady.{IsSteady}

module _ {W A : Type 0} where
  lookup-copy_onto :
      (dst src : TrailMap W) (table : Dict ℤ A) (j : ℤ)
      → lookup j (copy_trails dst src table)
        ≡ (if has_key j table then first_some (lookup j src) (lookup j dst) else lookup j dst)
  unfolding copy_trails has_key
  lookup-copy_onto dst src [] j = refl
  lookup-copy_onto dst src ((key, value) ∷ rest) j = elim (Option-cases (lookup key src)) [
    | inl e ↦ ground (arith, e, lookup-copy_onto dst src rest j, eq_ℤ_iff key j)
    | inr (trail, e) ↦ ground (
      arith,
      e,
      lookup-copy_onto (insert key trail dst) src rest j,
      lookup-insert j key trail dst,
      eq_ℤ_iff key j,
    )
  ]

  -- The copies of the trails hold, for each track of the table, the trail that it has, and nothing
  -- for any other key.
  pub lookup-copy_trails :
      (src : TrailMap W) (table : Dict ℤ A) (j : ℤ)
      → lookup j (copy_trails [] src table) ≡ (if has_key j table then lookup j src else none)
  unfolding lookup
  lookup-copy_trails src table j =
      ground (arith, lookup-copy_onto [] src table j, Option-cases (lookup j src))

  copy_onto-All :
      (P : ℤ × List (Point W) → Type 0) (dst src : TrailMap W) (table : Dict ℤ A)
      → All P dst
      → All P src
      → All P (copy_trails dst src table)
  unfolding copy_trails
  copy_onto-All P dst src [] h k = h
  copy_onto-All P dst src ((key, value) ∷ rest) h k = elim (Option-cases (lookup key src)) [
    | inl e ↦ rw (e, copy_trails) (copy_onto-All P dst src rest h k)
    | inr (trail, e) ↦
        let next = insert key trail dst in
        rw (e, copy_trails)
          (copy_onto-All P next src rest
            (insert-All P key trail dst (lookup-All P key trail src k e) h) k)
  ]

  length-copy_onto-le :
      (dst src : TrailMap W) (table : Dict ℤ A)
      → length (copy_trails dst src table) ≤ length dst + length table
  unfolding copy_trails
  length-copy_onto-le dst src [] = omega arith
  length-copy_onto-le dst src ((key, value) ∷ rest) = elim (Option-cases (lookup key src)) [
    | inl e ↦ rw (e, copy_trails) (omega (arith, length-copy_onto-le dst src rest))
    | inr (trail, e) ↦
        let next = insert key trail dst in
        rw (e, copy_trails)
          (omega (arith, length-copy_onto-le next src rest, length-insert-le key trail dst))
  ]

  pub length-copy_trails-le :
      (src : TrailMap W) (table : Dict ℤ A) → length (copy_trails [] src table) ≤ length table
  length-copy_trails-le src table = omega (arith, length-copy_onto-le [] src table)

  covered :
      (src : TrailMap W) (table part : Dict ℤ A)
      → All (λ (e : ℤ × A). has_key e.0 table ≡ true) part
      → All (λ (e : ℤ × A). has_key e.0 src ≡ true) part
      → All (λ (e : ℤ × A). has_key e.0 (copy_trails [] src table) ≡ true) part
  covered src table [] h k = tt
  covered src table ((key, value) ∷ rest) h k = (
    ground (
      arith,
      h.0,
      k.0,
      has_key_iff key (copy_trails [] src table),
      has_key_iff key src,
      lookup-copy_trails src table key,
    ),
    covered src table rest h.1 k.1,
  )

  -- Where every track has a trail and every trail has ten points, the same holds for the copies.
  pub copy_trails-IsSteady :
      (src : TrailMap W) (table : Dict ℤ A)
      → IsSteady table src
      → IsSteady table (copy_trails [] src table)
  copy_trails-IsSteady src table h = (
    covered src table table (has_own_keys table) h.0,
    copy_onto-All (λ (e : ℤ × List (Point W)). 10 ≤ length e.1) [] src table tt h.1,
  )
