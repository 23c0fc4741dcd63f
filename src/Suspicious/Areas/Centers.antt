-- ===== src/Suspicious/Areas/Centers.antt =====
-- What the areas of `SuspiciousTargetThread` (src/dialog/alarm/SuspiciousTargetThread.cpp) are.
use alarm_sys_linux.Common.{
  ◌≡◌, ◌⊎◌, inr, String, append, ◌||◌, List, [], ◌∷◌, ◌++◌, arith, if◌then◌else◌, list_or_empty,
}
use alarm_sys_linux.Common.Int.{ℤ, pos, eq_ℤ_iff, leb_ℤ, ltb_ℤ, ◌<ℤ◌, ◌≤ℤ◌}
use alarm_sys_linux.Common.Dict.{Dict, lookup, insert, has_key, int_key, string_key}
use alarm_sys_linux.Suspicious.{Point}
use alarm_sys_linux.Suspicious.Areas.{AlarmArea, center_of, collect_from, collect_protect_centers}

module _ {W : Type 0} where
  abbrev pub Occurs : Point W → List (Point W) → Type 0
  Occurs p [] = ⊥
  Occurs p (q ∷ qs) = (q ≡ p) ⊎ Occurs p qs

  Occurs-append :
      (p : Point W) (xs ys : List (Point W)) → Occurs p (xs ++ ys) → Occurs p xs ⊎ Occurs p ys
  Occurs-append p [] ys h = inr h
  Occurs-append p (x ∷ xs) ys h = ground (arith, h, Occurs-append p xs ys)

module _ {W R : Type 0} where
  -- The point is the centre of a circle with the id among the areas.
  abbrev pub InGroup : ℤ → Point W → List (AlarmArea W R) → Type 0
  InGroup id p [] = ⊥
  InGroup id p (area ∷ rest) =
      ((area.area_id ≡ id) × (area.alert_area_type ≡ pos 2) × (area.start_p ≡ p))
      ⊎ InGroup id p rest

  -- The point is the centre of a circle that the scheme protects.
  abbrev pub IsCenter : Dict ℤ (List (AlarmArea W R)) → Dict String (ℤ × ℤ) → Point W → Type 0
  IsCenter maparea [] p = ⊥
  IsCenter maparea ((_, (group_id, area_id)) ∷ rest) p =
      ((pos 0 <ℤ group_id)
        × (pos 0 ≤ℤ area_id)
        × InGroup area_id p (list_or_empty (lookup group_id maparea)))
      ⊎ IsCenter maparea rest p

  center_of-InGroup :
      (id : ℤ) (areas : List (AlarmArea W R)) (p : Point W)
      → Occurs p (center_of id areas)
      → InGroup id p areas
  unfolding center_of
  center_of-InGroup id [] p h = h
  center_of-InGroup id (area ∷ rest) p h = ground (
    arith,
    h,
    center_of-InGroup id rest p,
    eq_ℤ_iff area.area_id id,
    eq_ℤ_iff area.alert_area_type (pos 2),
  )

  collect_from-IsCenter :
      (number : ℤ → String) (maparea : Dict ℤ (List (AlarmArea W R)))
      (protect_areas : Dict String (ℤ × ℤ)) (seen : Dict String (Unit {0})) (p : Point W)
      → Occurs p (collect_from number maparea protect_areas seen)
      → IsCenter maparea protect_areas p
  unfolding collect_from
  collect_from-IsCenter number maparea [] seen p h = h
  collect_from-IsCenter number maparea ((k, (g, a)) ∷ rest) seen p h =
      let key = append (number g) (append "_" (number a)) in
      let skip = leb_ℤ g (pos 0) || ltb_ℤ a (pos 0) || has_key key seen in
      let areas = list_or_empty (lookup g maparea) in
      let next : Dict String (Unit {0}) = if skip then seen else insert key tt seen in
      let later = collect_from number maparea rest next in
      ground (
        arith,
        h,
        collect_from-IsCenter number maparea rest next p,
        Occurs-append p (center_of a areas) later,
        center_of-InGroup a areas p,
      )

  -- Every centre that is collected is the centre of a circle whose group and area the active scheme
  -- protects, with a positive group and an area that is not negative.
  pub collect_protect_centers-IsCenter :
      (number : ℤ → String) (maparea : Dict ℤ (List (AlarmArea W R)))
      (protect_areas : Dict String (ℤ × ℤ)) (p : Point W)
      → Occurs p (collect_protect_centers number maparea protect_areas)
      → IsCenter maparea protect_areas p
  unfolding collect_protect_centers
  collect_protect_centers-IsCenter number maparea protect_areas p h =
      collect_from-IsCenter number maparea protect_areas [] p h
