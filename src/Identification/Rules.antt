-- ===== src/Identification/Rules.antt =====
-- When the identification rules of src/customconfig.cpp are met.
use alarm_sys_linux.Common.{
  ◌∙◌, ◌≡◌, refl, sym, ap, ◌≢◌, ◌↔◌, inl, inr, String, Bool, true, false, ◌&&◌, ◌||◌, Option, none,
  some, List, [], ◌∷◌, ◌++◌, arith, str_eq, str_eq_iff, if◌then◌else◌, any, keep, list_or_empty,
  append_nil, append_snoc, Bool-cases,
}
use alarm_sys_linux.Common.Dict.{Dict, lookup, insert, string_key, Distinct}
use alarm_sys_linux.Common.Dict.Laws.{lookup-insert, insert-Distinct, lookup-has_key}
use alarm_sys_linux.Alarms.State.{AlarmData}
use alarm_sys_linux.Identification.{
  RuleSub, Sources, criteria_key, group_by_criteria, group_ok, any_group_ok,
  rule_has_detection_constraints, eval_single_rule_criteria_intersection, eval_rule_ids,
  rule_ids_of, eval_identification_rules_union,
}

abbrev joined : Option (List RuleSub) → List RuleSub → Option (List RuleSub)
joined none [] = none
joined none (x ∷ xs) = some (x ∷ xs)
joined (some rows) xs = some (rows ++ xs)

joined_nil : (o : Option (List RuleSub)) → joined o [] ≡ o
joined_nil none = refl
joined_nil (some rows) = ap some (append_nil rows)

joined_snoc :
    (o : Option (List RuleSub)) (s : RuleSub) (xs : List RuleSub)
    → joined (some (list_or_empty o ++ s ∷ [])) xs ≡ joined o (s ∷ xs)
joined_snoc none s xs = refl
joined_snoc (some rows) s xs = ap some (append_snoc rows s xs)

module _ {W J : Type 0} (src : Sources J) (ad : AlarmData W) where
  -- The enabled rows of one criteria.
  abbrev pub rows_of : String → List RuleSub → List RuleSub
  rows_of key subs = keep (λ s. s.enabled && str_eq (criteria_key src ad s) key) subs

  lookup-group_by_criteria :
      (key : String) (subs : List RuleSub) (m : Dict String (List RuleSub))
      → lookup key (group_by_criteria src ad subs m) ≡ joined (lookup key m) (rows_of key subs)
  unfolding group_by_criteria
  lookup-group_by_criteria key [] m = sym (joined_nil (lookup key m))
  lookup-group_by_criteria key (s ∷ rest) m =
      let here = criteria_key src ad s in
      let old = list_or_empty (lookup here m) in
      let next = if s.enabled then insert here (old ++ s ∷ []) m else m in
      ground (
        arith,
        lookup-group_by_criteria key rest next,
        lookup-insert key here (old ++ s ∷ []) m,
        joined_snoc (lookup key m) s (rows_of key rest),
        str_eq_iff here key,
      )

  group_by_criteria-Distinct :
      (subs : List RuleSub) (m : Dict String (List RuleSub))
      → Distinct m
      → Distinct (group_by_criteria src ad subs m)
  unfolding group_by_criteria
  group_by_criteria-Distinct [] m d = d
  group_by_criteria-Distinct (s ∷ rest) m d =
      let key = criteria_key src ad s in
      let rows = list_or_empty (lookup key m) ++ s ∷ [] in
      group_by_criteria-Distinct rest (if s.enabled then insert key rows m else m)
        (ground (arith, insert-Distinct key rows m d))

  any_group_ok_sound :
      (m : Dict String (List RuleSub))
      → Distinct m
      → any_group_ok src ad m ≡ true
      → (key : String) × (rows : List RuleSub) × (lookup key m ≡ some rows)
        × (group_ok src ad rows ≡ true)
  unfolding any_group_ok lookup
  any_group_ok_sound [] d e = cc
  any_group_ok_sound ((k, rows) ∷ rest) d e = elim (Bool-cases (group_ok src ad rows)) [
    | inl g ↦ (k, rows, ground (arith, str_eq_iff k k), g)
    | inr g ↦
        let later : any_group_ok src ad rest ≡ true = ground arith in
        let (key, found, l, p) = any_group_ok_sound rest d.1 later in
        (key, found, ground (arith, str_eq_iff k key, lookup-has_key k rest d.0), p)
  ]

  any_group_ok_complete :
      (m : Dict String (List RuleSub)) (key : String) (rows : List RuleSub)
      → lookup key m ≡ some rows
      → group_ok src ad rows ≡ true
      → any_group_ok src ad m ≡ true
  unfolding any_group_ok lookup
  any_group_ok_complete [] key rows e p = cc
  any_group_ok_complete ((k, r) ∷ rest) key rows e p =
      ground (arith, any_group_ok_complete rest key rows)

  joined-none : (xs rows : List RuleSub) → joined none xs ≡ some rows → (xs ≡ rows) × (xs ≢ [])
  joined-none [] rows e = cc
  joined-none (x ∷ xs) rows e = (ground (arith, e), λ q. cc)

  none-joined : (xs : List RuleSub) → xs ≢ [] → joined none xs ≡ some xs
  none-joined [] n = absurd (n refl)
  none-joined (x ∷ xs) n = refl

  -- One identification rule is met exactly when, for some criteria, there is an enabled row and all
  -- enabled rows of that criteria are met: the rows of one criteria are a conjunction, and the
  -- criteria are a disjunction.
  pub single_rule_iff :
      (subs : List RuleSub)
      → (eval_single_rule_criteria_intersection src ad subs ≡ true)
        ↔ ((key : String) × (rows_of key subs ≢ []) × (group_ok src ad (rows_of key subs) ≡ true))
  unfolding eval_single_rule_criteria_intersection lookup
  single_rule_iff subs =
      let groups = group_by_criteria src ad subs [] in
      let grouped : (key : String) → lookup key groups ≡ joined none (rows_of key subs) =
        λ key. lookup-group_by_criteria key subs [] in
      (
        λ e.
            let (key, rows, l, g) =
              any_group_ok_sound groups (group_by_criteria-Distinct subs [] tt) e in
            let (same, there) = joined-none (rows_of key subs) rows (sym (grouped key) ∙ l) in
            (key, there, rw same g),
        λ (key, there, g).
            any_group_ok_complete groups key (rows_of key subs)
              (grouped key ∙ none-joined (rows_of key subs) there) g,
      )

  -- The rules that are looked at: those with constraints.
  abbrev pub rule_met : Dict String (List RuleSub) → String → Bool
  rule_met map_subs rid =
      let subs = list_or_empty (lookup rid map_subs) in
      rule_has_detection_constraints src ad subs
      && eval_single_rule_criteria_intersection src ad subs

  eval_rule_ids_lem :
      (map_subs : Dict String (List RuleSub)) (ids : List String) (had : Bool)
      → let verdict = eval_rule_ids src ad map_subs ids had in
        (verdict.1 ≡ any (rule_met map_subs) ids)
        × (had ≡ true → verdict.0 ≡ true)
        × (verdict.1 ≡ true → verdict.0 ≡ true)
  unfolding eval_rule_ids
  eval_rule_ids_lem map_subs [] had = (refl, λ e. e, λ e. cc)
  eval_rule_ids_lem map_subs (rid ∷ rest) had =
      let constrained =
        rule_has_detection_constraints src ad (list_or_empty (lookup rid map_subs)) in
      ground (arith, eval_rule_ids_lem map_subs rest (constrained || had))

  -- An alarm is identified exactly when a rule of its area, or its own rule, has constraints and is
  -- met; the test of the code that a rule had constraints adds nothing to the verdict.
  pub identified_lem :
      (area_to_rule_ids : Dict String (List String)) (map_subs : Dict String (List RuleSub))
      → let verdict = eval_identification_rules_union src ad area_to_rule_ids map_subs in
        (verdict.0 && verdict.1) ≡ any (rule_met map_subs) (rule_ids_of src ad area_to_rule_ids)
  unfolding eval_identification_rules_union
  identified_lem area_to_rule_ids map_subs =
      ground (arith, eval_rule_ids_lem map_subs (rule_ids_of src ad area_to_rule_ids) false)
