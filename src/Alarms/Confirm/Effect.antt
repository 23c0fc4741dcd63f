-- ===== src/Alarms/Confirm/Effect.antt =====
-- What a confirmation does to the rule alarms of its target (src/customconfig.cpp).
use alarm_sys_linux.Common.{
  ◌∙◌, ◌≡◌, refl, String, Bool, false, ◌&&◌, ◌||◌, Option, none, some, [], ◌∷◌, arith, str_eq,
  str_eq_iff, if◌then◌else◌, first_some,
}
use alarm_sys_linux.Common.Int.{ℤ, pos, eq_ℤ, eq_ℤ_iff, ◌<ℤ◌}
use alarm_sys_linux.Common.Dict.{Dict, lookup, string_key, int_key, pair_key, Distinct}
use alarm_sys_linux.Common.Dict.Laws.{lookup-insert, has_key_iff}
use alarm_sys_linux.Alarms.State.{AlarmData, AlarmLogicConfig, Alarms, TimeText}
use alarm_sys_linux.Alarms.Filter.{remove_alarm_filter_for_unique_id, is_unique_id_alarm_filtered}
use alarm_sys_linux.Alarms.Filter.Blocking.{filtered-remove_alarm_filter}
use alarm_sys_linux.Alarms.Confirm.{
  Confirming, confirm_threat_floor, raise_threat, resolve_alarm, confirm_rule_alarms, insert_new,
  mark_confirmed, text_or, confirm_rules, lift_and_mark, confirm_marked,
}

-- The time at which a target is confirmed: the first one counts.
abbrev pub confirm_time : ℤ → String → Dict ℤ String → String
confirm_time unique_id now_text m = text_or now_text (lookup unique_id m)

stamp_lem :
    (unique_id : ℤ) (now_text : String) (m : Dict ℤ String)
    → text_or "" (lookup unique_id (insert_new unique_id now_text m))
      ≡ confirm_time unique_id now_text m
unfolding insert_new text_or
stamp_lem unique_id now_text m = ground (
  arith,
  lookup-insert unique_id unique_id now_text m,
  has_key_iff unique_id m,
  eq_ℤ_iff unique_id unique_id,
)

module _ {W : Type 0} where
  abbrev pub raised_if : AlarmLogicConfig → ℤ → Option (AlarmData W) → Option (AlarmData W)
  raised_if al id none = none
  raised_if al id (some ad) =
      some (if eq_ℤ ad.unique_id id then raise_threat (confirm_threat_floor al) ad else ad)

  -- Whether a rule alarm of the target stands in the table, and whether one with the given id does.
  abbrev pub has_alarm_of : ℤ → Dict String (AlarmData W) → Bool
  has_alarm_of id [] = false
  has_alarm_of id ((_, ad) ∷ rest) = eq_ℤ ad.unique_id id || has_alarm_of id rest

  abbrev pub has_alarm_named : ℤ → String → Dict String (AlarmData W) → Bool
  has_alarm_named id j [] = false
  has_alarm_named id j ((_, ad) ∷ rest) =
      (eq_ℤ ad.unique_id id && str_eq ad.alarm_id j) || has_alarm_named id j rest

  module _ (al : AlarmLogicConfig) (id : ℤ) (stamp : String) (now : ℤ) where
    lookup-confirm_rule_alarms :
        (m : Dict String (AlarmData W)) (acc : Confirming W) (j : String)
        → lookup j (confirm_rule_alarms al id stamp now m acc).0 ≡ raised_if al id (lookup j m)
    unfolding confirm_rule_alarms lookup
    lookup-confirm_rule_alarms [] acc j = refl
    lookup-confirm_rule_alarms ((k, ad) ∷ rest) acc j =
        let next = if eq_ℤ ad.unique_id id then resolve_alarm al id stamp now ad acc else acc in
        ground (arith, lookup-confirm_rule_alarms rest next j)

    had-confirm_rule_alarms :
        (m : Dict String (AlarmData W)) (acc : Confirming W)
        → (confirm_rule_alarms al id stamp now m acc).1.had_rule_alarm
          ≡ (acc.had_rule_alarm || has_alarm_of id m)
    unfolding confirm_rule_alarms resolve_alarm
    had-confirm_rule_alarms [] acc = ground arith
    had-confirm_rule_alarms ((k, ad) ∷ rest) acc =
        let next = if eq_ℤ ad.unique_id id then resolve_alarm al id stamp now ad acc else acc in
        ground (arith, had-confirm_rule_alarms rest next)

    resolved-resolve_alarm :
        (ad : AlarmData W) (acc : Confirming W) (j : String)
        → lookup j (resolve_alarm al id stamp now ad acc).resolved
          ≡ first_some (lookup j acc.resolved) (if str_eq ad.alarm_id j then some stamp else none)
    unfolding resolve_alarm
    resolved-resolve_alarm ad acc j = ground (
      arith,
      lookup-insert j ad.alarm_id stamp acc.resolved,
      has_key_iff ad.alarm_id acc.resolved,
      str_eq_iff ad.alarm_id j,
    )

    resolved-confirm_rule_alarms :
        (m : Dict String (AlarmData W)) (acc : Confirming W) (j : String)
        → lookup j (confirm_rule_alarms al id stamp now m acc).1.resolved
          ≡ first_some (lookup j acc.resolved) (if has_alarm_named id j m then some stamp else none)
    unfolding confirm_rule_alarms
    resolved-confirm_rule_alarms [] acc j = ground arith
    resolved-confirm_rule_alarms ((k, ad) ∷ rest) acc j =
        let next = if eq_ℤ ad.unique_id id then resolve_alarm al id stamp now ad acc else acc in
        ground (arith, resolved-confirm_rule_alarms rest next j, resolved-resolve_alarm ad acc j)

  module _ (al : AlarmLogicConfig) (now id : ℤ) (s : Alarms W) where
    abbrev stamp_in : String
    stamp_in = text_or "" (lookup id s.manual_confirm_resolved_time)

    abbrev initial : Confirming W
    initial = record {
      resolved = s.alarm_identification_resolved_time;
      writes = s.db_writes;
      had_rule_alarm = false;
    }

    lookup-confirm_marked :
        (j : String)
        → lookup j (confirm_marked al now id s).0.alarm_data
          ≡ raised_if al id (lookup j s.alarm_data)
    unfolding confirm_marked
    lookup-confirm_marked j = lookup-confirm_rule_alarms al id stamp_in now s.alarm_data initial j

    had-confirm_marked : (confirm_marked al now id s).1 ≡ has_alarm_of id s.alarm_data
    unfolding confirm_marked
    had-confirm_marked = had-confirm_rule_alarms al id stamp_in now s.alarm_data initial

    resolved-confirm_marked :
        (j : String)
        → lookup j (confirm_marked al now id s).0.alarm_identification_resolved_time
          ≡ first_some
              (lookup j s.alarm_identification_resolved_time)
              (if has_alarm_named id j s.alarm_data then some stamp_in else none)
    unfolding confirm_marked
    resolved-confirm_marked j =
        resolved-confirm_rule_alarms al id stamp_in now s.alarm_data initial j

    filters-confirm_marked :
        (confirm_marked al now id s).0.alarm_filter_expire_ms ≡ s.alarm_filter_expire_ms
    unfolding confirm_marked
    filters-confirm_marked = refl

  marked_alarms :
      (clock : TimeText) (now id : ℤ) (s : Alarms W)
      → (lift_and_mark clock now id s).alarm_data ≡ s.alarm_data
  unfolding lift_and_mark mark_confirmed remove_alarm_filter_for_unique_id
  marked_alarms clock now id s = ground arith

  filtered_by :
      (t id : ℤ) (a b : Alarms W)
      → a.alarm_filter_expire_ms ≡ b.alarm_filter_expire_ms
      → (is_unique_id_alarm_filtered t id a).1 ≡ (is_unique_id_alarm_filtered t id b).1
  unfolding is_unique_id_alarm_filtered
  filtered_by t id a b e = ground arith

  module _ (clock : TimeText) (al : AlarmLogicConfig) (now id : ℤ) (s : Alarms W) where
    abbrev pub stamp_of : String
    stamp_of = confirm_time id (clock.to_text now) s.manual_confirm_resolved_time

    abbrev marked : Alarms W
    marked = lift_and_mark clock now id s

    resolved-marked :
        marked.alarm_identification_resolved_time ≡ s.alarm_identification_resolved_time
    unfolding lift_and_mark mark_confirmed remove_alarm_filter_for_unique_id
    resolved-marked = ground arith

    stamp-marked : text_or "" (lookup id marked.manual_confirm_resolved_time) ≡ stamp_of
    unfolding lift_and_mark mark_confirmed remove_alarm_filter_for_unique_id
    stamp-marked = ground (arith, stamp_lem id (clock.to_text now) s.manual_confirm_resolved_time)

    filters-marked :
        marked.alarm_filter_expire_ms
        ≡ (remove_alarm_filter_for_unique_id id s).alarm_filter_expire_ms
    unfolding lift_and_mark mark_confirmed
    filters-marked = refl

    -- Confirming the rule alarms of a target raises the threat score of each of them to the floor of
    -- the configuration at least, and leaves every other entry of the table, and every other field,
    -- as it was.
    pub lookup-confirm_rules :
        (j : String)
        → lookup j (confirm_rules clock al now id s).0.alarm_data
          ≡ raised_if al id (lookup j s.alarm_data)
    unfolding confirm_rules
    lookup-confirm_rules j =
        ground (arith, lookup-confirm_marked al now id marked j, marked_alarms clock now id s)

    pub had-confirm_rules : (confirm_rules clock al now id s).1 ≡ has_alarm_of id s.alarm_data
    unfolding confirm_rules
    had-confirm_rules =
        ground (arith, had-confirm_marked al now id marked, marked_alarms clock now id s)

    -- An alarm has a time of resolution after a confirmation of a target exactly when it had one,
    -- which stays, or is an alarm of the target, which then has the time of the first confirmation
    -- of the target.
    pub resolved-confirm_rules :
        (j : String)
        → lookup j (confirm_rules clock al now id s).0.alarm_identification_resolved_time
          ≡ first_some
              (lookup j s.alarm_identification_resolved_time)
              (if has_alarm_named id j s.alarm_data then some stamp_of else none)
    unfolding confirm_rules
    resolved-confirm_rules j = ground (
      arith,
      resolved-confirm_marked al now id marked j,
      marked_alarms clock now id s,
      resolved-marked,
      stamp-marked,
    )

    filters-confirm_rules :
        (confirm_rules clock al now id s).0.alarm_filter_expire_ms
        ≡ (remove_alarm_filter_for_unique_id id s).alarm_filter_expire_ms
    unfolding confirm_rules
    filters-confirm_rules = filters-confirm_marked al now id marked ∙ filters-marked

    -- After the rule alarms of a positive target are confirmed, the target is not filtered at any
    -- time, and whether another target is filtered stays as it was.
    pub filtered-confirm_rules :
        (t other : ℤ)
        → Distinct s.alarm_filter_expire_ms
        → pos 0 <ℤ id
        → (is_unique_id_alarm_filtered t other (confirm_rules clock al now id s).0).1
          ≡ (if eq_ℤ id other then false else (is_unique_id_alarm_filtered t other s).1)
    filtered-confirm_rules t other d p =
        filtered_by t other (confirm_rules clock al now id s).0
          (remove_alarm_filter_for_unique_id id s) filters-confirm_rules
        ∙ filtered-remove_alarm_filter id s t other d p
