-- ===== src/Identification/Disposition.antt =====
-- The disposition of an alarm (`resolveRuleAlarmDisposition`, src/customconfig.cpp).
use alarm_sys_linux.Common.{
  ◌∙◌, ◌≡◌, ◌≢◌, ◌↔◌, ◌⊎◌, inl, inr, Bool, Bool-cases, true, false, ◌&&◌, ◌||◌, arith, str_eq_iff,
}
use alarm_sys_linux.Common.Int.{ℤ, pos, eq_ℤ_iff}
use alarm_sys_linux.Common.Dict.{lookup, has_key, string_key, int_key}
use alarm_sys_linux.Common.Dict.Laws.{has_key-insert}
use alarm_sys_linux.Alarms.State.{AlarmData, AlarmLogicConfig, Alarms, TimeText}
use alarm_sys_linux.Alarms.Filter.{remove_alarm_filter_for_unique_id}
use alarm_sys_linux.Alarms.Confirm.{
  text_or, mark_confirmed, confirm_marked, confirm_rules, lift_and_mark,
}
use alarm_sys_linux.Identification.{
  base_status, record_resolved, resolved_time, resolve_rule_alarm_disposition,
}

module _ {W : Type 0} (clock : TimeText) (al : AlarmLogicConfig) where
  abbrev pub counts : Bool × Bool → AlarmData W → Alarms W → Bool
  counts verdict ad s =
      has_key ad.unique_id s.manual_confirmed_unique_ids || (verdict.0 && verdict.1)

  has_key-record_resolved :
      (now : ℤ) (ad : AlarmData W) (s : Alarms W)
      → has_key ad.alarm_id (record_resolved clock al now ad s).alarm_identification_resolved_time
        ≡ true
  unfolding record_resolved
  has_key-record_resolved now ad s = ground (
    arith,
    has_key-insert ad.alarm_id ad.alarm_id
        (text_or (clock.to_text now) (lookup ad.unique_id s.manual_confirm_resolved_time))
        s.alarm_identification_resolved_time,
    str_eq_iff ad.alarm_id ad.alarm_id,
  )

  record_resolved_known :
      (now : ℤ) (ad : AlarmData W) (s : Alarms W)
      → has_key ad.alarm_id s.alarm_identification_resolved_time ≡ true
      → record_resolved clock al now ad s ≡ s
  unfolding record_resolved
  record_resolved_known now ad s h = rw h

  resolve_counted :
      (now : ℤ) (verdict : Bool × Bool) (ad : AlarmData W) (s : Alarms W)
      → counts verdict ad s ≡ true
      → resolve_rule_alarm_disposition clock al now verdict ad s ≡ (
        record_resolved clock al now ad s,
        record {
          task_status = pos 3;
          resolved_time_str = resolved_time clock al now ad (record_resolved clock al now ad s);
        },
      )
  unfolding resolve_rule_alarm_disposition
  resolve_counted now verdict ad s h = rw h

  resolve_uncounted :
      (now : ℤ) (verdict : Bool × Bool) (ad : AlarmData W) (s : Alarms W)
      → counts verdict ad s ≡ false
      → resolve_rule_alarm_disposition clock al now verdict ad s
        ≡ (s, record { task_status = base_status ad.task_status; resolved_time_str = "" })
  unfolding resolve_rule_alarm_disposition
  resolve_uncounted now verdict ad s h = rw h

  counts-record_resolved :
      (now : ℤ) (verdict : Bool × Bool) (ad : AlarmData W) (s : Alarms W)
      → counts verdict ad (record_resolved clock al now ad s) ≡ counts verdict ad s
  unfolding record_resolved
  counts-record_resolved now verdict ad s = ground arith

  -- Once an alarm counted as identified, no later call for it changes the tables or writes to the
  -- database. If it counts as identified in the later call too, the answer is the same, with the time
  -- of the first call; if it does not, the answer is its own status without a time.
  pub resolve_twice :
      (now later : ℤ) (verdict verdict_later : Bool × Bool) (ad : AlarmData W) (s : Alarms W)
      → counts verdict ad s ≡ true
      → let once = resolve_rule_alarm_disposition clock al now verdict ad s in
        let twice = resolve_rule_alarm_disposition clock al later verdict_later ad once.0 in
        ((counts verdict_later ad s ≡ true) × (twice ≡ once))
        ⊎ ((counts verdict_later ad s ≡ false)
            × (twice ≡ (
              once.0,
              record { task_status = base_status ad.task_status; resolved_time_str = "" },
            )))
  unfolding resolved_time
  resolve_twice now later verdict verdict_later ad s h =
      let first = record_resolved clock al now ad s in
      let e = resolve_counted now verdict ad s h in
      let same = counts-record_resolved now verdict_later ad s in
      let known = record_resolved_known later ad first (has_key-record_resolved now ad s) in
      elim (Bool-cases (counts verdict_later ad s)) [
        | inl k ↦ inl (k, rw e (resolve_counted later verdict_later ad first (same ∙ k) ∙ rw known))
        | inr k ↦ inr (k, rw e (resolve_uncounted later verdict_later ad first (same ∙ k)))
      ]

  -- The status of an alarm is 3 exactly when the target was confirmed by an operator, or a rule is
  -- met, or the alarm's own status is none of 0, 1 and 2.
  pub status_iff :
      (now : ℤ) (verdict : Bool × Bool) (ad : AlarmData W) (s : Alarms W)
      → ((resolve_rule_alarm_disposition clock al now verdict ad s).1.task_status ≡ pos 3) ↔ (
          (counts verdict ad s ≡ true)
          ⊎ ((ad.task_status ≢ pos 0) × (ad.task_status ≢ pos 1) × (ad.task_status ≢ pos 2)))
  unfolding resolve_rule_alarm_disposition
  status_iff now verdict ad s = ground (
    arith,
    eq_ℤ_iff ad.task_status (pos 0),
    eq_ℤ_iff ad.task_status (pos 1),
    eq_ℤ_iff ad.task_status (pos 2),
  )

  has_key-confirm_rules :
      (now id : ℤ) (s : Alarms W)
      → has_key id (confirm_rules clock al now id s).0.manual_confirmed_unique_ids ≡ true
  unfolding confirm_rules confirm_marked lift_and_mark mark_confirmed
  has_key-confirm_rules now id s =
      let before = (remove_alarm_filter_for_unique_id id s).manual_confirmed_unique_ids in
      ground (arith, has_key-insert id id tt before, eq_ℤ_iff id id)

  -- Whatever the rules say, an alarm of a target that an operator has just confirmed has status 3.
  pub status-confirm_rules :
      (now later id : ℤ) (verdict : Bool × Bool) (ad : AlarmData W) (s : Alarms W)
      → ad.unique_id ≡ id
      → let confirmed = (confirm_rules clock al now id s).0 in
        (resolve_rule_alarm_disposition clock al later verdict ad confirmed).1.task_status ≡ pos 3
  status-confirm_rules now later id verdict ad s e =
      let confirmed = (confirm_rules clock al now id s).0 in
      (status_iff later verdict ad confirmed).1
        (inl (ground (arith, e, has_key-confirm_rules now id s)))
