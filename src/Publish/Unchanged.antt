-- ===== src/Publish/Unchanged.antt =====
-- What the event leaves as it is (`SendAllAlarmEventMsg`, src/customconfig.cpp).
use alarm_sys_linux.Common.{
  ◌≡◌, refl, String, Option, none, some, List, [], ◌∷◌, ◌++◌, All, arith, ℕ,
}
use alarm_sys_linux.Common.Int.{ℤ}
use alarm_sys_linux.Common.Dict.{Dict}
use alarm_sys_linux.Common.Double.{Double}
use alarm_sys_linux.Alarms.State.{AlarmData, Alarms}
use alarm_sys_linux.Alarms.Filter.{is_unique_id_alarm_filtered}
use alarm_sys_linux.Identification.{resolve_rule_alarm_disposition, record_resolved}
use alarm_sys_linux.Publish.{Publisher, AlarmInfo}
use alarm_sys_linux.Publish.Rank.{level_map, valid_alarms}
use alarm_sys_linux.Publish.Sync.{sync_manual_alarms}
use alarm_sys_linux.Publish.Event.{
  disposition_of, rule_step, manual_step, type_of_id, type_step, targets_of, walk, alarm_event,
  send_all_alarm_event_msg,
}
use alarm_sys_linux.Publish.Silence.{walk-kept}

module _ {W J : Type 0} ⦃d : Double W⦄ (p : Publisher W J) (s : Alarms W) where
  abbrev Same : Alarms W → Type 0
  Same t = t.alarm_data ≡ s.alarm_data

  abbrev Anything : AlarmInfo W → Type 0
  Anything info = Unit {0}

  rule_step-Same :
      (levels : Dict String ℕ) (ad : AlarmData W) (t : Alarms W)
      → Same t
      → Same (rule_step p levels ad t).0
  unfolding rule_step disposition_of is_unique_id_alarm_filtered resolve_rule_alarm_disposition
      record_resolved
  rule_step-Same levels ad t h = ground (arith, h)

  manual_step-Same :
      (levels : Dict String ℕ) (ad : AlarmData W) (t : Alarms W)
      → Same t
      → Same (manual_step p levels ad t).0
  unfolding manual_step is_unique_id_alarm_filtered
  manual_step-Same levels ad t h = ground (arith, h)

  type_of_id-Same :
      (id_text : String) (class : ℤ) (t : Alarms W) (read : Option ℤ)
      → Same t
      → Same (type_of_id p id_text class t read).0
  unfolding type_of_id is_unique_id_alarm_filtered
  type_of_id-Same id_text class t none h = h
  type_of_id-Same id_text class t (some id) h = ground (arith, h)

  type_step-Same :
      (processed : List String) (id_text : String) (class : ℤ) (t : Alarms W)
      → Same t
      → Same (type_step p processed id_text class t).0
  unfolding type_step
  type_step-Same processed id_text class t h =
      ground (arith, h, type_of_id-Same id_text class t (p.to_long_long id_text) h)

  anything : (infos : List (AlarmInfo W)) → All Anything infos
  anything [] = tt
  anything (info ∷ rest) = (tt, anything rest)

  walk-Same :
      {K V : Type 0} (step : K → V → Alarms W → Alarms W × List (AlarmInfo W))
      → ((k : K) (v : V) (t : Alarms W) → Same t → Same (step k v t).0)
      → (m : Dict K V) (t : Alarms W) → Same t
      → Same (walk step m t).0
  walk-Same step keep m t h =
      (walk-kept step Same Anything (λ k v u i. (keep k v u i, anything (step k v u).1)) m t h).0

  event-Same : (t : Alarms W) → Same t → Same (alarm_event p t).0
  unfolding alarm_event
  event-Same t h =
      let levels = level_map (valid_alarms p t) in
      let ruled : Alarms W = (walk (λ k ad u. rule_step p levels ad u) t.alarm_data t).0 in
      let manual : Alarms W =
        (walk (λ k ad u. manual_step p levels ad u) t.manual_alarm_data ruled).0 in
      let processed = targets_of p t.alarm_data ++ targets_of p t.manual_alarm_data in
      let rules =
        walk-Same (λ k ad u. rule_step p levels ad u) (λ k ad u i. rule_step-Same levels ad u i)
          t.alarm_data t h in
      let manuals =
        walk-Same (λ k ad u. manual_step p levels ad u) (λ k ad u i. manual_step-Same levels ad u i)
          t.manual_alarm_data ruled rules in
      ground (
        arith,
        h,
        walk-Same (type_step p processed) (type_step-Same processed) t.target_type manual manuals,
      )

  -- Sending the event leaves the table of alarms as it is.
  pub send-alarm_data : (send_all_alarm_event_msg p s).0.alarm_data ≡ s.alarm_data
  unfolding send_all_alarm_event_msg sync_manual_alarms
  send-alarm_data = event-Same (sync_manual_alarms p s) refl
