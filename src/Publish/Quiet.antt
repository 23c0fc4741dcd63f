-- ===== src/Publish/Quiet.antt =====
-- From the operator's call to the event: a target that is silenced (`addAlarmFilter`) is in no event
-- (`SendAllAlarmEventMsg`) until the filter ends (src/customconfig.cpp).
use alarm_sys_linux.Common.{◌≡◌, ◌∙◌, ap, ◌≢◌, ◌⊎◌, inl, inr, true, some, List, [], ◌∷◌, arith, All}
use alarm_sys_linux.Common.Int.{ℤ, pos, ◌+ℤ◌, eq_ℤ_iff, ltb_ℤ, max_ℤ, ◌<ℤ◌}
use alarm_sys_linux.Common.Dict.{Distinct, pair_key}
use alarm_sys_linux.Common.Double.{Double}
use alarm_sys_linux.Alarms.State.{Alarms}
use alarm_sys_linux.Alarms.Filter.{add_alarm_filter, is_unique_id_alarm_filtered}
use alarm_sys_linux.Alarms.Filter.Blocking.{filtered-add_alarm_filter, add_alarm_filter-Distinct}
use alarm_sys_linux.Publish.{Publisher, AlarmInfo}
use alarm_sys_linux.Publish.Event.{send_all_alarm_event_msg}
use alarm_sys_linux.Publish.Silence.{IsHeard, send-IsHeard}

module _ {W J : Type 0} ⦃d : Double W⦄ (p : Publisher W J) where
  -- A number that was written is read back.
  abbrev pub NumbersReadBack : Type 0
  NumbersReadBack = (id : ℤ) → p.to_long_long (p.sources.number id) ≡ some id

  IsHeard-other :
      (s : Alarms W) (target : ℤ) (info : AlarmInfo W)
      → NumbersReadBack
      → (is_unique_id_alarm_filtered p.sources.now_ms target s).1 ≡ true
      → IsHeard p s info
      → info.track_id ≢ p.sources.number target
  IsHeard-other s target info r f (id, named, heard) e =
      let read : p.to_long_long info.track_id ≡ some target = ap p.to_long_long e ∙ r target in
      let same : p.to_long_long info.track_id ≡ some id = elim named [
        | inl n ↦ ap p.to_long_long n ∙ r id
        | inr n ↦ n
      ] in
      ground (arith, read, same, f, heard)

  All-other :
      (s : Alarms W) (target : ℤ) (infos : List (AlarmInfo W))
      → NumbersReadBack
      → (is_unique_id_alarm_filtered p.sources.now_ms target s).1 ≡ true
      → All (IsHeard p s) infos
      → All (λ (info : AlarmInfo W). info.track_id ≢ p.sources.number target) infos
  All-other s target [] r f h = tt
  All-other s target (info ∷ rest) r f h =
      (IsHeard-other s target info r f h.0, All-other s target rest r f h.1)

  -- After an operator silenced a positive target, with a filter of either type, no entry of an event
  -- that is sent before the end of the filter is about the target; where a number that was written is
  -- read back, and no filter stood twice before.
  pub send-silenced :
      (set_ms type target : ℤ) (s : Alarms W)
      → NumbersReadBack
      → Distinct s.alarm_filter_expire_ms
      → (type ≡ pos 0) ⊎ (type ≡ pos 1)
      → pos 0 <ℤ target
      → ltb_ℤ p.sources.now_ms (set_ms +ℤ max_ℤ (pos 1000) p.al.alarm_filter_ttl_ms) ≡ true
      → All
          (λ (info : AlarmInfo W). info.track_id ≢ p.sources.number target)
          (send_all_alarm_event_msg p
            (add_alarm_filter p.sources.number p.al set_ms type target s)).1
  send-silenced set_ms type target s r k t positive soon =
      let number = p.sources.number in
      let silenced : Alarms W = add_alarm_filter number p.al set_ms type target s in
      let filtered : (is_unique_id_alarm_filtered p.sources.now_ms target silenced).1 ≡ true =
        ground (
          arith,
          soon,
          eq_ℤ_iff target target,
          filtered-add_alarm_filter number p.al set_ms type target s p.sources.now_ms target k t
              positive,
        ) in
      All-other silenced target (send_all_alarm_event_msg p silenced).1 r filtered (
        send-IsHeard p silenced
          (add_alarm_filter-Distinct number p.al set_ms type target s k positive))
