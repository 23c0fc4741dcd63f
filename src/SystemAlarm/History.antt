-- ===== src/SystemAlarm/History.antt =====
-- The pool after any sequence of calls: an invariant of its entries, and the refinement of a
-- specification that looks at the calls only.
use alarm_sys_linux.Common.{
  ◌≡◌, refl, String, Bool, not, ◌&&◌, Option, none, some, List, [], ◌∷◌, arith, str_eq, str_eq_iff,
  is_empty, if◌then◌else◌, All, Bool-cases, inl, inr,
}
use alarm_sys_linux.Common.Int.{ℤ, pos, leb_ℤ}
use alarm_sys_linux.Common.Dict.{lookup, insert, erase, string_key, Distinct}
use alarm_sys_linux.Common.Dict.Laws.{
  lookup-erase, insert-Distinct, erase-Distinct, insert-All, erase-All,
}
use alarm_sys_linux.SystemAlarm.{SystemAlarmItem, Store, report, cancel, is_valid_kind, stored_item}
use alarm_sys_linux.SystemAlarm.Validation.{IsReportable, report-ok_iff, lookup-report}

pub data Call : Type 0 where
  reports : SystemAlarmItem → Call
  cancels : String → String → ℤ → Call

unfoldable pub step : Store → Call → Store
step active (reports item) = (report active item).0
step active (cancels alarm_id system_id time) = (cancel active alarm_id system_id time).0

-- The newest call stands first.
unfoldable pub run : List Call → Store
unfolding step
run [] = []
run (c ∷ cs) = step (run cs) c

-- The checks that a call's own arguments have to pass.
pub is_well_formed : Call → Bool
is_well_formed (reports item) =
    not (is_empty item.alarm_id)
    && not (is_empty item.system_id)
    && not (is_empty item.description)
    && not (leb_ℤ item.timestamp_ms (pos 0))
    && not (leb_ℤ item.raised_time_ms (pos 0))
    && is_valid_kind item.alarm_kind
is_well_formed (cancels alarm_id system_id time) =
    not (is_empty alarm_id) && not (is_empty system_id) && not (leb_ℤ time (pos 0))

abbrev subject : Call → String
subject (reports item) = item.alarm_id
subject (cancels alarm_id system_id time) = alarm_id

abbrev verdict : Call → Option SystemAlarmItem
verdict (reports item) = some (stored_item item)
verdict (cancels alarm_id system_id time) = none

-- The specification: the newest well-formed call about an id says whether it is active, and as what.
unfoldable pub latest : String → List Call → Option SystemAlarmItem
unfolding is_well_formed
latest id [] = none
latest id (c ∷ cs) = if is_well_formed c && str_eq (subject c) id then verdict c else latest id cs

report-well_formed :
    (active : Store) (item : SystemAlarmItem)
    → (report active item).1.ok ≡ is_well_formed (reports item)
unfolding report is_well_formed
report-well_formed active item = ground arith

lookup-cancel_call :
    (active : Store) (alarm_id system_id : String) (time : ℤ) (id : String)
    → lookup id (cancel active alarm_id system_id time).0 ≡ (
        if is_well_formed (cancels alarm_id system_id time) && str_eq alarm_id id
        then none
        else lookup id active)
unfolding cancel is_well_formed
lookup-cancel_call active alarm_id system_id time id =
    ground (arith, lookup-erase id alarm_id active, str_eq_iff alarm_id id)

lookup-step :
    (active : Store) (c : Call) (id : String)
    → lookup id (step active c)
      ≡ (if is_well_formed c && str_eq (subject c) id then verdict c else lookup id active)
unfolding step
lookup-step active (reports item) id =
    ground (arith, lookup-report active item id, report-well_formed active item)
lookup-step active (cancels alarm_id system_id time) id =
    lookup-cancel_call active alarm_id system_id time id

-- After any calls, what the pool holds for an id is what the newest well-formed call about that id
-- left: its item with the cancellation time reset, or nothing.
pub run-latest : (cs : List Call) (id : String) → lookup id (run cs) ≡ latest id cs
unfolding run latest lookup
run-latest [] id = refl
run-latest (c ∷ cs) id = ground (arith, lookup-step (run cs) c id, run-latest cs id)

-- An entry of the pool stands under its own id, is reportable and is not cancelled.
pub record IsEntry (entry : String × SystemAlarmItem) : Type 0 where
  pub keyed : entry.1.alarm_id ≡ entry.0
  pub reportable : IsReportable entry.1
  pub not_canceled : entry.1.canceled_time_ms ≡ pos 0

pub record IsPool (active : Store) : Type 0 where
  pub entries : All IsEntry active
  pub distinct : Distinct active

insert-IsPool :
    (active : Store) (item : SystemAlarmItem)
    → IsReportable item
    → IsPool active
    → IsPool (insert item.alarm_id (stored_item item) active)
insert-IsPool active item r v = record {
  entries =
      insert-All IsEntry item.alarm_id (stored_item item) active
        (record { keyed = refl; reportable = omega arith; not_canceled = refl }) v.entries;
  distinct = insert-Distinct item.alarm_id (stored_item item) active v.distinct;
}

erase-IsPool : (active : Store) (id : String) → IsPool active → IsPool (erase id active)
erase-IsPool active id v = record {
  entries = erase-All IsEntry id active v.entries;
  distinct = erase-Distinct id active v.distinct;
}

report-IsPool :
    (active : Store) (item : SystemAlarmItem) → IsPool active → IsPool (report active item).0
unfolding report
report-IsPool active item v = elim (Bool-cases (report active item).1.ok) [
  | inl good ↦ ground (arith, insert-IsPool active item ((report-ok_iff active item).0 good) v)
  | inr bad ↦ ground arith
]

cancel-IsPool :
    (active : Store) (alarm_id system_id : String) (time : ℤ)
    → IsPool active
    → IsPool (cancel active alarm_id system_id time).0
unfolding cancel
cancel-IsPool active alarm_id system_id time v = ground (arith, erase-IsPool active alarm_id v)

step-IsPool : (active : Store) (c : Call) → IsPool active → IsPool (step active c)
unfolding step
step-IsPool active (reports item) v = report-IsPool active item v
step-IsPool active (cancels a s t) v = cancel-IsPool active a s t v

-- After any calls every entry of the pool stands under its own id, with no id twice, passes the
-- checks of a report and has its cancellation time at 0.
pub run-IsPool : (cs : List Call) → IsPool (run cs)
unfolding run
run-IsPool [] = record { entries = tt; distinct = tt }
run-IsPool (c ∷ cs) = step-IsPool (run cs) c (run-IsPool cs)
