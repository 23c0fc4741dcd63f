-- ===== src/Alarms/Save/Repeat.antt =====
-- Repeated alarms of one target, of `SaveToDB` (src/dialog/alarm/TrackAlarmThread.cpp), and the writes
-- to the database.
use alarm_sys_linux.Common.{
  ◌≡◌, refl, inl, inr, String, true, false, Option, none, some, arith, str_eq_iff, Option-cases,
}
use alarm_sys_linux.Common.Int.{ℤ, pos, ◌-ℤ◌, eq_ℤ_iff, leb_ℤ, ltb_ℤ}
use alarm_sys_linux.Common.Dict.{Dict, lookup, has_key, string_key}
use alarm_sys_linux.Common.Dict.Laws.{has_key-insert}
use alarm_sys_linux.Common.Double.{Double}
use alarm_sys_linux.Alarms.State.{
  AlarmData, AlarmLogicConfig, Alarms, TimeText, epoch_ms-to_text, ReadsBack,
}
use alarm_sys_linux.Alarms.Filter.{is_unique_id_alarm_filtered}
use alarm_sys_linux.Alarms.Save.{
  Candidate, BasePoint, matches_dedup_key, find_duplicate, new_alarm, refreshed_alarm, save_to_db,
}
use alarm_sys_linux.Alarms.Save.Dedup.{
  IsTable, Repeats, find_duplicate_sound, find_duplicate_complete, saved_of, saved_alarm,
  alarms-save_to_db, lookup-save_to_db, save_to_db-IsTable,
}

module _ {W : Type 0} ⦃d : Double W⦄ (clock : TimeText) (al : AlarmLogicConfig)
    (b : BasePoint W) where
  -- Two candidates for the same target and, where the configuration asks for it, the same condition.
  abbrev pub SameKey : Candidate W → Candidate W → Type 0
  SameKey c next = (next.target_id ≡ c.target_id) × (next.condition_id ≡ c.condition_id)

  abbrev pub IsAccepted : ℤ → Candidate W → Alarms W → Type 0
  IsAccepted now c s =
      (leb_ℤ c.target_id (pos 0) ≡ false)
      × ((is_unique_id_alarm_filtered now c.target_id s).1 ≡ false)

  saved-matches :
      (now : ℤ) (uuid : String) (blank : AlarmData W) (c next : Candidate W)
      (m : Dict String (AlarmData W)) (found : Option (AlarmData W))
      → IsTable m
      → SameKey c next
      → find_duplicate clock al now c m ≡ found
      → matches_dedup_key al next (saved_of clock al b uuid blank c now found) ≡ true
  unfolding matches_dedup_key new_alarm refreshed_alarm
  saved-matches now uuid blank c next m none t k e =
      ground
        (arith, str_eq_iff c.condition_id next.condition_id, eq_ℤ_iff c.target_id next.target_id)
  saved-matches now uuid blank c next m (some old) t k e = ground (
    arith,
    find_duplicate_sound clock al now c m old t.keyed e,
    str_eq_iff old.condition_id c.condition_id,
    str_eq_iff old.condition_id next.condition_id,
    eq_ℤ_iff c.target_id next.target_id,
  )

  pub saved_time :
      (now : ℤ) (uuid : String) (blank : AlarmData W) (c : Candidate W)
      (found : Option (AlarmData W))
      → (saved_of clock al b uuid blank c now found).time ≡ clock.to_text now
  unfolding new_alarm refreshed_alarm
  saved_time now uuid blank c none = refl
  saved_time now uuid blank c (some old) = refl

  saved-Repeats :
      ReadsBack clock
      → (now later : ℤ) (uuid : String) (blank : AlarmData W) (c next : Candidate W)
        (m : Dict String (AlarmData W))
      → IsTable m
      → SameKey c next
      → ltb_ℤ (later -ℤ now) al.dedup_same_alarm_window_ms ≡ true
      → Repeats clock al later next (saved_alarm clock al b uuid blank c now m)
  saved-Repeats r now later uuid blank c next m t k w =
      let found = find_duplicate clock al now c m in
      (
        saved-matches now uuid blank c next m found t k refl,
        rw (saved_time now uuid blank c found, epoch_ms-to_text clock r now) w,
      )

  refreshed_id :
      (now : ℤ) (c : Candidate W) (old : AlarmData W)
      → (refreshed_alarm clock b now c old).alarm_id ≡ old.alarm_id
  unfolding refreshed_alarm
  refreshed_id now c old = refl

  has_key-save_repeated :
      (now : ℤ) (uuid : String) (blank : AlarmData W) (c : Candidate W) (s : Alarms W)
      (old : AlarmData W)
      → IsTable s.alarm_data
      → find_duplicate clock al now c s.alarm_data ≡ some old
      → (j : String)
      → has_key j (save_to_db clock al b now uuid blank c s).alarm_data ≡ has_key j s.alarm_data
  has_key-save_repeated now uuid blank c s old t e j =
      let saved = refreshed_alarm clock b now c old in
      ground (
        arith,
        alarms-save_to_db clock al b uuid blank c now s,
        find_duplicate_sound clock al now c s.alarm_data old t.keyed e,
        has_key-insert j old.alarm_id saved s.alarm_data,
        refreshed_id now c old,
        e,
        str_eq_iff old.alarm_id j,
      )

  -- A save that repeats an accepted one, of the same target and condition and within the window of
  -- repetitions, makes no new entry in the table of alarms: the ids that stand there are those that
  -- stood there; where every alarm of the table stands under its own id, and a time that was written
  -- as a text is read back.
  pub has_key-save_twice :
      ReadsBack clock
      → (now later : ℤ) (uuid uuid_later : String) (blank : AlarmData W) (c next : Candidate W)
        (s : Alarms W)
      → IsTable s.alarm_data
      → SameKey c next
      → ltb_ℤ (later -ℤ now) al.dedup_same_alarm_window_ms ≡ true
      → IsAccepted now c s
      → (j : String)
      → let once = save_to_db clock al b now uuid blank c s in
        let twice = save_to_db clock al b later uuid_later blank next once in
        has_key j twice.alarm_data ≡ has_key j once.alarm_data
  has_key-save_twice r now later uuid uuid_later blank c next s t k w a j =
      let first = saved_alarm clock al b uuid blank c now s.alarm_data in
      let once : Alarms W = save_to_db clock al b now uuid blank c s in
      let stands : lookup first.alarm_id once.alarm_data ≡ some first = ground (
        arith,
        lookup-save_to_db clock al b uuid blank c now s first.alarm_id,
        str_eq_iff first.alarm_id first.alarm_id,
      ) in
      let table = save_to_db-IsTable clock al b uuid blank c now s t in
      let again = saved-Repeats r now later uuid blank c next s.alarm_data t k w in
      elim (Option-cases (find_duplicate clock al later next once.alarm_data)) [
        | inl e ↦ absurd (
            find_duplicate_complete clock al later next once.alarm_data first.alarm_id first stands
              again e)
        | inr (old, e) ↦ has_key-save_repeated later uuid_later blank next once old table e j
      ]
