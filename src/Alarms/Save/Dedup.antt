-- ===== src/Alarms/Save/Dedup.antt =====
-- What a save changes, the invariant of the table of alarms, and that a repetition makes no new alarm.
use alarm_sys_linux.Common.{
  ◌≡◌, refl, ◌≢◌, String, true, ◌||◌, Option, none, some, [], ◌∷◌, arith, str_eq, str_eq_iff,
  if◌then◌else◌, All, Option-cases, All-snoc, ◌⊎◌, inl, inr,
}
use alarm_sys_linux.Common.Int.{ℤ, pos, ◌-ℤ◌, eq_ℤ, eq_ℤ_iff, leb_ℤ, ltb_ℤ}
use alarm_sys_linux.Common.Dict.{
  Dict, lookup, insert, erase, has_key, string_key, pair_key, Distinct,
}
use alarm_sys_linux.Common.Dict.Laws.{
  lookup-insert, insert-Distinct, insert-All, erase-All, erase-Distinct,
}
use alarm_sys_linux.Common.Double.{Double}
use alarm_sys_linux.Alarms.State.{AlarmData, AlarmLogicConfig, Alarms, TimeText, epoch_ms}
use alarm_sys_linux.Alarms.Filter.{is_unique_id_alarm_filtered, prune_expired_alarm_filters}
use alarm_sys_linux.Alarms.Filter.Blocking.{filtered_lem, is_active-prune, prune-Distinct}
use alarm_sys_linux.Alarms.Save.{
  Candidate, BasePoint, matches_dedup_key, find_duplicate, new_alarm, refreshed_alarm, save_to_db,
  save_candidate, add_new, refresh,
}

abbrev pub IsKeyed : {W : Type 0} → String × AlarmData W → Type 0
IsKeyed (id, alarm) = alarm.alarm_id ≡ id

-- Every alarm stands under its own id, and no id twice.
pub record IsTable {W : Type 0} (m : Dict String (AlarmData W)) : Type 0 where
  pub keyed : All IsKeyed m
  pub distinct : Distinct m

insert-IsTable :
    {W : Type 0} (alarm : AlarmData W) (m : Dict String (AlarmData W))
    → IsTable m
    → IsTable (insert alarm.alarm_id alarm m)
insert-IsTable alarm m t = record {
  keyed = insert-All IsKeyed alarm.alarm_id alarm m refl t.keyed;
  distinct = insert-Distinct alarm.alarm_id alarm m t.distinct;
}

pub erase-IsTable :
    {W : Type 0} (id : String) (m : Dict String (AlarmData W)) → IsTable m → IsTable (erase id m)
erase-IsTable id m t = record {
  keyed = erase-All IsKeyed id m t.keyed;
  distinct = erase-Distinct id m t.distinct;
}

module _ {W : Type 0} ⦃d : Double W⦄ (clock : TimeText) (al : AlarmLogicConfig) where
  -- A candidate repeats an alarm if the keys agree and the alarm's last time is within the window.
  abbrev pub Repeats : ℤ → Candidate W → AlarmData W → Type 0
  Repeats now c ad =
      (matches_dedup_key al c ad ≡ true)
      × (ltb_ℤ (now -ℤ epoch_ms clock ad.time) al.dedup_same_alarm_window_ms ≡ true)

  pub find_duplicate_sound :
      (now : ℤ) (c : Candidate W) (m : Dict String (AlarmData W)) (ad : AlarmData W)
      → All IsKeyed m
      → find_duplicate clock al now c m ≡ some ad
      → Repeats now c ad × (has_key ad.alarm_id m ≡ true)
  unfolding find_duplicate has_key
  find_duplicate_sound now c [] ad k e = cc
  find_duplicate_sound now c ((id, x) ∷ rest) ad k e =
      ground (arith, find_duplicate_sound now c rest ad k.1, str_eq_iff id ad.alarm_id)

  pub find_duplicate_stands :
      (now : ℤ) (c : Candidate W) (m : Dict String (AlarmData W)) (ad : AlarmData W)
      → IsTable m
      → find_duplicate clock al now c m ≡ some ad
      → lookup ad.alarm_id m ≡ some ad
  unfolding find_duplicate lookup
  find_duplicate_stands now c [] ad t e = cc
  find_duplicate_stands now c ((id, x) ∷ rest) ad t e =
      let rest_table : IsTable rest = record { keyed = t.keyed.1; distinct = t.distinct.1 } in
      ground (
        arith,
        t.keyed.0,
        t.distinct.0,
        find_duplicate_stands now c rest ad rest_table,
        find_duplicate_sound now c rest ad t.keyed.1,
        str_eq_iff id ad.alarm_id,
      )

  pub find_duplicate_complete :
      (now : ℤ) (c : Candidate W) (m : Dict String (AlarmData W)) (id : String) (ad : AlarmData W)
      → lookup id m ≡ some ad
      → Repeats now c ad
      → find_duplicate clock al now c m ≢ none
  unfolding find_duplicate lookup
  find_duplicate_complete now c [] id ad e r = cc
  find_duplicate_complete now c ((k, x) ∷ rest) id ad e r =
      ground (arith, find_duplicate_complete now c rest id ad)

  module _ (b : BasePoint W) (uuid : String) (blank : AlarmData W) (c : Candidate W) where
    abbrev pub saved_of : ℤ → Option (AlarmData W) → AlarmData W
    saved_of now none = new_alarm clock al b now uuid blank c
    saved_of now (some old) = refreshed_alarm clock b now c old

    abbrev pub saved_alarm : ℤ → Dict String (AlarmData W) → AlarmData W
    saved_alarm now m = saved_of now (find_duplicate clock al now c m)

    alarms-save_candidate :
        (now : ℤ) (s : Alarms W) (found : Option (AlarmData W))
        → (save_candidate clock al b now uuid blank c s found).alarm_data
          ≡ insert (saved_of now found).alarm_id (saved_of now found) s.alarm_data
    unfolding save_candidate add_new refresh
    alarms-save_candidate now s none = refl
    alarms-save_candidate now s (some old) = ground arith

    pub alarms-save_to_db :
        (now : ℤ) (s : Alarms W)
        → let saved = saved_alarm now s.alarm_data in
          (save_to_db clock al b now uuid blank c s).alarm_data ≡ (
            if leb_ℤ c.target_id (pos 0) || (is_unique_id_alarm_filtered now c.target_id s).1
            then s.alarm_data
            else insert saved.alarm_id saved s.alarm_data)
    unfolding save_to_db is_unique_id_alarm_filtered
    alarms-save_to_db now s =
        let checked = (is_unique_id_alarm_filtered now c.target_id s).0 in
        ground
          (arith, alarms-save_candidate now checked (find_duplicate clock al now c s.alarm_data))

    -- A save for a positive target that is not filtered changes one entry of the table of alarms. It
    -- is the alarm that the target repeats, refreshed, if there is one, and a new alarm under the
    -- fresh id otherwise. A save for a filtered target, or for one that is not positive, changes no
    -- entry.
    pub lookup-save_to_db :
        (now : ℤ) (s : Alarms W) (j : String)
        → let saved = saved_alarm now s.alarm_data in
          lookup j (save_to_db clock al b now uuid blank c s).alarm_data ≡ (
            if leb_ℤ c.target_id (pos 0) || (is_unique_id_alarm_filtered now c.target_id s).1
            then lookup j s.alarm_data
            else if str_eq saved.alarm_id j
            then some saved
            else lookup j s.alarm_data)
    lookup-save_to_db now s j =
        let saved = saved_alarm now s.alarm_data in
        ground (arith, alarms-save_to_db now s, lookup-insert j saved.alarm_id saved s.alarm_data)

    -- The table of alarms has every alarm under its own id, and no id twice, after a save as before.
    pub save_to_db-IsTable :
        (now : ℤ) (s : Alarms W)
        → IsTable s.alarm_data
        → IsTable (save_to_db clock al b now uuid blank c s).alarm_data
    save_to_db-IsTable now s t =
        let saved = saved_alarm now s.alarm_data in
        ground (arith, alarms-save_to_db now s, insert-IsTable saved s.alarm_data t)

    -- An alarm of another target stays, unless the fresh id is its own.
    pub lookup-save_other :
        (now : ℤ) (s : Alarms W) (j : String) (ad : AlarmData W)
        → IsTable s.alarm_data
        → lookup j s.alarm_data ≡ some ad
        → ad.unique_id ≢ c.target_id
        → uuid ≢ j
        → lookup j (save_to_db clock al b now uuid blank c s).alarm_data ≡ some ad
    unfolding matches_dedup_key new_alarm refreshed_alarm
    lookup-save_other now s j ad t e other fresh =
        elim (Option-cases (find_duplicate clock al now c s.alarm_data)) [
          | inl n ↦ ground (arith, lookup-save_to_db now s j, n, str_eq_iff uuid j)
          | inr (old, o) ↦ ground (
            arith,
            lookup-save_to_db now s j,
            o,
            find_duplicate_stands now c s.alarm_data old t o,
            find_duplicate_sound now c s.alarm_data old t.keyed o,
            str_eq_iff old.alarm_id j,
            eq_ℤ_iff old.unique_id c.target_id,
          )
        ]

    -- A save for a filtered target changes no alarm.
    pub alarms-save_filtered :
        (now : ℤ) (s : Alarms W)
        → (is_unique_id_alarm_filtered now c.target_id s).1 ≡ true
        → (save_to_db clock al b now uuid blank c s).alarm_data ≡ s.alarm_data
    alarms-save_filtered now s f = ground (arith, alarms-save_to_db now s)

    filters-save_candidate :
        (now : ℤ) (s : Alarms W) (found : Option (AlarmData W))
        → (save_candidate clock al b now uuid blank c s found).alarm_filter_expire_ms
          ≡ s.alarm_filter_expire_ms
    unfolding save_candidate add_new refresh
    filters-save_candidate now s none = refl
    filters-save_candidate now s (some old) = ground arith

    pub filters-save_to_db :
        (now : ℤ) (s : Alarms W)
        → ((save_to_db clock al b now uuid blank c s).alarm_filter_expire_ms
            ≡ s.alarm_filter_expire_ms)
          ⊎ ((save_to_db clock al b now uuid blank c s).alarm_filter_expire_ms
              ≡ prune_expired_alarm_filters now s.alarm_filter_expire_ms)
    unfolding save_to_db is_unique_id_alarm_filtered
    filters-save_to_db now s =
        let checked = (is_unique_id_alarm_filtered now c.target_id s).0 in
        ground
          (arith, filters-save_candidate now checked (find_duplicate clock al now c s.alarm_data))

    -- Whether a target is filtered at the time of a save is the same after it.
    pub filtered-save_to_db :
        (now id : ℤ) (s : Alarms W)
        → Distinct s.alarm_filter_expire_ms
        → Distinct (save_to_db clock al b now uuid blank c s).alarm_filter_expire_ms
          × ((is_unique_id_alarm_filtered now id (save_to_db clock al b now uuid blank c s)).1
              ≡ (is_unique_id_alarm_filtered now id s).1)
    filtered-save_to_db now id s k =
        let filters = s.alarm_filter_expire_ms in
        let after : Alarms W = save_to_db clock al b now uuid blank c s in
        ground (
          arith,
          filters-save_to_db now s,
          prune-Distinct now filters k,
          filtered_lem now id s k,
          filtered_lem now id after,
          is_active-prune now filters (pos 0) id k,
          is_active-prune now filters (pos 1) id k,
        )

    list-save_candidate :
        (P : AlarmData W → Type 0) (now : ℤ) (s : Alarms W) (found : Option (AlarmData W))
        → ((alarm : AlarmData W)
            → alarm.alarm_status ≡ pos 0
            → alarm.unique_id ≡ c.target_id
            → P alarm)
        → All P s.list_alarm_data
        → All P (save_candidate clock al b now uuid blank c s found).list_alarm_data
    unfolding save_candidate add_new refresh refreshed_alarm
    list-save_candidate P now s none h p = p
    list-save_candidate P now s (some old) h p =
        let alarm = refreshed_alarm clock b now c old in
        ground (
          arith,
          p,
          λ (e : eq_ℤ alarm.alarm_status (pos 0) ≡ true).
              All-snoc P s.list_alarm_data alarm p
                (h alarm ((eq_ℤ_iff alarm.alarm_status (pos 0)).0 e) refl),
        )

    -- What holds of an alarm of the target that is not yet handled, and of those that are handed on,
    -- holds of those that are handed on after a save.
    pub list-save_to_db :
        (P : AlarmData W → Type 0) (now : ℤ) (s : Alarms W)
        → ((alarm : AlarmData W)
            → alarm.alarm_status ≡ pos 0
            → alarm.unique_id ≡ c.target_id
            → P alarm)
        → All P s.list_alarm_data
        → All P (save_to_db clock al b now uuid blank c s).list_alarm_data
    unfolding save_to_db is_unique_id_alarm_filtered
    list-save_to_db P now s h p =
        let checked = (is_unique_id_alarm_filtered now c.target_id s).0 in
        let found = find_duplicate clock al now c s.alarm_data in
        ground (arith, p, list-save_candidate P now checked found h)
