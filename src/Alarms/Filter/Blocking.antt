-- ===== src/Alarms/Filter/Blocking.antt =====
-- What a filter blocks, until when, and what is gone when it is set.
use alarm_sys_linux.Common.{
  ◌∙◌, ◌≡◌, refl, ◌⊎◌, String, false, not, ◌&&◌, ◌||◌, Option, none, some, List, [], ◌∷◌, arith,
  str_eq, str_eq_iff, if◌then◌else◌, any,
}
use alarm_sys_linux.Common.Int.{ℤ, pos, ◌+ℤ◌, eq_ℤ, eq_ℤ_iff, leb_ℤ, ltb_ℤ, max_ℤ, ◌<ℤ◌}
use alarm_sys_linux.Common.Dict.{
  Dict, lookup, insert, erase, has_key, pair_key, string_key, int_key, Distinct, pair_beq_iff,
}
use alarm_sys_linux.Common.Dict.Laws.{
  lookup-insert, lookup-erase, lookup-has_key, insert-Distinct, erase-Distinct,
}
use alarm_sys_linux.Alarms.State.{AlarmData, AlarmLogicConfig, Alarms}
use alarm_sys_linux.Alarms.Filter.{
  Filters, prune_expired_alarm_filters, keys_of_target, remove_keys, is_active,
  is_unique_id_alarm_filtered, remove_alarm_filter_for_unique_id, add_alarm_filter,
}

abbrev unexpired : ℤ → Option ℤ → Option ℤ
unexpired now none = none
unexpired now (some expire) = if leb_ℤ expire now then none else some expire

lookup-prune :
    (now : ℤ) (filters : Filters) (key : ℤ × ℤ)
    → Distinct filters
    → lookup key (prune_expired_alarm_filters now filters) ≡ unexpired now (lookup key filters)
unfolding prune_expired_alarm_filters lookup
lookup-prune now [] key d = refl
lookup-prune now ((k, expire) ∷ rest) key d =
    ground (arith, lookup-prune now rest key d.1, lookup-has_key k rest, pair_beq_iff k key)

has_key-prune :
    (now : ℤ) (filters : Filters) (key : ℤ × ℤ)
    → has_key key filters ≡ false
    → has_key key (prune_expired_alarm_filters now filters) ≡ false
unfolding prune_expired_alarm_filters has_key
has_key-prune now [] key h = refl
has_key-prune now ((k, expire) ∷ rest) key h = ground (arith, has_key-prune now rest key)

pub prune-Distinct :
    (now : ℤ) (filters : Filters)
    → Distinct filters
    → Distinct (prune_expired_alarm_filters now filters)
unfolding prune_expired_alarm_filters
prune-Distinct now [] d = tt
prune-Distinct now ((k, expire) ∷ rest) d =
    ground (arith, prune-Distinct now rest d.1, has_key-prune now rest k d.0)

pub is_active-prune :
    (now : ℤ) (filters : Filters) (type id : ℤ)
    → Distinct filters
    → is_active now (prune_expired_alarm_filters now filters) type id
      ≡ is_active now filters type id
unfolding is_active
is_active-prune now filters type id d = ground (arith, lookup-prune now filters (type, id) d)

is_active-insert :
    (now : ℤ) (filters : Filters) (type target expire : ℤ) (t id : ℤ)
    → is_active now (insert (type, target) expire filters) t id
      ≡ (if eq_ℤ type t && eq_ℤ target id then ltb_ℤ now expire else is_active now filters t id)
unfolding is_active
is_active-insert now filters type target expire t id =
    ground (arith, lookup-insert (t, id) (type, target) expire filters)

is_active-erase :
    (now : ℤ) (filters : Filters) (type target : ℤ) (t id : ℤ)
    → is_active now (erase (type, target) filters) t id
      ≡ (if eq_ℤ type t && eq_ℤ target id then false else is_active now filters t id)
unfolding is_active
is_active-erase now filters type target t id =
    ground (arith, lookup-erase (t, id) (type, target) filters)

abbrev pub other_type : ℤ → ℤ
other_type type = if eq_ℤ type (pos 0) then pos 1 else pos 0

lookup-remove_keys :
    {V : Type 0} (ks : List String) (m : Dict String V) (j : String)
    → lookup j (remove_keys ks m) ≡ (if any (λ k. str_eq k j) ks then none else lookup j m)
unfolding remove_keys
lookup-remove_keys [] m j = refl
lookup-remove_keys (k ∷ ks) m j =
    ground (arith, lookup-remove_keys ks (erase k m) j, lookup-erase j k m)

module _ {W : Type 0} where
  pub filtered_lem :
      (now id : ℤ) (s : Alarms W)
      → Distinct s.alarm_filter_expire_ms
      → (is_unique_id_alarm_filtered now id s).1 ≡ (
          not (leb_ℤ id (pos 0))
          && (is_active now s.alarm_filter_expire_ms (pos 0) id
              || is_active now s.alarm_filter_expire_ms (pos 1) id))
  unfolding is_unique_id_alarm_filtered
  filtered_lem now id s d = ground (
    arith,
    is_active-prune now s.alarm_filter_expire_ms (pos 0) id d,
    is_active-prune now s.alarm_filter_expire_ms (pos 1) id d,
  )

  module _ (number : ℤ → String) (al : AlarmLogicConfig) (now type target : ℤ) (s : Alarms W) where
    filters-add :
        pos 0 <ℤ target
        → (add_alarm_filter number al now type target s).alarm_filter_expire_ms
          ≡ insert
              (type, target)
              (now +ℤ max_ℤ (pos 1000) al.alarm_filter_ttl_ms)
              s.alarm_filter_expire_ms
    unfolding add_alarm_filter
    filters-add p = ground arith

  -- Once a filter of type 0 or 1 is set for a positive target, that target is filtered at a time
  -- exactly when the time is before the filter's end, which is the configured span and at least one
  -- second after the filter was set, or when the filter of the other type is active; whether any
  -- other target is filtered stays as it was.
  pub filtered-add_alarm_filter :
      (number : ℤ → String) (al : AlarmLogicConfig) (now type target : ℤ) (s : Alarms W) (t id : ℤ)
      → Distinct s.alarm_filter_expire_ms
      → (type ≡ pos 0) ⊎ (type ≡ pos 1)
      → pos 0 <ℤ target
      → let expire = now +ℤ max_ℤ (pos 1000) al.alarm_filter_ttl_ms in
        (is_unique_id_alarm_filtered t id (add_alarm_filter number al now type target s)).1 ≡ (
          if eq_ℤ target id
          then ltb_ℤ t expire || is_active t s.alarm_filter_expire_ms (other_type type) id
          else (is_unique_id_alarm_filtered t id s).1)
  filtered-add_alarm_filter number al now type target s t id d k p =
      let filters = s.alarm_filter_expire_ms in
      let expire = now +ℤ max_ℤ (pos 1000) al.alarm_filter_ttl_ms in
      let after : Alarms W = add_alarm_filter number al now type target s in
      let e = filters-add number al now type target s p in
      filtered_lem t id after (rw e (insert-Distinct (type, target) expire filters d))
      ∙ rw (e, filtered_lem t id s d)
          (ground (
            arith,
            is_active-insert t filters type target expire (pos 0) id,
            is_active-insert t filters type target expire (pos 1) id,
            eq_ℤ_iff target id,
          ))

  -- Lifting the filters of a positive target leaves it unfiltered at every time, and whether any
  -- other target is filtered stays as it was.
  pub filtered-remove_alarm_filter :
      (target : ℤ) (s : Alarms W) (t id : ℤ)
      → Distinct s.alarm_filter_expire_ms
      → pos 0 <ℤ target
      → (is_unique_id_alarm_filtered t id (remove_alarm_filter_for_unique_id target s)).1
        ≡ (if eq_ℤ target id then false else (is_unique_id_alarm_filtered t id s).1)
  unfolding remove_alarm_filter_for_unique_id
  filtered-remove_alarm_filter target s t id d p =
      let filters = s.alarm_filter_expire_ms in
      let once : Filters = erase (pos 0, target) filters in
      let after : Filters = erase (pos 1, target) once in
      ground (
        arith,
        filtered_lem t id (record s { alarm_filter_expire_ms = after })
            (erase-Distinct (pos 1, target) once (erase-Distinct (pos 0, target) filters d)),
        filtered_lem t id s d,
        is_active-erase t once (pos 1) target (pos 0) id,
        is_active-erase t once (pos 1) target (pos 1) id,
        is_active-erase t filters (pos 0) target (pos 0) id,
        is_active-erase t filters (pos 0) target (pos 1) id,
        eq_ℤ_iff target id,
      )

  abbrev pub unless_of : ℤ → Option (AlarmData W) → Option (AlarmData W)
  unless_of target none = none
  unless_of target (some alarm) = if eq_ℤ alarm.unique_id target then none else some alarm

  any-keys_none :
      (target : ℤ) (m : Dict String (AlarmData W)) (j : String)
      → has_key j m ≡ false
      → any (λ k. str_eq k j) (keys_of_target target m) ≡ false
  unfolding keys_of_target has_key
  any-keys_none target [] j h = refl
  any-keys_none target ((k, alarm) ∷ rest) j h = ground (arith, any-keys_none target rest j)

  any-keys_of_target :
      (target : ℤ) (m : Dict String (AlarmData W)) (j : String)
      → Distinct m
      → (if any (λ k. str_eq k j) (keys_of_target target m) then none else lookup j m)
        ≡ unless_of target (lookup j m)
  unfolding keys_of_target lookup
  any-keys_of_target target [] j d = refl
  any-keys_of_target target ((k, alarm) ∷ rest) j d = ground (
    arith,
    any-keys_of_target target rest j d.1,
    any-keys_none target rest j,
    lookup-has_key k rest,
    str_eq_iff k j,
  )

  pub lookup-add_alarm_filter :
      (number : ℤ → String) (al : AlarmLogicConfig) (now type target : ℤ) (s : Alarms W)
      (j : String)
      → Distinct s.alarm_data
      → Distinct s.manual_alarm_data
      → pos 0 <ℤ target
      → let after = add_alarm_filter number al now type target s in
        (lookup j after.alarm_data ≡ unless_of target (lookup j s.alarm_data))
        × (lookup j after.manual_alarm_data ≡ unless_of target (lookup j s.manual_alarm_data))
  unfolding add_alarm_filter
  lookup-add_alarm_filter number al now type target s j d m p = ground (
    arith,
    lookup-remove_keys (keys_of_target target s.alarm_data) s.alarm_data j,
    lookup-remove_keys (keys_of_target target s.manual_alarm_data) s.manual_alarm_data j,
    any-keys_of_target target s.alarm_data j d,
    any-keys_of_target target s.manual_alarm_data j m,
  )

  filters-checked :
      (now asked : ℤ) (s : Alarms W)
      → let after = (is_unique_id_alarm_filtered now asked s).0.alarm_filter_expire_ms in
        (after ≡ s.alarm_filter_expire_ms)
        ⊎ (after ≡ prune_expired_alarm_filters now s.alarm_filter_expire_ms)
  unfolding is_unique_id_alarm_filtered
  filters-checked now asked s = ground arith

  -- Asking whether a target is filtered does not change whether any target is.
  pub filtered-checked :
      (now asked id : ℤ) (s : Alarms W)
      → Distinct s.alarm_filter_expire_ms
      → let checked = (is_unique_id_alarm_filtered now asked s).0 in
        Distinct checked.alarm_filter_expire_ms
        × ((is_unique_id_alarm_filtered now id checked).1
            ≡ (is_unique_id_alarm_filtered now id s).1)
  filtered-checked now asked id s d =
      let filters = s.alarm_filter_expire_ms in
      let checked : Alarms W = (is_unique_id_alarm_filtered now asked s).0 in
      ground (
        arith,
        filters-checked now asked s,
        prune-Distinct now filters d,
        filtered_lem now id s d,
        filtered_lem now id checked,
        is_active-prune now filters (pos 0) id d,
        is_active-prune now filters (pos 1) id d,
      )

  pub add_alarm_filter-Distinct :
      (number : ℤ → String) (al : AlarmLogicConfig) (now type target : ℤ) (s : Alarms W)
      → Distinct s.alarm_filter_expire_ms
      → pos 0 <ℤ target
      → Distinct (add_alarm_filter number al now type target s).alarm_filter_expire_ms
  add_alarm_filter-Distinct number al now type target s d p =
      let expire = now +ℤ max_ℤ (pos 1000) al.alarm_filter_ttl_ms in
      rw (filters-add number al now type target s p)
        (insert-Distinct (type, target) expire s.alarm_filter_expire_ms d)
