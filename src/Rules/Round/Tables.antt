-- ===== src/Rules/Round/Tables.antt =====
-- What a round keeps of the table of alarms (`processAlarms`, src/dialog/alarm/TrackAlarmThread.cpp).
use alarm_sys_linux.Common.{
  ◌≡◌, refl, ◌≢◌, inl, inr, ℕ, String, true, Option, some, List, [], ◌∷◌, arith, All, Bool-cases,
  Option-cases,
}
use alarm_sys_linux.Common.Int.{ℤ, eq_ℤ, eq_ℤ_iff}
use alarm_sys_linux.Common.Dict.{lookup, string_key, int_key, pair_key, Distinct}
use alarm_sys_linux.Common.Double.{Double}
use alarm_sys_linux.Alarms.State.{AlarmData}
use alarm_sys_linux.Alarms.Filter.{is_unique_id_alarm_filtered}
use alarm_sys_linux.Alarms.Save.Dedup.{IsTable}
use alarm_sys_linux.Suspicious.{Point}
use alarm_sys_linux.Suspicious.Areas.{AreaInfo, AlarmArea, Reading}
use alarm_sys_linux.Rules.Areas.{get_alarm_area, watched_rules}
use alarm_sys_linux.Rules.Context.{AlarmRule, Context, RuleState}
use alarm_sys_linux.Rules.Update.{updata_alarm_track_to_db}
use alarm_sys_linux.Rules.Update.Effect.{Standing, CannotTouch, batch-Standing, batch-IsTable}
use alarm_sys_linux.Rules.Watch.{Trails}
use alarm_sys_linux.Rules.Watch.Near.{Vectors}
use alarm_sys_linux.Rules.Round.{apply_rules, round_trails, process_alarms}
use alarm_sys_linux.Rules.Round.Kept.{rules-Kept}

for-All : {A : Type 0} (P : A → Type 0) → ((x : A) → P x) → (xs : List A) → All P xs
for-All P p [] = tt
for-All P p (x ∷ xs) = (p x, for-All P p xs)

module _ {W R V : Type 0} ⦃d : Double W⦄ (q : Vectors W R V) (uav : Point W) (fuel : ℕ)
    (to_list : List ℤ → List ℤ) (rd : Reading W R) (blank : AlarmArea W R) (config : Context W R)
    (area_list : List AreaInfo) (waring_list : List AlarmRule) (t : Trails W) where
  abbrev read_areas : Context W R
  read_areas = record config { maparea = get_alarm_area rd area_list }

  abbrev round_from : RuleState W → Option (RuleState W)
  round_from = process_alarms q uav fuel to_list rd blank config area_list waring_list t

  round-Kept :
      (Q : RuleState W → Type 0)
      → ((info : AlarmRule) (type source : ℤ) (ids : List ℤ) (s : RuleState W)
          → Q s
          → Q (updata_alarm_track_to_db read_areas info type source ids s))
      → (s s' : RuleState W) → Q s
      → round_from s ≡ some s'
      → Q s'
  unfolding process_alarms
  round-Kept Q keep s s' h e =
      let watched = watched_rules blank read_areas.maparea waring_list in
      let start = round_trails q uav fuel to_list read_areas t in
      let k = rules-Kept q uav fuel to_list read_areas Q keep watched start s h in
      elim (Option-cases (apply_rules q uav fuel to_list read_areas watched (start, s))) [
        | inl n ↦ absurd (ground (arith, e, n))
        | inr ((u, after), n) ↦ let same : s' ≡ after = ground (arith, e, n) in rw same (rw n at k)
      ]

  -- After a round the table of alarms has every alarm under its own id, and no id twice, as before.
  pub round-IsTable :
      (s s' : RuleState W)
      → IsTable s.alarms.alarm_data
      → round_from s ≡ some s'
      → IsTable s'.alarms.alarm_data
  round-IsTable s s' h e =
      round-Kept (λ state. IsTable state.alarms.alarm_data)
        (λ info type source ids state k. batch-IsTable read_areas info type source ids state k) s s'
        h e

  -- A round leaves the alarm of a silenced target as it is: it stays in the table, unchanged, where
  -- every alarm stands under its own id, no filter is there twice, and the ids of new alarms are not
  -- the alarm's.
  pub round-silenced :
      (s s' : RuleState W) (j : String) (ad : AlarmData W)
      → IsTable s.alarms.alarm_data
      → Distinct s.alarms.alarm_filter_expire_ms
      → lookup j s.alarms.alarm_data ≡ some ad
      → (is_unique_id_alarm_filtered config.now ad.unique_id s.alarms).1 ≡ true
      → ((id : ℤ) → config.uuid id ≢ j)
      → round_from s ≡ some s'
      → lookup j s'.alarms.alarm_data ≡ some ad
  unfolding Standing
  round-silenced s s' j ad table filters e silenced fresh done =
      let start = s.alarms in
      let cannot : (id : ℤ) → CannotTouch read_areas start j ad id = λ id.
        elim (Bool-cases (eq_ℤ ad.unique_id id)) [
          | inl same ↦
              let e : ad.unique_id ≡ id = (eq_ℤ_iff ad.unique_id id).0 same in
              inl (rw (← e) silenced)
          | inr other ↦ inr (λ e. ground (arith, other, (eq_ℤ_iff ad.unique_id id).1 e), fresh id)
        ] in
      let kept =
        round-Kept (λ state. Standing read_areas start j ad state.alarms)
          (λ info type source ids state k.
            batch-Standing read_areas info type source start j ad ids state
              (for-All (CannotTouch read_areas start j ad) cannot ids) k)
          s s' (table, filters, e, λ id. refl) done in
      kept.2
