-- ===== src/Rules/Update/Effect.antt =====
-- What the loop over the candidates of a rule does to the table of alarms (`updataAlarmTrackToDB`,
-- src/dialog/alarm/TrackAlarmThread.cpp): which alarms stay, and which are handed on.
use alarm_sys_linux.Common.{
  ◌≡◌, refl, ap, ◌∙◌, ◌≢◌, ◌⊎◌, inl, inr, String, Bool, true, Option, none, some, List, [], ◌∷◌,
  arith, any, All, list_or_empty, Bool-cases, if◌then◌else◌,
}
use alarm_sys_linux.Common.Int.{ℤ, pos, eq_ℤ, eq_ℤ_iff}
use alarm_sys_linux.Common.Dict.{lookup, string_key, pair_key, Distinct, beq_refl}
use alarm_sys_linux.Common.Dict.Laws.{lookup-insert}
use alarm_sys_linux.Common.Double.{Double}
use alarm_sys_linux.Alarms.State.{AlarmData, Alarms}
use alarm_sys_linux.Alarms.Filter.{is_unique_id_alarm_filtered}
use alarm_sys_linux.Alarms.Save.Dedup.{
  IsTable, save_to_db-IsTable, lookup-save_other, alarms-save_filtered, filtered-save_to_db,
  list-save_to_db,
}
use alarm_sys_linux.Alarms.Tracks.{Track}
use alarm_sys_linux.Rules.Context.{AlarmRule, Context, RuleState}
use alarm_sys_linux.Rules.Candidate.{find_candidate}
use alarm_sys_linux.Rules.Guards.{Verdict, speed_step, target_info, judge}
use alarm_sys_linux.Rules.Update.{
  Listing, blacklisted, ignored, by_conditions, black_white, already_has_alarm, candidate_of, save,
  blacklist_content, rule_content, save_if, by_rule, by_listing, is_in_quiet_zone, update_track,
  update_candidate, update_candidates, updata_alarm_track_to_db,
}

-- An alarm that is handed on: not yet handled, and of a target in the list.
abbrev pub IsHandedOn : {W : Type 0} → List ℤ → AlarmData W → Type 0
IsHandedOn ids alarm =
    (alarm.alarm_status ≡ pos 0) × (any (λ id. eq_ℤ id alarm.unique_id) ids ≡ true)

module _ {W R : Type 0} (ctx : Context W R) where
  -- A candidate cannot touch an alarm if it is silenced, or if it is another target than the alarm's
  -- and its fresh id is not the alarm's.
  abbrev pub CannotTouch : Alarms W → String → AlarmData W → ℤ → Type 0
  CannotTouch start j ad id =
      ((is_unique_id_alarm_filtered ctx.now id start).1 ≡ true)
      ⊎ ((ad.unique_id ≢ id) × (ctx.uuid id ≢ j))

  -- What the loop keeps of the alarm `ad` under `j`.
  unfoldable pub Standing : Alarms W → String → AlarmData W → Alarms W → Type 0
  Standing start j ad a =
      IsTable a.alarm_data
      × Distinct a.alarm_filter_expire_ms
      × (lookup j a.alarm_data ≡ some ad)
      × ((id : ℤ)
          → (is_unique_id_alarm_filtered ctx.now id a).1
            ≡ (is_unique_id_alarm_filtered ctx.now id start).1)

module _ {W R : Type 0} ⦃d : Double W⦄ (ctx : Context W R) (info : AlarmRule)
    (type radar_source_id : ℤ) where
  -- A fact that every save for a target keeps.
  abbrev KeptFor : (Alarms W → Type 0) → ℤ → Type 0
  KeptFor P id =
      (track : Track W) (score : ℤ) (content : String) (a : Alarms W)
      → P a
      → P (save ctx info type radar_source_id id track score content a)

  save_if-kept :
      (P : Alarms W → Type 0) (id : ℤ)
      → KeptFor P id
      → (track : Track W) (v : Verdict W) (already : Bool) (a : Alarms W) → P a
      → P (save_if ctx info type radar_source_id id track v already a)
  unfolding save_if
  save_if-kept P id k track v already a p =
      let content = if v.pass then rule_content ctx info type radar_source_id id track v else "" in
      ground (arith, p, k track v.threat_score content a p)

  by_listing-kept :
      (P : Alarms W → Type 0) (id : ℤ)
      → KeptFor P id
      → (track : Track W) (s : RuleState W) (listing : Listing) → P s.alarms
      → P (by_listing ctx info type radar_source_id id track s listing).alarms
  unfolding by_rule by_listing
  by_listing-kept P id k track s blacklisted p =
      k track ctx.cfg.al.default_threat_score
        (blacklist_content ctx info type radar_source_id id track) s.alarms p
  by_listing-kept P id k track s ignored p = p
  by_listing-kept P id k track s by_conditions p =
      let speed_ok = (speed_step ctx info type id track s.speed_last_check).1 in
      let already =
        already_has_alarm ctx.clock ctx.now info.condition_id id
          ctx.cfg.al.track_already_has_alarm_window_ms s.alarms.alarm_data in
      save_if-kept P id k track (judge ctx info type id track speed_ok) already s.alarms p

  update_track-kept :
      (P : Alarms W → Type 0) (id : ℤ)
      → KeptFor P id
      → (s : RuleState W) (found : Option (Track W)) → P s.alarms
      → P (update_track ctx info type radar_source_id id s found).alarms
  unfolding update_track
  update_track-kept P id k s none p = p
  update_track-kept P id k s (some track) p =
      let listing = black_white info (target_info ctx info id) in
      elim (Bool-cases (is_in_quiet_zone ctx info type radar_source_id id track s.alarms)) [
        | inl q ↦ rw q p
        | inr q ↦ rw q (by_listing-kept P id k track s listing p)
      ]

  -- What every save for a candidate keeps, the loop keeps.
  update_candidates-kept :
      (P : Alarms W → Type 0) (ids : List ℤ) (s : RuleState W)
      → All (KeptFor P) ids
      → P s.alarms
      → P (update_candidates ctx info type radar_source_id ids s).alarms
  unfolding update_candidates update_candidate
  update_candidates-kept P [] s k p = p
  update_candidates-kept P (id ∷ rest) s k p =
      let next : RuleState W = update_candidate ctx info type radar_source_id id s in
      let found = find_candidate ctx type radar_source_id id in
      update_candidates-kept P rest next k.1 (update_track-kept P id k.0 s found p)

  batch-kept :
      (P : Alarms W → Type 0) (ids : List ℤ) (s : RuleState W)
      → All (KeptFor P) ids
      → P (record s.alarms { list_alarm_data = [] })
      → P (updata_alarm_track_to_db ctx info type radar_source_id ids s).alarms
  unfolding updata_alarm_track_to_db
  batch-kept P ids s k p =
      update_candidates-kept P ids (record s { alarms = record s.alarms { list_alarm_data = [] } })
        k p

  IsTable-kept : (ids : List ℤ) → All (KeptFor (λ a. IsTable a.alarm_data)) ids
  unfolding save
  IsTable-kept [] = tt
  IsTable-kept (id ∷ rest) = (
    λ track score content a t.
        save_to_db-IsTable ctx.clock ctx.cfg.al ctx.base (ctx.uuid id) ctx.blank_alarm
          (candidate_of ctx info type radar_source_id id track score content) ctx.now a t,
    IsTable-kept rest,
  )

  -- The table of alarms has every alarm under its own id, and no id twice, after a rule was applied
  -- to its candidates as before.
  pub batch-IsTable :
      (list_id : List ℤ) (s : RuleState W)
      → IsTable s.alarms.alarm_data
      → IsTable (updata_alarm_track_to_db ctx info type radar_source_id list_id s).alarms.alarm_data
  batch-IsTable list_id s t =
      batch-kept (λ a. IsTable a.alarm_data) list_id s (IsTable-kept list_id) t

  stands-save :
      (start : Alarms W) (j : String) (ad : AlarmData W) (id : ℤ)
      → CannotTouch ctx start j ad id
      → (track : Track W) (score : ℤ) (content : String) (a : Alarms W) → IsTable a.alarm_data
      → lookup j a.alarm_data ≡ some ad
      → (is_unique_id_alarm_filtered ctx.now id a).1
        ≡ (is_unique_id_alarm_filtered ctx.now id start).1
      → lookup j (save ctx info type radar_source_id id track score content a).alarm_data ≡ some ad
  unfolding save candidate_of
  stands-save start j ad id n track score content a t e f =
      let c = candidate_of ctx info type radar_source_id id track score content in
      let uuid = ctx.uuid id in
      elim n [
        | inl quiet ↦
            ap (lookup j) (
              alarms-save_filtered ctx.clock ctx.cfg.al ctx.base uuid ctx.blank_alarm c ctx.now a
                (f ∙ quiet))
            ∙ e
        | inr (other, fresh) ↦
            lookup-save_other ctx.clock ctx.cfg.al ctx.base uuid ctx.blank_alarm c ctx.now a j ad t
              e other fresh
      ]

  Standing-save :
      (start : Alarms W) (j : String) (ad : AlarmData W) (id : ℤ)
      → CannotTouch ctx start j ad id
      → KeptFor (Standing ctx start j ad) id
  unfolding save Standing
  Standing-save start j ad id n track score content a p =
      let (t, k, e, f) = p in
      let c = candidate_of ctx info type radar_source_id id track score content in
      let uuid = ctx.uuid id in
      (
        save_to_db-IsTable ctx.clock ctx.cfg.al ctx.base uuid ctx.blank_alarm c ctx.now a t,
        (filtered-save_to_db ctx.clock ctx.cfg.al ctx.base uuid ctx.blank_alarm c ctx.now id a k).0,
        stands-save start j ad id n track score content a t e (f id),
        λ other.
            (filtered-save_to_db ctx.clock ctx.cfg.al ctx.base uuid ctx.blank_alarm c ctx.now other
              a k).1
            ∙ f other,
      )

  Standing-kept :
      (start : Alarms W) (j : String) (ad : AlarmData W) (ids : List ℤ)
      → All (CannotTouch ctx start j ad) ids
      → All (KeptFor (Standing ctx start j ad)) ids
  Standing-kept start j ad [] n = tt
  Standing-kept start j ad (id ∷ rest) n =
      (Standing-save start j ad id n.0, Standing-kept start j ad rest n.1)

  filtered-start :
      (id : ℤ) (a : Alarms W)
      → (is_unique_id_alarm_filtered ctx.now id (record a { list_alarm_data = [] })).1
        ≡ (is_unique_id_alarm_filtered ctx.now id a).1
  unfolding is_unique_id_alarm_filtered
  filtered-start id a = ground arith

  pub batch-Standing :
      (start : Alarms W) (j : String) (ad : AlarmData W) (list_id : List ℤ) (s : RuleState W)
      → All (CannotTouch ctx start j ad) list_id
      → Standing ctx start j ad s.alarms
      → Standing ctx start j ad
          (updata_alarm_track_to_db ctx info type radar_source_id list_id s).alarms
  unfolding Standing
  batch-Standing start j ad list_id s n p =
      let (t, k, e, f) = p in
      batch-kept (Standing ctx start j ad) list_id s (Standing-kept start j ad list_id n)
        (t, k, e, λ id. filtered-start id s.alarms ∙ f id)

  -- An alarm stays in the table, unchanged, while a rule is applied to its candidates, if each
  -- candidate either is silenced at that time, or is another target than the alarm's and has a fresh
  -- id that is not the alarm's; where every alarm stands under its own id and no filter twice.
  pub lookup-untouched :
      (list_id : List ℤ) (s : RuleState W) (j : String) (ad : AlarmData W)
      → IsTable s.alarms.alarm_data
      → Distinct s.alarms.alarm_filter_expire_ms
      → lookup j s.alarms.alarm_data ≡ some ad
      → All (CannotTouch ctx s.alarms j ad) list_id
      → lookup j
          (updata_alarm_track_to_db ctx info type radar_source_id list_id s).alarms.alarm_data
        ≡ some ad
  unfolding Standing
  lookup-untouched list_id s j ad t k e n =
      (batch-Standing s.alarms j ad list_id s n (t, k, e, λ id. refl)).2

  handed-save :
      (ids : List ℤ) (id : ℤ)
      → any (λ i. eq_ℤ i id) ids ≡ true
      → KeptFor (λ a. All (IsHandedOn ids) a.list_alarm_data) id
  unfolding save candidate_of
  handed-save ids id m track score content a p =
      list-save_to_db ctx.clock ctx.cfg.al ctx.base (ctx.uuid id) ctx.blank_alarm
        (candidate_of ctx info type radar_source_id id track score content) (IsHandedOn ids) ctx.now
        a (λ alarm e t. (e, ap (λ u. any (λ i. eq_ℤ i u) ids) t ∙ m)) p

  handed-kept :
      (ids rest : List ℤ)
      → ((id : ℤ) → any (λ i. eq_ℤ i id) rest ≡ true → any (λ i. eq_ℤ i id) ids ≡ true)
      → All (KeptFor (λ a. All (IsHandedOn ids) a.list_alarm_data)) rest
  handed-kept ids [] m = tt
  handed-kept ids (id ∷ rest) m = (
    handed-save ids id (m id (ground (arith, eq_ℤ_iff id id))),
    handed-kept ids rest (λ i e. m i (ground (arith, e))),
  )

  -- The alarms that are handed on for a rule after it was applied to its candidates are alarms of
  -- those candidates, and none of them has been handled.
  pub batch-IsHandedOn :
      (list_id : List ℤ) (s : RuleState W)
      → All (IsHandedOn list_id) (
          list_or_empty (
            lookup info.name
              (updata_alarm_track_to_db ctx info type radar_source_id list_id s).area_alarm_data))
  unfolding updata_alarm_track_to_db
  batch-IsHandedOn list_id s =
      let start = record s { alarms = record s.alarms { list_alarm_data = [] } } in
      let done = update_candidates ctx info type radar_source_id list_id start in
      let handed = done.alarms.list_alarm_data in
      let kept = handed-kept list_id list_id (λ id e. e) in
      rw (lookup-insert info.name info.name handed done.area_alarm_data, beq_refl info.name)
        (update_candidates-kept (λ a. All (IsHandedOn list_id) a.list_alarm_data) list_id start kept
          tt)
