-- ===== src/Publish/Silence.antt =====
-- That silenced targets are not published (`SendAllAlarmEventMsg`, src/customconfig.cpp).
use alarm_sys_linux.Common.{
  ◌≡◌, refl, sym, ◌∙◌, ◌⊎◌, inl, inr, String, Bool, true, false, not, ◌||◌, Option, none, some,
  is_some, List, [], ◌∷◌, ◌++◌, arith, any, All, All-append, str_eq, Bool-cases, is_nil,
  if◌then◌else◌, ◌&&◌, ℕ,
}
use alarm_sys_linux.Common.Int.{ℤ, pos, leb_ℤ}
use alarm_sys_linux.Common.Dict.{Dict, Distinct, pair_key, string_key}
use alarm_sys_linux.Common.Double.{Double}
use alarm_sys_linux.Alarms.State.{AlarmData, Alarms}
use alarm_sys_linux.Alarms.Filter.{is_unique_id_alarm_filtered}
use alarm_sys_linux.Alarms.Filter.Blocking.{filtered-checked, filtered_lem}
use alarm_sys_linux.Alarms.Tracks.{TrackHit, find_track_by_unique_id}
use alarm_sys_linux.Identification.{resolve_rule_alarm_disposition, record_resolved}
use alarm_sys_linux.Publish.{Publisher, AlarmInfo}
use alarm_sys_linux.Publish.Rank.{level_map, valid_alarms}
use alarm_sys_linux.Publish.Sync.{sync_manual_alarms}
use alarm_sys_linux.Publish.Event.{
  is_old, disposition_of, alarm_info, manual_info, rule_step, manual_step, typed_track, type_info,
  info_of_hit, type_of_id, type_step, targets_of, walk, alarm_event, send_all_alarm_event_msg,
}

pub walk-kept :
    {W K V : Type 0} (step : K → V → Alarms W → Alarms W × List (AlarmInfo W))
    (I : Alarms W → Type 0) (P : AlarmInfo W → Type 0)
    → ((k : K) (v : V) (t : Alarms W) → I t → I (step k v t).0 × All P (step k v t).1)
    → (m : Dict K V) (s : Alarms W) → I s
    → I (walk step m s).0 × All P (walk step m s).1
unfolding walk
walk-kept step I P h [] s i = (i, tt)
walk-kept step I P h ((k, v) ∷ rest) s i =
    let (j, here) = h k v s i in
    let (e, later) = walk-kept step I P h rest (step k v s).0 j in
    (e, All-append P (step k v s).1 (walk step rest (step k v s).0).1 here later)

module _ {W J : Type 0} ⦃d : Double W⦄ (p : Publisher W J) where
  -- The target that an entry of the event is about, by its text, is not silenced.
  abbrev pub IsHeard : Alarms W → AlarmInfo W → Type 0
  IsHeard s info =
      (id : ℤ) × ((info.track_id ≡ p.sources.number id) ⊎ (p.to_long_long info.track_id ≡ some id))
      × ((is_unique_id_alarm_filtered p.sources.now_ms id s).1 ≡ false)

  -- The tables silence the same targets.
  SameSilence : Alarms W → Alarms W → Type 0
  SameSilence s t =
      Distinct t.alarm_filter_expire_ms
      × ((id : ℤ)
          → (is_unique_id_alarm_filtered p.sources.now_ms id t).1
            ≡ (is_unique_id_alarm_filtered p.sources.now_ms id s).1)

  SameSilence-checked :
      (s t : Alarms W) (asked : ℤ)
      → SameSilence s t
      → SameSilence s (is_unique_id_alarm_filtered p.sources.now_ms asked t).0
  unfolding SameSilence
  SameSilence-checked s t asked (k, f) = (
    (filtered-checked p.sources.now_ms asked asked t k).0,
    λ id. (filtered-checked p.sources.now_ms asked id t k).1 ∙ f id,
  )

  SameSilence-filters :
      (s t u : Alarms W)
      → u.alarm_filter_expire_ms ≡ t.alarm_filter_expire_ms
      → SameSilence s t
      → SameSilence s u
  unfolding SameSilence
  SameSilence-filters s t u e (k, f) =
      let j : Distinct u.alarm_filter_expire_ms = rw e k in
      (
        j,
        λ id.
            filtered_lem p.sources.now_ms id u j
            ∙ rw e (sym (filtered_lem p.sources.now_ms id t k))
            ∙ f id,
      )

  filters-disposition :
      (ad : AlarmData W) (t : Alarms W)
      → (disposition_of p ad t).0.alarm_filter_expire_ms ≡ t.alarm_filter_expire_ms
  unfolding disposition_of resolve_rule_alarm_disposition record_resolved
  filters-disposition ad t = ground arith

  -- A turn that adds an entry only where the test fails.
  turn-kept :
      (I : Alarms W → Type 0) (P : AlarmInfo W → Type 0) (b : Bool) (checked after : Alarms W)
      (infos : List (AlarmInfo W))
      → I checked
      → (b ≡ false → I after × All P infos)
      → let turn : Alarms W × List (AlarmInfo W) = if b then (checked, []) else (after, infos) in
        I turn.0 × All P turn.1
  turn-kept I P true checked after infos c h = (c, tt)
  turn-kept I P false checked after infos c h = h refl

  skip-kept :
      (I : Alarms W → Type 0) (P : AlarmInfo W → Type 0) (b : Bool) (t : Alarms W)
      (next : Alarms W × List (AlarmInfo W))
      → I t
      → I next.0 × All P next.1
      → let turn : Alarms W × List (AlarmInfo W) = if b then (t, []) else next in
        I turn.0 × All P turn.1
  skip-kept I P true t next c h = (c, tt)
  skip-kept I P false t next c h = h

  heard :
      (s t : Alarms W) (id : ℤ) (other : Bool)
      → SameSilence s t
      → ((is_unique_id_alarm_filtered p.sources.now_ms id t).1 || other) ≡ false
      → (is_unique_id_alarm_filtered p.sources.now_ms id s).1 ≡ false
  unfolding SameSilence
  heard s t id other h e = sym (h.1 id) ∙ ground (arith, e)

  rule_step-kept :
      (s : Alarms W) (levels : Dict String ℕ) (ad : AlarmData W) (t : Alarms W)
      → SameSilence s t
      → SameSilence s (rule_step p levels ad t).0 × All (IsHeard s) (rule_step p levels ad t).1
  unfolding rule_step alarm_info
  rule_step-kept s levels ad t h =
      let asked = is_unique_id_alarm_filtered p.sources.now_ms ad.unique_id t in
      let checked : Alarms W = asked.0 in
      let found = disposition_of p ad checked in
      let same = SameSilence-checked s t ad.unique_id h in
      let after = SameSilence-filters s checked found.0 (filters-disposition ad checked) same in
      turn-kept (SameSilence s) (IsHeard s) (asked.1 || is_old p ad) checked found.0
        (alarm_info p levels ad found.1 ∷ []) same
        (λ e. (after, ((ad.unique_id, inl refl, heard s t ad.unique_id (is_old p ad) h e), tt)))

  manual_step-kept :
      (s : Alarms W) (levels : Dict String ℕ) (ad : AlarmData W) (t : Alarms W)
      → SameSilence s t
      → SameSilence s (manual_step p levels ad t).0 × All (IsHeard s) (manual_step p levels ad t).1
  unfolding manual_step manual_info
  manual_step-kept s levels ad t h =
      let asked = is_unique_id_alarm_filtered p.sources.now_ms ad.unique_id t in
      let checked : Alarms W = asked.0 in
      let gone = is_old p ad || not (is_some (find_track_by_unique_id p.tracks ad.unique_id)) in
      let same = SameSilence-checked s t ad.unique_id h in
      turn-kept (SameSilence s) (IsHeard s) (asked.1 || gone) checked checked
        (manual_info p levels checked ad ∷ []) same
        (λ e. (same, ((ad.unique_id, inl refl, heard s t ad.unique_id gone h e), tt)))

  info_of_hit-IsHeard :
      (s t : Alarms W) (id_text : String) (id class : ℤ) (hit : Option (TrackHit W))
      → p.to_long_long id_text ≡ some id
      → (is_unique_id_alarm_filtered p.sources.now_ms id s).1 ≡ false
      → All (IsHeard s) (info_of_hit p id_text id class t hit)
  unfolding info_of_hit type_info
  info_of_hit-IsHeard s t id_text id class none r f = tt
  info_of_hit-IsHeard s t id_text id class (some hit) r f = ((id, inr r, f), tt)

  type_of_id-kept :
      (s : Alarms W) (id_text : String) (class : ℤ) (t : Alarms W) (read : Option ℤ)
      → p.to_long_long id_text ≡ read
      → SameSilence s t
      → SameSilence s (type_of_id p id_text class t read).0
        × All (IsHeard s) (type_of_id p id_text class t read).1
  unfolding type_of_id
  type_of_id-kept s id_text class t none r h = (h, tt)
  type_of_id-kept s id_text class t (some id) r h =
      let asked = is_unique_id_alarm_filtered p.sources.now_ms id t in
      let checked : Alarms W = asked.0 in
      let infos = info_of_hit p id_text id class checked (typed_track p id) in
      let same = SameSilence-checked s t id h in
      let filtered = turn-kept (SameSilence s) (IsHeard s) asked.1 checked checked infos same (λ e.
        (
          same,
          info_of_hit-IsHeard s checked id_text id class (typed_track p id) r
              (heard s t id false h (ground (arith, e))),
        )) in
      elim (Bool-cases (leb_ℤ id (pos 0))) [ inl e ↦ rw e (h, tt) | inr e ↦ rw e filtered ]

  type_step-kept :
      (s : Alarms W) (processed : List String) (id_text : String) (class : ℤ) (t : Alarms W)
      → SameSilence s t
      → SameSilence s (type_step p processed id_text class t).0
        × All (IsHeard s) (type_step p processed id_text class t).1
  unfolding type_step
  type_step-kept s processed id_text class t h =
      skip-kept (SameSilence s) (IsHeard s) (any (λ u. str_eq u id_text) processed) t
        (type_of_id p id_text class t (p.to_long_long id_text)) h
        (type_of_id-kept s id_text class t (p.to_long_long id_text) refl h)

  event-kept : (s t : Alarms W) → SameSilence s t → All (IsHeard s) (alarm_event p t).1
  unfolding alarm_event
  event-kept s t h =
      let levels = level_map (valid_alarms p t) in
      let ruled =
        walk-kept (λ k ad u. rule_step p levels ad u) (SameSilence s) (IsHeard s)
          (λ k ad u i. rule_step-kept s levels ad u i) t.alarm_data t h in
      let rule_end = (walk (λ k ad u. rule_step p levels ad u) t.alarm_data t) in
      let manual =
        walk-kept (λ k ad u. manual_step p levels ad u) (SameSilence s) (IsHeard s)
          (λ k ad u i. manual_step-kept s levels ad u i) t.manual_alarm_data rule_end.0 ruled.0 in
      let manual_end = walk (λ k ad u. manual_step p levels ad u) t.manual_alarm_data rule_end.0 in
      let processed = targets_of p t.alarm_data ++ targets_of p t.manual_alarm_data in
      let typed =
        walk-kept (type_step p processed) (SameSilence s) (IsHeard s) (type_step-kept s processed)
          t.target_type manual_end.0 manual.0 in
      let typed_end = walk (type_step p processed) t.target_type manual_end.0 in
      let alarms = All-append (IsHeard s) rule_end.1 manual_end.1 ruled.1 manual.1 in
      let full : Alarms W × List (AlarmInfo W) =
        (typed_end.0, rule_end.1 ++ manual_end.1 ++ typed_end.1) in
      (skip-kept (λ a. Unit) (IsHeard s) (is_nil t.alarm_data && is_nil t.manual_alarm_data) t full
        tt (tt, All-append (IsHeard s) (rule_end.1 ++ manual_end.1) typed_end.1 alarms typed.1)).1

  -- No entry of the event that is sent is about a target that is silenced at that time: each entry
  -- names a target that is not; where no filter stands twice.
  pub send-IsHeard :
      (s : Alarms W)
      → Distinct s.alarm_filter_expire_ms
      → All (IsHeard s) (send_all_alarm_event_msg p s).1
  unfolding send_all_alarm_event_msg sync_manual_alarms SameSilence is_unique_id_alarm_filtered
  send-IsHeard s k = event-kept s (sync_manual_alarms p s) (k, λ id. ground arith)
