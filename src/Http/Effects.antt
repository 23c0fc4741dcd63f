-- ===== src/Http/Effects.antt =====
-- What the requests of operators do to the tables of alarms (src/AlarmHttpServer.cpp).
use alarm_sys_linux.Common.{
  ◌≡◌, refl, ◌≢◌, ◌⊎◌, inl, inr, String, Bool, true, false, Option, none, some, [], arith,
  Option-cases, if◌then◌else◌,
}
use alarm_sys_linux.Common.Int.{ℤ, pos, ◌+ℤ◌, ◌<ℤ◌, max_ℤ, lt→ltb_ℤ, eq_ℤ_iff}
use alarm_sys_linux.Common.Dict.{lookup, string_key, pair_key, Distinct}
use alarm_sys_linux.Common.Double.{Double}
use alarm_sys_linux.Common.Text.{Text}
use alarm_sys_linux.Alarms.State.{Alarms}
use alarm_sys_linux.Alarms.Filter.{add_alarm_filter, is_unique_id_alarm_filtered}
use alarm_sys_linux.Alarms.Filter.Blocking.{
  unless_of, filtered-add_alarm_filter, lookup-add_alarm_filter,
}
use alarm_sys_linux.Alarms.Tracks.{find_track_by_unique_id}
use alarm_sys_linux.Alarms.Confirm.{
  TrackHint, hit_or_hint, confirm_rules, confirm_alarm_by_unique_id,
}
use alarm_sys_linux.Alarms.Confirm.Effect.{filtered-confirm_rules}
use alarm_sys_linux.Http.{
  Response, Server, Env, respond, is_route, filter_target, posted, hint_of, unique_value,
  confirmed_answer, confirm_target, push_mode, update_config, route,
}
use alarm_sys_linux.Http.Request.{Bytes, Json, if_positive, positive_id, filter_type}

-- The answer is 200, or nothing has changed.
record Settles {W : Type 0} (s : Server W) (answered : Server W × Response) : Type 0 where
  settles : (answered.1.status ≡ 200) ⊎ (answered.0 ≡ s)

module _ {W B J : Type 0} ⦃d : Double W⦄ (bytes : Bytes B) (json : Json B J W) (qt : Text)
    (env : Env W) where
  if_positive-pos : (o : Option ℤ) (id : ℤ) → if_positive json o ≡ some id → pos 0 <ℤ id
  if_positive-pos none id e = cc
  if_positive-pos (some n) id e = ground (arith, e)

  positive_id-pos : (v : J) (id : ℤ) → positive_id json qt v ≡ some id → pos 0 <ℤ id
  unfolding positive_id
  positive_id-pos v id e =
      let from_number = some (json.qint64_of (json.to_double v)) in
      let from_text = json.long_of_text (qt.trimmed (json.to_string v)) in
      ground (arith, e, if_positive-pos from_number id, if_positive-pos from_text id)

  -- The path of a request to the confirmation of a target.
  abbrev pub is_confirm : String → Bool
  is_confirm path = is_route (bytes.before_query path) "/api/alarm_confirm" "api/alarm_confirm"

  filter_target-refused :
      (s : Server W) (root : J)
      → ((filter_target bytes json qt env s root).1.status ≡ 200)
        ⊎ ((filter_target bytes json qt env s root).0 ≡ s)
  unfolding filter_target
  filter_target-refused s root =
      let spec = json.to_object (json.value root "specification") in
      ground (
        arith,
        Option-cases (filter_type json (json.value spec "type")),
        Option-cases (positive_id json qt (json.value spec "id")),
      )

  posted-refused :
      (s : Server W) (method : String) (request_data : B) (handle : J → Server W × Response)
      → ((root : J) → ((handle root).1.status ≡ 200) ⊎ ((handle root).0 ≡ s))
      → ((posted bytes json qt env s method request_data handle).1.status ≡ 200)
        ⊎ ((posted bytes json qt env s method request_data handle).0 ≡ s)
  unfolding posted
  posted-refused s method request_data handle h =
      elim (Option-cases (json.parse_object (bytes.body_of request_data))) [
        | inl e ↦ ground (arith, e)
        | inr (root, e) ↦ ground (arith, e, h root)
      ]

  if-Settles :
      (s : Server W) (b : Bool) (x y : Server W × Response)
      → (b ≡ true → Settles s x)
      → Settles s y
      → Settles s (if b then x else y)
  if-Settles s true x y h k = h refl
  if-Settles s false x y h k = k

  push_mode-Settles :
      (s : Server W) (method path : String) → Settles s (push_mode bytes json qt env s method path)
  unfolding push_mode
  push_mode-Settles s method path = record { settles = ground arith }

  route-Settles :
      (s : Server W) (method path : String) (request_data : B)
      → is_confirm path ≡ false
      → Settles s (route bytes json qt env s method path request_data)
  unfolding route update_config
  route-Settles s method path request_data other =
      let filter = filter_target bytes json qt env s in
      let granted = posted-refused s method request_data filter (filter_target-refused s) in
      let options : Settles s (s, respond 200 "OK" []) = record { settles = inl refl } in
      let update : Settles s (update_config bytes json qt env s method request_data) = record {
        settles = inl refl;
      } in
      let missing : Settles s (s, respond 404 "Not Found" []) = record { settles = inr refl } in
      let filtered : Settles s (posted bytes json qt env s method request_data filter) = record {
        settles = granted;
      } in
      let confirm =
        if-Settles s (is_confirm path) _ _ (λ h. absurd (ground (arith, h, other))) missing in
      let push = if-Settles s _ _ _ (λ _. push_mode-Settles s method path) confirm in
      let reload = if-Settles s _ _ _ (λ _. update) push in
      let by_filter = if-Settles s _ _ _ (λ _. filtered) reload in
      if-Settles s _ _ _ (λ _. options) by_filter

  -- A request that is answered with another status than 200 changes nothing, unless its path is that
  -- of the confirmation of a target.
  pub route-refused :
      (s : Server W) (method path : String) (request_data : B)
      → is_confirm path ≡ false
      → (route bytes json qt env s method path request_data).1.status ≢ 200
      → (route bytes json qt env s method path request_data).0 ≡ s
  route-refused s method path request_data other bad =
      elim (route-Settles s method path request_data other).settles [
        | inl ok ↦ absurd (bad ok)
        | inr same ↦ same
      ]

  -- The ids of a filter request that is granted.
  filter_target-granted :
      (s : Server W) (root : J)
      → (filter_target bytes json qt env s root).1.status ≡ 200
      → let spec = json.to_object (json.value root "specification") in
        (type : ℤ) × (id : ℤ) × (positive_id json qt (json.value spec "id") ≡ some id)
        × ((type ≡ pos 0) ⊎ (type ≡ pos 1))
        × ((filter_target bytes json qt env s root).0.alarms
            ≡ add_alarm_filter env.texts.number env.al env.now_ms type id s.alarms)
  unfolding filter_target
  filter_target-granted s root ok =
      let spec = json.to_object (json.value root "specification") in
      elim (Option-cases (filter_type json (json.value spec "type"))) [
        | inl e ↦ absurd (ground (arith, e, ok))
        | inr (type, e) ↦ elim (Option-cases (positive_id json qt (json.value spec "id"))) [
          | inl f ↦ absurd (ground (arith, e, f, ok))
          | inr (id, f) ↦ (type, id, f, ground (arith, e, f, ok), ground (arith, e, f, ok))
        ]
      ]

  -- A filter request that is granted silences the target that it names, which has a positive id, until
  -- the span of the filter is over, a second at least; and of the alarms, manual ones too, exactly those
  -- of the target are gone. No key stands twice in the tables before.
  pub filter_target-silences :
      (s : Server W) (root : J) (id t : ℤ) (j : String)
      → Distinct s.alarms.alarm_filter_expire_ms
      → Distinct s.alarms.alarm_data
      → Distinct s.alarms.manual_alarm_data
      → positive_id json qt (json.value (json.to_object (json.value root "specification")) "id")
        ≡ some id
      → (filter_target bytes json qt env s root).1.status ≡ 200
      → t <ℤ (env.now_ms +ℤ max_ℤ (pos 1000) env.al.alarm_filter_ttl_ms)
      → let after = (filter_target bytes json qt env s root).0.alarms in
        (pos 0 <ℤ id)
        × ((is_unique_id_alarm_filtered t id after).1 ≡ true)
        × (lookup j after.alarm_data ≡ unless_of id (lookup j s.alarms.alarm_data))
        × (lookup j after.manual_alarm_data ≡ unless_of id (lookup j s.alarms.manual_alarm_data))
  filter_target-silences s root id t j f a m named ok soon =
      let spec = json.to_object (json.value root "specification") in
      let (type, n, e, k, same) = filter_target-granted s root ok in
      let one : n ≡ id = ground (arith, e, named) in
      let p = positive_id-pos (json.value spec "id") id named in
      let number = env.texts.number in
      let (gone, manual_gone) =
        lookup-add_alarm_filter number env.al env.now_ms type id s.alarms j a m p in
      rw (same, one)
        (
          p,
          ground (
            arith,
            filtered-add_alarm_filter number env.al env.now_ms type id s.alarms t id f k p,
            eq_ℤ_iff id id,
            lt→ltb_ℤ t (env.now_ms +ℤ max_ℤ (pos 1000) env.al.alarm_filter_ttl_ms) soon,
          ),
          gone,
          manual_gone,
        )

  confirm-refused :
      (id : ℤ) (hint : Option (TrackHint W)) (s : Alarms W)
      → pos 0 <ℤ id
      → let done =
          confirm_alarm_by_unique_id env.texts env.clock env.al env.now_ms env.now_sec env.tracks id
            hint s in
        done.1 ≡ false → done.0 ≡ (confirm_rules env.clock env.al env.now_ms id s).0
  unfolding confirm_alarm_by_unique_id
  confirm-refused id hint s p failed =
      let found = hit_or_hint env.now_sec id (find_track_by_unique_id env.tracks id) hint in
      ground (arith, failed, p, Option-cases found)

  -- A request to confirm a target that names a positive id, and is answered with another status than
  -- 200, has lifted the filter of the target all the same; where no filter is there twice.
  pub confirm_target-lifts :
      (s : Server W) (root : J) (id t : ℤ)
      → Distinct s.alarms.alarm_filter_expire_ms
      → positive_id json qt (unique_value bytes json qt env root) ≡ some id
      → (confirm_target bytes json qt env s root).1.status ≢ 200
      → (is_unique_id_alarm_filtered t id (confirm_target bytes json qt env s root).0.alarms).1
        ≡ false
  unfolding confirm_target confirmed_answer
  confirm_target-lifts s root id t f e bad =
      let p = positive_id-pos (unique_value bytes json qt env root) id e in
      let hint = hint_of bytes json qt env root in
      ground (
        arith,
        e,
        bad,
        confirm-refused id hint s.alarms p,
        filtered-confirm_rules env.clock env.al env.now_ms id s.alarms t id f p,
        eq_ℤ_iff id id,
      )
