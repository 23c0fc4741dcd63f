-- ===== src/Service/Requests.antt =====
-- What the requests of operators keep of the table of alarms (src/AlarmHttpServer.cpp,
-- src/customconfig.cpp).
use alarm_sys_linux.Common.{
  ◌≡◌, refl, String, Bool, true, false, Option, List, [], ◌∷◌, arith, All, Option-cases, inl, inr,
  if◌then◌else◌,
}
use alarm_sys_linux.Common.Int.{ℤ, eq_ℤ}
use alarm_sys_linux.Common.Dict.{Dict, erase, has_key, string_key, Distinct}
use alarm_sys_linux.Common.Double.{Double}
use alarm_sys_linux.Common.Text.{Text}
use alarm_sys_linux.Alarms.State.{AlarmData, AlarmLogicConfig, Alarms, TimeText}
use alarm_sys_linux.Alarms.Filter.{
  keys_of_target, remove_keys, add_alarm_filter, remove_alarm_filter_for_unique_id,
}
use alarm_sys_linux.Alarms.Tracks.{TrackHit, Tracks, find_track_by_unique_id}
use alarm_sys_linux.Alarms.Confirm.{
  TrackHint, Texts, Confirming, resolve_alarm, confirm_rule_alarms, confirm_rules, confirm_marked,
  lift_and_mark, mark_confirmed, make_manual_alarm, hit_or_hint, confirm_alarm_by_unique_id,
}
use alarm_sys_linux.Alarms.Save.Dedup.{IsTable, IsKeyed, erase-IsTable}
use alarm_sys_linux.Http.{
  Server, Response, respond, Env, filter_target, posted, confirm_target, push_mode, update_config,
  route, handle_parts, handle_client_request, hint_of, unique_value,
}
use alarm_sys_linux.Http.Request.{Bytes, Json, filter_type, positive_id}

record Keeps {W : Type 0} (answered : Server W × Response) : Type 0 where
  table : IsTable answered.0.alarms.alarm_data

remove_keys-IsTable :
    {W : Type 0} (ks : List String) (m : Dict String (AlarmData W))
    → IsTable m
    → IsTable (remove_keys ks m)
unfolding remove_keys
remove_keys-IsTable [] m t = t
remove_keys-IsTable (k ∷ ks) m t = remove_keys-IsTable ks (erase k m) (erase-IsTable k m t)

module _ {W : Type 0} (al : AlarmLogicConfig) where
  add_alarm_filter-IsTable :
      (number : ℤ → String) (now_ms type id : ℤ) (s : Alarms W)
      → IsTable s.alarm_data
      → IsTable (add_alarm_filter number al now_ms type id s).alarm_data
  unfolding add_alarm_filter
  add_alarm_filter-IsTable number now_ms type id s t =
      ground (arith, t, remove_keys-IsTable (keys_of_target id s.alarm_data) s.alarm_data t)

  module _ (id : ℤ) (stamp : String) (now : ℤ) where
    has_key-confirm_rule_alarms :
        (k : String) (m : Dict String (AlarmData W)) (acc : Confirming W)
        → has_key k (confirm_rule_alarms al id stamp now m acc).0 ≡ has_key k m
    unfolding confirm_rule_alarms has_key
    has_key-confirm_rule_alarms k [] acc = refl
    has_key-confirm_rule_alarms k ((i, ad) ∷ rest) acc =
        let next = if eq_ℤ ad.unique_id id then resolve_alarm al id stamp now ad acc else acc in
        ground (arith, has_key-confirm_rule_alarms k rest next)

    confirm_rule_alarms-All :
        (m : Dict String (AlarmData W)) (acc : Confirming W)
        → All IsKeyed m
        → All IsKeyed (confirm_rule_alarms al id stamp now m acc).0
    unfolding confirm_rule_alarms alarm_sys_linux.Alarms.Confirm.raise_threat
    confirm_rule_alarms-All [] acc h = tt
    confirm_rule_alarms-All ((i, ad) ∷ rest) acc h =
        let next = if eq_ℤ ad.unique_id id then resolve_alarm al id stamp now ad acc else acc in
        (ground (arith, h.0), confirm_rule_alarms-All rest next h.1)

    confirm_rule_alarms-Distinct :
        (m : Dict String (AlarmData W)) (acc : Confirming W)
        → Distinct m
        → Distinct (confirm_rule_alarms al id stamp now m acc).0
    unfolding confirm_rule_alarms
    confirm_rule_alarms-Distinct [] acc h = tt
    confirm_rule_alarms-Distinct ((i, ad) ∷ rest) acc h =
        let next = if eq_ℤ ad.unique_id id then resolve_alarm al id stamp now ad acc else acc in
        (
          rw (has_key-confirm_rule_alarms i rest next) h.0,
          confirm_rule_alarms-Distinct rest next h.1,
        )

  confirm_marked-IsTable :
      (now id : ℤ) (s : Alarms W)
      → IsTable s.alarm_data
      → IsTable (confirm_marked al now id s).0.alarm_data
  unfolding confirm_marked
  confirm_marked-IsTable now id s t = record {
    keyed = confirm_rule_alarms-All id _ now s.alarm_data _ t.keyed;
    distinct = confirm_rule_alarms-Distinct id _ now s.alarm_data _ t.distinct;
  }

  confirm_rules-IsTable :
      (clock : TimeText) (now id : ℤ) (s : Alarms W)
      → IsTable s.alarm_data
      → IsTable (confirm_rules clock al now id s).0.alarm_data
  unfolding confirm_rules lift_and_mark mark_confirmed remove_alarm_filter_for_unique_id
  confirm_rules-IsTable clock now id s t =
      confirm_marked-IsTable now id (lift_and_mark clock now id s) (ground (arith, t))

  module _ ⦃d : Double W⦄ (texts : Texts W) (clock : TimeText) (now now_sec : ℤ) where
    manual-alarm_data :
        (id : ℤ) (hit : TrackHit W) (s : Alarms W)
        → (make_manual_alarm texts clock al now id hit s).alarm_data ≡ s.alarm_data
    unfolding make_manual_alarm mark_confirmed remove_alarm_filter_for_unique_id
    manual-alarm_data id hit s = ground arith

    confirm-IsTable :
        (tracks : Tracks W) (id : ℤ) (hint : Option (TrackHint W)) (s : Alarms W)
        → IsTable s.alarm_data
        → IsTable
            (confirm_alarm_by_unique_id texts clock al now now_sec tracks id hint s).0.alarm_data
    unfolding confirm_alarm_by_unique_id
    confirm-IsTable tracks id hint s t =
        let rules = confirm_rules clock al now id s in
        let k = confirm_rules-IsTable clock now id s t in
        elim (Option-cases (hit_or_hint now_sec id (find_track_by_unique_id tracks id) hint)) [
          | inl e ↦ ground (arith, e, t, k)
          | inr ((hit, used_hint), e) ↦
              let made : IsTable (make_manual_alarm texts clock al now id hit rules.0).alarm_data =
                rw (manual-alarm_data id hit rules.0) k in
              ground (arith, e, t, k, made)
        ]

module _ {W B J : Type 0} ⦃d : Double W⦄ (bytes : Bytes B) (json : Json B J W) (qt : Text)
    (env : Env W) where
  abbrev Kept : Server W × Response → Type 0
  Kept answered = IsTable answered.0.alarms.alarm_data

  filter_target-Kept :
      (s : Server W) (root : J)
      → IsTable s.alarms.alarm_data
      → Kept (filter_target bytes json qt env s root)
  unfolding filter_target
  filter_target-Kept s root t =
      let spec = json.to_object (json.value root "specification") in
      elim (Option-cases (filter_type json (json.value spec "type"))) [
        | inl e ↦ ground (arith, e, t)
        | inr (type, e) ↦ elim (Option-cases (positive_id json qt (json.value spec "id"))) [
          | inl f ↦ ground (arith, e, f, t)
          | inr (id, f) ↦
              let added =
                add_alarm_filter-IsTable env.al env.texts.number env.now_ms type id s.alarms t in
              ground (arith, e, f, t, added)
        ]
      ]

  confirm_target-Kept :
      (s : Server W) (root : J)
      → IsTable s.alarms.alarm_data
      → Kept (confirm_target bytes json qt env s root)
  unfolding confirm_target
  confirm_target-Kept s root t =
      elim (Option-cases (positive_id json qt (unique_value bytes json qt env root))) [
        | inl e ↦ ground (arith, e, t)
        | inr (id, e) ↦
            let confirmed =
              confirm-IsTable env.al env.texts env.clock env.now_ms env.now_sec env.tracks id
                (hint_of bytes json qt env root) s.alarms t in
            ground (arith, e, t, confirmed)
      ]

  posted-Kept :
      (s : Server W) (method : String) (request_data : B) (handle : J → Server W × Response)
      → IsTable s.alarms.alarm_data
      → ((root : J) → Kept (handle root))
      → Kept (posted bytes json qt env s method request_data handle)
  unfolding posted
  posted-Kept s method request_data handle t h =
      elim (Option-cases (json.parse_object (bytes.body_of request_data))) [
        | inl e ↦ ground (arith, e, t)
        | inr (root, e) ↦ ground (arith, e, t, h root)
      ]

  push_mode-Kept :
      (s : Server W) (method path : String)
      → IsTable s.alarms.alarm_data
      → Kept (push_mode bytes json qt env s method path)
  unfolding push_mode
  push_mode-Kept s method path t = ground (arith, t)

  if-Keeps : (b : Bool) (x y : Server W × Response) → Keeps x → Keeps y → Keeps (if b then x else y)
  if-Keeps true x y h k = h
  if-Keeps false x y h k = k

  route-Keeps :
      (s : Server W) (method path : String) (request_data : B)
      → IsTable s.alarms.alarm_data
      → Keeps (route bytes json qt env s method path request_data)
  unfolding route update_config
  route-Keeps s method path request_data t =
      let filter = filter_target bytes json qt env s in
      let confirm = confirm_target bytes json qt env s in
      let same : (r : Response) → Keeps (s, r) = λ r. record { table = t } in
      let filtered : Keeps (posted bytes json qt env s method request_data filter) = record {
        table = posted-Kept s method request_data filter t (λ root. filter_target-Kept s root t);
      } in
      let confirmed : Keeps (posted bytes json qt env s method request_data confirm) = record {
        table = posted-Kept s method request_data confirm t (λ root. confirm_target-Kept s root t);
      } in
      let pushed : Keeps (push_mode bytes json qt env s method path) = record {
        table = push_mode-Kept s method path t;
      } in
      let updated : Keeps (update_config bytes json qt env s method request_data) = record {
        table = t;
      } in
      let confirms = if-Keeps _ _ _ confirmed (same (respond 404 "Not Found" [])) in
      let pushes = if-Keeps _ _ _ pushed confirms in
      let updates = if-Keeps _ _ _ updated pushes in
      if-Keeps _ _ _ (same (respond 200 "OK" [])) (if-Keeps _ _ _ filtered updates)

  parts-Kept :
      (s : Server W) (parts : List String) (request_data : B)
      → IsTable s.alarms.alarm_data
      → IsTable (handle_parts bytes json qt env s parts request_data).0.alarms.alarm_data
  unfolding handle_parts
  parts-Kept s [] request_data t = t
  parts-Kept s (method ∷ []) request_data t = t
  parts-Kept s (method ∷ path ∷ []) request_data t = t
  parts-Kept s (method ∷ path ∷ version ∷ rest) request_data t =
      (route-Keeps s method path request_data t).table

  lines-Kept :
      (s : Server W) (lines : List String) (request_data : B)
      → bytes.lines request_data ≡ lines
      → IsTable s.alarms.alarm_data
      → IsTable (handle_client_request bytes json qt env s request_data).0.alarms.alarm_data
  unfolding handle_client_request
  lines-Kept s [] request_data e t = rw (e, handle_client_request) t
  lines-Kept s (first ∷ rest) request_data e t =
      rw (e, handle_client_request) (parts-Kept s (bytes.split_spaces first) request_data t)

  -- A request keeps every alarm of the table under its own id, and no id twice.
  pub request-IsTable :
      (s : Server W) (request_data : B)
      → IsTable s.alarms.alarm_data
      → IsTable (handle_client_request bytes json qt env s request_data).0.alarms.alarm_data
  request-IsTable s request_data t = lines-Kept s (bytes.lines request_data) request_data refl t
