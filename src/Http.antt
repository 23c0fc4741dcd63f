-- ===== src/Http.antt =====
-- The HTTP server for operators (src/AlarmHttpServer.cpp): a request is read, its path and method choose
-- what is done, and one answer is sent. Sockets, bytes and JSON are Qt's, and arguments here: Http.Request
-- holds what the code asks of them.
pub mod Request
pub mod Effects
pub mod Push
pub mod Tests
use alarm_sys_linux.Common.{
  ℕ, zero, suc, String, Bool, true, false, not, ◌&&◌, ◌||◌, Option, none, some, first_some, List,
  [], ◌∷◌, str_eq, if◌then◌else◌,
}
use alarm_sys_linux.Common.Int.{ℤ, pos, negsuc, eq_ℤ, leb_ℤ, ltb_ℤ}
use alarm_sys_linux.Common.Double.{Double}
use alarm_sys_linux.Common.Text.{Text}
use alarm_sys_linux.Alarms.State.{Alarms, AlarmLogicConfig, TimeText}
use alarm_sys_linux.Alarms.Filter.{add_alarm_filter}
use alarm_sys_linux.Alarms.Tracks.{Tracks}
use alarm_sys_linux.Alarms.Confirm.{Texts, TrackHint, confirm_alarm_by_unique_id}
use alarm_sys_linux.Http.Request.{Bytes, Json, positive_id, filter_type, parse_reload_scope}

-- The value of a field of an answer.
pub data Field : Type 0 where
  number : ℤ → Field
  text : String → Field

-- What `sendHttpResponse` is given: the status, and the fields of the body in the order in which they
-- are set.
pub record Response : Type 0 where
  pub status : ℕ
  pub reason : String
  pub body : List (String × Field)

abbrev pub respond : ℕ → String → List (String × Field) → Response
respond status reason body = record { status = status; reason = reason; body = body }

abbrev pub refuse : ℕ → String → String → Response
refuse status reason message =
    respond status reason (("code", number (negsuc 0)) ∷ ("message", text message) ∷ [])

-- What the requests change: the tables of alarms, the mode of the pushes, and the scopes for which
-- the configuration was read again, the newest first.
pub record Server (W : Type 0) : Type 0 where
  pub alarms : Alarms W
  pub push_full : Bool
  pub reloads : List String

-- What a request is answered with: the outside, the configuration and the clock.
pub record Env (W : Type 0) : Type 0 where
  pub texts : Texts W
  pub clock : TimeText
  pub al : AlarmLogicConfig
  pub tracks : Tracks W
  pub now_ms : ℤ
  pub now_sec : ℤ

-- A path with and without the first slash.
abbrev pub is_route : String → String → String → Bool
is_route path full bare = str_eq path full || str_eq path bare

module _ {W B J : Type 0} ⦃d : Double W⦄ (bytes : Bytes B) (json : Json B J W) (qt : Text)
    (env : Env W) where
  abbrev pub Answered : Type 0
  Answered = Server W × Response

  -- `POST /api/alarm_filter`, for the object of the body.
  unfoldable pub filter_target : Server W → J → Answered
  filter_target s root =
      let spec = json.to_object (json.value root "specification") in
      let refused = refuse 400 "Bad Request" in
      let missing = refused "invalid or missing specification.type(0/1) or specification.id" in
      if not (
        str_eq (json.to_string (json.value spec "@type")) "type.casia.tasks.v1.filterTargetOrForce")
      then (s, refused "invalid specification.@type")
      else elim (filter_type json (json.value spec "type")) [
        | none ↦ (s, missing)
        | some type ↦ elim (positive_id json qt (json.value spec "id")) [
          | none ↦ (s, missing)
          | some target_id ↦
              if leb_ℤ (pos 0) type && leb_ℤ type (pos 1)
              then (
                record s {
                  alarms =
                      add_alarm_filter env.texts.number env.al env.now_ms type target_id s.alarms;
                },
                respond 200 "OK" (("code", number (pos 0)) ∷ ("message", text "ok") ∷ []),
              )
              else (s, missing)
        ]
      ]

  -- The body of a request as an object, for a route that wants POST.
  unfoldable pub posted : Server W → String → B → (J → Answered) → Answered
  posted s method request_data handle =
      if not (str_eq method "POST")
      then (s, refuse 405 "Method Not Allowed" "Method Not Allowed, use POST")
      else elim (json.parse_object (bytes.body_of request_data)) [
        | none ↦ (s, refuse 400 "Bad Request" "invalid JSON body")
        | some root ↦ handle root
      ]

  -- The first of the three spellings that is there.
  unfoldable pub unique_value : J → J
  unique_value root =
      let first = json.value root "uniqueId" in
      let second = json.value root "unique_id" in
      if json.is_undefined first
      then if json.is_undefined second then json.value root "uniqueID" else second
      else first

  unfoldable pub read_finite_float : J → String → Option W
  read_finite_float root key =
      let v = json.value root key in
      if json.is_double v && json.is_finite (json.to_double v)
      then some (d.to_float (json.to_double v))
      else none

  abbrev or_zero : Option W → W
  or_zero none = d.of_ℤ (pos 0)
  or_zero (some w) = w

  unfoldable pub is_air : J → Bool
  is_air root =
      let air = json.value root "isAirTrack" in
      let fuse = json.value root "fuseType" in
      if json.is_bool air
      then json.to_bool air
      else if json.is_double air
      then not (eq_ℤ (json.to_int air) (pos 0))
      else json.is_double fuse && eq_ℤ (json.to_int fuse) (pos 1)

  -- The hint about the track is valid if both coordinates are there.
  unfoldable pub hint_of : J → Option (TrackHint W)
  unfolding read_finite_float is_air
  hint_of root =
      let read : String → Option W = read_finite_float root in
      let lat = first_some (read "lat") (first_some (read "latitude") (read "targetlat")) in
      let lon =
        first_some (read "lon")
          (first_some (read "lng") (first_some (read "longitude") (read "targetlon"))) in
      elim lat [
        | none ↦ none
        | some lat_degs ↦ elim lon [
          | none ↦ none
          | some lon_degs ↦ some (record {
            is_air_track = is_air root;
            lat_degs = lat_degs;
            lon_degs = lon_degs;
            speed_mps = or_zero (first_some (read "speed") (read "speedMps"));
            course_deg =
                or_zero
                  (first_some (read "course") (first_some (read "courseDeg") (read "heading")));
          })
        ]
      ]

  -- The answer to what `confirmAlarmByUniqueId` gives.
  unfoldable pub confirmed_answer : Bool → String → Response
  confirmed_answer true msg =
      respond 200 "OK" (("code", number (pos 0)) ∷ ("message", text msg) ∷ [])
  confirmed_answer false msg =
      if qt.contains msg "track not found"
      then refuse 404 "Not Found" msg
      else refuse 400 "Bad Request" msg

  -- `POST /api/alarm_confirm`.
  unfoldable pub confirm_target : Server W → J → Answered
  confirm_target s root = elim (positive_id json qt (unique_value root)) [
    | none ↦ (s, refuse 400 "Bad Request" "missing or invalid uniqueId")
    | some unique_id ↦
        let (alarms, ok, msg) =
          confirm_alarm_by_unique_id env.texts env.clock env.al env.now_ms env.now_sec env.tracks
            unique_id (hint_of root) s.alarms in
        (record s { alarms = alarms }, confirmed_answer ok msg)
  ]

  abbrev pub full_field : Bool → Field
  full_field full = number (if full then pos 1 else pos 0)

  -- `GET` and `PUT /api/alarm_event/push`, where the server has its configuration, as it is given when
  -- the program starts; without one the code gives no answer to a `PUT`.
  unfoldable pub push_mode : Server W → String → String → Answered
  push_mode s method path =
      let full = bytes.query_full path in
      if str_eq method "GET"
      then (
        s,
        respond 200 "OK" (
            ("code", number (pos 0))
            ∷ ("full", full_field s.push_full)
            ∷ (
              "message",
              text (if s.push_full then "full SendAllAlarmEventMsg" else "dds_light_only"),
            )
            ∷ []),
      )
      else if str_eq method "PUT"
      then if not (str_eq full "0") && not (str_eq full "1")
        then (s, refuse 400 "Bad Request" "missing or invalid full (use 0 or 1)")
        else (
          record s { push_full = str_eq full "1" },
          respond 200 "OK" (
              ("code", number (pos 0))
              ∷ ("full", full_field (str_eq full "1"))
              ∷ ("message", text "ok")
              ∷ []),
        )
      else (s, refuse 405 "Method Not Allowed" "Method Not Allowed, use GET or PUT")

  -- `/api/alarms/update`, with any method.
  unfoldable pub update_config : Server W → String → B → Answered
  update_config s method request_data =
      let scope = parse_reload_scope json bytes qt request_data method in
      (
        record s { reloads = scope ∷ s.reloads },
        respond 200 "OK"
            (("code", number (pos 0)) ∷ ("scope", text scope) ∷ ("message", text "ok") ∷ []),
      )

  unfoldable pub route : Server W → String → String → B → Answered
  route s method path request_data =
      let path_only = bytes.before_query path in
      if str_eq method "OPTIONS"
      then (s, respond 200 "OK" [])
      else if is_route path_only "/api/alarm_filter" "api/alarm_filter"
      then posted s method request_data (filter_target s)
      else if is_route path_only "/api/alarms/update" "api/alarms/update"
      then update_config s method request_data
      else if is_route path_only "/api/alarm_event/push" "api/alarm_event/push"
      then push_mode s method path
      else if is_route path_only "/api/alarm_confirm" "api/alarm_confirm"
      then posted s method request_data (confirm_target s)
      else (s, respond 404 "Not Found" [])

  -- `handleClientRequest`: there is no answer if the first line has fewer than three parts.
  unfoldable pub handle_parts : Server W → List String → B → Server W × Option Response
  handle_parts s (method ∷ path ∷ version ∷ rest) request_data =
      let (after, response) = route s method path request_data in (after, some response)
  handle_parts s _ request_data = (s, none)

  unfoldable pub handle_client_request : Server W → B → Server W × Option Response
  unfolding handle_parts
  handle_client_request s request_data = elim (bytes.lines request_data) [
    | [] ↦ (s, none)
    | first ∷ rest ↦ handle_parts s (bytes.split_spaces first) request_data
  ]
