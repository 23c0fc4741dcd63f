-- ===== src/Http/Tests.antt =====
-- Requests on concrete JSON, with integers for `double`.
use alarm_sys_linux.Common.{
  ◌≡◌, refl, String, Bool, true, false, none, some, [], ◌∷◌, arith, str_eq, if◌then◌else◌,
}
use alarm_sys_linux.Common.Int.{ℤ, pos, ◌+ℤ◌, ◌<ℤ◌, max_ℤ, ltb_ℤ→lt}
use alarm_sys_linux.Common.Dict.{lookup, has_key, string_key, pair_key}
use alarm_sys_linux.Common.Ascii.{ascii}
use alarm_sys_linux.Common.Integers.{integers}
use alarm_sys_linux.Alarms.Clock.{letters}
use alarm_sys_linux.Alarms.Tests.{config, one_alarm, no_alarms, tracks, texts}
use alarm_sys_linux.Alarms.Filter.{is_unique_id_alarm_filtered}
use alarm_sys_linux.Alarms.Filter.Blocking.{unless_of}
use alarm_sys_linux.Http.{
  Server, Env, push_mode, filter_target, confirm_target, route, unique_value, number, text,
}
use alarm_sys_linux.Http.Request.{Bytes, Json, positive_id}
use alarm_sys_linux.Http.Effects.{route-refused, filter_target-silences, confirm_target-lifts}
use alarm_sys_linux.Http.Push.{push_mode-get_put}

-- A small JSON: an object is a function of its keys.
pub data Value : Type 0 where
  missing : Value
  num : ℤ → Value
  word : String → Value
  object : (String → Value) → Value

abbrev value_of : Value → String → Value
value_of (object f) key = f key
value_of missing key = missing
value_of (num n) key = missing
value_of (word s) key = missing

abbrev is_num : Value → Bool
is_num (num n) = true
is_num missing = false
is_num (word s) = false
is_num (object f) = false

abbrev is_word : Value → Bool
is_word (word s) = true
is_word missing = false
is_word (num n) = false
is_word (object f) = false

abbrev is_missing : Value → Bool
is_missing missing = true
is_missing (num n) = false
is_missing (word s) = false
is_missing (object f) = false

abbrev num_of : Value → ℤ
num_of (num n) = n
num_of missing = pos 0
num_of (word s) = pos 0
num_of (object f) = pos 0

abbrev word_of : Value → String
word_of (word s) = s
word_of missing = ""
word_of (num n) = ""
word_of (object f) = ""

-- Every body is the object that is given.
abbrev pub json : Value → Json String Value ℤ
json body = record {
  parse_object = λ b. some body;
  value = value_of;
  to_object = λ v. v;
  is_undefined = is_missing;
  is_double = is_num;
  is_string = is_word;
  is_bool = λ v. false;
  to_int = num_of;
  to_double = num_of;
  to_string = word_of;
  to_bool = λ v. false;
  is_finite = λ w. true;
  qint64_of = λ w. w;
  int_of_text = λ s. none;
  long_of_text = λ s. none;
}

abbrev pub bytes : Bytes String
bytes = record {
  lines = λ b. b ∷ [];
  split_spaces = λ s. s ∷ [];
  body_of = λ b. b;
  is_blank = λ b. str_eq b "";
  trimmed_bytes = λ b. b;
  before_query = λ s. s;
  query_full = λ s. "1";
}

abbrev pub env : Env ℤ
env = record {
  texts = texts;
  clock = letters;
  al = config;
  tracks = tracks;
  now_ms = pos 5;
  now_sec = pos 1;
}

abbrev server : Server ℤ
server = record { alarms = one_alarm; push_full = false; reloads = [] }

abbrev specification : Value
specification = object λ key.
    if str_eq key "@type"
    then word "type.casia.tasks.v1.filterTargetOrForce"
    else if str_eq key "type"
    then num (pos 0)
    else if str_eq key "id"
    then num (pos 7)
    else missing

abbrev pub filter_body : Value
filter_body = object λ key. if str_eq key "specification" then specification else missing

abbrev confirm_body : Value
confirm_body = object λ key. if str_eq key "uniqueID" then num (pos 5) else missing

route-refused_example :
    (route bytes (json filter_body) ascii env server "GET" "/api/alarm_filter" "").0 ≡ server
unfolding route alarm_sys_linux.Http.posted
route-refused_example =
    route-refused bytes (json filter_body) ascii env server "GET" "/api/alarm_filter" "" refl
      (λ e. ground (arith, e))

abbrev silenced : Server ℤ
silenced = (filter_target bytes (json filter_body) ascii env server filter_body).0

soon : pos 6 <ℤ (pos 5 +ℤ max_ℤ (pos 1000) config.alarm_filter_ttl_ms)
unfolding ◌+ℤ◌
soon = ltb_ℤ→lt (pos 6) (pos 5 +ℤ max_ℤ (pos 1000) config.alarm_filter_ttl_ms) refl

filter_target-silences_example :
    (pos 0 <ℤ pos 7)
    × ((is_unique_id_alarm_filtered (pos 6) (pos 7) silenced.alarms).1 ≡ true)
    × (lookup "a1" silenced.alarms.alarm_data
        ≡ unless_of (pos 7) (lookup "a1" one_alarm.alarm_data))
    × (lookup "a1" silenced.alarms.manual_alarm_data
        ≡ unless_of (pos 7) (lookup "a1" one_alarm.manual_alarm_data))
unfolding filter_target alarm_sys_linux.Http.Request.filter_type positive_id has_key
filter_target-silences_example =
    filter_target-silences bytes (json filter_body) ascii env server filter_body (pos 7) (pos 6)
      "a1" tt (refl, tt) tt refl refl soon

abbrev quiet : Server ℤ
quiet = record server {
  alarms = record no_alarms { alarm_filter_expire_ms = ((pos 0, pos 5), pos 100) ∷ [] };
}

abbrev lifted : Server ℤ
lifted = (confirm_target bytes (json confirm_body) ascii env quiet confirm_body).0

not_found : (confirm_target bytes (json confirm_body) ascii env quiet confirm_body).1.status ≡ 400
unfolding confirm_target unique_value positive_id alarm_sys_linux.Http.confirmed_answer
    alarm_sys_linux.Alarms.Confirm.confirm_alarm_by_unique_id
    alarm_sys_linux.Alarms.Confirm.confirm_rules alarm_sys_linux.Alarms.Confirm.confirm_marked
    alarm_sys_linux.Alarms.Confirm.confirm_rule_alarms alarm_sys_linux.Alarms.Confirm.lift_and_mark
    alarm_sys_linux.Alarms.Confirm.mark_confirmed
    alarm_sys_linux.Alarms.Filter.remove_alarm_filter_for_unique_id
    alarm_sys_linux.Alarms.Confirm.hit_or_hint alarm_sys_linux.Alarms.Tracks.find_track_by_unique_id
    alarm_sys_linux.Alarms.Tracks.search_tables alarm_sys_linux.Alarms.Tracks.or_else
    alarm_sys_linux.Alarms.Tracks.try_map alarm_sys_linux.Alarms.Tracks.hit_of lookup
    alarm_sys_linux.Alarms.Tracks.for_int alarm_sys_linux.Alarms.Tracks.scan_by_secondary_unique_id
    alarm_sys_linux.Http.hint_of alarm_sys_linux.Http.read_finite_float
not_found = refl

confirm_target-lifts_example : (is_unique_id_alarm_filtered (pos 6) (pos 5) lifted.alarms).1 ≡ false
unfolding has_key unique_value positive_id
confirm_target-lifts_example =
    confirm_target-lifts bytes (json confirm_body) ascii env quiet confirm_body (pos 5) (pos 6)
      (refl, tt) refl (λ e. ground (arith, e, not_found))

push_mode-get_put_example :
    let after = (push_mode bytes (json filter_body) ascii env server "PUT" "/?full=1").0 in
    let answer = (push_mode bytes (json filter_body) ascii env after "GET" "/").1 in
    (after ≡ record server { push_full = true })
    × (answer.status ≡ 200)
    × (answer.body
        ≡ ("code", number (pos 0))
          ∷ ("full", number (pos 1))
          ∷ ("message", text "full SendAllAlarmEventMsg")
          ∷ [])
push_mode-get_put_example =
    push_mode-get_put bytes (json filter_body) ascii env server "/?full=1" "/" true refl
