-- ===== src/Http/Request.antt =====
-- What the HTTP server reads from a request (src/AlarmHttpServer.cpp): Qt's bytes and JSON as parameters,
-- and the numbers that it takes from JSON values.
use alarm_sys_linux.Common.{
  String, Bool, not, ◌&&◌, Option, none, some, List, is_empty, str_eq, if◌then◌else◌,
}
use alarm_sys_linux.Common.Int.{ℤ, pos, ltb_ℤ}
use alarm_sys_linux.Common.Text.{Text}

-- `fromUtf8(data).split("\r\n")`; `split(' ')`; what follows the first empty line, or nothing;
-- `trimmed().isEmpty()` and `trimmed()` of bytes; the path before the first `?`; and the item `full` of
-- the query of a path.
pub record Bytes (B : Type 0) : Type 0 where
  pub lines : B → List String
  pub split_spaces : String → List String
  pub body_of : B → B
  pub is_blank : B → Bool
  pub trimmed_bytes : B → B
  pub before_query : String → String
  pub query_full : String → String

-- `QJsonDocument::fromJson`, where it gives an object, and the functions of `QJsonValue` and
-- `QJsonObject`; a missing value is undefined. `qint64_of` is the conversion of a double, and the two
-- last are `toInt(&ok)` and `toLongLong(&ok)` of a text.
pub record Json (B J W : Type 0) : Type 0 where
  pub parse_object : B → Option J
  pub value : J → String → J
  pub to_object : J → J
  pub is_undefined : J → Bool
  pub is_double : J → Bool
  pub is_string : J → Bool
  pub is_bool : J → Bool
  pub to_int : J → ℤ
  pub to_double : J → W
  pub to_string : J → String
  pub to_bool : J → Bool
  pub is_finite : W → Bool
  pub qint64_of : W → ℤ
  pub int_of_text : String → Option ℤ
  pub long_of_text : String → Option ℤ

module _ {B J W : Type 0} (json : Json B J W) where
  unfoldable pub filter_type : J → Option ℤ
  filter_type v =
      if json.is_double v
      then some (json.to_int v)
      else if json.is_string v
      then json.int_of_text (json.to_string v)
      else none

  abbrev pub if_positive : Option ℤ → Option ℤ
  if_positive none = none
  if_positive (some n) = if ltb_ℤ (pos 0) n then some n else none

  -- The id of a target: a positive number, or a text of one.
  unfoldable pub positive_id : Text → J → Option ℤ
  positive_id qt v =
      if json.is_double v
      then if_positive (some (json.qint64_of (json.to_double v)))
      else if json.is_string v
      then if_positive (json.long_of_text (qt.trimmed (json.to_string v)))
      else none

  unfoldable pub scope_of : Text → Option J → String
  scope_of qt none = "all"
  scope_of qt (some root) =
      let v = json.value root "scope" in
      let scope = qt.trimmed (json.to_string v) in
      if json.is_string v && not (is_empty scope) then scope else "all"

  unfoldable pub parse_reload_scope : Bytes B → Text → B → String → String
  unfolding scope_of
  parse_reload_scope bytes qt request_data method =
      let body = bytes.body_of request_data in
      if not (str_eq method "POST") && not (str_eq method "PUT")
      then "all"
      else if bytes.is_blank body
      then "all"
      else scope_of qt (json.parse_object (bytes.trimmed_bytes body))
