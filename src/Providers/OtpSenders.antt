-- ===== src/Providers/OtpSenders.antt =====
-- app/engines/providers/otp_senders.py: the gateways that deliver one-time codes. The log sender only
-- logs. The formatting of texts and JSON is a parameter, as are the HTTP requests.
use Prim.Native.Char.{Char, code}
use ekyc.Prelude.{
  ℕ, ◌+◌, ◌-◌, String, concat, Bool, false, not, ◌&&◌, Option, none, some, List, [], ◌∷◌, ltb, ◌==◌,
  if◌then◌else◌, str_eq, or_else,
}
use ekyc.Json.{get_field, Json, Fields, str, obj}
use ekyc.Env.{Env, Bytes, HttpReply, no_response, response}
use ekyc.Exec.{
  Result, ok, err, key_error, value_error, http_error, runtime_error, Exec, pure, raise, raise_if,
  lift, or_raise, draw, utcnow, ◌>>=◌, ◌>>◌,
}
use ekyc.Otp.Text.{chars, text}
use ekyc.Workers.Delivery.{is_success}

-- What the senders take from the libraries.
pub record Wire : Type 0 where
  -- the items of `json.loads(template or "null")`, where it is not falsy; `none` is an exception
  pub template_of : String → Option (Option (List (String × String)))
  -- `text.format(code=…)` and `text.format_map(_KeepMissing(mapping))`; `none` is a `ValueError`
  pub format_code : String → String → Option String
  pub format_map : String → List (String × String) → Option String
  -- the body that `httpx` sends for a dictionary, and `response.json()`; `none` is a `ValueError`
  pub json_body : List (String × String) → Bytes
  pub read_json : Bytes → Option Json
  -- the n-th request: a form with basic authentication
  pub post_form : ℕ → (url : String) → List (String × String) → (user secret : String) → HttpReply
  -- `str(…)` and `float(…)` of a value, the latter in whole seconds; `none` is an exception
  pub json_text : Json → String
  pub json_seconds : Json → Option ℕ

-- `_DEFAULT_BODY`
abbrev pub default_body : List (String × String)
default_body = ("channel", "{channel}") ∷ ("destination", "{destination}") ∷ ("code", "{code}") ∷ []

-- `text.lstrip("+")`
abbrev pub strip_plus : List Char → List Char
strip_plus [] = []
strip_plus (c ∷ cs) = if code c == b'+' then strip_plus cs else c ∷ cs

abbrev pub is_text : String → Option Json → Bool
is_text sentinel (some (str s)) = str_eq s sentinel
is_text sentinel _ = false

abbrev pub rejects : (key sentinel : String) → Option Json → Bool
rejects key sentinel (some (obj payload)) = is_text sentinel (get_field key payload)
rejects key sentinel _ = false

-- `OAuthSmsOtpSender` between two sends. What a send that raises leaves of it is not modelled.
pub record Sender : Type 0 where
  pub token : Option String
  pub token_expiry : ℕ

abbrev pub new_sender : Sender
new_sender = record { token = none; token_expiry = 0 }

abbrev pub non_empty_text : String → Bool
non_empty_text s = not (str_eq s "")

-- An entry of the body, before the others.
abbrev pub joined_field :
    String → Option String → Result (List (String × String)) → Result (List (String × String))
joined_field key none rest = err value_error
joined_field key (some v) (err e) = err e
joined_field key (some v) (ok rest) = ok ((key, v) ∷ rest)

module _ (env : Env) (wire : Wire) where
  abbrev pub mapping : (channel destination code message : String) → List (String × String)
  mapping channel destination code message =
      ("destination", destination)
      ∷ ("destination_digits", text (strip_plus (chars destination)))
      ∷ ("message", message)
      ∷ ("code", code)
      ∷ ("sender", env.settings.otp_sms_sender_id)
      ∷ ("channel", channel)
      ∷ []

  abbrev pub filled :
      List (String × String) → List (String × String) → Result (List (String × String))
  filled values [] = ok []
  filled values ((key, template) ∷ rest) =
      joined_field key (wire.format_map template values) (filled values rest)

  -- `_render_body`
  unfoldable pub render_body : (channel destination code : String) → Exec (List (String × String))
  render_body channel destination code = do
    template ← or_raise (wire.template_of env.settings.otp_http_body_template) value_error
    message ← or_raise (wire.format_code env.settings.otp_message_template code) value_error
    lift (filled (mapping channel destination code message) (or_else template default_body))

  -- `_raise_on_gateway_error`
  abbrev pub is_gateway_error : Bytes → Bool
  is_gateway_error body =
      if str_eq env.settings.otp_http_error_field ""
      then false
      else rejects env.settings.otp_http_error_field env.settings.otp_http_error_value
          (wire.read_json body)

  -- `raise_for_status` and the test of the body.
  abbrev pub accepted_send : HttpReply → Exec (Unit {0})
  accepted_send no_response = raise http_error
  accepted_send (response code body) =
      if is_success code then raise_if (is_gateway_error body) runtime_error else raise http_error

  abbrev pub auth_headers : List (String × String)
  auth_headers =
      if str_eq env.settings.otp_http_auth_header ""
      then []
      else ("Authorization", env.settings.otp_http_auth_header) ∷ []

  -- `HttpOtpSender.send`
  unfoldable pub http_send : (channel destination code : String) → Exec (Unit {0})
  http_send channel destination code = do
    raise_if (str_eq env.settings.otp_http_url "") runtime_error
    body ← render_body channel destination code
    n ← draw
    accepted_send (env.http_post n env.settings.otp_http_url (wire.json_body body) auth_headers)

  abbrev pub token_body : HttpReply → Exec Bytes
  token_body no_response = raise http_error
  token_body (response code body) = if is_success code then pure body else raise http_error

  abbrev pub token_fields : Option Json → Result Fields
  token_fields (some (obj payload)) = ok payload
  token_fields _ = err value_error

  -- `float(payload.get("expires_in", 3600))`
  abbrev pub lifetime : Option Json → Option ℕ
  lifetime none = some 3600
  lifetime (some v) = wire.json_seconds v

  abbrev pub fetch_token : Exec (String × Sender)
  fetch_token = do
    n ← draw
    body ← token_body (
        wire.post_form n env.settings.otp_oauth_token_url
          (("grant_type", "client_credentials") ∷ []) env.settings.otp_oauth_client_id
          env.settings.otp_oauth_client_secret)
    payload ← lift (token_fields (wire.read_json body))
    value ← or_raise (get_field "access_token" payload) key_error
    seconds ← or_raise (lifetime (get_field "expires_in" payload)) value_error
    now ← utcnow
    let token = wire.json_text value
    pure (token, record { token = some token; token_expiry = (now + seconds) - 30 })

  abbrev pub fresh_or_fetch : Sender → Option String → ℕ → Exec (String × Sender)
  fresh_or_fetch sender none now = fetch_token
  fresh_or_fetch sender (some token) now =
      if non_empty_text token && ltb now sender.token_expiry
      then pure (token, sender)
      else fetch_token

  -- `_access_token`: the token, and the sender after the call.
  unfoldable pub access_token : Sender → Exec (String × Sender)
  access_token sender = do now ← utcnow; fresh_or_fetch sender sender.token now

  abbrev pub bearer_header : String → List (String × String)
  bearer_header token = ("Authorization", concat "Bearer " token) ∷ []

  -- `OAuthSmsOtpSender.send`
  unfoldable pub oauth_send : Sender → (channel destination code : String) → Exec Sender
  oauth_send sender channel destination code = do
    body ← render_body channel destination code
    (token, after) ← access_token sender
    n ← draw
    accepted_send
        (env.http_post n env.settings.otp_http_url (wire.json_body body) (bearer_header token))
    pure after
