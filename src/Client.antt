-- ===== src/Client.antt =====
-- clients/ekyc/client.py: the client of the API. Its requests and the reading of the answers are
-- parameters; a clock that only the client's sleep and its requests move stands for `time.time`.
pub mod Calls
pub mod Polling
pub mod Webhook
pub mod Certificates
use ekyc.Prelude.{
  ℕ, zero, suc, ◌+◌, ◌-◌, ◌*◌, String, concat, Bool, true, false, not, ◌&&◌, ◌||◌, Option, none,
  some, List, [], ◌∷◌, any, ltb, leb, if◌then◌else◌, str_eq, or_else, lookup,
}
use ekyc.Json.{get_field, Json, Fields, end, field, obj, dict, str}
use ekyc.Env.{Bytes}
use ekyc.Orchestrator.{truthy}
use ekyc.Providers.OtpSenders.{non_empty_text, is_text}

-- The bytes of a response and its headers, by the names that the client asks for.
pub record Download : Type 0 where
  pub content : Bytes
  pub headers : List (String × String)

-- A response of the API: its status, its text, the object of its JSON body (`none`: it is not JSON), and its bytes.
pub record Response : Type 0 where
  pub status_code : ℕ
  pub text : String
  pub json : Option Fields
  pub download : Download

-- `_http` and the conversions: the n-th request at an instant, with a method, a path, a body and the
-- authorization; the time the request takes.
pub record Api : Type 0 where
  pub request : ℕ → ℕ → (method path : String) → Option Json → Option String → Response
  pub latency : ℕ → ℕ
  -- `int(…)` of a value (`none` is an exception), and the text of a value that is one
  pub int_of : Json → Option ℕ
  pub text_of : Json → Option String
  pub b64_text : Bytes → String
  pub str_of : ℕ → String
  pub lower : String → String

-- `EkycClient`, with the clock and the number of requests made.
pub record Client : Type 0 where
  pub client_id : String
  pub client_secret : String
  pub token : Option String
  pub token_expiry : ℕ
  pub now : ℕ
  pub requests : ℕ

-- `EkycError`, with its text, a `KeyError`, or a `ValueError`.
pub data Failure : Type 0 where
  ekyc_error : String → Failure
  missing_key : Failure
  value_error : Failure

pub data Reply (A : Type 0) : Type 0 where
  done : A → Reply A
  failed : Failure → Reply A

-- A call: what it returns, and the client after it.
abbrev pub Call : Type 0 → Type 0
Call A = Client → Reply A × Client

abbrev pub then_call : {A B : Type 0} → Reply A × Client → (A → Call B) → Reply B × Client
then_call (done a, c) f = f a c
then_call (failed e, c) f = (failed e, c)

abbrev pub terminal_statuses : List String
terminal_statuses = "VERIFIED" ∷ "REJECTED" ∷ "REVIEW" ∷ "EXPIRED" ∷ []

-- `KycResult`, less the fields that are read out of `raw` as they stand.
pub record KycResult : Type 0 where
  pub session_id : Json
  pub status : Json
  pub raw : Fields

abbrev pub is_terminal : KycResult → Bool
is_terminal r = any (λ status. is_text status (some r.status)) terminal_statuses

-- `DocumentArtifact`, less its filename.
pub record DocumentArtifact : Type 0 where
  pub content : Bytes
  pub sha256 : Option String
  pub signature_algorithm : Option String
  pub timestamp_authority : Option String
  pub timestamp_qualified : Option Bool

-- What polling ends with.
pub data Waited : Type 0 where
  polled : Reply KycResult × Client → Waited
  out_of_fuel : Waited

-- What follows one round of the loop of `wait_for_result`.
abbrev pub next_round :
    (deadline interval : ℕ) → (Client → Waited) → Reply KycResult × Client → Waited
next_round deadline interval rest (failed e, c) = polled (failed e, c)
next_round deadline interval rest (done r, c) =
    if is_terminal r || leb deadline c.now
    then polled (done r, c)
    else rest (record c { now = c.now + interval })

-- `response.json()`
abbrev pub parsed : Option Fields → Reply Fields
parsed none = failed value_error
parsed (some fields) = done fields

module _ (api : Api) where
  -- One request, which takes its time.
  abbrev pub send :
      (method path : String) → Option Json → Option String → Client → Response × Client
  send method path body authorization c = (
    api.request c.requests c.now method path body authorization,
    record c { now = c.now + api.latency c.requests; requests = c.requests + 1 },
  )

  -- `_json_or_raise`
  abbrev pub json_or_raise : Response → String → Reply Fields
  json_or_raise response message =
      if leb 400 response.status_code
      then failed (
          ekyc_error (
            concat message
              (concat ": " (concat (api.str_of response.status_code) (concat " " response.text)))))
      else parsed response.json

  abbrev pub answered : String → Response × Client → Reply Fields × Client
  answered message (response, c) = (json_or_raise response message, c)

  abbrev pub token_request : Client → Json
  token_request c = obj (
      dict (
        ("grant_type", str "client_credentials")
        ∷ ("client_id", str c.client_id)
        ∷ ("client_secret", str c.client_secret)
        ∷ []))

  -- `int(data.get("expires_in", 3600))`
  abbrev pub lifetime_of : Option Json → Option ℕ
  lifetime_of none = some 3600
  lifetime_of (some v) = api.int_of v

  -- The token is kept before the lifetime is read.
  abbrev pub store_expiry : String → Option ℕ → Call String
  store_expiry token none c = (failed value_error, record c { token = some token })
  store_expiry token (some seconds) c =
      (done token, record c { token = some token; token_expiry = c.now + seconds })

  abbrev pub store_token : Fields → Option (Option String) → Call String
  store_token payload none c = (failed missing_key, c)
  store_token payload (some none) c = (failed (ekyc_error "Access token is not a string"), c)
  store_token payload (some (some token)) c =
      store_expiry token (lifetime_of (get_field "expires_in" payload)) c

  abbrev pub text_field : Option Json → Option (Option String)
  text_field none = none
  text_field (some v) = some (api.text_of v)

  abbrev pub fetch_token : Call String
  fetch_token c =
      then_call
        (answered "OAuth token request failed"
          (send "POST" "/v1/oauth/token" (some (token_request c)) none c))
        (λ payload. store_token payload (text_field (get_field "access_token" payload)))

  abbrev pub held_or_fetch : Option String → Call String
  held_or_fetch none c = fetch_token c
  held_or_fetch (some token) c =
      if non_empty_text token && ltb (c.now + 30) c.token_expiry
      then (done token, c)
      else fetch_token c

  -- `_access_token`
  unfoldable pub access_token : Call String
  access_token c = held_or_fetch c.token c

  -- A request under the token, and its JSON object.
  abbrev pub authorized : String → (method path : String) → Option Json → Call Fields
  authorized message method path body c =
      then_call (access_token c)
        (λ token c'. answered message (send method path body (some (concat "Bearer " token)) c'))

  abbrev pub value_or : Json → Option Json → Json
  value_or default none = default
  value_or default (some v) = v

  abbrev pub result_of : String → Fields → KycResult
  result_of sid payload = record {
    session_id = value_or (str sid) (get_field "session_id" payload);
    status = value_or (str "UNKNOWN") (get_field "status" payload);
    raw = payload;
  }

  unfoldable pub get_result : String → Call KycResult
  get_result sid c =
      then_call (authorized "Fetching session failed" "GET" (concat "/v1/kyc/sessions/" sid) none c)
        (λ payload c'. (done (result_of sid payload), c'))

  abbrev pub poll : ℕ → (deadline interval : ℕ) → String → Client → Waited
  poll zero deadline interval sid c = out_of_fuel
  poll (suc fuel) deadline interval sid c =
      next_round deadline interval (poll fuel deadline interval sid) (get_result sid c)

  -- A round takes a second or more, so that there are no more rounds than seconds, and one.
  unfoldable pub wait_for_result : String → (interval timeout : ℕ) → Client → Waited
  wait_for_result sid interval timeout c = poll (timeout + 1) (c.now + timeout) interval sid c
