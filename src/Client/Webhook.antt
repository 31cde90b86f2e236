-- ===== src/Client/Webhook.antt =====
-- clients/ekyc/webhook.py: a receiver verifies a delivery; app/workers/tasks.py has signed it. The body is
-- the text whose encoding is sent.
use Prim.Native.Char.{Char, code}
use mathlib.Core.List.{cons≢nil}
use package.text.Mathlib.TextLemmas.{nil-append, cons-append}
use ekyc.Prelude.{
  ℕ, ◌+◌, ◌-◌, ◌≤◌, String, concat, ◌≡◌, refl, ap, sym, Bool-cases, inl, inr, eq_iff, ◌∙◌, Bool,
  true, false, not, ◌&&◌, Option, none, some, List, [], ◌∷◌, ltb, ◌++◌, ◌==◌, if◌then◌else◌, str_eq,
  eq_refl, lookup, arith,
}
use ekyc.Json.{Fields}
use ekyc.Env.{Env}
use ekyc.Orchestrator.{truthy}
use ekyc.Otp.Text.{chars, text}
use ekyc.Workers.Delivery.{sign_webhook, signed_headers, serialize}

-- `WebhookVerificationError`, by its text, or a `ValueError` of `json.loads`.
pub data Verified : Type 0 where
  payload : Fields → Verified
  refused : String → Verified
  unreadable : Verified

-- The text behind the first "=", or the whole text.
abbrev pub after_equals : List Char → Option (List Char)
after_equals [] = none
after_equals (c ∷ cs) = if code c == b'=' then some cs else after_equals cs

abbrev pub provided : String → String
provided header = elim (after_equals (chars header)) [ none ↦ header | some cs ↦ text cs ]

-- What `int(text)` returns.
pub data ℤ : Type 0 where
  pos : ℕ → ℤ
  negsuc : ℕ → ℤ

-- `abs(now - ts)`
abbrev pub distance : ℕ → ℤ → ℕ
distance now (pos ts) = (now - ts) + (ts - now)
distance now (negsuc n) = now + (n + 1)

-- What the receiver takes from the libraries: `int(text)` and `json.loads`; `none` is a `ValueError`.
pub record Receiver : Type 0 where
  pub parse_int : String → Option ℤ
  pub loads : String → Option Fields

module _ (env : Env) (receiver : Receiver) where
  abbrev pub decoded : Option Fields → Verified
  decoded none = unreadable
  decoded (some fields) = payload fields

  -- `expected`, on the text whose encoding is the body.
  abbrev pub expected : (secret timestamp body : String) → String
  expected secret timestamp body = env.hmac_sha256 secret (concat timestamp (concat "." body))

  abbrev pub compare_digest : (secret body signature timestamp : String) → Verified
  compare_digest secret body signature timestamp =
      if str_eq (provided signature) (expected secret timestamp body)
      then decoded (receiver.loads body)
      else refused "Signature mismatch"

  abbrev pub within : (tolerance now : ℕ) → Option ℤ → Verified → Verified
  within tolerance now none next = refused "Invalid timestamp header"
  within tolerance now (some ts) next =
      if not (tolerance == 0) && ltb tolerance (distance now ts)
      then refused "Timestamp outside tolerance (possible replay)"
      else next

  abbrev pub with_headers :
      (secret body : String)
      → (signature timestamp : Option String) → (tolerance now : ℕ) → Verified
  with_headers secret body (some signature) (some timestamp) tolerance now =
      within tolerance now (receiver.parse_int timestamp)
        (compare_digest secret body signature timestamp)
  with_headers secret body _ _ tolerance now = refused "Missing signature or timestamp header"

  unfoldable pub verify_webhook :
      (secret body : String)
      → (signature timestamp : Option String) → (tolerance now : ℕ) → Verified
  verify_webhook secret body signature timestamp tolerance now =
      with_headers secret body (truthy signature) (truthy timestamp) tolerance now

chars-concat : (a b : String) → chars (concat a b) ≡ chars a ++ chars b
chars-concat String.[] b = ap chars (nil-append b)
chars-concat (String.◌∷◌ c a) b =
    ap chars (cons-append c a b) ∙ ap (λ cs. c ∷ cs) (chars-concat a b)

text-chars : (s : String) → text (chars s) ≡ s
text-chars String.[] = refl
text-chars (String.◌∷◌ c s) = ap (String.◌∷◌ c) (text-chars s)

provided-sha256 : (digest : String) → provided (concat "sha256=" digest) ≡ digest
provided-sha256 digest = rw (chars-concat "sha256=" digest, provided) (text-chars digest)

prefixed :
    (digest : String) → truthy (some (concat "sha256=" digest)) ≡ some (concat "sha256=" digest)
prefixed digest = elim (Bool-cases (str_eq (concat "sha256=" digest) "")) [
  | inl empty ↦
      absurd (cons≢nil (sym (chars-concat "sha256=" digest) ∙ ap chars ((eq_iff _ _).0 empty)))
  | inr shown ↦ rw shown refl
]

and_false : (b : Bool) → (b && false) ≡ false
and_false true = refl
and_false false = refl

-- What the headers of a delivery say.
abbrev pub header_of : Env → String → ℕ → String → String → String → Option String
header_of env secret sent body event name =
    lookup name (signed_headers env (some secret) sent body event)

-- A delivery that the platform signs with a secret, and that reaches a receiver with this secret at most `tolerance`
-- seconds before or after the instant in its header, is verified: the receiver gets the payload that was sent.
-- The library reads back the numbers and the payloads that it prints, and no number is printed as the empty text.
pub verify_webhook-signed :
    (env : Env) (receiver : Receiver) (secret event : String) (fields : Fields)
    (sent now tolerance : ℕ)
    → receiver.parse_int (env.str_of sent) ≡ some (pos sent)
    → receiver.loads (serialize env fields) ≡ some fields
    → truthy (some (env.str_of sent)) ≡ some (env.str_of sent)
    → distance now (pos sent) ≤ tolerance
    → verify_webhook env receiver secret
        (serialize env fields)
        (header_of env secret sent (serialize env fields) event "X-EKYC-Signature")
        (header_of env secret sent (serialize env fields) event "X-EKYC-Timestamp")
        tolerance
        now
      ≡ payload fields
unfolding verify_webhook sign_webhook
verify_webhook-signed env receiver secret event fields sent now tolerance read loaded shown near =
    let digest = sign_webhook env secret (env.str_of sent) (serialize env fields) in
    let signed : truthy (some (concat "sha256=" digest)) ≡ some (concat "sha256=" digest) =
      prefixed digest in
    let fresh : ltb tolerance (distance now (pos sent)) ≡ false = ground arith in
    rw (signed, shown, read, fresh, and_false, provided-sha256 digest, eq_refl digest, loaded) refl
