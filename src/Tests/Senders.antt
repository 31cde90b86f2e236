-- ===== src/Tests/Senders.antt =====
-- The providers, the gateway and the client library at concrete inputs.
use ekyc.Prelude.{ℕ, zero, suc, ◌≡◌, refl, true, false, some, none, [], ◌∷◌, arith, inl}
use ekyc.Json.{Fields, end, field, obj, str}
use ekyc.Env.{Env, Settings, response}
use ekyc.Exec.{Db, ok, lift, draw, utcnow, pure, ◌>>=◌}
use ekyc.Config.{weak_secret, violations, validate_production_settings}
use ekyc.Otp.Text.{code_chars, code_text}
use ekyc.Providers.{
  inhouse_ocr, inhouse_face, http_otp, Installed, get_ocr_provider, get_face_provider,
  get_otp_sender,
}
use ekyc.Providers.Production.{IsReal, get_providers-validated}
use ekyc.Providers.OtpSenders.{Wire, Sender, new_sender, render_body, http_send, access_token}
use ekyc.Providers.Sends.{Taken, send-Taken}
use ekyc.Client.{Api, Client, wait_for_result}
use ekyc.Client.Polling.{IsEnded, wait_for_result-IsEnded}
use ekyc.Client.Webhook.{Receiver, pos, payload, verify_webhook, header_of, verify_webhook-signed}
use ekyc.Workers.Delivery.{serialize}
use ekyc.Tests.Fixtures.{settings, env, open_session, db_at}

abbrev live : Settings
live = record settings {
  environment = "production";
  admin_api_key = "an-admin-key-of-more-than-32-characters";
  jwt_secret = "a-token-secret-of-more-than-32-characters";
  signing_dev_self_signed_cert = false;
  ocr_provider = "inhouse";
  face_provider = "inhouse";
  otp_provider = "http";
  otp_http_url = "https://sms.example/send";
}

abbrev installed : Installed
installed = record { cv = true; ocr = true; tesseract_binary = false }

live-accepted : validate_production_settings env live ≡ ok tt
unfolding validate_production_settings violations weak_secret
live-accepted = refl

get_providers-validated_example :
    (get_ocr_provider live installed ≡ ok inhouse_ocr)
    × (get_face_provider live installed ≡ ok inhouse_face)
    × (get_otp_sender live ≡ ok http_otp)
    × IsReal (ok inhouse_ocr)
    × IsReal (ok inhouse_face)
    × IsReal (ok http_otp)
get_providers-validated_example =
    get_providers-validated live refl installed env live-accepted refl refl refl

abbrev gateway : Env
gateway = record env { settings = live }

abbrev wire : Wire
wire = record {
  template_of = λ template. some none;
  format_code = λ template code. some code;
  format_map = λ template values. some template;
  json_body = λ body. 1 ∷ [];
  read_json = λ body. some (obj (field "access_token" (str "t1") end));
  post_form = λ n url form user secret. response 200 [];
  json_text = λ v. "t1";
  json_seconds = λ v. some 60;
}

abbrev sent_at : Db
sent_at = db_at 150 open_session

sent : (http_send gateway wire "sms" "+225" "1234" sent_at).0 ≡ ok tt
unfolding http_send render_body ◌>>=◌ pure lift draw
sent = refl

send-Taken_example : Taken gateway wire
send-Taken_example =
    send-Taken gateway wire new_sender "sms" "+225" "1234" sent_at {u = tt} {after = new_sender}
      (inl sent)

abbrev holder : Sender
holder = record { token = some "t1"; token_expiry = 3720 }

fetched : (access_token gateway wire new_sender sent_at).0 ≡ ok ("t1", holder)
unfolding access_token ◌>>=◌ pure lift draw utcnow
fetched = refl

-- The API gives a token first; its session is then in progress.
abbrev answer : ℕ → Fields
answer zero = field "access_token" (str "t1") end
answer (suc n) = field "status" (str "PROCESSING") end

abbrev api : Api
api = record {
  request = λ n now method path body authorization. record {
    status_code = 200;
    text = "";
    json = some (answer n);
    download = record { content = []; headers = [] };
  };
  latency = λ n. 1;
  int_of = λ v. some 3600;
  text_of = λ v. some "t1";
  b64_text = λ plain. "";
  str_of = λ n. "200";
  lower = λ s. s;
}

abbrev client : Client
client = record {
  client_id = "c";
  client_secret = "s";
  token = none;
  token_expiry = 0;
  now = 100;
  requests = 0;
}

wait_for_result-IsEnded_example : IsEnded 110 (wait_for_result api "s1" 3 10 client)
wait_for_result-IsEnded_example = wait_for_result-IsEnded api "s1" 3 10 client (omega arith)

abbrev event_fields : Fields
event_fields = field "event" (str "kyc.completed") end

abbrev receiver : Receiver
receiver = record { parse_int = λ s. some (pos 150); loads = λ body. some event_fields }

verify_webhook-signed_example :
    verify_webhook env receiver "k"
      (serialize env event_fields)
      (header_of env "k" 150 (serialize env event_fields) "kyc.completed" "X-EKYC-Signature")
      (header_of env "k" 150 (serialize env event_fields) "kyc.completed" "X-EKYC-Timestamp")
      300
      200
    ≡ payload event_fields
unfolding code_chars code_text
verify_webhook-signed_example =
    verify_webhook-signed env receiver "k" "kyc.completed" event_fields 150 200 300 refl refl refl
      (omega arith)
