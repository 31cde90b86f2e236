-- ===== src/Client/Polling.antt =====
-- clients/ekyc/client.py: `wait_for_result` ends.
use ekyc.Prelude.{
  ℕ, zero, suc, ◌+◌, ◌≤◌, ◌<◌, String, ◌≡◌, true, ◌||◌, ◌&&◌, Option, none, some, ltb, leb, arith,
  Bool-cases, inl, inr,
}
use native.Mathlib.Nat.{le_refl}
use ekyc.Providers.OtpSenders.{non_empty_text}
use ekyc.Json.{Json, Fields}
use ekyc.Client.{
  Api, Client, Call, Reply, done, failed, then_call, KycResult, is_terminal, Waited, polled,
  out_of_fuel, next_round, send, answered, store_token, fetch_token, held_or_fetch, access_token,
  store_expiry, get_result, poll, wait_for_result,
}

-- The clock does not go back.
record Onward {A : Type 0} (c : Client) (m : Reply A × Client) : Type 0 where
  ahead : c.now ≤ m.1.now

-- How polling ends: with a failure, or with a result that is terminal or read at the deadline or after it.
abbrev pub IsEnded : ℕ → Waited → Type 0
IsEnded deadline (polled (failed e, c)) = Unit
IsEnded deadline (polled (done r, c)) = (is_terminal r || leb deadline c.now) ≡ true
IsEnded deadline out_of_fuel = ⊥

then_call-Onward :
    {A B : Type 0} (start : Client) (m : Reply A × Client) (f : A → Call B)
    → Onward start m
    → ((a : A) (c : Client) → Onward c (f a c))
    → Onward start (then_call m f)
then_call-Onward start (done a, c) f h hf = record {
  ahead = omega (arith, h.ahead, (hf a c).ahead);
}
then_call-Onward start (failed e, c) f h hf = record { ahead = h.ahead }

stays : {A : Type 0} (r : Reply A) (c : Client) → Onward c (r, c)
stays r c = record { ahead = le_refl c.now }

module _ (api : Api) where
  store_expiry-Onward :
      (token : String) (seconds : Option ℕ) (c : Client)
      → Onward c (store_expiry api token seconds c)
  store_expiry-Onward token none c = record { ahead = omega arith }
  store_expiry-Onward token (some seconds) c = record { ahead = omega arith }

  store_token-Onward :
      (payload : Fields) (token : Option (Option String)) (c : Client)
      → Onward c (store_token api payload token c)
  store_token-Onward payload none c = record { ahead = omega arith }
  store_token-Onward payload (some none) c = record { ahead = omega arith }
  store_token-Onward payload (some (some token)) c = store_expiry-Onward token _ c

  sent-Onward :
      (message method path : String) (body : Option Json) (authorization : Option String)
      (c : Client)
      → Onward c (answered api message (send api method path body authorization c))
  sent-Onward message method path body authorization c = record { ahead = omega arith }

  fetch_token-Onward : (c : Client) → Onward c (fetch_token api c)
  fetch_token-Onward c =
      then_call-Onward c _ _ (sent-Onward _ _ _ _ _ c)
        (λ payload c'. store_token-Onward payload _ c')

  held_or_fetch-Onward : (token : Option String) (c : Client) → Onward c (held_or_fetch api token c)
  held_or_fetch-Onward none c = fetch_token-Onward c
  held_or_fetch-Onward (some token) c =
      elim (Bool-cases (non_empty_text token && ltb (c.now + 30) c.token_expiry)) [
        | inl fresh ↦ rw fresh (stays _ c)
        | inr stale ↦ rw stale (fetch_token-Onward c)
      ]

  get_result-Onward : (sid : String) (c : Client) → Onward c (get_result api sid c)
  unfolding get_result access_token
  get_result-Onward sid c =
      then_call-Onward c _ _
        (then_call-Onward c _ _ (held_or_fetch-Onward c.token c)
          (λ token c'. sent-Onward _ _ _ _ _ c'))
        (λ payload c'. stays _ c')

  -- A round that does not end leaves less time than there is fuel.
  next_round-IsEnded :
      (deadline interval : ℕ) (start : Client) (rest : Client → Waited)
      (m : Reply KycResult × Client)
      → 0 < interval
      → Onward start m
      → ((c : Client) → start.now < c.now → start.now < deadline → IsEnded deadline (rest c))
      → IsEnded deadline (next_round deadline interval rest m)
  next_round-IsEnded deadline interval start rest (failed e, c) positive h later = tt
  next_round-IsEnded deadline interval start rest (done r, c) positive h later =
      elim (Bool-cases (is_terminal r || leb deadline c.now)) [
        | inl stop ↦ rw stop stop
        | inr go ↦ rw go (
            later (record c { now = c.now + interval }) (omega (arith, h.ahead))
              (ground (arith, h.ahead)))
      ]

  poll-IsEnded :
      (fuel deadline interval : ℕ) (sid : String) (c : Client)
      → 0 < interval
      → deadline < c.now + fuel
      → 0 < fuel
      → IsEnded deadline (poll api fuel deadline interval sid c)
  poll-IsEnded zero deadline interval sid c positive enough early = absurd (omega arith)
  poll-IsEnded (suc fuel) deadline interval sid c positive enough early =
      next_round-IsEnded deadline interval c _ _ positive (get_result-Onward sid c)
        λ c' moved before.
          poll-IsEnded fuel deadline interval sid c' positive (omega arith) (omega arith)

-- `wait_for_result` ends, whatever the API answers and however long it takes: with a failure of a request, or with a
-- result whose status is terminal or that was read at the deadline or after it. The interval is a second or more.
pub wait_for_result-IsEnded :
    (api : Api) (sid : String) (interval timeout : ℕ) (c : Client)
    → 0 < interval
    → IsEnded (c.now + timeout) (wait_for_result api sid interval timeout c)
unfolding wait_for_result
wait_for_result-IsEnded api sid interval timeout c positive =
    poll-IsEnded api (timeout + 1) (c.now + timeout) interval sid c positive (omega arith)
      (omega arith)
