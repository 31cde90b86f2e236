-- ===== src/Frame/Instances.antt =====
-- The audit chains and the live deliveries as instances of the interface of `ekyc.Frame`.
use ekyc.Prelude.{String, none}
use ekyc.Env.{Env}
use ekyc.Exec.{draw, utcnow, modify, ◌>>=◌}
use ekyc.Exec.Keeps.{Keeps}
use ekyc.Audit.{events_of, record_event, NewEvent}
use ekyc.Audit.Chain.{AllChained, Chain, record_event-AllChained}
use ekyc.Store.{
  save_session, touch_session, insert_session, modify_challenges, modify_documents,
  modify_artifacts, modify_biometrics, modify_limiter, push_task,
}
use ekyc.Webhooks.Unique.{UniqueDeliveries, queue_session_event-Unique}
use ekyc.Frame.{Frame, TableFrame}
use ekyc.Frame.Logs.{log_tables}

module _ (env : Env) where
  record_event-Unique : (n : NewEvent) → Keeps UniqueDeliveries (record_event env n)
  unfolding record_event ◌>>=◌ utcnow
  record_event-Unique n = record { at = λ db h. h }

  -- So is the uniqueness of live deliveries.
  pub unique_frame : Frame env UniqueDeliveries
  unfolding save_session touch_session insert_session modify_limiter push_task draw modify
  unique_frame = record {
    keeps_event = record_event-Unique;
    keeps_webhook = queue_session_event-Unique env;
    keeps_save = λ s. record { at = λ db h. h };
    keeps_touch = λ id now. record { at = λ db h. h };
    keeps_insert = λ s. record { at = λ db h. h };
    keeps_limiter = λ f. record { at = λ db h. h };
    keeps_task = λ d. record { at = λ db h. h };
    keeps_draw = record { at = λ db h. h };
  }

  -- The audit chains are kept by every elementary write.
  pub chained_tables : TableFrame env (AllChained env)
  chained_tables =
      log_tables env (λ es ds. (sid : String) → Chain env 1 none (events_of sid es))
        (record_event-AllChained env)

  pub unique_tables : TableFrame env UniqueDeliveries
  unfolding modify_challenges modify_documents modify_artifacts modify_biometrics modify
  unique_tables = record {
    frame = unique_frame;
    keeps_challenges = λ f. record { at = λ db h. h };
    keeps_documents = λ f. record { at = λ db h. h };
    keeps_artifacts = λ f. record { at = λ db h. h };
    keeps_biometrics = λ f. record { at = λ db h. h };
  }
