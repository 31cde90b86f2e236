-- ===== src/Kyc/Opened.antt =====
-- app/services/kyc.py: `create_session`, and the token it returns.
use ekyc.Prelude.{
  ◌+◌, ◌<◌, String, ◌≡◌, refl, true, false, not, ◌&&◌, Option, none, some, [], ◌∷◌, ◌++◌, any,
  non_empty, arith, leb, str_eq, eq_refl, eq_iff, sym,
}
use ekyc.Json.{Fields}
use ekyc.Enums.{is_terminal}
use ekyc.Models.{KycSession, Tenant}
use ekyc.Env.{Env}
use ekyc.Exec.{Db, ok, draw, utcnow, lift, ◌>>=◌}
use ekyc.Audit.{record_event}
use ekyc.Policy.{FlowPolicy, get_policy}
use ekyc.Orchestrator
use ekyc.Orchestrator.{RegulatoryProfile}
use ekyc.Store.{find_session, insert_session, find_session-append}
use ekyc.Kyc.Session.{
  create_session, new_session, authenticate_session, verify_secret, hash_secret, ensure_active,
}

-- The right token of an open session is accepted.
authenticate_session-right :
    (env : Env) (s : KycSession) (token : String) (db : Db)
    → s.access_token_hash ≡ hash_secret env token
    → is_terminal s.status ≡ false
    → leb s.expires_at db.now ≡ false
    → authenticate_session env s token db ≡ (ok tt, db)
unfolding authenticate_session verify_secret ensure_active ◌>>=◌ utcnow
authenticate_session-right env s token db right running lives =
    let same : str_eq (hash_secret env token) s.access_token_hash ≡ true =
      (eq_iff _ _).1 (sym right) in
    rw (same, running, lives) refl

module _ (env : Env) (tenant : Tenant) (flow : String) (reference : Option String)
    (metadata : Fields) (jurisdiction ip : Option String) (db : Db) {policy : FlowPolicy}
    {profile : RegulatoryProfile} (known : get_policy flow ≡ ok policy)
    (allowed : non_empty tenant.allowed_flows && not (any (str_eq flow) tenant.allowed_flows)
      ≡ false)
    (routed : Orchestrator.resolve env tenant jurisdiction ≡ ok profile) where
  -- The row that is created: token and id are the next two draws.
  abbrev pub opened : KycSession
  opened =
      new_session (env.random (db.serial + 1)) tenant policy profile reference metadata
        (hash_secret env (env.random db.serial)) db.now env.settings.session_ttl_seconds

  -- A session of the tenant and the flow, with the profile's policies, whose time to live begins now.
  abbrev pub IsRouted : KycSession → Type 0
  IsRouted s =
      (s.tenant_id ≡ tenant.id)
      × (s.jurisdiction ≡ profile.jurisdiction)
      × (s.vault_profile ≡ profile.vault_profile)
      × (s.retention_days ≡ profile.retention_days)
      × (s.tsa_policy ≡ profile.tsa_policy)
      × (s.signature_level ≡ profile.signature_level)
      × (s.expires_at ≡ db.now + env.settings.session_ttl_seconds)

  create_session-row :
      let (r, db') = create_session env tenant flow reference metadata jurisdiction ip db in
      (r ≡ ok (opened, env.random db.serial))
      × (db'.sessions ≡ db.sessions ++ opened ∷ [])
      × (db'.now ≡ db.now)
  unfolding create_session ◌>>=◌ lift draw utcnow insert_session record_event
  create_session-row = rw (known, allowed, routed) (refl, refl, refl)

  -- Under a known flow that the tenant may use, a jurisdiction with a profile, an id that is not
  -- taken and a positive time to live, `create_session` returns the session that it stored, which has
  -- the profile's jurisdiction, vault, retention, timestamp and signature policies, and a token; at the instant of
  -- the creation the session can be found by its id and the token authenticates it.
  pub create_session-opened :
      find_session opened.id db.sessions ≡ none
      → 0 < env.settings.session_ttl_seconds
      → let (r, db') = create_session env tenant flow reference metadata jurisdiction ip db in
        (r ≡ ok (opened, env.random db.serial))
        × (find_session opened.id db'.sessions ≡ some opened)
        × (authenticate_session env opened (env.random db.serial) db' ≡ (ok tt, db'))
        × IsRouted opened
  create_session-opened fresh lasting =
      let (returned, rows, instant) = create_session-row in
      let lives : leb opened.expires_at
            (create_session env tenant flow reference metadata jurisdiction ip db).1.now
          ≡ false =
        rw instant (
          let alive : leb (db.now + env.settings.session_ttl_seconds) db.now ≡ false =
            ground arith in
          alive) in
      (
        returned,
        rw (rows, find_session-append, fresh, eq_refl) refl,
        authenticate_session-right env opened (env.random db.serial) _ refl refl lives,
        (refl, refl, refl, refl, refl, refl, refl),
      )
