-- ===== src/Audit/Tamper.antt =====
-- app/engines/audit.py: two chains with one head hash.
use ekyc.Prelude.{
  ℕ, ◌+◌, String, ◌≡◌, ◌≢◌, refl, ◌⊎◌, ◌∙◌, sym, inl, inr, Option, none, some, List, [], ◌∷◌, arith,
  length, Bool-cases, eq_iff, str_eq,
}
use ekyc.Models.{AuditEvent}
use ekyc.Env.{Env}
use ekyc.Json.{get_field, Fields, dict, int, str, obj}
use ekyc.Audit.{
  compute_event_hash, hashed_object, canonical_json, sha256_json, sha256_text, optional_str,
}
use ekyc.Audit.Chain.{Chain, head_hash}

module _ (env : Env) where
  -- Two texts with one SHA-256 digest.
  abbrev pub Collision : Type 0
  Collision = (x : String) × (y : String) × (x ≢ y) × (env.sha256 x ≡ env.sha256 y)

  -- What the log says of an event: every column but the row's hash, the address and the device.
  abbrev pub contents : AuditEvent → Fields
  contents e = dict (
      ("sequence", int e.sequence)
      ∷ ("event_type", str e.event_type)
      ∷ ("session_id", str e.session_id)
      ∷ ("tenant_id", str e.tenant_id)
      ∷ ("actor", str e.actor)
      ∷ ("created_at", str (env.isoformat e.created_at))
      ∷ ("payload", obj e.payload)
      ∷ ("document_hash", optional_str e.document_hash)
      ∷ ("previous_event_hash", optional_str e.previous_event_hash)
      ∷ [])

  abbrev pub text_of : AuditEvent → String
  text_of e = canonical_json env (obj (contents e))

  -- What the code relies on of `json.dumps`: two dictionaries with one text have the same text, or both a null, at a
  -- key where each has a text or a null.
  abbrev pub ShowsText : String → Type 0
  ShowsText key =
      (f f' : Fields) (a b : Option String)
      → get_field key f ≡ some (optional_str a)
      → get_field key f' ≡ some (optional_str b)
      → canonical_json env (obj f) ≡ canonical_json env (obj f')
      → a ≡ b

  -- Position by position the contents have one canonical JSON.
  abbrev pub SameTexts : List AuditEvent → List AuditEvent → Type 0
  SameTexts [] [] = Unit
  SameTexts (e ∷ es) (e' ∷ es') = (text_of e ≡ text_of e') × SameTexts es es'
  SameTexts _ _ = ⊥

  compute_event_hash-text : (e : AuditEvent) → compute_event_hash env e ≡ env.sha256 (text_of e)
  unfolding compute_event_hash hashed_object sha256_json sha256_text canonical_json
  compute_event_hash-text e = refl

  same_hash :
      (e e' : AuditEvent)
      → e.event_hash ≡ compute_event_hash env e
      → e'.event_hash ≡ compute_event_hash env e'
      → some e.event_hash ≡ some e'.event_hash
      → Collision ⊎ (text_of e ≡ text_of e')
  same_hash e e' h h' eq = elim (Bool-cases (str_eq (text_of e) (text_of e'))) [
    | inl same ↦ inr ((eq_iff _ _).0 same)
    | inr differ ↦ inl (
      text_of e,
      text_of e',
      λ p. ground (arith, eq_iff (text_of e) (text_of e')),
      cc (compute_event_hash-text e, compute_event_hash-text e'),
    )
  ]

  binds :
      ShowsText "previous_event_hash"
      → (n n' : ℕ) (p p' : Option String) (es es' : List AuditEvent) → Chain env n p es
      → Chain env n' p' es'
      → length es ≡ length es'
      → head_hash env p es ≡ head_hash env p' es'
      → Collision ⊎ (SameTexts es es' × (p ≡ p'))
  binds shows n n' p p' [] [] c c' l h = inr (tt, h)
  binds shows n n' p p' [] (e' ∷ es') c c' l h = absurd (omega arith)
  binds shows n n' p p' (e ∷ es) [] c c' l h = absurd (omega arith)
  binds shows n n' p p' (e ∷ es) (e' ∷ es') c c' l h =
      elim (binds shows (n + 1) (n' + 1) (some e.event_hash) (some e'.event_hash) es es' c.3 c'.3
        (omega arith) h) [
          | inl collision ↦ inl collision
          | inr rest ↦ elim (same_hash e e' c.2 c'.2 rest.1) [
            | inl collision ↦ inl collision
            | inr same ↦ inr (
              (same, rest.0),
              sym c.1 ∙ shows (contents e) (contents e') _ _ refl refl same ∙ c'.1,
            )
          ]
        ]

  -- Two chains of one length with one head hash agree, event by event, on the canonical JSON of the number, the
  -- type, the session, the tenant, the actor, the time, the payload, the document hash and the previous hash; or
  -- they exhibit a collision of SHA-256. The canonical JSON of a dictionary is assumed to show the text or the null at
  -- the key `previous_event_hash`.
  pub Chain-tamper_evident :
      ShowsText "previous_event_hash"
      → (es es' : List AuditEvent) → Chain env 1 none es
      → Chain env 1 none es'
      → length es ≡ length es'
      → head_hash env none es ≡ head_hash env none es'
      → Collision ⊎ SameTexts es es'
  Chain-tamper_evident shows es es' c c' l h = elim (binds shows 1 1 none none es es' c c' l h) [
    | inl collision ↦ inl collision
    | inr same ↦ inr same.0
  ]
