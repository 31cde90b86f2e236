-- ===== src/Tsa/Verify.antt =====
-- app/engines/tsa.py: the verification of a stored token. The texts of the imprint and the time, and
-- the presence of a trust anchor on disk, are not modelled.
use ekyc.Prelude.{
  ℕ, String, concat, Bool, true, false, ◌&&◌, ◌||◌, Option, none, some, List, [], ◌∷◌, ◌==◌, last,
  if◌then◌else◌,
}
use ekyc.Env.{Env, Bytes}
use ekyc.Vault.{from_big_endian, starts_with}
use ekyc.Tsa.{Tlv, read_tlv, Walk, walked, children}

pub record Report : Type 0 where
  pub type : String
  pub structural_ok : Bool
  pub granted : Option Bool
  pub imprint_matches : Option Bool
  pub imprint : Option Bytes
  pub gen_time : Option Bytes
  pub signature_verified : Option Bool

-- The result before anything is read.
abbrev pub unread : Report
unread = record {
  type = "rfc3161";
  structural_ok = false;
  granted = none;
  imprint_matches = none;
  imprint = none;
  gen_time = none;
  signature_verified = none;
}

-- The result once the status is found to be granted.
abbrev pub granted_report : Report
granted_report = record unread { granted = some true }

abbrev pub bytes_eq : Bytes → Bytes → Bool
bytes_eq [] [] = true
bytes_eq (a ∷ rest) (b ∷ more) = a == b && bytes_eq rest more
bytes_eq _ _ = false

-- `next((c for t, c in items if t == tag), None)`
abbrev pub tagged : ℕ → List (ℕ × Bytes) → Option Bytes
tagged tag [] = none
tagged tag ((t, content) ∷ rest) = if t == tag then some content else tagged tag rest

-- The content of a value of the tag, or the report of where the reading ends.
abbrev pub read_value : Report → ℕ → (Bytes → Report) → Option Tlv → Report
read_value ended tag next none = ended
read_value ended tag next (some (t, content, off)) = if t == tag then next content else ended

module _ (env : Env) (digest : String) where
  -- The time behind the imprint: the elements of the TSTInfo from its fourth.
  abbrev pub with_time : Report → List (ℕ × Bytes) → Report
  with_time report (serial ∷ (tag, time) ∷ rest) = record report {
    gen_time = some time;
    structural_ok = true;
  }
  with_time report _ = report

  abbrev pub compared : Bytes → Option Bytes → List (ℕ × Bytes) → Report
  compared imprint none rest = granted_report
  compared imprint (some expected) rest =
      with_time
        (record granted_report {
          imprint_matches = some (bytes_eq imprint expected);
          imprint = some imprint;
        })
        rest

  abbrev pub at_last : Option (ℕ × Bytes) → List (ℕ × Bytes) → Report
  at_last none rest = granted_report
  at_last (some (tag, imprint)) rest = compared imprint (env.fromhex digest) rest

  abbrev pub at_imprint : Walk → List (ℕ × Bytes) → Report
  at_imprint (walked items) rest = at_last (last items) rest
  at_imprint _ rest = granted_report

  -- The TSTInfo: its third element is the message imprint.
  abbrev pub at_info : Walk → Report
  at_info (walked (version ∷ policy ∷ (tag, imprint) ∷ rest)) = at_imprint (children imprint) rest
  at_info _ = granted_report

  abbrev pub read_info : Bytes → Report
  read_info content =
      read_value granted_report 48 (λ info. at_info (children info)) (read_tlv content 0)

  abbrev pub at_octets : Option Bytes → Report
  at_octets none = granted_report
  at_octets (some content) = read_value granted_report 4 read_info (read_tlv content 0)

  abbrev pub at_encapsulated : Walk → Report
  at_encapsulated (walked items) = at_octets (tagged 160 items)
  at_encapsulated _ = granted_report

  -- The signed data: its third element is the encapsulated content.
  abbrev pub at_signed : Walk → Report
  at_signed (walked (version ∷ algorithms ∷ (tag, content) ∷ rest)) =
      at_encapsulated (children content)
  at_signed _ = granted_report

  abbrev pub at_explicit : Option Bytes → Report
  at_explicit none = granted_report
  at_explicit (some content) =
      read_value granted_report 48 (λ signed. at_signed (children signed)) (read_tlv content 0)

  abbrev pub at_content : Walk → Report
  at_content (walked items) = at_explicit (tagged 160 items)
  at_content _ = granted_report

  abbrev pub at_grant : Bool → List (ℕ × Bytes) → Report
  at_grant false rest = record unread { granted = some false; structural_ok = true }
  at_grant true [] = record granted_report { structural_ok = true }
  at_grant true ((tag, content) ∷ rest) = at_content (children content)

  abbrev pub is_granted : ℕ → Bool
  is_granted status = status == 0 || status == 1

  abbrev pub at_status : Walk → List (ℕ × Bytes) → Report
  at_status (walked ((tag, status) ∷ more)) rest =
      at_grant (is_granted (from_big_endian 0 status)) rest
  at_status _ rest = unread

  abbrev pub at_response : Walk → Report
  at_response (walked ((tag, status) ∷ rest)) = at_status (children status) rest
  at_response _ = unread

  -- `_verify_rfc3161`
  unfoldable pub verify_rfc3161 : Bytes → Report
  verify_rfc3161 blob =
      read_value unread 48 (λ response. at_response (children response)) (read_tlv blob 0)

  abbrev pub signature_of : Bytes → Option String → Option Bool
  signature_of signature none = none
  signature_of signature (some issued_at) =
      some (env.rsa_verify (env.utf8 (concat digest (concat "|" issued_at))) signature)

  -- `True if verified else None`
  abbrev pub when_true : Option Bool → Option Bool
  when_true (some true) = some true
  when_true _ = none

  -- `_verify_internal`
  unfoldable pub verify_internal : Bytes → Option String → Report
  verify_internal signature issued_at = record unread {
    type = "internal-soft-timestamp";
    structural_ok = true;
    signature_verified = signature_of signature issued_at;
    imprint_matches = when_true (signature_of signature issued_at);
  }

  abbrev pub verify_decoded : Bytes → Option String → Option Bytes → Report
  verify_decoded token issued_at none = verify_rfc3161 token
  verify_decoded token issued_at (some decoded) =
      if starts_with (48 ∷ []) decoded
      then verify_rfc3161 token
      else verify_internal decoded issued_at

  unfoldable pub verify_token : Bytes → Option String → Report
  verify_token token issued_at = verify_decoded token issued_at (env.b64decode token)
