-- ===== src/Pdf.antt =====
-- app/services/pdf.py: what is drawn on the page of a certificate and of a contract. The file that the
-- drawing library makes of it is `canvas` of `ekyc.Env`.
use ekyc.Prelude.{ℕ, ◌+◌, String, concat, Option, some, List, [], ◌∷◌, ◌++◌, or_else, map}
use ekyc.Orchestrator.{truthy}
use ekyc.Env.{Env, Bytes, Mark, font, text_at, line_at}

-- What is drawn, and how far below the top the next text stands.
abbrev pub Page : Type 0
Page = List Mark × ℕ

-- `_header`
unfoldable pub page_header : String → String → Page
page_header title subtitle = (
  font "Helvetica-Bold" 16
      ∷ text_at 20 25 title
      ∷ font "Helvetica" 9
      ∷ text_at 20 32 subtitle
      ∷ line_at 35
      ∷ [],
  45,
)

abbrev pub row : ℕ → String × Option String → List Mark
row below (label, value) =
    font "Helvetica-Bold" 10
    ∷ text_at 20 below label
    ∷ font "Helvetica" 10
    ∷ text_at 80 below (or_else value "-")
    ∷ []

-- `_rows`, on a page
unfoldable pub rows : Page → List (String × Option String) → Page
rows page [] = page
rows (marks, below) (r ∷ rest) = rows (marks ++ row below r, below + 7) rest

-- `y -= …`
abbrev pub lowered : ℕ → Page → Page
lowered step (marks, below) = (marks, below + step)

-- A caption, with the space around it.
abbrev pub caption : String → Page → Page
caption title (marks, below) =
    (marks ++ (font "Helvetica-Bold" 12 ∷ text_at 20 (below + 4) title ∷ []), below + 4 + 8)

abbrev pub shown : String × String → String × Option String
shown (k, v) = (k, some v)

-- What a certificate is drawn from.
pub record Certificate : Type 0 where
  pub session_id : String
  pub tenant_name : String
  pub flow : String
  pub status : String
  pub identity : List (String × String)
  pub checks : List (String × String)
  pub audit_head_hash : Option String
  pub issued_at : String

-- What a contract is drawn from.
pub record Contract : Type 0 where
  pub title : String
  pub session_id : String
  pub tenant_name : String
  pub body : List (String × Option String)
  pub issued_at : String

module _ (env : Env) where
  abbrev pub labelled : String × String → String × Option String
  labelled (k, v) = (env.titled k, some v)

  abbrev pub summary : Certificate → Page
  summary c =
      rows
        (page_header "CERTIFICAT DE VERIFICATION D'IDENTITE"
          "IT-TECH eKYC - Digital Trust Platform")
        (("KYC ID", some c.session_id)
          ∷ ("Client", some c.tenant_name)
          ∷ ("Parcours", some c.flow)
          ∷ ("Statut global", some c.status)
          ∷ ("Emis le", some c.issued_at)
          ∷ [])

  unfoldable pub certificate_page : Certificate → Page
  certificate_page c =
      let identified = rows (caption "Identite" (summary c)) (map labelled c.identity) in
      let checked = rows (caption "Controles" identified) (map shown c.checks) in
      rows (caption "Piste d'audit" checked)
        (("Empreinte de chaine", some (or_else (truthy c.audit_head_hash) "-")) ∷ [])

  unfoldable pub render_kyc_certificate : Certificate → Bytes
  render_kyc_certificate c = env.canvas (certificate_page c).0

  abbrev pub signed_off : String → Page → Page
  signed_off session_id (marks, below) = (
    marks ++ (font "Helvetica-Oblique" 9 ∷ text_at 20 below (concat "KYC ID: " session_id) ∷ []),
    below,
  )

  unfoldable pub contract_page : Contract → Page
  contract_page c = signed_off c.session_id (
      lowered 6 (
        rows
          (page_header c.title
            (concat c.tenant_name (concat " - genere via IT-TECH eKYC le " c.issued_at)))
          c.body))

  unfoldable pub render_contract : Contract → Bytes
  render_contract c = env.canvas (contract_page c).0
