-- ===== src/Kyc/Minimal.antt =====
-- app/services/kyc.py: what `public_result` shows of an identity.
use ekyc.Prelude.{
  String, ◌≡◌, refl, ◌⊎◌, inl, inr, Bool, true, ◌&&◌, some, List, [], ◌∷◌, All, any, lookup, str_eq,
  Bool-cases, Option-cases, arith, eq_refl, or_else,
}
use mathlib.Core.Path.{subst}
use ekyc.Enums.{SessionStatus}
use ekyc.Models.{KycSession}
use ekyc.Kyc.Public.{identity_fields, project, public_result, shows_identity}

-- A pair of the projection is an entry of the identity, under one of the keys.
abbrev pub IsShown : List (String × String) → List String → (String × String) → Type 0
IsShown identity keys (k, v) = (any (str_eq k) keys ≡ true) × (lookup k identity ≡ some v)

IsShown-cons :
    (identity : List (String × String)) (key : String) (keys : List String)
    (shown : List (String × String))
    → All (IsShown identity keys) shown
    → All (IsShown identity (key ∷ keys)) shown
IsShown-cons identity key keys [] h = tt
IsShown-cons identity key keys ((k, v) ∷ shown) h =
    ((ground arith, h.0.1), IsShown-cons identity key keys shown h.1)

project-IsShown :
    (identity : List (String × String)) (keys : List String)
    → All (IsShown identity keys) (project identity keys)
project-IsShown identity [] = tt
project-IsShown identity (k ∷ ks) =
    let rest = IsShown-cons identity k ks (project identity ks) (project-IsShown identity ks) in
    elim (Option-cases (lookup k identity)) [
      | inl missing ↦ rw (All, missing) rest
      | inr (v, present) ↦ elim (Bool-cases (str_eq v "")) [
        | inl blank ↦ rw (All, present, blank) rest
        | inr text ↦ rw (All, present, text) ((rw eq_refl refl, present), rest)
      ]
    ]

shows_identity_means :
    (status : SessionStatus)
    → shows_identity status ≡ true
    → (status ≡ SessionStatus.verified) ⊎ (status ≡ SessionStatus.review)
shows_identity_means SessionStatus.verified h = inl refl
shows_identity_means SessionStatus.review h = inr refl
shows_identity_means SessionStatus.created h = cc
shows_identity_means SessionStatus.in_progress h = cc
shows_identity_means SessionStatus.processing h = cc
shows_identity_means SessionStatus.rejected h = cc
shows_identity_means SessionStatus.expired h = cc

-- A tenant sees an identity only where it was asked for, of a session that is VERIFIED or in REVIEW,
-- and each pair shown is one of the five permitted fields with the value stored for it.
pub public_result-IsShown :
    (s : KycSession) (include_identity : Bool) {shown : List (String × String)}
    → (public_result s include_identity).identity ≡ some shown
    → (include_identity ≡ true)
      × ((s.status ≡ SessionStatus.verified) ⊎ (s.status ≡ SessionStatus.review))
      × All (IsShown s.identity identity_fields) shown
unfolding public_result
public_result-IsShown s include_identity h =
    elim (Bool-cases (include_identity && shows_identity s.status)) [
      | inl visible ↦
          let same : some (project s.identity identity_fields) ≡ some _ = rw visible at h in
          (
            ground arith,
            shows_identity_means s.status (ground arith),
            subst (λ o. All (IsShown s.identity identity_fields) (or_else o [])) same
                (project-IsShown s.identity identity_fields),
          )
      | inr hidden ↦ cc (rw hidden at h)
    ]
