-- ===== src/Auth/Laws.antt =====
-- auth.go and server.go: who is let in.
use catgirl.Base.{
  ℕ, ◌≡◌, ◌≢◌, refl, ap, sym, ◌∙◌, true, false, Option, none, some, String, str_eq, eq_iff, ◌==◌,
  ==_iff, Error, Result, ok, err, ◌↔◌, inl, inr, if◌then◌else◌, Bool-cases, Option-cases,
}
use catgirl.Models.{Json}
use catgirl.Config.{AuthConfig}
use catgirl.Auth.{
  MtfpassUser, MtfpassResponse, Reply, no_reply, replies, check_role, check_response, check_reply,
  validate_token, authorization, authorize, request_token, unauthorized, forbidden, passes_as,
  reason_of, auth_middleware,
}

-- The server vouched for the token: it answered 200 and success, with the user, an administrator.
abbrev pub VouchedFor : (Json → Option MtfpassUser) → Reply → MtfpassUser → Type 0
VouchedFor user_of reply user =
    (r : MtfpassResponse) × (reply ≡ replies 200 (some r))
    × (r.success ≡ true)
    × (user_of r.payload ≡ some user)
    × (user.role ≡ "admin")

ok-injective : {a b : MtfpassUser} → ok a ≡ ok b → a ≡ b
ok-injective e = cc

err≢ok : {e : Error} {a : MtfpassUser} → err e ≢ ok a
err≢ok e = cc

check_role-ok :
    (o : Option MtfpassUser) (user : MtfpassUser)
    → check_role o ≡ ok user
    → (o ≡ some user) × (user.role ≡ "admin")
check_role-ok none user h = cc
check_role-ok (some u) user h = elim (Bool-cases (str_eq u.role "admin")) [
  | inr e ↦ absurd (err≢ok (rw e at h))
  | inl e ↦
      let same : u ≡ user = ok-injective (rw e at h) in
      (ap some same, sym (ap (λ v. v.role) same) ∙ (eq_iff u.role "admin").0 e)
]

check_response-ok :
    (user_of : Json → Option MtfpassUser) (o : Option MtfpassResponse) (user : MtfpassUser)
    → check_response user_of o ≡ ok user
    → (r : MtfpassResponse) × (o ≡ some r)
      × (r.success ≡ true)
      × (user_of r.payload ≡ some user)
      × (user.role ≡ "admin")
check_response-ok user_of none user h = cc
check_response-ok user_of (some r) user h = elim (Bool-cases r.success) [
  | inr e ↦ absurd (err≢ok (rw e at h))
  | inl e ↦ let u = check_role-ok (user_of r.payload) user (rw e at h) in (r, refl, e, u.0, u.1)
]

check_reply-ok :
    (user_of : Json → Option MtfpassUser) (reply : Reply) (user : MtfpassUser)
    → check_reply user_of reply ≡ ok user
    → VouchedFor user_of reply user
check_reply-ok user_of no_reply user h = cc
check_reply-ok user_of (replies status body) user h = elim (Bool-cases (status == 200)) [
  | inr e ↦ absurd (err≢ok (rw e at h))
  | inl e ↦
      let (r, body_is, success, user_is, role) = check_response-ok user_of body user (rw e at h) in
      (r, rw ((==_iff status 200).0 e, body_is) refl, success, user_is, role)
]

module _ (client : String → String → Reply) (user_of : Json → Option MtfpassUser)
    (show_error : Error → String) (show_uid : ℕ → String) where
  -- A token is valid for a user exactly if the server is configured and, asked about the token,
  -- answers 200 and success with that user, who is an administrator.
  pub validate_token-admin :
      (config : AuthConfig) (token : String) (user : MtfpassUser)
      → (validate_token client user_of show_error show_uid config token ≡ ok user)
        ↔ ((config.mtfpass_url ≢ "") × VouchedFor user_of (client config.mtfpass_url token) user)
  unfolding validate_token
  validate_token-admin config token user = elim (Bool-cases (str_eq config.mtfpass_url "")) [
    | inl e ↦ rw e (λ h. absurd (err≢ok h), λ h. absurd (h.0 ((eq_iff config.mtfpass_url "").0 e)))
    | inr e ↦ rw e (
      λ h. (
        λ none. absurd (true≢false (sym ((eq_iff config.mtfpass_url "").1 none) ∙ e)),
        check_reply-ok user_of (client config.mtfpass_url token) user h,
      ),
      λ h.
          let (r, reply, success, user_is, role) = h.1 in
          rw (reply, success, user_is, (eq_iff user.role "admin").1 role) refl,
    )
  ]
    where
      true≢false : true ≢ false
      true≢false e = cc

  of_authorization :
      (r : Result MtfpassUser) (id : String)
      → (let result = authorization client user_of show_error show_uid r in
          if result.authorized
          then passes_as result.user_id
          else forbidden (reason_of client user_of show_error show_uid result))
        ≡ passes_as id
      → (user : MtfpassUser) × (r ≡ ok user) × (show_uid user.uid ≡ id)
  of_authorization (err e) id h = cc
  of_authorization (ok user) id h = (user, refl, passes-injective h)
    where
      passes-injective : {a b : String} → passes_as a ≡ passes_as b → a ≡ b
      passes-injective e = cc

  -- A request that passes has a token, which is valid for the user whose id it is given.
  pub auth_middleware-passes :
      (config : AuthConfig) (header : String) (cookie : Option String) (id : String)
      → auth_middleware client user_of show_error show_uid config header cookie ≡ passes_as id
      → (token : String) × (user : MtfpassUser) × (request_token header cookie ≡ some token)
        × (validate_token client user_of show_error show_uid config token ≡ ok user)
        × (show_uid user.uid ≡ id)
  unfolding auth_middleware authorize
  auth_middleware-passes config header cookie id h =
      elim (Option-cases (request_token header cookie)) [
        | inl missing ↦ absurd (unauthorized≢passes (rw missing at h))
        | inr (token, found) ↦
            let (user, valid, named) =
              of_authorization (validate_token client user_of show_error show_uid config token) id
                (rw found at h) in
            (token, user, found, valid, named)
      ]
    where
      unauthorized≢passes : unauthorized ≢ passes_as id
      unauthorized≢passes e = cc
