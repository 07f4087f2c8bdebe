-- ===== src/Auth.antt =====
-- internal/services/auth/auth.go and the middleware of internal/transport/http/server.go. What the
-- mtfpass server answers is the parameter `client`; reading a user from the data of its answer is
-- `user_of`, printing an error and a number `show_error` and `show_uid`.
pub mod Laws
use Prim.Native.String.{len, slice}
use catgirl.Base.{
  ℕ, Bool, true, false, ◌&&◌, Option, none, some, String, str_eq, ltb, ◌==◌, Error, Result, ok, err,
  not_configured, unavailable, bad_status, invalid_json, message, denied, if◌then◌else◌,
}
use catgirl.Models.{Json}
use catgirl.Config.{AuthConfig}

pub record MtfpassUser : Type 0 where
  pub uid : ℕ
  pub username : String
  pub role : String
  pub credits : ℕ

pub record MtfpassResponse : Type 0 where
  pub success : Bool
  pub payload : Json
  pub error : String

-- The request failed, or its status came with a body that may not decode.
pub data Reply : Type 0 where
  no_reply : Reply
  replies : ℕ → Option MtfpassResponse → Reply

pub record AuthorizationResult : Type 0 where
  pub authorized : Bool
  pub user_id : String
  pub reason : String

-- Only administrators are let in.
abbrev pub check_role : Option MtfpassUser → Result MtfpassUser
check_role none = err invalid_json
check_role (some user) = if str_eq user.role "admin" then ok user else err denied

abbrev pub check_response :
    (Json → Option MtfpassUser) → Option MtfpassResponse → Result MtfpassUser
check_response user_of none = err invalid_json
check_response user_of (some r) =
    if r.success then check_role (user_of r.payload) else err (message r.error)

abbrev pub check_reply : (Json → Option MtfpassUser) → Reply → Result MtfpassUser
check_reply user_of no_reply = err unavailable
check_reply user_of (replies status body) =
    if status == 200 then check_response user_of body else err (bad_status status)

-- The token of a request: from the header if it is a bearer token, and else from the cookie.
abbrev pub is_bearer : String → Bool
is_bearer header = ltb 7 (len header) && str_eq (slice header 0 7) "Bearer "

abbrev pub request_token : String → Option String → Option String
request_token header cookie =
    if is_bearer header then some (slice header 7 (len header)) else cookie

-- What the middleware does with a request.
pub data Passage : Type 0 where
  unauthorized : Passage
  forbidden : String → Passage
  passes_as : String → Passage

module _ (client : String → String → Reply) (user_of : Json → Option MtfpassUser)
    (show_error : Error → String) (show_uid : ℕ → String) where
  unfoldable pub validate_token : AuthConfig → String → Result MtfpassUser
  validate_token config token =
      if str_eq config.mtfpass_url ""
      then err not_configured
      else check_reply user_of (client config.mtfpass_url token)

  abbrev pub authorization : Result MtfpassUser → AuthorizationResult
  authorization (err e) = record { authorized = false; user_id = ""; reason = show_error e }
  authorization (ok user) = record { authorized = true; user_id = show_uid user.uid; reason = "" }

  unfoldable pub authorize : AuthConfig → String → AuthorizationResult
  authorize config token = authorization (validate_token config token)

  abbrev pub reason_of : AuthorizationResult → String
  reason_of result = if str_eq result.reason "" then "authentication failed" else result.reason

  abbrev pub pass : AuthConfig → Option String → Passage
  pass config none = unauthorized
  pass config (some token) =
      let result = authorize config token in
      if result.authorized then passes_as result.user_id else forbidden (reason_of result)

  unfoldable pub auth_middleware : AuthConfig → String → Option String → Passage
  auth_middleware config header cookie = pass config (request_token header cookie)
