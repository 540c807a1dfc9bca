-- ===== src/ErrorHandler.antt =====
-- api/src/middlewares/error-handler.ts and not-found-handler.ts: what a request is answered when a
-- handler throws, and which denials are audited. Log lines are left out.
use livechat.ApiError.{ApiError, not_found}
use livechat.Prelude.{
  ℕ, String, Bool, true, false, ◌||◌, ◌&&◌, Option, none, some, List, [], ◌∷◌, first_of, ltb, leb,
  concat, arith, ◌≡◌, refl, ◌≤◌, if◌then◌else◌,
}

-- What may be thrown: an `ApiError`, a `ZodError` with its issues, another `Error` with whether its
-- `type` is a text, its `status` and `statusCode` where they are numbers and its message, or a value
-- that is no `Error`.
pub data Thrown : Type 0 where
  api_error : ApiError → Thrown
  zod_error : String → Thrown
  error : Bool → Option ℕ → Option ℕ → String → Thrown
  non_error : Thrown

pub record Response : Type 0 where
  pub status : ℕ
  pub message : String
  pub details : Option String

-- The entry of an audited denial, without the actor.
pub record Denial : Type 0 where
  pub action : String
  pub reason : String

abbrev pub response : ℕ → String → Response
response status message = record { status = status; message = message; details = none }

abbrev pub same_nat : ℕ → ℕ → Bool
same_nat a b = leb a b && leb b a

abbrev pub body_error_status : Option ℕ → Option ℕ → Option ℕ
body_error_status status status_code = first_of status status_code

-- A body-parser's failure with its status.
abbrev pub body_error : ℕ → Option Response
body_error status =
    if ltb status 400 || leb 500 status
    then none
    else some (
        if same_nat status 413
        then response status "Request payload too large"
        else if same_nat status 415
        then response status "Unsupported media type"
        else response 400 "Malformed request body")

abbrev pub body_error_with : Option ℕ → Option Response
body_error_with none = none
body_error_with (some status) = body_error status

abbrev pub client_body_error : Bool → Option ℕ → Option ℕ → Option Response
client_body_error false status status_code = none
client_body_error true status status_code = body_error_with (body_error_status status status_code)

abbrev pub unhandled : Response
unhandled = response 500 "Internal server error"

abbrev pub or_internal : Option Response → Response
or_internal none = unhandled
or_internal (some r) = r

unfoldable pub respond : Thrown → Response
respond (api_error e) = response e.status e.message
respond (zod_error issues) = record {
  status = 400;
  message = "Validation failed";
  details = some issues;
}
respond (error type_is_text status status_code message) =
    or_internal (client_body_error type_is_text status status_code)
respond non_error = unhandled

abbrev pub denials : Response → List Denial
denials r =
    if same_nat r.status 401
    then record { action = "auth.denied"; reason = r.message } ∷ []
    else if same_nat r.status 403
    then record { action = "access.denied"; reason = r.message } ∷ []
    else []

-- `errorHandler`, with an audit service.
unfoldable pub handle_error : Thrown → Response × List Denial
unfolding respond
handle_error thrown = (respond thrown, denials (respond thrown))

-- `notFoundHandler`
unfoldable pub handle_not_found : String → String → Response × List Denial
unfolding handle_error
handle_not_found method path =
    handle_error
      (api_error (not_found (concat "Route not found: " (concat method (concat " " path)))))

-- An error that no service meant is answered with a status of the client's or with 500, whatever its
-- status says, and its own text is never sent: two texts are answered alike.
error-opaque :
    (type_is_text : Bool) (status status_code : Option ℕ) (message other : String)
    → (400 ≤ (handle_error (error type_is_text status status_code message)).0.status)
      × ((handle_error (error type_is_text status status_code message)).0.status ≤ 500)
      × (handle_error (error type_is_text status status_code message)
          ≡ handle_error (error type_is_text status status_code other))
unfolding handle_error
error-opaque false status status_code message other = (omega arith, omega arith, refl)
error-opaque true none none message other = (omega arith, omega arith, refl)
error-opaque true none (some c) message other = (ground arith, ground arith, refl)
error-opaque true (some s) status_code message other = (ground arith, ground arith, refl)
