-- ===== src/ApiError.antt =====
-- api/src/utils/api-error.ts: the error that a service throws, and the outcome of a call.
use Prim.Native.Nat.{ℕ}
use Prim.Native.String.{String}

-- The optional `details` are the validator's issue list, which no service sets.
pub record ApiError : Type 0 where
  pub status : ℕ
  pub message : String

abbrev pub bad_request : String → ApiError
bad_request m = record { status = 400; message = m }

abbrev pub unauthorized : String → ApiError
unauthorized m = record { status = 401; message = m }

abbrev pub forbidden : String → ApiError
forbidden m = record { status = 403; message = m }

abbrev pub not_found : String → ApiError
not_found m = record { status = 404; message = m }

abbrev pub conflict : String → ApiError
conflict m = record { status = 409; message = m }

pub data Result {ℓ} (A : Type ℓ) : Type ℓ where
  ok : A → Result A
  err : ApiError → Result A
