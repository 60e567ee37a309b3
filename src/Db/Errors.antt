-- ===== src/Db/Errors.antt =====
-- crates/og-db/src/error.rs, and the errors of the database driver that the services tell apart.
use opengroupware.Prelude.{ℕ, String}
use Prim.Native.String

-- `sqlx::Error`. The first four are `sqlx::Error::Database`, by the class that Postgres reports.
pub data SqlError : Type 0 where
  unique_violation check_violation foreign_key_violation policy_violation : SqlError
  row_not_found invalid_row_count : SqlError
  lost : SqlError  -- the connection failed
  privileged_role : SqlError  -- `sqlx::Error::Configuration`, from `assert_rls_safe_role`

pub data ApiError : Type 0 where
  unauthorized not_found : ApiError
  conflict validation : String → ApiError
  db : SqlError → ApiError

unfoldable pub status : ApiError → ℕ
status unauthorized = 401
status not_found = 404
status (conflict _) = 409
status (validation _) = 422
status (db _) = 500

-- The `Display` texts of the error attribute.
to_string : ApiError → String
to_string unauthorized = "unauthorized"
to_string not_found = "not found"
to_string (conflict m) = String.◌++◌ "conflict: " m
to_string (validation m) = String.◌++◌ "validation: " m
to_string (db _) = "database error"

-- The status code and the text of the body's `error` field.
unfoldable pub into_response : ApiError → ℕ × String
unfolding status to_string
into_response (db unique_violation) = (409, "already exists")
into_response (db e) = (status (db e), "internal error")
into_response other = (status other, to_string other)
