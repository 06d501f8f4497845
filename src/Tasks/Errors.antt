-- ===== src/Tasks/Errors.antt =====
-- The kinds of storage errors: include/corpcron/common/storage_error.hpp,
-- src/common/storage_error.cpp, and classify_sql_error of src/mysql/mysql_client.cpp.
use coroutine_rpc_scheduler.Common.{
  Bool, List, String, [], arith, false, if◌then◌else◌, str_eq, ℕ, ◌&&◌, ◌==◌, ◌||◌, ◌∷◌, ◌≡◌, ◌≢◌,
  ◌⊎◌,
}
use coroutine_rpc_scheduler.Handlers.Builtin.{codes}

pub data StorageErrorKind : Type 0 where
  no_error connection timeout authentication : StorageErrorKind
  duplicate_key not_found query protocol unknown : StorageErrorKind

unfoldable pub storage_error_kind_name : StorageErrorKind → String
storage_error_kind_name no_error = "none"
storage_error_kind_name connection = "connection"
storage_error_kind_name timeout = "timeout"
storage_error_kind_name authentication = "authentication"
storage_error_kind_name duplicate_key = "duplicate_key"
storage_error_kind_name not_found = "not_found"
storage_error_kind_name query = "query"
storage_error_kind_name protocol = "protocol"
storage_error_kind_name unknown = "unknown"

abbrev begins_with_08 : List ℕ → Bool
begins_with_08 (a ∷ b ∷ rest) = a == b'0' && b == b'8'
begins_with_08 (a ∷ []) = false
begins_with_08 [] = false

-- `mentions_timeout` is the search for "timeout" and "timed out" in the message in lower case.
unfoldable pub classify_sql_error : (String → Bool) → ℕ → String → String → StorageErrorKind
classify_sql_error mentions_timeout error_code state message =
    if error_code == 1045 || str_eq state "28000"
    then authentication
    else if error_code == 1062 || str_eq state "23000"
    then duplicate_key
    else if (error_code == 2002
          || (error_code == 2003 || (error_code == 2006 || error_code == 2013)))
        || begins_with_08 (codes state)
    then connection
    else if mentions_timeout message
    then timeout
    else query

-- The codes and states that MySQL documents for a lost or refused connection are never taken for
-- an error of a query, and an error is never classified as none, which would stand for success.
pub classify_sql_error-ne :
    (mentions_timeout : String → Bool) (error_code : ℕ) (state message : String)
    → let kind = classify_sql_error mentions_timeout error_code state message in
      (kind ≢ no_error)
      × ((error_code ≡ 2006) ⊎ (error_code ≡ 2013)
          → str_eq state "28000" ≡ false
          → str_eq state "23000" ≡ false
          → kind ≡ connection)
unfolding classify_sql_error
classify_sql_error-ne mentions_timeout error_code state message =
    (λ h. ground arith, λ h a b. ground arith)
