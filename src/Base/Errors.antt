-- ===== src/Base/Errors.antt =====
-- The error values of the program. Go's `error` is `Option Error`, with `none` for `nil`.
use Prim.Native.Nat.{ℕ}

pub data Error : Type 0 where
  -- trigger
  rate_limit_exceeded not_yet_implemented : Error
  -- monitor
  duplicate_service_registration unknown_service : Error
  -- authentication
  rng_collision no_such_session_value : Error
  insufficient_iterations insufficient_entropy : Error
  no_such_identifier bad_password : Error
  incorrect_salt_length incorrect_hash_length : Error
  -- config
  unexpected_resource_type : Error
  duplicate_resource_type unknown_resource_type no_such_resource cyclic_dependency : Error
  empty_pipeline not_registered not_a_filter : Error
  -- util
  invalid_standard_response : Error
  -- an error that another package made
  other : ℕ → Error
