-- ===== src/Lab/ErrorCode.antt =====
-- src/lab/lab/error_code.hpp. Of a `lab::result<void>` the model keeps the code, and none where the
-- call succeeds; the texts inside are left out.

pub data ErrorCode : Type 0 where
  generic_error invalid_argument out_of_bounds already_in_progress not_implemented
        configuration_error :
      ErrorCode
