-- ===== src/Api/Errors.antt =====
-- The answers that api/errors.py gives to an exception: the HTTP status and the code of the body. The
-- message and the details are not kept.
use bookie_breaker_bookie_em.Base.{ℕ, String}
use bookie_breaker_bookie_em.Core.Errors.{
  Error, value_error, validation_error, invalid_parameter, not_found, duplicate_resource,
  unprocessable, dependency, dependency_timeout, unexpected,
}

unfoldable pub error_response : Error → ℕ × String
error_response invalid_parameter = (400, "INVALID_PARAMETER")
error_response not_found = (404, "RESOURCE_NOT_FOUND")
error_response duplicate_resource = (409, "DUPLICATE_RESOURCE")
error_response unprocessable = (422, "UNPROCESSABLE_ENTITY")
error_response dependency = (502, "DEPENDENCY_ERROR")
error_response dependency_timeout = (504, "TIMEOUT")
error_response validation_error = (400, "VALIDATION_ERROR")
-- handle_unexpected
error_response value_error = (500, "INTERNAL_ERROR")
error_response unexpected = (500, "INTERNAL_ERROR")
