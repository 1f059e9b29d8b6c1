-- ===== src/Domain/BillingNumber.antt =====
-- internal/common/domain/billing_number.go.
use billingrse_backend.Prelude.{ok, ◌>>◌, fail_if, is_empty}
use billingrse_backend.GoText.{Text, trim_space}
use billingrse_backend.Domain.Errors.{Result, billing_number_empty}

unfoldable pub new_billing_number : Text → Result Text
new_billing_number value = do
  let trimmed = trim_space value
  fail_if (is_empty trimmed) billing_number_empty
  ok trimmed

-- BillingNumber.Validate, with IsEmpty written out.
unfoldable pub validate : Text → Result (Unit {0})
validate n = do fail_if (is_empty (trim_space n)) billing_number_empty; ok tt
