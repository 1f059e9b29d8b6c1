-- ===== src/Domain/PaymentCycle.antt =====
-- internal/common/domain/payment_cycle.go.
pub mod Values
use billingrse_backend.Prelude.{Bool, not, ◌&&◌, ok, ◌>>=◌, ◌>>◌, fail_if, is_empty}
use billingrse_backend.GoText.{Text, txt, trim_space, to_lower, eq_text, CaseTable}
use billingrse_backend.Domain.Errors.{Result, payment_cycle_empty, payment_cycle_invalid}

abbrev pub one_time : Text
one_time = txt "one_time"

abbrev pub recurring : Text
recurring = txt "recurring"

module _ ⦃table : CaseTable⦄ where
  unfoldable pub normalize_payment_cycle : Text → Text
  normalize_payment_cycle value = to_lower (trim_space value)

  -- PaymentCycle.Validate.
  unfoldable pub validate : Text → Result (Unit {0})
  validate cycle = do
    let normalized = normalize_payment_cycle cycle
    fail_if (is_empty normalized) payment_cycle_empty
    fail_if (not (eq_text normalized one_time) && not (eq_text normalized recurring))
        payment_cycle_invalid
    ok tt

  unfoldable pub new_payment_cycle : Text → Result Text
  new_payment_cycle value = do let cycle = normalize_payment_cycle value; validate cycle; ok cycle
