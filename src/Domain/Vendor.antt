-- ===== src/Domain/Vendor.antt =====
-- internal/common/domain/vendor.go.
use billingrse_backend.Prelude.{ℕ, ok, ◌>>◌, fail_if, is_empty, ◌==◌}
use billingrse_backend.GoText.{Text, trim_space}
use billingrse_backend.Domain.Errors.{Result, vendor_user_id_empty, vendor_name_empty}

pub record Vendor : Type 0 where
  pub id : ℕ
  pub user_id : ℕ
  pub name : Text

-- Vendor.Validate.
unfoldable pub validate : Vendor → Result (Unit {0})
validate v = do
  fail_if (v.user_id == 0) vendor_user_id_empty
  fail_if (is_empty (trim_space v.name)) vendor_name_empty
  ok tt
