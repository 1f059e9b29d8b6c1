-- ===== src/BillingStage/Messages.antt =====
-- The messages of internal/billing/application/usecase.go.
use billingrse_backend.Prelude.{◌++◌, [], ◌∷◌, List, is_empty, if◌then◌else◌}
use billingrse_backend.GoText.{Text, txt, trim_space, join}
use billingrse_backend.BillingStage.Types.{CreationTarget}

-- `if strings.TrimSpace(value) != "" { parts = append(parts, label+…) }`.
labelled : Text → Text → List Text
labelled label value = if is_empty (trim_space value) then [] else (label ++ trim_space value) ∷ []

pub format_billing_message : (prefix external_message_id vendor_name billing_number : Text) → Text
unfolding labelled
format_billing_message prefix external_message_id vendor_name billing_number = join (txt " ") (
    (prefix ∷ [])
    ++ (labelled (txt "vendor=") vendor_name
        ++ (labelled (txt "billing_number=") billing_number
            ++ labelled (txt "external_message_id=") external_message_id)))

module _ {F : Type 0} (t : CreationTarget F) where
  pub message_for_invalid_creation_target : Text
  message_for_invalid_creation_target =
      format_billing_message (txt "請求作成対象が不正なため請求を作成できませんでした。") t.external_message_id t.vendor_name
        t.billing_number

  pub message_for_billing_construct_failed : Text
  message_for_billing_construct_failed =
      format_billing_message (txt "請求データの組み立てに失敗したため請求を作成できませんでした。") t.external_message_id
        t.vendor_name t.billing_number

  pub message_for_billing_persist_failed : Text
  message_for_billing_persist_failed =
      format_billing_message (txt "請求の保存に失敗しました。") t.external_message_id t.vendor_name
        t.billing_number

  pub message_for_duplicate_billing : Text
  message_for_duplicate_billing =
      format_billing_message (txt "同じ請求が既に登録されているため、請求を作成しませんでした。") t.external_message_id
        t.vendor_name t.billing_number
