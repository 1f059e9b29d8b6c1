-- ===== src/VendorResolutionStage/Messages.antt =====
-- The messages of internal/vendorresolution/application/resolution.go.
use billingrse_backend.Prelude.{◌++◌, is_empty, if◌then◌else◌}
use billingrse_backend.GoText.{Text, txt, trim_space, eq_text}
use billingrse_backend.Domain.Optional.{string_value}
use billingrse_backend.VendorResolutionStage.Types.{
  ResolutionTarget, invalid_resolution_target, vendor_resolution_failed, vendor_registration_failed,
}

-- externalMessageIDText.
pub external_message_id_text : Text → Text
external_message_id_text external_message_id =
    if is_empty (trim_space external_message_id)
    then txt "不明なメッセージ"
    else trim_space external_message_id

module _ {F : Type 0} where
  -- candidateVendorText.
  pub candidate_vendor_text : ResolutionTarget F → Text
  candidate_vendor_text target =
      let value = trim_space (string_value target.parsed_email.vendor_name) in
      if is_empty value then txt "不明" else value

  -- `%s の候補「%s」…`.
  about_candidate : ResolutionTarget F → Text → Text
  about_candidate target rest =
      external_message_id_text target.external_message_id
      ++ (txt " の候補「" ++ (candidate_vendor_text target ++ (txt "」" ++ rest)))

  -- messageForUnresolvedItem.
  pub message_for_unresolved_item : ResolutionTarget F → Text
  message_for_unresolved_item target = about_candidate target (txt "を支払先として特定できませんでした。")

  -- messageForResolutionFailure.
  pub message_for_resolution_failure : ResolutionTarget F → Text → Text
  message_for_resolution_failure target code =
      if eq_text code invalid_resolution_target
      then about_candidate target (txt "を使った支払先解決入力が不正でした。")
      else if eq_text code vendor_resolution_failed
      then about_candidate target (txt "の支払先解決に失敗しました。")
      else if eq_text code vendor_registration_failed
      then about_candidate target (txt "の支払先登録に失敗しました。")
      else external_message_id_text target.external_message_id ++ txt " の支払先解決でエラーが発生しました。"
