-- ===== src/Api/Ingestion.antt =====
-- app/api/v1/iso20022.py and app/api/v1/qr.py: which errors end as server errors.
use instant_payment_ledger_a.Prelude.{ℤ, ◌≡◌, refl, Text}
use instant_payment_ledger_a.Entities.Errors.{
  Error, payment_currency_mismatch, account_not_found, data_error, unicode_encode_error,
}
use instant_payment_ledger_a.Database.Session.{Session}
use instant_payment_ledger_a.Database.Raises.{Raises-lift, Raises-bind, Raises-transaction}
use instant_payment_ledger_a.Payments.Raises.{get_account-Raises}
use instant_payment_ledger_a.Qr.Errors.{build_sgqr-Within}
use instant_payment_ledger_a.Api.Answers.{ServerErrorIs, endpoint-ServerErrorIs, if_ServerErrorIs}
use instant_payment_ledger_a.Api.Qr.{
  GenerateQrRequest, is_valid_qr_request, generate_qr_status, generate_qr,
}

-- Whatever others commit meanwhile, the generation of a QR code ends in a server error only for
-- text that is not ASCII.
pub generate_qr-ServerErrorIs :
    (str_amount : ℤ → Text) (body : GenerateQrRequest) (s : Session)
    → ServerErrorIs (λ e. e ≡ unicode_encode_error) (generate_qr str_amount body s).0
unfolding generate_qr generate_qr_status
generate_qr-ServerErrorIs str_amount body s = if_ServerErrorIs (is_valid_qr_request body) _ _ s (
    endpoint-ServerErrorIs 200 generate_qr_status _ (λ e. e ≡ unicode_encode_error) s
      (Raises-transaction _ (
        Raises-bind _ _ (get_account-Raises body.account_id (λ h. cc)) λ account. Raises-lift _ (
          build_sgqr-Within (λ c h. cc) (λ x h. cc) (λ tag value h. cc) (λ h. refl) str_amount _))))

-- The errors of `initiate_payment` that the handler does not catch.
abbrev pub IsIngestError : Error → Type 0
IsIngestError (payment_currency_mismatch c d) = Unit
IsIngestError (account_not_found i) = Unit
IsIngestError data_error = Unit
IsIngestError e = ⊥
