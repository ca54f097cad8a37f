-- ===== src/Qr/Guarantees.antt =====
-- app/infra/qr/sgqr.py: what a payload that `build_sgqr` makes is read as.
use instant_payment_ledger_a.Prelude.{
  ℕ, ◌≤◌, ◌<◌, ◌≡◌, refl, sym, ap, ◌∙◌, true, Option, none, some, [], ◌∷◌, ◌++◌, ℤ, length, All,
  All-append, Text, codes, arith, String,
}
use instant_payment_ledger_a.Entities.Errors.{ok}
use instant_payment_ledger_a.Entities.Results.{>>=_ok}
use instant_payment_ledger_a.Qr.Python.{Unicode, Fields, set_field}
use mathlib.Core.List.{append_assoc, append-nil}
use instant_payment_ledger_a.Qr.Tlv.{two_digits, parse_tlv}
use instant_payment_ledger_a.Qr.Checksum.{crc16_ccitt, verify_crc, hex, crc_bytes}
use instant_payment_ledger_a.Qr.Sgqr.{
  SgqrRequest, currency_numeric, numeric_code, join, merchant_account_info, sgqr_fields, build_sgqr,
  check_amount,
}
use instant_payment_ledger_a.Qr.RoundTrip.{encoded, entry, set_all, parse_encoded, IsField}
use instant_payment_ledger_a.Qr.Slices.{text_eq_self}
use instant_payment_ledger_a.Qr.Corruption.{verify_crc_split}
use instant_payment_ledger_a.Qr.Fields.{sgqr_items, tlvs-sgqr_items, join_ok, encoded-append, IsTag}

hex_ok : (text crc : Text) → crc16_ccitt text ≡ ok crc → crc ≡ hex (crc_bytes 0xFFFF text)
unfolding crc16_ccitt
hex_ok text crc h = ground arith

numeric_ok :
    (currency : _) (numeric : Text)
    → numeric_code currency ≡ ok numeric
    → currency_numeric currency ≡ some numeric
unfolding numeric_code
numeric_ok currency numeric h = ground arith

length-hex : (n : ℕ) → length (hex n) ≡ 4
unfolding hex
length-hex n = refl

-- What a payload is put together of.
module _ (str_amount : ℤ → Text) (request : SgqrRequest) (payload : Text) where
  record Parts : Type 0 where
    numeric : Text
    info : Text
    body : Text
    crc : Text
    numeric_is : currency_numeric request.currency ≡ some numeric
    info_is : merchant_account_info request.account_number ≡ ok info
    body_is : join (sgqr_fields str_amount request numeric info) ≡ ok body
    crc_is : crc16_ccitt (body ++ codes "6304") ≡ ok crc
    payload_is : payload ≡ (body ++ codes "6304") ++ crc

  parts : build_sgqr str_amount request ≡ ok payload → Parts
  unfolding build_sgqr
  parts h =
      let (numeric, h1, k1) = >>=_ok (numeric_code request.currency) _ h in
      let (u, h2, k2) = >>=_ok (check_amount request.amount) _ k1 in
      let (info, h3, k3) = >>=_ok (merchant_account_info request.account_number) _ k2 in
      let (body, h4, k4) = >>=_ok (join (sgqr_fields str_amount request numeric info)) _ k3 in
      let (crc, h5, k5) = >>=_ok (crc16_ccitt (body ++ codes "6304")) _ k4 in
      record {
        numeric = numeric;
        info = info;
        body = body;
        crc = crc;
        numeric_is = numeric_ok request.currency numeric h1;
        info_is = h3;
        body_is = h4;
        crc_is = h5;
        payload_is = ground (arith, k5);
      }

-- The fields of the payload, the checksum's too.
abbrev pub scanned : (ℤ → Text) → SgqrRequest → Text → Text → Text → Fields
scanned str_amount request numeric info crc =
    sgqr_items str_amount request numeric info ++ ((codes "63", crc) ∷ [])

module _ (str_amount : ℤ → Text) (account name city : Text) (currency : String) where
  abbrev the_request : Option ℤ → SgqrRequest
  the_request amount = record {
    account_number = account;
    merchant_name = name;
    merchant_city = city;
    currency = currency;
    amount = amount;
  }

  -- No two fields have the same tag.
  set_all-scanned :
      (amount : Option ℤ) (numeric info crc : Text)
      → set_all [] (scanned str_amount (the_request amount) numeric info crc)
        ≡ scanned str_amount (the_request amount) numeric info crc
  unfolding set_field
  set_all-scanned none numeric info crc = refl
  set_all-scanned (some amount) numeric info crc = refl

  sgqr_items-IsTag :
      (amount : Option ℤ) (numeric info : Text)
      → All IsTag (sgqr_items str_amount (the_request amount) numeric info)
  sgqr_items-IsTag none numeric info =
      (refl, (refl, (refl, (refl, (refl, (refl, (refl, (refl, tt))))))))
  sgqr_items-IsTag (some amount) numeric info =
      (refl, (refl, (refl, (refl, (refl, (refl, (refl, (refl, (refl, tt)))))))))

  length-scanned :
      (amount : Option ℤ) (numeric info crc : Text)
      → length (scanned str_amount (the_request amount) numeric info crc) ≤ 10
  length-scanned none numeric info crc = omega arith
  length-scanned (some amount) numeric info crc = omega arith

module _ (str_amount : ℤ → Text) (request : SgqrRequest) (payload : Text)
    (p : Parts str_amount request payload) where
  abbrev items : Fields
  items = sgqr_items str_amount request p.numeric p.info

  body_encoded : All IsField items × (p.body ≡ encoded items)
  body_encoded =
      join_ok items p.body
        (rw (sym (tlvs-sgqr_items str_amount request p.numeric p.info)) p.body_is)
        (sgqr_items-IsTag str_amount request.account_number request.merchant_name
          request.merchant_city request.currency request.amount p.numeric p.info)

  keeps_fields :
      set_all [] (scanned str_amount request p.numeric p.info p.crc)
      ≡ scanned str_amount request p.numeric p.info p.crc
  keeps_fields =
      set_all-scanned str_amount request.account_number request.merchant_name request.merchant_city
        request.currency request.amount p.numeric p.info p.crc

  ten_fields : length (scanned str_amount request p.numeric p.info p.crc) ≤ 10
  ten_fields =
      length-scanned str_amount request.account_number request.merchant_name request.merchant_city
        request.currency request.amount p.numeric p.info p.crc

  crc_four : length p.crc ≡ 4
  crc_four = ap length (hex_ok (p.body ++ codes "6304") p.crc p.crc_is) ∙ length-hex _

  scanned-IsField : All IsField (scanned str_amount request p.numeric p.info p.crc)
  scanned-IsField = All-append IsField items _ body_encoded.0 ((refl, omega (arith, crc_four)), tt)

  crc_entry : entry (codes "63") p.crc ≡ codes "6304" ++ p.crc
  unfolding two_digits
  crc_entry = rw crc_four refl

  payload_encoded : payload ≡ encoded (scanned str_amount request p.numeric p.info p.crc)
  payload_encoded =
      p.payload_is
      ∙ (append_assoc p.body (codes "6304") p.crc
          ∙ (cc (body_encoded.1, crc_entry, append-nil (entry (codes "63") p.crc))
              ∙ sym (encoded-append items ((codes "63", p.crc) ∷ []))))

module _ (str_amount : ℤ → Text) (unicode : Unicode) where
  -- The fields of the account's template are the scheme and the account number.
  parse_tlv-merchant_account_info :
      (account info : Text) (rounds : ℕ)
      → 2 < rounds
      → merchant_account_info account ≡ ok info
      → parse_tlv unicode rounds info
        ≡ some (ok ((codes "00", codes "SG.PAYNOW") ∷ (codes "01", account) ∷ []))
  unfolding parse_tlv merchant_account_info set_field
  parse_tlv-merchant_account_info account info rounds enough h =
      let fields : Fields = (codes "00", codes "SG.PAYNOW") ∷ (codes "01", account) ∷ [] in
      let (valid, e) = join_ok fields info h (refl, (refl, tt)) in
      rw e (parse_encoded unicode fields rounds [] [] valid enough)

  -- If `build_sgqr` makes a payload, then `parse_tlv`, in eleven rounds or more, reads from it the
  -- fields that the request asks for: the currency's number, the amount if there is one, the name
  -- and the city cut to 25 and 15 characters, a checksum, and the account's template, from which it
  -- reads the scheme and the account number.
  pub parse_tlv-build_sgqr :
      (request : SgqrRequest) (payload : Text) (rounds : ℕ)
      → 10 < rounds
      → build_sgqr str_amount request ≡ ok payload
      → (numeric : Text) × (info : Text) × (crc : Text) × (currency_numeric request.currency
          ≡ some numeric)
        × (parse_tlv unicode rounds payload
            ≡ some (ok (scanned str_amount request numeric info crc)))
        × (parse_tlv unicode rounds info
            ≡ some
                (ok ((codes "00", codes "SG.PAYNOW") ∷ (codes "01", request.account_number) ∷ [])))
  unfolding parse_tlv
  parse_tlv-build_sgqr request payload rounds enough h =
      let p = parts str_amount request payload h in
      (
        p.numeric,
        p.info,
        p.crc,
        p.numeric_is,
        rw (payload_encoded str_amount request payload p) (
            parse_encoded unicode (scanned str_amount request p.numeric p.info p.crc) rounds [] []
              (scanned-IsField str_amount request payload p)
              (omega (arith, ten_fields str_amount request payload p))
            ∙ ap (λ fields. some (ok fields)) (keeps_fields str_amount request payload p)),
        parse_tlv-merchant_account_info request.account_number p.info rounds (omega arith)
            p.info_is,
      )

-- `verify_crc` accepts every payload that `build_sgqr` makes.
pub verify_crc-build_sgqr :
    (str_amount : ℤ → Text) (request : SgqrRequest) (payload : Text)
    → build_sgqr str_amount request ≡ ok payload
    → verify_crc payload ≡ ok true
verify_crc-build_sgqr str_amount request payload h =
    let p = parts str_amount request payload h in
    ap verify_crc p.payload_is
    ∙ (verify_crc_split (p.body ++ codes "6304") p.crc p.crc (crc_four str_amount request payload p)
          p.crc_is
        ∙ ap ok (text_eq_self p.crc))
