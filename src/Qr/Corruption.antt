-- ===== src/Qr/Corruption.antt =====
-- app/infra/qr/sgqr.py: what `verify_crc` accepts.
use instant_payment_ledger_a.Prelude.{
  ℕ, ◌≡◌, ◌≢◌, refl, sym, ◌∙◌, ◌<◌, Bool-cases, true, false, inl, inr, [], ◌∷◌, ◌++◌, length, All,
  Text, arith,
}
use instant_payment_ledger_a.Entities.Errors.{Error, ok, err, unicode_encode_error}
use instant_payment_ledger_a.Qr.Python.{text_eq}
use instant_payment_ledger_a.Qr.Checksum.{is_ascii, crc_bytes, hex, crc16_ccitt, verify_crc}
use instant_payment_ledger_a.Qr.Slices.{split_last}
use instant_payment_ledger_a.Qr.Detection.{crc_bytes-IsU16, crc_bytes_one_character, hex_inj}

is_ascii_sound : (text : Text) → is_ascii text ≡ true → All (λ c. c < 128) text
is_ascii_sound [] h = tt
is_ascii_sound (c ∷ cs) h = (ground arith, is_ascii_sound cs (ground arith))

text_eq_sound : (text text' : Text) → text_eq text text' ≡ true → text ≡ text'
text_eq_sound [] [] h = refl
text_eq_sound [] (d ∷ ds) h = ground arith
text_eq_sound (c ∷ cs) [] h = ground arith
text_eq_sound (c ∷ cs) (d ∷ ds) h = ground (arith, text_eq_sound cs ds)

-- The checksum of all but the last four characters is compared to these.
pub verify_crc_split :
    (body crc crc' : Text)
    → length crc ≡ 4
    → crc16_ccitt body ≡ ok crc'
    → verify_crc (body ++ crc) ≡ ok (text_eq crc' crc)
unfolding verify_crc
verify_crc_split body crc crc' four h =
    let (front, back) = split_last body crc four in rw (verify_crc, front) (rw h (rw back refl))

verify_crc_raises :
    (body crc : Text) {e : Error}
    → length crc ≡ 4
    → crc16_ccitt body ≡ err e
    → verify_crc (body ++ crc) ≡ err e
unfolding verify_crc
verify_crc_raises body crc four h =
    let (front, back) = split_last body crc four in rw (verify_crc, front) (rw h refl)

ascii_crc :
    (body : Text) → is_ascii body ≡ true → crc16_ccitt body ≡ ok (hex (crc_bytes 0xFFFF body))
unfolding crc16_ccitt
ascii_crc body h = rw h refl

not_ascii_crc : (body : Text) → is_ascii body ≡ false → crc16_ccitt body ≡ err unicode_encode_error
unfolding crc16_ccitt
not_ascii_crc body h = rw h refl

-- A payload that is accepted is ASCII and ends in its checksum.
accepted :
    (body crc : Text)
    → length crc ≡ 4
    → verify_crc (body ++ crc) ≡ ok true
    → All (λ c. c < 128) body × (hex (crc_bytes 0xFFFF body) ≡ crc)
accepted body crc four h = elim (Bool-cases (is_ascii body)) [
  | inl ascii ↦
      let e = verify_crc_split body crc _ four (ascii_crc body ascii) in
      (is_ascii_sound body ascii, text_eq_sound _ crc (ground arith))
  | inr beyond ↦
      let e = verify_crc_raises body crc four (not_ascii_crc body beyond) in absurd (ground arith)
]

-- If `verify_crc` accepts a payload, it does not accept the payload with one character before the
-- checksum, which has four characters, replaced by another.
pub verify_crc_one_character :
    (before after crc : Text) (b c : ℕ)
    → length crc ≡ 4
    → b ≢ c
    → verify_crc ((before ++ (b ∷ after)) ++ crc) ≡ ok true
    → verify_crc ((before ++ (c ∷ after)) ++ crc) ≢ ok true
verify_crc_one_character before after crc b c four differ h h' =
    let (small, e) = accepted (before ++ (b ∷ after)) crc four h in
    let (small', e') = accepted (before ++ (c ∷ after)) crc four h' in
    differ (
      crc_bytes_one_character 0xFFFF b c before after (omega arith) small (last_small before small')
        (hex_inj _ _ (crc_bytes-IsU16 0xFFFF _ (omega arith) small)
          (crc_bytes-IsU16 0xFFFF _ (omega arith) small') (e ∙ sym e')))
  where
    last_small : (before : Text) → All (λ c. c < 128) (before ++ (c ∷ after)) → c < 128
    last_small [] (hc, hs) = hc
    last_small (d ∷ before) (hd, hs) = last_small before hs
