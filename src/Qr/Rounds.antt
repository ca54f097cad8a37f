-- ===== src/Qr/Rounds.antt =====
-- app/infra/qr/sgqr.py: how long the loop of `parse_tlv` runs.
use instant_payment_ledger_a.Prelude.{
  ℕ, zero, suc, ◌+◌, ◌≤◌, ◌<◌, ◌≡◌, ◌≢◌, refl, ap, ◌∙◌, Bool, true, false, if◌then◌else◌, take,
  drop, Option, none, some, [], ◌∷◌, ℤ, pos, negsuc, ◌+ℤ◌, +ℤ_pos, ltb_ℤ, length, codes, All, Text,
  arith, Bool-cases, inl, inr, int_laws,
}
use instant_payment_ledger_a.Entities.Errors.{Result, ok, err}
use instant_payment_ledger_a.Qr.Python.{
  Unicode, slice, is_space, digit_value, lstrip, rstrip, keep_unless_last, digits, or_error,
  signed_int, int, Fields, set_field,
}
use instant_payment_ledger_a.Entities.Results.{Result-cases}
use instant_payment_ledger_a.Qr.Tlv.{parse_from, parse_tlv}
use instant_payment_ledger_a.Qr.RoundTrip.{piece, one_round, last_round}

-- The text holds no minus sign.
abbrev pub NoMinus : Text → Type 0
NoMinus text = All (λ c. c ≢ b'-') text

if_NoMinus : (b : Bool) (xs ys : Text) → NoMinus xs → NoMinus ys → NoMinus (if b then xs else ys)
if_NoMinus true xs ys hx hy = hx
if_NoMinus false xs ys hx hy = hy

take-NoMinus : (n : ℕ) (xs : Text) → NoMinus xs → NoMinus (take n xs)
take-NoMinus zero xs h = tt
take-NoMinus (suc n) [] h = tt
take-NoMinus (suc n) (x ∷ xs) (h, hs) = (h, take-NoMinus n xs hs)

drop-NoMinus : (n : ℕ) (xs : Text) → NoMinus xs → NoMinus (drop n xs)
drop-NoMinus zero xs h = h
drop-NoMinus (suc n) [] h = tt
drop-NoMinus (suc n) (x ∷ xs) (h, hs) = drop-NoMinus n xs hs

slice-NoMinus : (text : Text) (i j : ℤ) → NoMinus text → NoMinus (slice text i j)
unfolding slice
slice-NoMinus text i j h = take-NoMinus _ _ (drop-NoMinus _ text h)

keep_unless_last-NoMinus :
    (unicode : Unicode) (b : Bool) (c : ℕ) (cs : Text)
    → c ≢ b'-'
    → NoMinus cs
    → NoMinus (keep_unless_last unicode b c cs)
keep_unless_last-NoMinus unicode true c [] h hs = tt
keep_unless_last-NoMinus unicode true c (d ∷ cs) h hs = (h, hs)
keep_unless_last-NoMinus unicode false c cs h hs = (h, hs)

or_error-pos : (unicode : Unicode) (o : Option ℕ) (n : ℕ) → or_error unicode pos o ≢ ok (negsuc n)
or_error-pos unicode none n e = ground (arith, e)
or_error-pos unicode (some m) n e = ground (arith, e)

goes_on : (n k : ℕ) → pos n +ℤ (pos 4 +ℤ pos k) ≡ pos (n + (4 + k))
goes_on n k = ap (λ i. pos n +ℤ i) (+ℤ_pos 4 k) ∙ +ℤ_pos n (4 + k)

stays : pos 0 +ℤ (pos 4 +ℤ negsuc 3) ≡ pos 0
stays = omega int_laws

module _ (unicode : Unicode) where
  lstrip-NoMinus : (text : Text) → NoMinus text → NoMinus (lstrip unicode text)
  lstrip-NoMinus [] h = tt
  lstrip-NoMinus (c ∷ cs) (h, hs) =
      if_NoMinus (is_space unicode c) _ (c ∷ cs) (lstrip-NoMinus cs hs) (h, hs)

  rstrip-NoMinus : (text : Text) → NoMinus text → NoMinus (rstrip unicode text)
  rstrip-NoMinus [] h = tt
  rstrip-NoMinus (c ∷ cs) (h, hs) =
      keep_unless_last-NoMinus unicode (is_space unicode c) c _ h (rstrip-NoMinus cs hs)

  signed_int-not_negative :
      (text : Text) (n : ℕ) → NoMinus text → signed_int unicode text ≢ ok (negsuc n)
  signed_int-not_negative [] n h e = ground (arith, e)
  signed_int-not_negative (c ∷ cs) n (h, hs) e = ground (
    arith,
    or_error-pos unicode (digits unicode false 0 cs) n,
    or_error-pos unicode (digits unicode false 0 (c ∷ cs)) n,
  )

  -- Without a minus sign `int` gives no negative number.
  int-not_negative : (text : Text) (n : ℕ) → NoMinus text → int unicode text ≢ ok (negsuc n)
  unfolding int
  int-not_negative text n h e =
      signed_int-not_negative (rstrip unicode (lstrip unicode text)) n
        (rstrip-NoMinus _ (lstrip-NoMinus text h)) e

  raises_at_once :
      (rounds : ℕ) (payload : Text) (i : ℤ) (fields : Fields) {e : _}
      → ltb_ℤ i (pos (length payload)) ≡ true
      → int unicode (slice payload (i +ℤ pos 2) (i +ℤ pos 4)) ≡ err e
      → parse_from unicode (suc rounds) payload i fields ≡ some (err e)
  unfolding parse_from
  raises_at_once rounds payload i fields more h = rw more (rw h refl)

  next_round :
      (rounds n k : ℕ) (payload : Text) (fields : Fields)
      → ltb_ℤ (pos n) (pos (length payload)) ≡ true
      → int unicode (slice payload (pos n +ℤ pos 2) (pos n +ℤ pos 4)) ≡ ok (pos k)
      → parse_from unicode (suc rounds) payload (pos n) fields
        ≡ parse_from unicode rounds payload (pos (n + (4 + k))) (
            set_field
              (slice payload (pos n) (pos n +ℤ pos 2))
              (slice payload (pos n +ℤ pos 4) (pos n +ℤ pos 4 +ℤ pos k))
              fields)
  next_round rounds n k payload fields more number =
      one_round unicode rounds payload (pos n) (pos k) _ fields more number (goes_on n k)

  -- Each round goes on by four characters at least.
  parse_from_ends :
      (rounds n : ℕ) (payload : Text) (fields : Fields)
      → NoMinus payload
      → length payload < suc rounds + n
      → (result : Result Fields) × (parse_from unicode (suc rounds) payload (pos n) fields
          ≡ some result)
  parse_from_ends zero n payload fields h enough =
      (ok fields, last_round unicode zero payload (pos n) fields (ground arith))
  parse_from_ends (suc rounds) n payload fields h enough =
      elim (Bool-cases (ltb_ℤ (pos n) (pos (length payload)))) [
        | inr done ↦ (ok fields, last_round unicode (suc rounds) payload (pos n) fields done)
        | inl more ↦
            elim (Result-cases (int unicode (slice payload (pos n +ℤ pos 2) (pos n +ℤ pos 4)))) [
              | inl (e, number) ↦
                  (err e, raises_at_once (suc rounds) payload (pos n) fields more number)
              | inr (negsuc k, number) ↦
                  absurd (int-not_negative _ k (slice-NoMinus payload _ _ h) number)
              | inr (pos k, number) ↦
                  let (result, e) =
                    parse_from_ends rounds (n + (4 + k)) payload _ h (omega arith) in
                  (result, next_round (suc rounds) n k payload fields more number ∙ e)
            ]
      ]

  -- On a payload without a minus sign the loop of `parse_tlv` ends after at most one round more
  -- than the payload has characters, with the fields or an error, whatever the digits and spaces
  -- beyond ASCII are.
  pub parse_tlv_ends :
      (payload : Text) (rounds : ℕ)
      → NoMinus payload
      → length payload ≤ rounds
      → (result : Result Fields) × (parse_tlv unicode (suc rounds) payload ≡ some result)
  unfolding parse_tlv
  parse_tlv_ends payload rounds h enough = parse_from_ends rounds 0 payload [] h (omega arith)

  module _ (a b : ℕ) (rest : Text) where
    abbrev minus_four : Text
    minus_four = a ∷ b ∷ b'-' ∷ b'4' ∷ rest

    reads_minus_four :
        int unicode (slice minus_four (pos 0 +ℤ pos 2) (pos 0 +ℤ pos 4)) ≡ ok (negsuc 3)
    unfolding int is_space digit_value
    reads_minus_four =
        ap (int unicode)
          (piece minus_four (a ∷ b ∷ []) (codes "-4") rest (+ℤ_pos 0 2) (+ℤ_pos 0 4) refl)

    parse_from_endless :
        (rounds : ℕ) (fields : Fields) → parse_from unicode rounds minus_four (pos 0) fields ≡ none
    unfolding parse_from
    parse_from_endless zero fields = refl
    parse_from_endless (suc rounds) fields =
        one_round unicode rounds minus_four (pos 0) (negsuc 3) _ fields (ground arith)
          reads_minus_four stays
        ∙ parse_from_endless rounds _

  -- On a payload that starts with two characters and then the length `-4` the loop of `parse_tlv`
  -- never ends: no number of rounds is enough.
  pub parse_tlv_endless :
      (a b : ℕ) (rest : Text) (rounds : ℕ)
      → parse_tlv unicode rounds (a ∷ b ∷ b'-' ∷ b'4' ∷ rest) ≡ none
  unfolding parse_tlv
  parse_tlv_endless a b rest rounds = parse_from_endless a b rest rounds []
