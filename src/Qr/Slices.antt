-- ===== src/Qr/Slices.antt =====
-- Slices of a text that is put together of known pieces, and the number that two digits stand for.
use instant_payment_ledger_a.Prelude.{
  ℕ, ◌+◌, ◌-◌, ◌/◌, ◌%◌, ◌≤◌, ◌<◌, ◌≡◌, refl, ap, sym, ◌∙◌, true, false, some, [], ◌∷◌, ◌++◌, pos,
  negsuc, length, length-append, take, drop, drop-append, take-append, Text, arith,
}
use instant_payment_ledger_a.Entities.Errors.{ok}
use instant_payment_ledger_a.Qr.Python.{Unicode, clamp, slice, digit_value, is_space, int, text_eq}
use instant_payment_ledger_a.Qr.Tlv.{two_digits}
use mathlib.Core.List.{append-nil}

clamp_le : (n i : ℕ) → i ≤ n → clamp n (pos i) ≡ i
unfolding clamp
clamp_le n i h = ground arith

-- `slice` between two indices within the text.
slice_within :
    (text : Text) (m n : ℕ)
    → m ≤ length text
    → n ≤ length text
    → slice text (pos m) (pos n) ≡ take (n - m) (drop m text)
unfolding slice
slice_within text m n hm hn =
    rw (clamp_le (length text) m hm) (rw (clamp_le (length text) n hn) refl)

take-drop :
    (k m : ℕ) (xs ys zs : Text)
    → k ≡ length ys
    → m ≡ length xs
    → take k (drop m (xs ++ (ys ++ zs))) ≡ ys
take-drop k m xs ys zs hk hm = rw hk (rw hm (rw (drop-append xs (ys ++ zs)) (take-append ys zs)))

pub slice_middle :
    (xs ys zs : Text) (m n : ℕ)
    → m ≡ length xs
    → n ≡ length xs + length ys
    → slice (xs ++ (ys ++ zs)) (pos m) (pos n) ≡ ys
slice_middle xs ys zs m n hm hn =
    slice_within (xs ++ (ys ++ zs)) m n
      (omega (arith, length-append xs (ys ++ zs), length-append ys zs))
      (omega (arith, length-append xs (ys ++ zs), length-append ys zs))
    ∙ take-drop (n - m) m xs ys zs (omega arith) hm

-- The last piece, up to the end.
pub slice_end :
    (xs ys : Text) (n : ℕ)
    → n ≡ length xs + length ys
    → slice (xs ++ ys) (pos (length xs)) (pos n) ≡ ys
slice_end xs ys n h =
    ap (λ zs. slice (xs ++ zs) (pos (length xs)) (pos n)) (sym (append-nil ys))
    ∙ slice_middle xs ys [] (length xs) n refl h

digit : (unicode : Unicode) (d : ℕ) → d < 10 → digit_value unicode (48 + d) ≡ some d
unfolding digit_value
digit unicode d h = ground arith

no_space : (unicode : Unicode) (d : ℕ) → d < 10 → is_space unicode (48 + d) ≡ false
unfolding is_space
no_space unicode d h = ground arith

pub int-two_digits : (unicode : Unicode) (n : ℕ) → n ≤ 99 → int unicode (two_digits n) ≡ ok (pos n)
unfolding int two_digits
int-two_digits unicode n h = ground (
  arith,
  digit unicode (n / 10),
  digit unicode (n % 10),
  no_space unicode (n / 10),
  no_space unicode (n % 10),
)

from_end : (m n : ℕ) → n ≡ m + 4 → clamp n (negsuc 3) ≡ clamp n (pos m)
unfolding clamp
from_end m n h = ground arith

-- `text[:-4]` and `text[-4:]` of a text that ends with four known characters.
pub split_last :
    (xs ys : Text)
    → length ys ≡ 4
    → (slice (xs ++ ys) (pos 0) (negsuc 3) ≡ xs)
      × (slice (xs ++ ys) (negsuc 3) (pos (length (xs ++ ys))) ≡ ys)
unfolding slice
split_last xs ys h =
    let size : length (xs ++ ys) ≡ length xs + 4 = omega (arith, length-append xs ys) in
    let cut = from_end (length xs) (length (xs ++ ys)) size in
    (
      rw cut (slice_middle [] xs ys 0 (length xs) refl (omega arith)),
      rw cut (slice_end xs ys (length (xs ++ ys)) (length-append xs ys)),
    )

pub text_eq_self : (text : Text) → text_eq text text ≡ true
text_eq_self [] = refl
text_eq_self (c ∷ cs) = ground (arith, text_eq_self cs)
