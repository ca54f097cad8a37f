-- ===== src/Qr/Detection.antt =====
-- app/infra/qr/sgqr.py: the checksum of a text tells which register it was made from.
use Prim.Native.Nat.{bit_xor}
use instant_payment_ledger_a.Prelude.{
  ℕ, zero, suc, ◌*◌, ◌/◌, ◌%◌, ◌^◌, ◌≤◌, ◌<◌, ◌≡◌, refl, ap, ◌∙◌, ◌⊎◌, inl, inr, [], ◌∷◌, ◌++◌, All,
  Text, arith,
}
use instant_payment_ledger_a.Qr.Checksum.{
  crc_round, crc_rounds, crc_byte, crc_bytes, hex_digit, hex,
}
use instant_payment_ledger_a.Qr.Xor.{low_digit, same_left, same_right, high_digits, top_digit}

-- What a round does to a register of 16 bits.
round_cases :
    (crc : ℕ)
    → crc < 2 ^ 16
    → ((crc < 2 ^ 15) × (crc_round crc ≡ crc * 2))
      ⊎ ((2 ^ 15 ≤ crc) × (crc_round crc ≡ bit_xor (crc * 2) 0x1021 % 2 ^ 16))
unfolding crc_round
round_cases crc h = ground (arith, top_digit 15 crc h)

crc_round-IsU16 : (crc : ℕ) → crc_round crc < 2 ^ 16
unfolding crc_round
crc_round-IsU16 crc = ground arith

carry : (x : ℕ) → 2 ^ 15 ≤ x → x < 2 ^ 16 → bit_xor (x * 2) 0x1021 / 2 ^ 16 ≡ 1
carry x low high =
    high_digits 16 (x * 2) 0x1021 ∙ ap (λ n. bit_xor n 0) (one (x * 2) (omega arith) (omega arith))
  where
    one : (n : ℕ) → 2 ^ 16 ≤ n → n < 2 ^ 17 → n / 2 ^ 16 ≡ 1
    one n low high = omega arith

-- The digit that a round shifts out is still known from the lowest one.
crc_round_inj : (x y : ℕ) → x < 2 ^ 16 → y < 2 ^ 16 → crc_round x ≡ crc_round y → x ≡ y
crc_round_inj x y hx hy e = elim (round_cases x hx) [
  | inl (lx, ex) ↦ elim (round_cases y hy) [
    | inl (ly, ey) ↦ omega arith
    | inr (ly, ey) ↦ absurd (omega (arith, low_digit (y * 2) 0x1021))
  ]
  | inr (lx, ex) ↦ elim (round_cases y hy) [
    | inl (ly, ey) ↦ absurd (omega (arith, low_digit (x * 2) 0x1021))
    | inr (ly, ey) ↦
        let same =
          same_right (x * 2) (y * 2) 0x1021 (omega (arith, carry x lx hx, carry y ly hy)) in
        omega (arith, same)
  ]
]

crc_rounds-IsU16 : (n crc : ℕ) → crc < 2 ^ 16 → crc_rounds n crc < 2 ^ 16
unfolding crc_rounds
crc_rounds-IsU16 zero crc h = h
crc_rounds-IsU16 (suc n) crc h = crc_rounds-IsU16 n (crc_round crc) (crc_round-IsU16 crc)

crc_rounds_inj : (n x y : ℕ) → x < 2 ^ 16 → y < 2 ^ 16 → crc_rounds n x ≡ crc_rounds n y → x ≡ y
unfolding crc_rounds
crc_rounds_inj zero x y hx hy e = e
crc_rounds_inj (suc n) x y hx hy e =
    crc_round_inj x y hx hy
      (crc_rounds_inj n (crc_round x) (crc_round y) (crc_round-IsU16 x) (crc_round-IsU16 y) e)

-- A byte that is not above 127 keeps within the register.
taken_in : (crc byte : ℕ) → crc < 2 ^ 16 → byte < 128 → bit_xor crc (byte * 2 ^ 8) < 2 ^ 16
taken_in crc byte h small =
    let high = high_digits 16 crc (byte * 2 ^ 8) in
    let none_left = cong (crc / 2 ^ 16) (byte * 2 ^ 8 / 2 ^ 16) (omega arith) (omega arith) in
    omega (arith, high, none_left)
  where
    cong : (m n : ℕ) → m ≡ 0 → n ≡ 0 → bit_xor m n ≡ 0
    cong m n hm hn = rw hm (rw hn refl)

module _ (byte : ℕ) (small : byte < 128) where
  crc_byte-IsU16 : (crc : ℕ) → crc < 2 ^ 16 → crc_byte crc byte < 2 ^ 16
  unfolding crc_byte
  crc_byte-IsU16 crc h = crc_rounds-IsU16 8 _ (taken_in crc byte h small)

  crc_byte_inj : (x y : ℕ) → x < 2 ^ 16 → y < 2 ^ 16 → crc_byte x byte ≡ crc_byte y byte → x ≡ y
  unfolding crc_byte
  crc_byte_inj x y hx hy e =
      same_right x y (byte * 2 ^ 8)
        (crc_rounds_inj 8 _ _ (taken_in x byte hx small) (taken_in y byte hy small) e)

crc_byte_inj_byte :
    (crc b c : ℕ) → crc < 2 ^ 16 → b < 128 → c < 128 → crc_byte crc b ≡ crc_byte crc c → b ≡ c
unfolding crc_byte
crc_byte_inj_byte crc b c h hb hc e = omega (
  arith,
  same_left (b * 2 ^ 8) (c * 2 ^ 8) crc
      (crc_rounds_inj 8 _ _ (taken_in crc b h hb) (taken_in crc c h hc) e),
)

pub crc_bytes-IsU16 :
    (crc : ℕ) (text : Text) → crc < 2 ^ 16 → All (λ c. c < 128) text → crc_bytes crc text < 2 ^ 16
unfolding crc_bytes
crc_bytes-IsU16 crc [] h small = h
crc_bytes-IsU16 crc (byte ∷ text) h (hb, small) =
    crc_bytes-IsU16 (crc_byte crc byte) text (crc_byte-IsU16 byte hb crc h) small

crc_bytes_inj :
    (x y : ℕ) (text : Text)
    → x < 2 ^ 16
    → y < 2 ^ 16
    → All (λ c. c < 128) text
    → crc_bytes x text ≡ crc_bytes y text
    → x ≡ y
unfolding crc_bytes
crc_bytes_inj x y [] hx hy small e = e
crc_bytes_inj x y (byte ∷ text) hx hy (hb, small) e = crc_byte_inj byte hb x y hx hy (
    crc_bytes_inj (crc_byte x byte) (crc_byte y byte) text (crc_byte-IsU16 byte hb x hx)
      (crc_byte-IsU16 byte hb y hy) small e)

-- Two texts that differ in one character leave the register different.
pub crc_bytes_one_character :
    (crc b c : ℕ) (before after : Text)
    → crc < 2 ^ 16
    → All (λ c. c < 128) (before ++ (b ∷ after))
    → c < 128
    → crc_bytes crc (before ++ (b ∷ after)) ≡ crc_bytes crc (before ++ (c ∷ after))
    → b ≡ c
unfolding crc_bytes
crc_bytes_one_character crc b c [] after h (hb, small) hc e = crc_byte_inj_byte crc b c h hb hc (
    crc_bytes_inj (crc_byte crc b) (crc_byte crc c) after (crc_byte-IsU16 b hb crc h)
      (crc_byte-IsU16 c hc crc h) small e)
crc_bytes_one_character crc b c (d ∷ before) after h (hd, small) hc e =
    crc_bytes_one_character (crc_byte crc d) b c before after (crc_byte-IsU16 d hd crc h) small hc e

hex_digit_inj : (m n : ℕ) → m < 16 → n < 16 → hex_digit m ≡ hex_digit n → m ≡ n
unfolding hex_digit
hex_digit_inj m n hm hn e = ground arith

pub hex_inj : (m n : ℕ) → m < 2 ^ 16 → n < 2 ^ 16 → hex m ≡ hex n → m ≡ n
unfolding hex
hex_inj m n hm hn e = ground (
  arith,
  hex_digit_inj (m / 2 ^ 12) (n / 2 ^ 12),
  hex_digit_inj (m / 2 ^ 8 % 16) (n / 2 ^ 8 % 16),
  hex_digit_inj (m / 2 ^ 4 % 16) (n / 2 ^ 4 % 16),
  hex_digit_inj (m % 16) (n % 16),
)
