-- ===== src/External/Hex.antt =====
-- Go's package encoding/hex, as far as the program uses it: bytes in lower-case hexadecimal digits.
use marginpilot.Base.{
  ℕ, ◌+◌, ◌-◌, ◌*◌, ◌/◌, ◌%◌, ◌<◌, Text, [], ◌∷◌, All, length, ltb, if◌then◌else◌, ◌≡◌, refl, arith,
}

digit : ℕ → ℕ
digit n = if ltb n 10 then b'0' + n else b'a' + (n - 10)

-- `hex.EncodeToString`
unfoldable pub encode : Text → Text
unfolding digit
encode [] = []
encode (b ∷ bs) = digit (b / 16) ∷ digit (b % 16) ∷ encode bs

abbrev pub IsByte : ℕ → Type 0
IsByte b = b < 256

-- Two digits for each byte.
pub length-encode : (bs : Text) → length (encode bs) ≡ 2 * length bs
unfolding encode
length-encode [] = refl
length-encode (b ∷ bs) = omega (arith, length-encode bs)

digit-injective : (m n : ℕ) → m < 16 → n < 16 → digit m ≡ digit n → m ≡ n
unfolding digit
digit-injective m n hm hn e = ground arith

-- No two texts of bytes have the same digits.
pub encode-injective : (s t : Text) → All IsByte s → All IsByte t → encode s ≡ encode t → s ≡ t
unfolding encode
encode-injective [] [] hs ht e = refl
encode-injective [] (c ∷ t) hs ht e = ground arith
encode-injective (b ∷ s) [] hs ht e = ground arith
encode-injective (b ∷ s) (c ∷ t) (hb, hs) (hc, ht) e = ground (
  arith,
  digit-injective (b / 16) (c / 16),
  digit-injective (b % 16) (c % 16),
  encode-injective s t hs ht,
)
