-- ===== src/Crypto/Hex.antt =====
-- `bytesToHexString` loses nothing.
use net_chat.Prelude.{
  ℕ, ◌+◌, ◌-◌, ◌*◌, ◌/◌, ◌%◌, ◌<◌, ◌≤◌, ◌≡◌, ◌⊎◌, refl, ap, List, [], ◌∷◌, ltb, if◌then◌else◌, Str,
  length, arith, some, true, c_str,
}
use net_chat.Exec.{ok}
use net_chat.Crypto.{hex_digit, bytes_to_hex_string, Libsodium, sha256, AllOf}

digit_value : ℕ → ℕ
digit_value c = if ltb c 97 then c - 48 else c - 87

-- A reader of hex text, written on its own.
unfoldable pub read_hex : Str → List ℕ
unfolding digit_value
read_hex (a ∷ b ∷ rest) = (digit_value a * 16 + digit_value b) ∷ read_hex rest
read_hex _ = []

abbrev pub IsByte : ℕ → Type 0
IsByte b = b < 256

digit_value-hex_digit : (d : ℕ) → d < 16 → digit_value (hex_digit d) ≡ d
unfolding digit_value hex_digit
digit_value-hex_digit d h = ground arith

-- A reader of hex text, written on its own, gives back the bytes that bytesToHexString was
-- given, if each is below 256.
pub read_hex-bytes_to_hex_string :
    (bs : List ℕ) → AllOf IsByte bs → read_hex (bytes_to_hex_string bs) ≡ bs
unfolding read_hex bytes_to_hex_string
read_hex-bytes_to_hex_string [] h = refl
read_hex-bytes_to_hex_string (b ∷ bs) h =
    rw (digit_value-hex_digit (b / 16) (omega arith), digit_value-hex_digit (b % 16) (omega arith))
      (rw (read_hex-bytes_to_hex_string bs h.1) (ap (λ x. x ∷ bs) (omega arith)))

length-bytes_to_hex_string : (bs : List ℕ) → length (bytes_to_hex_string bs) ≡ 2 * length bs
unfolding bytes_to_hex_string
length-bytes_to_hex_string [] = refl
length-bytes_to_hex_string (b ∷ bs) = omega (arith, length-bytes_to_hex_string bs)

-- A digit, or a letter from a to f.
abbrev pub IsHex : ℕ → Type 0
IsHex c = ((48 ≤ c) × (c ≤ 57)) ⊎ ((97 ≤ c) × (c ≤ 102))

hex_digit-IsHex : (d : ℕ) → d < 16 → IsHex (hex_digit d)
unfolding hex_digit
hex_digit-IsHex d h = ground arith

bytes_to_hex_string-IsHex : (bs : List ℕ) → AllOf IsByte bs → AllOf IsHex (bytes_to_hex_string bs)
unfolding bytes_to_hex_string hex_digit
bytes_to_hex_string-IsHex [] h = tt
bytes_to_hex_string-IsHex (b ∷ bs) h = (
  hex_digit-IsHex (b / 16) (omega arith),
  (hex_digit-IsHex (b % 16) (omega arith), bytes_to_hex_string-IsHex bs h.1),
)

-- Hex text goes through a C string unharmed.
pub c_str-IsHex : (s : Str) → AllOf IsHex s → c_str s ≡ s
unfolding c_str
c_str-IsHex [] h = refl
c_str-IsHex (c ∷ cs) h = ground (arith, c_str-IsHex cs h.1)

-- A digest is the text of 64 hex digits.
pub sha256_lem :
    (sodium : Libsodium) (s : Str) (d : List ℕ)
    → sodium.initializes ≡ true
    → sodium.crypto_hash_sha256 s ≡ some d
    → (sha256 sodium s ≡ ok (bytes_to_hex_string d))
      × (length (bytes_to_hex_string d) ≡ 64)
      × AllOf IsHex (bytes_to_hex_string d)
      × (read_hex (bytes_to_hex_string d) ≡ d)
unfolding sha256
sha256_lem sodium s d starts e =
    let (size, bytes) = sodium.digest_bytes s d e in
    (
      rw (starts, e),
      omega (arith, length-bytes_to_hex_string d, size),
      bytes_to_hex_string-IsHex d bytes,
      read_hex-bytes_to_hex_string d bytes,
    )
