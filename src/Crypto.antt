-- ===== src/Crypto.antt =====
-- include/utils/crypto.h: hex digits, challenges and SHA-256 digests. libsodium and the generator
-- behind `rand` are parameters.
pub mod Hex
pub mod Challenge
use net_chat.Prelude.{
  ℕ, zero, suc, ◌+◌, ◌/◌, ◌%◌, ◌<◌, ◌^◌, ◌≡◌, List, [], ◌∷◌, ◌++◌, Option, none, some, Bool, true,
  false, ltb, if◌then◌else◌, Str, codes, length,
}
use net_chat.Exec.{Result, ok, aborted}

-- One digit of `sprintf("%02x", …)`.
unfoldable pub hex_digit : ℕ → ℕ
hex_digit d = if ltb d 10 then 48 + d else 87 + d

-- bytesToHexString
unfoldable pub bytes_to_hex_string : List ℕ → Str
unfolding hex_digit
bytes_to_hex_string [] = []
bytes_to_hex_string (b ∷ bs) = hex_digit (b / 16) ∷ hex_digit (b % 16) ∷ bytes_to_hex_string bs

unfoldable pub charset : Str
charset = codes "0123456789abcdefghijklmnopqrstuvwxyzABCDEFGHIJKLMNOPQRSTUVWXYZ"

unfoldable pub charset_size : ℕ
unfolding charset
charset_size = length charset

-- kChallengeSize of include/base.h
abbrev pub challenge_size : ℕ
challenge_size = 32

char_at : Str → ℕ → ℕ
char_at [] i = 0
char_at (c ∷ cs) zero = c
char_at (c ∷ cs) (suc i) = char_at cs i

-- The loop of `genChallenge`, with the rounds left and the next value of `rand`.
unfoldable pub challenge_loop : (ℕ → ℕ) → ℕ → ℕ → Str → Str
unfolding char_at charset charset_size
challenge_loop rand zero i text = text
challenge_loop rand (suc left) i text =
    challenge_loop rand left (i + 1) (text ++ char_at charset (rand i % charset_size) ∷ [])

-- genChallenge: `rand seed i` is the i-th value that `rand` gives after `srand(seed)`.
unfoldable pub gen_challenge : (ℕ → ℕ → ℕ) → ℕ → Str
unfolding challenge_loop
gen_challenge rand seconds = challenge_loop (rand (seconds % 2 ^ 32)) challenge_size 0 []

-- Every entry passes a test.
abbrev pub AllOf : (ℕ → Type 0) → List ℕ → Type 0
AllOf P [] = Unit {0}
AllOf P (x ∷ xs) = P x × AllOf P xs

-- libsodium: whether `sodium_init` succeeds, and `crypto_hash_sha256` (none is a non-zero return).
pub record Libsodium : Type 0 where
  pub initializes : Bool
  pub crypto_hash_sha256 : Str → Option (List ℕ)
  pub digest_bytes :
      (s : Str) (d : List ℕ)
      → crypto_hash_sha256 s ≡ some d
      → (length d ≡ 32) × AllOf (λ b. b < 256) d

digest_text : Option (List ℕ) → Str
unfolding bytes_to_hex_string
digest_text none = []
digest_text (some d) = bytes_to_hex_string d

-- SHA256: a library that does not start is a FATAL log entry.
unfoldable pub sha256 : Libsodium → Str → Result Str
unfolding digest_text
sha256 sodium s =
    if sodium.initializes then ok (digest_text (sodium.crypto_hash_sha256 s)) else aborted
