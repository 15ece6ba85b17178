-- ===== src/Crypto/Challenge.antt =====
-- What `genChallenge` returns.
use net_chat.Prelude.{
  ℕ, zero, suc, ◌+◌, ◌%◌, ◌^◌, ◌<◌, ◌≡◌, refl, ◌∙◌, [], ◌∷◌, ◌++◌, leb, ◌&&◌, ◌||◌, Str, length,
  length-snoc, arith, Bool, true,
}
use net_chat.Crypto.{charset, charset_size, char_at, challenge_loop, gen_challenge, AllOf}

-- An ASCII letter or digit, written on its own.
unfoldable pub is_alphanumeric : ℕ → Bool
is_alphanumeric c = leb b'0' c && leb c b'9' || leb b'a' c && leb c b'z' || leb b'A' c && leb c b'Z'

abbrev pub IsAlphanumeric : ℕ → Type 0
IsAlphanumeric c = is_alphanumeric c ≡ true

char_at-AllOf : (P : ℕ → Type 0) (s : Str) (i : ℕ) → AllOf P s → i < length s → P (char_at s i)
unfolding char_at
char_at-AllOf P [] i h lt = absurd (omega arith)
char_at-AllOf P (c ∷ cs) zero h lt = h.0
char_at-AllOf P (c ∷ cs) (suc i) h lt = char_at-AllOf P cs i h.1 (omega arith)

all_alphanumeric : Str → Bool
all_alphanumeric [] = true
all_alphanumeric (c ∷ cs) = is_alphanumeric c && all_alphanumeric cs

all_alphanumeric-AllOf : (s : Str) → all_alphanumeric s ≡ true → AllOf IsAlphanumeric s
unfolding all_alphanumeric
all_alphanumeric-AllOf [] h = tt
all_alphanumeric-AllOf (c ∷ cs) h = ground (arith, all_alphanumeric-AllOf cs)

charset-AllOf : AllOf IsAlphanumeric charset
charset-AllOf =
    all_alphanumeric-AllOf charset (unfold charset is_alphanumeric all_alphanumeric in refl)

in_charset : (n : ℕ) → n % charset_size < length charset
unfolding charset_size
in_charset n = omega arith

AllOf-snoc : (P : ℕ → Type 0) (s : Str) (c : ℕ) → AllOf P s → P c → AllOf P (s ++ c ∷ [])
AllOf-snoc P [] c h p = (p, tt)
AllOf-snoc P (x ∷ xs) c h p = (h.0, AllOf-snoc P xs c h.1 p)

challenge_loop-length :
    (rand : ℕ → ℕ) (left i : ℕ) (s : Str) → length (challenge_loop rand left i s) ≡ length s + left
unfolding challenge_loop
challenge_loop-length rand zero i s = omega arith
challenge_loop-length rand (suc left) i s =
    challenge_loop-length rand left (i + 1) _
    ∙ omega (arith, length-snoc {0} s (char_at charset (rand i % charset_size)))

challenge_loop-AllOf :
    (rand : ℕ → ℕ) (left i : ℕ) (s : Str)
    → AllOf IsAlphanumeric s
    → AllOf IsAlphanumeric (challenge_loop rand left i s)
unfolding challenge_loop
challenge_loop-AllOf rand zero i s h = h
challenge_loop-AllOf rand (suc left) i s h = challenge_loop-AllOf rand left (i + 1) _ (
    AllOf-snoc IsAlphanumeric s _ h
      (char_at-AllOf IsAlphanumeric charset _ charset-AllOf (in_charset (rand i))))

-- A challenge has 32 characters, all of them letters or digits, whatever `rand` and the clock
-- give: no index leaves the charset.
pub gen_challenge_lem :
    (rand : ℕ → ℕ → ℕ) (seconds : ℕ)
    → (length (gen_challenge rand seconds) ≡ 32) × AllOf IsAlphanumeric (gen_challenge rand seconds)
unfolding gen_challenge
gen_challenge_lem rand seconds =
    let next = rand (seconds % 2 ^ 32) in
    (challenge_loop-length next 32 0 [], challenge_loop-AllOf next 32 0 [] tt)
