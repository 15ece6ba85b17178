-- ===== src/Exec.antt =====
-- Code that changes a state and may leave by an exception, or end the process: a call of
-- std::terminate (an exception that escapes a `noexcept` function) or a FATAL log entry, after which
-- easylogging++ aborts.

pub mod Returns
pub mod Inversion
pub mod Preserves

pub data Result {ℓ} (A : Type ℓ) : Type ℓ where
  ok : A → Result A
  threw : Result A
  aborted : Result A

-- What was written before the throw stays written, so the state comes back in every case.
abbrev pub Exec {ℓ κ} : Type ℓ → Type κ → Type (ℓ ⊔ κ)
Exec S A = S → Result A × S

-- A `noexcept` function: an exception that gets here ends the process.
abbrev stop {ℓ} : {A : Type ℓ} → Result A → Result A
stop (ok a) = ok a
stop threw = aborted
stop aborted = aborted

module _ {ℓ κ} {S : Type ℓ} {A : Type κ} where
  abbrev pub pure : A → Exec S A
  pure a s = (ok a, s)

  abbrev pub throw : Exec S A
  throw s = (threw, s)

  abbrev pub abort : Exec S A
  abort s = (aborted, s)

  -- `try { m } catch (const std::exception &) { h }`
  abbrev recover : Result A → Exec S A → Exec S A
  recover (ok a) h s = (ok a, s)
  recover threw h s = h s
  recover aborted h s = (aborted, s)

  abbrev pub try_catch : Exec S A → Exec S A → Exec S A
  try_catch m h s = let (r, s') = m s in recover r h s'

  abbrev pub no_except : Exec S A → Exec S A
  no_except m s = let (r, s') = m s in (stop r, s')

abbrev pub gets {ℓ κ} : {S : Type ℓ} {A : Type κ} → (S → A) → Exec S A
gets f s = (ok (f s), s)

abbrev pub modify {ℓ} : {S : Type ℓ} → (S → S) → Exec S (Unit {0})
modify f s = (ok tt, f s)

module _ {ℓ κ μ} {S : Type ℓ} {A : Type κ} {B : Type μ} where
  abbrev pub continue : Result A → (A → Exec S B) → Exec S B
  continue (ok a) f s = f a s
  continue threw f s = (threw, s)
  continue aborted f s = (aborted, s)

  infixl 5 ◌>>=◌ ◌>>◌
  unfoldable pub ◌>>=◌ : Exec S A → (A → Exec S B) → Exec S B
  ◌>>=◌ m f s = let (r, s') = m s in continue r f s'

  abbrev pub ◌>>◌ : Exec S A → Exec S B → Exec S B
  m >> n = m >>= λ _. n

-- Reading and writing one part of a larger state.
abbrev pub within {ℓ κ μ} :
    {S : Type ℓ} {T : Type κ} {A : Type μ} → (S → T) → (T → S → S) → Exec T A → Exec S A
within get put m s = let (r, t) = m (get s) in (r, put t s)
