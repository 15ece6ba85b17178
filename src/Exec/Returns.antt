-- ===== src/Exec/Returns.antt =====
-- What holds of every value that a piece of code returns, one rule for each way to build it.
use net_chat.Prelude.{◌≡◌, ap, subst, Bool, true, false, if◌then◌else◌}
use net_chat.Exec.{Exec, Result, ok, threw, aborted, pure, continue, ◌>>=◌}

abbrev pub Holds {ℓ κ} : {A : Type ℓ} → (A → Type κ) → Result A → Type κ
Holds P (ok a) = P a
Holds P threw = Unit
Holds P aborted = Unit

pub record Returns {ℓ} {S A : Type ℓ} (P : A → Type ℓ) (m : Exec S A) : Type ℓ where
  pub at : (s : S) → Holds P (m s).0

module _ {ℓ} {S A : Type ℓ} {P : A → Type ℓ} where
  pub Returns-pure : (a : A) → P a → Returns {S = S} P (pure a)
  Returns-pure a p = record { at = λ s. p }

  pub Returns-if :
      (b : Bool) (m n : Exec S A) → Returns P m → Returns P n → Returns P (if b then m else n)
  Returns-if true m n hm hn = hm
  Returns-if false m n hm hn = hn

  pub Returns-eq : (m : Exec S A) (s s' : S) (a : A) → Returns P m → m s ≡ (ok a, s') → P a
  Returns-eq m s s' a h e = subst (Holds P) (ap (λ p. p.0) e) (h.at s)

module _ {ℓ} {S A B : Type ℓ} {P : B → Type ℓ} where
  after :
      (r : Result A) (f : A → Exec S B) (s : S)
      → ((a : A) → Returns P (f a))
      → Holds P (continue r f s).0
  after (ok a) f s h = (h a).at s
  after threw f s h = tt
  after aborted f s h = tt

  pub Returns-bind :
      (m : Exec S A) (f : A → Exec S B) → ((a : A) → Returns P (f a)) → Returns P (m >>= f)
  unfolding ◌>>=◌
  Returns-bind m f h = record { at = λ s. after (m s).0 f (m s).1 h }

module _ {ℓ} {S A B : Type ℓ} {Q : A → Type ℓ} {P : B → Type ℓ} where
  after_of :
      (r : Result A) (f : A → Exec S B) (s : S)
      → Holds Q r
      → ((a : A) → Q a → Returns P (f a))
      → Holds P (continue r f s).0
  after_of (ok a) f s q h = (h a q).at s
  after_of threw f s q h = tt
  after_of aborted f s q h = tt

  -- The rest may use what holds of the first part's value.
  pub Returns-bind_of :
      (m : Exec S A) (f : A → Exec S B)
      → Returns Q m
      → ((a : A) → Q a → Returns P (f a))
      → Returns P (m >>= f)
  unfolding ◌>>=◌
  Returns-bind_of m f q h = record { at = λ s. after_of (m s).0 f (m s).1 (q.at s) h }

pub ruleset returns_rules = (Returns-pure, Returns-if, Returns-bind)
