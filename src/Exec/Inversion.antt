-- ===== src/Exec/Inversion.antt =====
-- What a run that returned went through, one lemma for each way to build it.
use net_chat.Prelude.{◌≡◌, refl, ap}
use net_chat.Exec.{Exec, Result, ok, threw, aborted, pure, continue, ◌>>=◌, within}

module _ {ℓ} {A : Type ℓ} where
  value_or : A → Result A → A
  value_or d (ok a) = a
  value_or d threw = d
  value_or d aborted = d

  pub ok-injective : (a b : A) → ok a ≡ ok b → a ≡ b
  unfolding value_or
  ok-injective a b e = ap (value_or a) e

module _ {ℓ} {S A : Type ℓ} where
  pub pure-inv : (a b : A) (s s' : S) → pure a s ≡ (ok b, s') → (a ≡ b) × (s ≡ s')
  pure-inv a b s s' e = (ok-injective a b (ap (λ p. p.0) e), ap (λ p. p.1) e)

module _ {ℓ} {S A B : Type ℓ} where
  continue-inv :
      (r : Result A) (f : A → Exec S B) (s s' : S) (b : B)
      → continue r f s ≡ (ok b, s')
      → (a : A) × (r ≡ ok a) × (f a s ≡ (ok b, s'))
  continue-inv (ok a) f s s' b e = (a, refl, e)
  continue-inv threw f s s' b e = cc (ap (λ p. p.0) e)
  continue-inv aborted f s s' b e = cc (ap (λ p. p.0) e)

  -- the run goes on with what the first part returned
  pub bind_ok :
      (m : Exec S A) (f : A → Exec S B) (s t : S) (a : A) → m s ≡ (ok a, t) → (m >>= f) s ≡ f a t
  unfolding ◌>>=◌
  bind_ok m f s t a e = ap (λ p. continue p.0 f p.1) e

  pub bind_threw :
      (m : Exec S A) (f : A → Exec S B) (s t : S) → m s ≡ (threw, t) → (m >>= f) s ≡ (threw, t)
  unfolding ◌>>=◌
  bind_threw m f s t e = ap (λ p. continue p.0 f p.1) e

  -- Both parts returned.
  pub bind-inv :
      (m : Exec S A) (f : A → Exec S B) (s s' : S) (b : B)
      → (m >>= f) s ≡ (ok b, s')
      → (a : A) × (t : S) × (m s ≡ (ok a, t)) × (f a t ≡ (ok b, s'))
  unfolding ◌>>=◌
  bind-inv m f s s' b e =
      let (a, h, rest) = continue-inv (m s).0 f (m s).1 s' b e in
      (a, (m s).1, ap (λ r. (r, (m s).1)) h, rest)

module _ {ℓ} {S T A : Type ℓ} where
  pub within-inv :
      (get : S → T) (put : T → S → S) (m : Exec T A) (s s' : S) (a : A)
      → within get put m s ≡ (ok a, s')
      → (t : T) × (m (get s) ≡ (ok a, t)) × (put t s ≡ s')
  within-inv get put m s s' a e =
      ((m (get s)).1, ap (λ r. (r, (m (get s)).1)) (ap (λ p. p.0) e), ap (λ p. p.1) e)
