-- ===== src/Exec/Preserves.antt =====
-- What a piece of code leaves as it was, whether it returns or throws: one rule for each way to build
-- it.
use net_chat.Prelude.{◌≡◌, refl, ◌∙◌, Bool, true, false, if◌then◌else◌}
use net_chat.Exec.{
  Exec, Result, ok, threw, aborted, pure, throw, continue, recover, ◌>>=◌, gets, try_catch,
  no_except,
}

pub record Preserves {ℓ} {S A B : Type ℓ} (view : S → B) (m : Exec S A) : Type ℓ where
  pub at : (s : S) → view (m s).1 ≡ view s

module _ {ℓ} {S A B : Type ℓ} {view : S → B} where
  pub Preserves-pure : (a : A) → Preserves view (pure a)
  Preserves-pure a = record { at = λ s. refl }

  pub Preserves-gets : (f : S → A) → Preserves view (gets f)
  Preserves-gets f = record { at = λ s. refl }

  pub Preserves-throw : Preserves {A = A} view throw
  Preserves-throw = record { at = λ s. refl }

  pub Preserves-if :
      (b : Bool) (m n : Exec S A)
      → Preserves view m
      → Preserves view n
      → Preserves view (if b then m else n)
  Preserves-if true m n h k = h
  Preserves-if false m n h k = k

  caught :
      (r : Result A) (m : Exec S A) (s : S) → Preserves view m → view (recover r m s).1 ≡ view s
  caught (ok a) m s h = refl
  caught threw m s h = h.at s
  caught aborted m s h = refl

  pub Preserves-try_catch :
      (m n : Exec S A) → Preserves view m → Preserves view n → Preserves view (try_catch m n)
  Preserves-try_catch m n h k = record { at = λ s. caught (m s).0 n (m s).1 k ∙ h.at s }

  pub Preserves-no_except : (m : Exec S A) → Preserves view m → Preserves view (no_except m)
  Preserves-no_except m h = record { at = λ s. h.at s }

module _ {ℓ} {S A B C : Type ℓ} {view : S → C} where
  continued :
      (r : Result A) (f : A → Exec S B) (s : S)
      → ((a : A) → Preserves view (f a))
      → view (continue r f s).1 ≡ view s
  continued (ok a) f s h = (h a).at s
  continued threw f s h = refl
  continued aborted f s h = refl

  pub Preserves-bind :
      (m : Exec S A) (f : A → Exec S B)
      → Preserves view m
      → ((a : A) → Preserves view (f a))
      → Preserves view (m >>= f)
  unfolding ◌>>=◌
  Preserves-bind m f h k = record { at = λ s. continued (m s).0 f (m s).1 k ∙ h.at s }

pub ruleset preserves_rules = (
  Preserves-pure, Preserves-gets, Preserves-throw, Preserves-if, Preserves-try_catch,
  Preserves-no_except, Preserves-bind,
)
