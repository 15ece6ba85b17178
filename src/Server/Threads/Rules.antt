-- ===== src/Server/Threads/Rules.antt =====
-- How code is split into atomic steps: one rule for each way to build it.
use net_chat.Prelude.{◌≡◌, refl, sym, ◌∙◌, ap, Bool, true, false, List, if◌then◌else◌, ◌++◌}
use net_chat.Exec.{Exec, Result, ok, threw, aborted, pure, continue, ◌>>=◌}
use net_chat.Server.State.{Env, Server}
use net_chat.Server.Threads.{
  Fact, Query, Answer, learnt, ask, Op, perform, Code, give, act, learn, run, Splits,
}

module _ {S A B : Type 0} where
  pub continue-same :
      (r : Result A) (f g : A → Exec S B) (s : S)
      → ((a : A) (t : S) → f a t ≡ g a t)
      → continue r f s ≡ continue r g s
  continue-same (ok a) f g s h = h a s
  continue-same threw f g s h = refl
  continue-same aborted f g s h = refl

  pub bind-same :
      (m : Exec S A) (f g : A → Exec S B) (s : S)
      → ((a : A) (t : S) → f a t ≡ g a t)
      → (m >>= f) s ≡ (m >>= g) s
  unfolding ◌>>=◌
  bind-same m f g s h = continue-same (m s).0 f g (m s).1 h

  pub bind-same_first :
      (m n : Exec S A) (f : A → Exec S B) (s : S) → m s ≡ n s → (m >>= f) s ≡ (n >>= f) s
  unfolding ◌>>=◌
  bind-same_first m n f s e = ap (λ p. continue p.0 f p.1) e

module _ {S A B C : Type 0} where
  pub bind_assoc :
      (m : Exec S A) (f : A → Exec S B) (g : B → Exec S C) (s : S)
      → ((m >>= f) >>= g) s ≡ (m >>= λ a. f a >>= g) s
  unfolding ◌>>=◌
  bind_assoc m f g s = go (m s).0 (m s).1
    where
      go :
          (r : Result A) (t : S)
          → continue (continue r f t).0 g (continue r f t).1
            ≡ continue r (λ a u. continue (f a u).0 g (f a u).1) t
      go (ok a) t = refl
      go threw t = refl
      go aborted t = refl

module _ (env : Env) where
  unfoldable pub code_bind :
      {A B : Type 0} {known : List Fact}
      → Code env A known
      → ((k : List Fact) → A → Code env B k)
      → Code env B known
  code_bind {known} (give a) f = f known a
  code_bind (act o k) f = act o (λ b. code_bind (k b) f)
  code_bind (learn q k) f = learn q (λ a. code_bind (k a) f)

  pub run-code_bind :
      {A B : Type 0} {known : List Fact} (c : Code env A known)
      (f : (k : List Fact) → A → Code env B k) (g : A → Exec (Server env) B)
      → ((k : List Fact) (a : A) (s : Server env) → run env (f k a) s ≡ g a s)
      → (s : Server env) → run env (code_bind c f) s ≡ (run env c >>= g) s
  unfolding code_bind run ◌>>=◌
  run-code_bind {known} (give a) f g h s = h known a s
  run-code_bind (act o k) f g h s =
      bind-same (perform env o) _ _ s (λ b t. run-code_bind (k b) f g h t)
      ∙ sym (bind_assoc (perform env o) (λ b. run env (k b)) g s)
  run-code_bind (learn q k) f g h s =
      bind-same (ask env q) _ _ s (λ a t. run-code_bind (k a) f g h t)
      ∙ sym (bind_assoc (ask env q) (λ a. run env (k a)) g s)

  unfoldable pub split_pure : {A : Type 0} {known : List Fact} (a : A) → Splits env known (pure a)
  unfolding run
  split_pure a = record { code = give a; same = λ s. refl }

  unfoldable pub split_act :
      {A B : Type 0} {known : List Fact} (o : Op env known B) (f : B → Exec (Server env) A)
      → ((b : B) → Splits env known (f b))
      → Splits env known (perform env o >>= f)
  unfolding run
  split_act o f k = record {
    code = act o (λ b. (k b).code);
    same = λ s. bind-same (perform env o) _ _ s (λ b t. (k b).same t);
  }

  pub bind-pure : {A : Type 0} (m : Exec (Server env) A) (s : Server env) → (m >>= pure) s ≡ m s
  unfolding ◌>>=◌
  bind-pure m s = go (m s).0 (m s).1
    where
      go : {A : Type 0} (r : Result A) (t : Server env) → continue r pure t ≡ (r, t)
      go (ok a) t = refl
      go threw t = refl
      go aborted t = refl

  unfoldable pub split_atom :
      {A : Type 0} {known : List Fact} (o : Op env known A) → Splits env known (perform env o)
  unfolding run
  split_atom o = record { code = act o give; same = λ s. bind-pure (perform env o) s }

  unfoldable pub split_learn :
      {A : Type 0} {known : List Fact} (q : Query) (f : Answer q → Exec (Server env) A)
      → ((a : Answer q) → Splits env (learnt q a ++ known) (f a))
      → Splits env known (ask env q >>= f)
  unfolding run
  split_learn q f k = record {
    code = learn q (λ a. (k a).code);
    same = λ s. bind-same (ask env q) _ _ s (λ a t. (k a).same t);
  }

  unfoldable pub split_bind :
      {A B : Type 0} {known : List Fact} (m : Exec (Server env) B) (f : B → Exec (Server env) A)
      → Splits env known m
      → ((k : List Fact) (b : B) → Splits env k (f b))
      → Splits env known (m >>= f)
  unfolding code_bind
  split_bind m f h k = record {
    code = code_bind h.code (λ l b. (k l b).code);
    same = λ s.
        run-code_bind h.code (λ l b. (k l b).code) f (λ l b t. (k l b).same t) s
        ∙ bind-same_first (run env h.code) m f s (h.same s);
  }

  unfoldable pub split_if :
      {A : Type 0} {known : List Fact} (b : Bool) (m n : Exec (Server env) A)
      → Splits env known m
      → Splits env known n
      → Splits env known (if b then m else n)
  split_if true m n h k = h
  split_if false m n h k = k

  -- Code that always does the same is split the same way.
  unfoldable pub split_same :
      {A : Type 0} {known : List Fact} (m n : Exec (Server env) A)
      → ((s : Server env) → m s ≡ n s)
      → Splits env known m
      → Splits env known n
  split_same m n e h = record { code = h.code; same = λ s. h.same s ∙ e s }
