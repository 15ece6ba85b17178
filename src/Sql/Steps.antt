-- ===== src/Sql/Steps.antt =====
-- A SELECT as the program reads it: each `executeStep` gives a row, the end, or an exception.
use mathlib.Core.List.{Permᴰ}
use net_chat.Prelude.{
  ℕ, zero, suc, ◌≡◌, refl, ap, subst, ◌∙◌, Bool, true, List, [], ◌∷◌, Option, none, some, count,
  length, length-count, arith, if◌then◌else◌,
}

pub data Cursor (A : Type 0) : Type 0 where
  done : Cursor A
  row : A → Cursor A → Cursor A
  failed : Cursor A

-- The rows in turn, with the step that fails, if one does.
unfoldable pub cursor : {A : Type 0} → Option ℕ → List A → Cursor A
cursor none [] = done
cursor none (x ∷ xs) = row x (cursor none xs)
cursor (some zero) xs = failed
cursor (some (suc n)) [] = done
cursor (some (suc n)) (x ∷ xs) = row x (cursor (some n) xs)

-- The order of the rows is open: SQLite promises none without ORDER BY. What they count is not.
pub count-perm :
    {A : Type 0} (p : A → Bool) {xs ys : List A} → Permᴰ xs ys → count p xs ≡ count p ys
count-perm p Permᴰ.nil = refl
count-perm p (Permᴰ.cons e h) =
    omega (arith, ap {B = ℕ} (λ x. if p x then 1 else 0) e, count-perm p h)
count-perm p (Permᴰ.swap e f) =
    omega
      (arith, ap {B = ℕ} (λ x. if p x then 1 else 0) e, ap {B = ℕ} (λ x. if p x then 1 else 0) f)
count-perm p (Permᴰ.trans h k) = count-perm p h ∙ count-perm p k

pub length-perm : {A : Type 0} {xs ys : List A} → Permᴰ xs ys → length xs ≡ length ys
length-perm {xs} {ys} h = omega (arith, length-count xs, length-count ys, count-perm (λ x. true) h)

pub perm-nil : {A : Type 0} (xs : List A) → Permᴰ xs [] → xs ≡ []
perm-nil [] h = refl
perm-nil (x ∷ xs) h = absurd (omega (arith, length-perm h))

tail_eq : {A : Type 0} {x y : A} {xs ys : List A} → x ∷ xs ≡ y ∷ ys → xs ≡ ys
tail_eq e = cc

pub perm-singleton : {A : Type 0} {a : A} {xs ys : List A} → Permᴰ xs ys → ys ≡ a ∷ [] → xs ≡ a ∷ []
perm-singleton Permᴰ.nil e = e
perm-singleton {a} (Permᴰ.cons {a = x} {b = y} {l₁ = l} f h) e =
    cc (f, e, perm-nil l (subst (Permᴰ l) (tail_eq e) h))
perm-singleton (Permᴰ.swap f g) e = cc e
perm-singleton (Permᴰ.trans h k) e = perm-singleton h (perm-singleton k e)
