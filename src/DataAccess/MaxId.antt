-- ===== src/DataAccess/MaxId.antt =====
-- The loop of `createMsgByRawMsg` that looks for the largest internal id.
use mathlib.Core.List.{Permᴰ, map-append}
use net_chat.Prelude.{
  ℕ, zero, suc, ◌<◌, ◌≡◌, refl, ◌∙◌, ap, List, [], ◌∷◌, ◌++◌, map, ℤ, pos, int_lt, to_int-id,
  int_max_suc, arith, if◌then◌else◌, length, length-append, count, count-append,
}
use net_chat.Sql.{Sqlite, Row, Value, integer, internal_id, value_eq}
use net_chat.DataAccess.{max_internal_id, get_int, read_message}

-- The ids 1, …, n as SQL values.
abbrev pub ids : ℕ → List Value
ids zero = []
ids (suc n) = ids n ++ integer (pos (suc n)) ∷ []

pub length-ids : (n : ℕ) → length (ids n) ≡ n
length-ids zero = refl
length-ids (suc n) =
    omega (arith, length-append {0} (ids n) (integer (pos (suc n)) ∷ []), length-ids n)

-- None of 1, …, n is above n.
pub count-ids_above : (n k : ℕ) → n < k → count (λ v. value_eq v (integer (pos k))) (ids n) ≡ 0
unfolding value_eq
count-ids_above zero k h = refl
count-ids_above (suc n) k h =
    count-append (λ v. value_eq v (integer (pos k))) (ids n) (integer (pos (suc n)) ∷ [])
    ∙ ground (arith, count-ids_above n k)

larger : ℤ → ℤ → ℤ
larger best z = if int_lt best z then z else best

-- The loop over the bare ids.
max_of : ℤ → List ℤ → ℤ
unfolding larger
max_of best [] = best
max_of best (z ∷ zs) = max_of (larger best z) zs

larger_swap : (b x y : ℤ) → larger (larger b x) y ≡ larger (larger b y) x
unfolding larger
larger_swap b x y = ground arith

-- The order in which the rows come does not matter.
max_of-perm : {xs ys : List ℤ} (best : ℤ) → Permᴰ xs ys → max_of best xs ≡ max_of best ys
unfolding max_of
max_of-perm best Permᴰ.nil = refl
max_of-perm best (Permᴰ.cons {a} {b} {l₁} {l₂} e h) = rw e (max_of-perm (larger best b) h)
max_of-perm best (Permᴰ.swap {a} {b} {a'} {b'} {l} e f) =
    rw (e, f) (ap (λ x. max_of x l) (larger_swap best b' a'))
max_of-perm best (Permᴰ.trans h k) = max_of-perm best h ∙ max_of-perm best k

max_of-append : (best z : ℤ) (xs : List ℤ) → max_of best (xs ++ z ∷ []) ≡ larger (max_of best xs) z
unfolding max_of
max_of-append best z [] = refl
max_of-append best z (x ∷ xs) = max_of-append (larger best x) z xs

map-perm : {A B : Type 0} (f : A → B) {xs ys : List A} → Permᴰ xs ys → Permᴰ (map f xs) (map f ys)
map-perm f Permᴰ.nil = Permᴰ.nil
map-perm f (Permᴰ.cons e h) = Permᴰ.cons (ap f e) (map-perm f h)
map-perm f (Permᴰ.swap e g) = Permᴰ.swap (ap f e) (ap f g)
map-perm f (Permᴰ.trans h k) = Permᴰ.trans (map-perm f h) (map-perm f k)

module _ (q : Sqlite) where
  id_of : Row → ℤ
  id_of r = get_int q (r internal_id)

  max_internal_id-map :
      (best : ℤ) (rs : List Row)
      → max_internal_id best (map (read_message q) rs) ≡ max_of best (map id_of rs)
  unfolding max_internal_id max_of id_of read_message
  max_internal_id-map best [] = refl
  max_internal_id-map best (r ∷ rs) = max_internal_id-map (larger best (id_of r)) rs

  pub get_int-pos : (n : ℕ) → n < int_max_suc → get_int q (integer (pos n)) ≡ pos n
  unfolding get_int
  get_int-pos n h = to_int-id (pos n) h

  max_of-ids : (n : ℕ) → n < int_max_suc → max_of (pos 0) (map (get_int q) (ids n)) ≡ pos n
  unfolding max_of
  max_of-ids zero h = refl
  max_of-ids (suc n) h =
      ap (max_of (pos 0)) (map-append (get_int q) (ids n) (integer (pos (suc n)) ∷ []))
      ∙ max_of-append (pos 0) (get_int q (integer (pos (suc n)))) (map (get_int q) (ids n))
      ∙ rw (max_of-ids n (omega arith), get_int-pos (suc n) h) (ground arith)

  map-id_of : (F : List Row) → map id_of F ≡ map (get_int q) (map (λ r. r internal_id) F)
  unfolding id_of
  map-id_of [] = refl
  map-id_of (r ∷ rs) = ap (◌∷◌ (id_of r)) (map-id_of rs)

  -- Over rows that hold the ids 1, …, n, in any order, the loop finds n.
  pub max_internal_id-ids :
      (n : ℕ) {rs F : List Row}
      → Permᴰ rs F
      → map (λ r. r internal_id) F ≡ ids n
      → n < int_max_suc
      → max_internal_id (pos 0) (map (read_message q) rs) ≡ pos n
  max_internal_id-ids n {rs} {F} h e small =
      max_internal_id-map (pos 0) rs
      ∙ max_of-perm (pos 0) (map-perm id_of h)
      ∙ ap (max_of (pos 0)) (map-id_of F ∙ ap (map (get_int q)) e)
      ∙ max_of-ids n small
