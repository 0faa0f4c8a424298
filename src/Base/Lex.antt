-- ===== src/Base/Lex.antt =====
-- The lexicographic order on lists of numbers, and insertion sort by it.
use Prim.Native.Nat.{ℕ}
use mathlib.Core.Path.{◌≡◌, refl}
use mathlib.Core.Logic.{inl, inr}
use mathlib.Core.Bool.{Bool, true, false}
use mathlib.Core.List.{List, [], ◌∷◌}
use native.Mathlib.Omega.{arith}
use atlas_engine.Base.Tests.{ltb, if◌then◌else◌, Bool-cases}

unfoldable pub lex_less : List ℕ → List ℕ → Bool
lex_less [] [] = false
lex_less [] (y ∷ ys) = true
lex_less (x ∷ xs) [] = false
lex_less (x ∷ xs) (y ∷ ys) = if ltb x y then true else if ltb y x then false else lex_less xs ys

pub lex_irrefl : (xs : List ℕ) → lex_less xs xs ≡ false
unfolding lex_less
lex_irrefl [] = refl
lex_irrefl (x ∷ xs) = ground (arith, lex_irrefl xs)

pub lex_trans :
    (xs ys zs : List ℕ) → lex_less xs ys ≡ true → lex_less ys zs ≡ true → lex_less xs zs ≡ true
unfolding lex_less
lex_trans [] [] zs h k = absurd (ground arith)
lex_trans [] (y ∷ ys) [] h k = absurd (ground arith)
lex_trans [] (y ∷ ys) (z ∷ zs) h k = refl
lex_trans (x ∷ xs) [] zs h k = absurd (ground arith)
lex_trans (x ∷ xs) (y ∷ ys) [] h k = absurd (ground arith)
lex_trans (x ∷ xs) (y ∷ ys) (z ∷ zs) h k = ground (arith, lex_trans xs ys zs)

-- Two lists of which neither is less are the same.
pub lex_total : (xs ys : List ℕ) → lex_less xs ys ≡ false → lex_less ys xs ≡ false → xs ≡ ys
unfolding lex_less
lex_total [] [] h k = refl
lex_total [] (y ∷ ys) h k = absurd (ground arith)
lex_total (x ∷ xs) [] h k = absurd (ground arith)
lex_total (x ∷ xs) (y ∷ ys) h k = ground (arith, lex_total xs ys)

-- Insertion before what is not less, so that sorting is stable.
unfoldable pub insert_by {ℓ} : {A : Type ℓ} → (A → A → Bool) → A → List A → List A
insert_by less x [] = x ∷ []
insert_by less x (y ∷ ys) = if less y x then y ∷ insert_by less x ys else x ∷ y ∷ ys

unfoldable pub sort_by {ℓ} : {A : Type ℓ} → (A → A → Bool) → List A → List A
unfolding insert_by
sort_by less [] = []
sort_by less (x ∷ xs) = insert_by less x (sort_by less xs)

pub lex_asym : (xs ys : List ℕ) → lex_less xs ys ≡ true → lex_less ys xs ≡ false
lex_asym xs ys h = elim (Bool-cases (lex_less ys xs)) [
  | inl k ↦ absurd (ground (arith, lex_trans xs ys xs h k, lex_irrefl xs))
  | inr k ↦ k
]

pub lex_le_trans :
    (x y z : List ℕ) → lex_less z y ≡ false → lex_less z x ≡ true → lex_less y x ≡ true
lex_le_trans x y z h k = elim (Bool-cases (lex_less y z)) [
  | inl l ↦ lex_trans y z x l k
  | inr l ↦ let e : y ≡ z = lex_total y z l h in rw e k
]

-- On lists of numbers the order of insertion does not show.
pub insert_comm :
    (x y : List ℕ) (l : List (List ℕ))
    → insert_by lex_less x (insert_by lex_less y l) ≡ insert_by lex_less y (insert_by lex_less x l)
unfolding insert_by
insert_comm x y [] = ground (arith, lex_total x y, lex_asym x y, lex_asym y x)
insert_comm x y (z ∷ l) = ground (
  arith,
  insert_comm x y l,
  lex_total x y,
  lex_asym x y,
  lex_asym y x,
  lex_le_trans x y z,
  lex_le_trans y x z,
)
