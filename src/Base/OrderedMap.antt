-- ===== src/Base/OrderedMap.antt =====
-- An ordered map (`std::map`) as an association list in ascending key order.
use Prim.Native.Nat.{ℕ, ◌<◌}
use mathlib.Core.Logic.{inl, inr}
use mathlib.Core.Path.{◌≡◌, refl}
use mathlib.Core.Bool.{false}
use mathlib.Core.Option.{Option, none, some}
use mathlib.Core.List.{List, [], ◌∷◌}
use native.Mathlib.Omega.{arith}
use atlas_engine.Base.Tests.{Bool-cases, ltb→lt, ==_iff, ltb, ◌==◌, if◌then◌else◌}
use atlas_engine.Base.Predicates.{All, All-map}

abbrev pub OrderedMap {ℓ} : Type ℓ → Type ℓ
OrderedMap V = List (ℕ × V)

module _ {V : Type 0} where
  unfoldable pub find : ℕ → OrderedMap V → Option V
  find k [] = none
  find k ((j, w) ∷ m) = if j == k then some w else find k m

  -- Insert, or replace the value of a key that is there.
  unfoldable pub put : ℕ → V → OrderedMap V → OrderedMap V
  put k v [] = (k, v) ∷ []
  put k v ((j, w) ∷ m) =
      if ltb k j then (k, v) ∷ (j, w) ∷ m else if k == j then (k, v) ∷ m else (j, w) ∷ put k v m

  abbrev pub keys : OrderedMap V → List ℕ
  keys [] = []
  keys ((k, v) ∷ m) = k ∷ keys m

  pub find-put :
      (k j : ℕ) (v : V) (m : OrderedMap V)
      → find j (put k v m) ≡ (if k == j then some v else find j m)
  unfolding find put
  find-put k j v [] = refl
  find-put k j v ((i, w) ∷ m) = ground (arith, find-put k j v m)

  -- The keys ascend strictly.
  abbrev pub Ascends : OrderedMap V → Type 0
  Ascends [] = Unit {0}
  Ascends ((k, v) ∷ m) = All (λ j. k < j) (keys m) × Ascends m

  Ascends-put-keys :
      (k : ℕ) (v : V) (n : ℕ) (m : OrderedMap V)
      → n < k
      → All (λ j. n < j) (keys m)
      → All (λ j. n < j) (keys (put k v m))
  unfolding put
  Ascends-put-keys k v n [] h a = (h, tt)
  Ascends-put-keys k v n ((i, w) ∷ m) h a = ground (arith, Ascends-put-keys k v n m h a.1)

  pub put-Ascends : (k : ℕ) (v : V) (m : OrderedMap V) → Ascends m → Ascends (put k v m)
  unfolding put
  put-Ascends k v [] a = (tt, tt)
  put-Ascends k v ((i, w) ∷ m) a = elim (Bool-cases (ltb k i)) [
    | inl less ↦ rw less (
      (
        ltb→lt k i less,
        All-map (λ j. i < j) (λ j. k < j) (keys m) (λ j h. omega (arith, ltb→lt k i less)) a.0,
      ),
      a,
    )
    | inr ge ↦ elim (Bool-cases (k == i)) [
      | inl same ↦ rw (ge, same) (rw ((==_iff k i).0 same) a)
      | inr ne ↦ rw (ge, ne) (Ascends-put-keys k v i m (ground arith) a.0, put-Ascends k v m a.1)
    ]
  ]

  -- Two keys put in either order.
  pub put_comm :
      (k j : ℕ) (v w : V) (m : OrderedMap V)
      → (k == j) ≡ false
      → put k v (put j w m) ≡ put j w (put k v m)
  unfolding put
  put_comm k j v w [] h = ground arith
  put_comm k j v w ((i, x) ∷ m) h = ground (arith, put_comm k j v w m)
