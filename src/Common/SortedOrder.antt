-- ===== src/Common/SortedOrder.antt =====
-- What the values of `sortedUnique` are, and their order.
use Prim.Native.Nat.{ℕ, ◌<◌}
use mathlib.Core.Path.{◌≡◌, refl, ap}
use mathlib.Core.Logic.{◌⊎◌, inl, inr}
use mathlib.Core.Bool.{true}
use mathlib.Core.List.{List, [], ◌∷◌, ◌++◌}
use native.Mathlib.Omega.{arith}
use rolekit.Common.Tests.{ltb, Bool-cases}
use rolekit.Common.Text.{Text, has}
use rolekit.Common.SortedUnique.{
  text_leb, sorted_unique, IsSorted, IsDistinct, sorted_unique-IsSorted, sorted_unique-IsDistinct,
  has-sorted_unique,
}

-- The second text goes on where the first ends, or has a greater code unit where they first differ.
abbrev pub Comes : Text → Text → Type 0
Comes s t =
    ((rest : Text) × (t ≡ s ++ rest))
    ⊎ ((start : Text) × (a : ℕ) × (b : ℕ) × (s_rest : Text) × (t_rest : Text) × (s
          ≡ start ++ (a ∷ s_rest))
        × (t ≡ start ++ (b ∷ t_rest))
        × (a < b))

abbrev pub IsInOrder : List Text → Type 0
IsInOrder [] = Unit
IsInOrder (x ∷ []) = Unit
IsInOrder (x ∷ y ∷ ys) = Comes x y × IsInOrder (y ∷ ys)

Comes-cons : (c : ℕ) (s t : Text) → Comes s t → Comes (c ∷ s) (c ∷ t)
Comes-cons c s t (inl (rest, e)) = inl (rest, ap (λ x. c ∷ x) e)
Comes-cons c s t (inr (start, a, b, s_rest, t_rest, e, f, less)) =
    inr (c ∷ start, a, b, s_rest, t_rest, ap (λ x. c ∷ x) e, ap (λ x. c ∷ x) f, less)

text_leb-Comes : (s t : Text) → text_leb s t ≡ true → Comes s t
unfolding text_leb
text_leb-Comes [] t h = inl (t, refl)
text_leb-Comes (a ∷ s) [] h = absurd (ground arith)
text_leb-Comes (a ∷ s) (b ∷ t) h = elim (Bool-cases (ltb a b)) [
  | inl less ↦ inr ([], a, b, s, t, refl, refl, ground arith)
  | inr other ↦
      let e : a ≡ b = ground arith in rw e (Comes-cons b s t (text_leb-Comes s t (ground arith)))
]

IsSorted-IsInOrder : (xs : List Text) → IsSorted xs → IsInOrder xs
IsSorted-IsInOrder [] h = tt
IsSorted-IsInOrder (x ∷ []) h = tt
IsSorted-IsInOrder (x ∷ y ∷ ys) (h, k) = (text_leb-Comes x y h, IsSorted-IsInOrder (y ∷ ys) k)

-- `sortedUnique` gives the values of the list, all of them and no other, each of them once, in the order of
-- their code units: each is the start of the next, or has a smaller unit where the two first differ.
pub sorted_unique_lem :
    (xs : List Text)
    → IsInOrder (sorted_unique xs)
      × IsDistinct (sorted_unique xs)
      × ((s : Text) → has (sorted_unique xs) s ≡ has xs s)
sorted_unique_lem xs = (
  IsSorted-IsInOrder (sorted_unique xs) (sorted_unique-IsSorted xs),
  sorted_unique-IsDistinct xs,
  has-sorted_unique xs,
)
