-- ===== src/Prelude/Sorting.antt =====
-- `sorted(..., key=)`: a stable insertion sort.
use mathlib.Core.Path.{◌≡◌, refl, ap, ◌∙◌}
use mathlib.Core.Logic.{◌↔◌, inl, inr}
use mathlib.Core.Bool.{Bool, true, false, ◌&&◌}
use mathlib.Core.List.{List, [], ◌∷◌, Memᴰ}
use mathlib.Core.List.Memᴰ
use native.Mathlib.Omega.{arith}
use decision_ledger.Prelude.Tests.{if◌then◌else◌, Bool-cases}
use decision_ledger.Prelude.Lists.{all}

module _ {A : Type 0} (before : A → A → Bool) where
  -- `sorted`: a stable sort; `x` stands before the elements of the list that equal it.
  unfoldable pub insert : A → List A → List A
  insert x [] = x ∷ []
  insert x (y ∷ ys) = let rest = insert x ys in if before x y then x ∷ y ∷ ys else y ∷ rest

  unfoldable pub sort : List A → List A
  unfolding insert
  sort [] = []
  sort (x ∷ xs) = insert x (sort xs)

  mem-insert : (x y : A) (ys : List A) → Memᴰ x (insert y ys) ↔ Memᴰ x (y ∷ ys)
  unfolding insert
  mem-insert x y [] = (λ m. m, λ m. m)
  mem-insert x y (z ∷ zs) = elim (Bool-cases (before y z)) [
    | inl first ↦ rw first (λ m. m, λ m. m)
    | inr later ↦ rw later (
      λ m. elim (Memᴰ.cases_cons m) [
        | inl e ↦ Memᴰ.tail (Memᴰ.head e)
        | inr t ↦ elim (Memᴰ.cases_cons ((mem-insert x y zs).0 t)) [
          | inl e ↦ Memᴰ.head e
          | inr r ↦ Memᴰ.tail (Memᴰ.tail r)
        ]
      ],
      λ m. elim (Memᴰ.cases_cons m) [
        | inl e ↦ Memᴰ.tail ((mem-insert x y zs).1 (Memᴰ.head e))
        | inr t ↦ elim (Memᴰ.cases_cons t) [
          | inl e ↦ Memᴰ.head e
          | inr r ↦ Memᴰ.tail ((mem-insert x y zs).1 (Memᴰ.tail r))
        ]
      ],
    )
  ]

  pub mem-sort : (x : A) (ys : List A) → Memᴰ x (sort ys) ↔ Memᴰ x ys
  unfolding sort
  mem-sort x [] = (λ m. m, λ m. m)
  mem-sort x (y ∷ ys) = (
    λ m. elim (Memᴰ.cases_cons ((mem-insert x y (sort ys)).0 m)) [
      | inl e ↦ Memᴰ.head e
      | inr t ↦ Memᴰ.tail ((mem-sort x ys).0 t)
    ],
    λ m. (mem-insert x y (sort ys)).1 (elim (Memᴰ.cases_cons m) [
      | inl e ↦ Memᴰ.head e
      | inr t ↦ Memᴰ.tail ((mem-sort x ys).1 t)
    ]),
  )

  all-insert : (p : A → Bool) (y : A) (ys : List A) → all p (insert y ys) ≡ all p (y ∷ ys)
  unfolding insert
  all-insert p y [] = refl
  all-insert p y (z ∷ zs) = ground (arith, all-insert p y zs)

  pub all-sort : (p : A → Bool) (ys : List A) → all p (sort ys) ≡ all p ys
  unfolding sort
  all-sort p [] = refl
  all-sort p (y ∷ ys) = all-insert p y (sort ys) ∙ ap (λ b. p y && b) (all-sort p ys)

  -- Each element is before all those that follow it.
  abbrev pub ordered : List A → Bool
  ordered [] = true
  ordered (x ∷ xs) = all (before x) xs && ordered xs

  module _ (total : (x y : A) → before x y ≡ false → before y x ≡ true)
      (transitive : (x y z : A) → before x y ≡ true → before y z ≡ true → before x z ≡ true) where
    all-before :
        (x y : A) (ys : List A)
        → before x y ≡ true
        → all (before y) ys ≡ true
        → all (before x) ys ≡ true
    all-before x y [] h k = refl
    all-before x y (z ∷ zs) h k = ground (arith, all-before x y zs h, transitive x y z)

    ordered-insert : (x : A) (ys : List A) → ordered ys ≡ true → ordered (insert x ys) ≡ true
    unfolding insert
    ordered-insert x [] h = refl
    ordered-insert x (y ∷ ys) h = elim (Bool-cases (before x y)) [
      | inl first ↦ rw first (ground (arith, all-before x y ys first, first))
      | inr later ↦
          rw later
            (ground (arith, all-insert (before y) x ys, ordered-insert x ys, total x y later))
    ]

    pub ordered-sort : (xs : List A) → ordered (sort xs) ≡ true
    unfolding sort
    ordered-sort [] = refl
    ordered-sort (x ∷ xs) = ordered-insert x (sort xs) (ordered-sort xs)
