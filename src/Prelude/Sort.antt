-- ===== src/Prelude/Sort.antt =====
-- A stable sort by a comparison, as `sort_by` of slices: what it promises of its result, and the
-- order of texts, which is that of their bytes; the removal of equal neighbours.
use Prim.Native.Char.{code}
use Prim.Native.String.{String}
use mathlib.Core.Path.{◌≡◌, refl}
use mathlib.Core.Bool.{Bool, true, false, not, ◌||◌, ◌&&◌}
use mathlib.Core.List.{List, [], ◌∷◌}
use native.Mathlib.Omega.{arith}
use honey.Prelude.Tests.{if◌then◌else◌, ltb}
use honey.Prelude.Lists.{count, any, all}

-- `<=` of texts: that of their bytes, which is that of their characters' numbers.
unfoldable pub str_le : String → String → Bool
str_le String.[] t = true
str_le (String.◌∷◌ c s) String.[] = false
str_le (String.◌∷◌ c s) (String.◌∷◌ d t) =
    let rest = str_le s t in
    if ltb (code c) (code d) then true else if ltb (code d) (code c) then false else rest

pub str_le_total : (s t : String) → str_le s t ≡ false → str_le t s ≡ true
unfolding str_le
str_le_total String.[] t h = ground arith
str_le_total (String.◌∷◌ c s) String.[] h = refl
str_le_total (String.◌∷◌ c s) (String.◌∷◌ d t) h = ground (arith, str_le_total s t)

pub str_le_trans : (s t u : String) → str_le s t ≡ true → str_le t u ≡ true → str_le s u ≡ true
unfolding str_le
str_le_trans String.[] t u h k = refl
str_le_trans (String.◌∷◌ c s) String.[] u h k = ground arith
str_le_trans (String.◌∷◌ c s) (String.◌∷◌ d t) String.[] h k = ground arith
str_le_trans (String.◌∷◌ c s) (String.◌∷◌ d t) (String.◌∷◌ e u) h k =
    ground (arith, str_le_trans s t u)

module _ {ℓ} {A : Type ℓ} (le : A → A → Bool) where
  -- The place of an element in a sorted list: before the first that it is not after.
  unfoldable pub insert_by : A → List A → List A
  insert_by x [] = x ∷ []
  insert_by x (y ∷ ys) = let later = insert_by x ys in if le x y then x ∷ y ∷ ys else y ∷ later

  -- Elements that compare equal keep their order.
  unfoldable pub sort_by : List A → List A
  unfolding insert_by
  sort_by [] = []
  sort_by (x ∷ xs) = insert_by x (sort_by xs)

  abbrev pub is_below : A → List A → Bool
  is_below x [] = true
  is_below x (y ∷ ys) = le x y

  unfoldable pub is_sorted : List A → Bool
  is_sorted [] = true
  is_sorted (x ∷ xs) = is_below x xs && is_sorted xs

  is_below-insert_by :
      (x y : A) (ys : List A)
      → le y x ≡ true
      → is_below y ys ≡ true
      → is_below y (insert_by x ys) ≡ true
  unfolding insert_by
  is_below-insert_by x y [] h k = h
  is_below-insert_by x y (z ∷ zs) h k = ground arith

  module _ (total : (x y : A) → le x y ≡ false → le y x ≡ true) where
    insert_by-is_sorted :
        (x : A) (ys : List A) → is_sorted ys ≡ true → is_sorted (insert_by x ys) ≡ true
    unfolding insert_by is_sorted
    insert_by-is_sorted x [] h = refl
    insert_by-is_sorted x (y ∷ ys) h =
        ground (arith, total x y, insert_by-is_sorted x ys, is_below-insert_by x y ys)

    pub sort_by-is_sorted : (xs : List A) → is_sorted (sort_by xs) ≡ true
    unfolding sort_by is_sorted
    sort_by-is_sorted [] = refl
    sort_by-is_sorted (x ∷ xs) = insert_by-is_sorted x (sort_by xs) (sort_by-is_sorted xs)

  count-insert_by :
      (p : A → Bool) (x : A) (ys : List A) → count p (insert_by x ys) ≡ count p (x ∷ ys)
  unfolding insert_by
  count-insert_by p x [] = refl
  count-insert_by p x (y ∷ ys) = ground (arith, count-insert_by p x ys)

  -- Sorting keeps every element, as often as it stood.
  pub count-sort_by : (p : A → Bool) (xs : List A) → count p (sort_by xs) ≡ count p xs
  unfolding sort_by
  count-sort_by p [] = refl
  count-sort_by p (x ∷ xs) = ground (arith, count-insert_by p x (sort_by xs), count-sort_by p xs)

  any-insert_by : (p : A → Bool) (x : A) (ys : List A) → any p (insert_by x ys) ≡ (p x || any p ys)
  unfolding insert_by
  any-insert_by p x [] = refl
  any-insert_by p x (y ∷ ys) = ground (arith, any-insert_by p x ys)

  pub any-sort_by : (p : A → Bool) (xs : List A) → any p (sort_by xs) ≡ any p xs
  unfolding sort_by
  any-sort_by p [] = refl
  any-sort_by p (x ∷ xs) = ground (arith, any-insert_by p x (sort_by xs), any-sort_by p xs)

-- `Vec::dedup_by`: of a run of neighbours that are the same, the first stays.
module _ {ℓ} {A : Type ℓ} (same : A → A → Bool) where
  unfoldable pub dedup_after : A → List A → List A
  dedup_after kept [] = []
  dedup_after kept (x ∷ xs) =
      let dropped = dedup_after kept xs in
      let stays = x ∷ dedup_after x xs in if same x kept then dropped else stays

  unfoldable pub dedup_by : List A → List A
  unfolding dedup_after
  dedup_by [] = []
  dedup_by (x ∷ xs) = x ∷ dedup_after x xs

  -- What a test says that does not tell the same elements apart, it says of the rest too.
  any-dedup_after :
      (p : A → Bool) (kept : A) (xs : List A)
      → ((x y : A) → same x y ≡ true → p x ≡ p y)
      → (p kept || any p (dedup_after kept xs)) ≡ (p kept || any p xs)
  unfolding dedup_after
  any-dedup_after p kept [] h = refl
  any-dedup_after p kept (x ∷ xs) h =
      ground (arith, h x kept, any-dedup_after p kept xs h, any-dedup_after p x xs h)

  pub any-dedup_by :
      (p : A → Bool) (xs : List A)
      → ((x y : A) → same x y ≡ true → p x ≡ p y)
      → any p (dedup_by xs) ≡ any p xs
  unfolding dedup_by
  any-dedup_by p [] h = refl
  any-dedup_by p (x ∷ xs) h = any-dedup_after p x xs h

  -- No element stands after one that is the same.
  abbrev pub is_fresh : A → List A → Bool
  is_fresh x [] = true
  is_fresh x (y ∷ ys) = not (same y x)

  unfoldable pub is_deduplicated : List A → Bool
  is_deduplicated [] = true
  is_deduplicated (x ∷ xs) = is_fresh x xs && is_deduplicated xs

  dedup_after-is_deduplicated :
      (kept : A) (xs : List A)
      → (is_fresh kept (dedup_after kept xs) && is_deduplicated (dedup_after kept xs)) ≡ true
  unfolding dedup_after is_deduplicated
  dedup_after-is_deduplicated kept [] = refl
  dedup_after-is_deduplicated kept (x ∷ xs) =
      ground (arith, dedup_after-is_deduplicated kept xs, dedup_after-is_deduplicated x xs)

  pub dedup_by-is_deduplicated : (xs : List A) → is_deduplicated (dedup_by xs) ≡ true
  unfolding dedup_by is_deduplicated
  dedup_by-is_deduplicated [] = refl
  dedup_by-is_deduplicated (x ∷ xs) = dedup_after-is_deduplicated x xs

  module _ (le : A → A → Bool)
      (trans : (x y z : A) → le x y ≡ true → le y z ≡ true → le x z ≡ true) where
    dedup_after-is_sorted :
        (kept : A) (xs : List A)
        → (is_below le kept xs && is_sorted le xs) ≡ true
        → (is_below le kept (dedup_after kept xs) && is_sorted le (dedup_after kept xs)) ≡ true
    unfolding dedup_after is_sorted
    dedup_after-is_sorted kept [] h = refl
    dedup_after-is_sorted kept (x ∷ []) h = ground arith
    dedup_after-is_sorted kept (x ∷ y ∷ ys) h = ground (
      arith,
      trans kept x y,
      dedup_after-is_sorted kept (y ∷ ys),
      dedup_after-is_sorted x (y ∷ ys),
    )

    pub dedup_by-is_sorted :
        (xs : List A) → is_sorted le xs ≡ true → is_sorted le (dedup_by xs) ≡ true
    unfolding dedup_by is_sorted
    dedup_by-is_sorted [] h = refl
    dedup_by-is_sorted (x ∷ xs) h = dedup_after-is_sorted x xs h

-- What holds of the first of a sorted list and passes on to later elements, holds of all.
module _ {ℓ} {A : Type ℓ} (le : A → A → Bool) (p : A → Bool) where
  all-insert_by : (x : A) (ys : List A) → all p (insert_by le x ys) ≡ (p x && all p ys)
  unfolding insert_by
  all-insert_by x [] = refl
  all-insert_by x (y ∷ ys) = ground (arith, all-insert_by x ys)

  pub all-sort_by : (xs : List A) → all p (sort_by le xs) ≡ all p xs
  unfolding sort_by
  all-sort_by [] = refl
  all-sort_by (x ∷ xs) = ground (arith, all-insert_by x (sort_by le xs), all-sort_by xs)

  pub all-is_sorted :
      ((x y : A) → le x y ≡ true → p x ≡ true → p y ≡ true)
      → (x : A) (xs : List A) → is_sorted le (x ∷ xs) ≡ true
      → all p (x ∷ xs) ≡ p x
  unfolding is_sorted
  all-is_sorted up x [] h = ground arith
  all-is_sorted up x (y ∷ ys) h = ground (arith, up x y, all-is_sorted up y ys)

-- A list that is sorted is sorted by what its order implies.
pub is_sorted_weaken {ℓ} :
    {A : Type ℓ} (le le' : A → A → Bool)
    → ((x y : A) → le x y ≡ true → le' x y ≡ true)
    → (xs : List A) → is_sorted le xs ≡ true
    → is_sorted le' xs ≡ true
unfolding is_sorted
is_sorted_weaken le le' imp [] h = refl
is_sorted_weaken le le' imp (x ∷ []) h = refl
is_sorted_weaken le le' imp (x ∷ y ∷ ys) h =
    ground (arith, imp x y, is_sorted_weaken le le' imp (y ∷ ys))
