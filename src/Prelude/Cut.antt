-- ===== src/Prelude/Cut.antt =====
-- A list cut in two, and what is so of both parts, for a sorted list above all.
use honey.Prelude.{
  ℕ, zero, suc, ◌≤◌, Bool, true, ◌||◌, List, [], ◌∷◌, any, all, count, ◌+◌, take, drop, length, ◌≡◌,
  refl, arith,
}
use honey.Prelude.Sort.{sort_by, insert_by, is_sorted}
use honey.Prelude.Keys.{string_eq}

pub any-take-drop {ℓ} :
    {A : Type ℓ} (p : A → Bool) (n : ℕ) (xs : List A)
    → (any p (take n xs) || any p (drop n xs)) ≡ any p xs
any-take-drop p zero xs = refl
any-take-drop p (suc n) [] = refl
any-take-drop p (suc n) (x ∷ xs) = ground (arith, any-take-drop p n xs)

pub length-take {ℓ} : {A : Type ℓ} (n : ℕ) (xs : List A) → n ≤ length xs → length (take n xs) ≡ n
length-take zero xs h = refl
length-take (suc n) [] h = absurd (omega arith)
length-take (suc n) (x ∷ xs) h = omega (arith, length-take n xs)

pub length-insert_by {ℓ} :
    {A : Type ℓ} (le : A → A → Bool) (x : A) (ys : List A)
    → length (insert_by le x ys) ≡ suc (length ys)
unfolding insert_by
length-insert_by le x [] = refl
length-insert_by le x (y ∷ ys) = ground (arith, length-insert_by le x ys)

pub length-sort_by {ℓ} :
    {A : Type ℓ} (le : A → A → Bool) (xs : List A) → length (sort_by le xs) ≡ length xs
unfolding sort_by
length-sort_by le [] = refl
length-sort_by le (x ∷ xs) =
    ground (arith, length-insert_by le x (sort_by le xs), length-sort_by le xs)

-- Of a sorted list, what stands in front of a cut is not after what stands behind it.
module _ {ℓ} {A : Type ℓ} (le : A → A → Bool)
    (trans : (x y z : A) → le x y ≡ true → le y z ≡ true → le x z ≡ true) where
  all_below :
      (x y : A) (ys : List A)
      → le x y ≡ true
      → is_sorted le (y ∷ ys) ≡ true
      → all (le x) (y ∷ ys) ≡ true
  unfolding is_sorted
  all_below x y [] h k = ground arith
  all_below x y (z ∷ zs) h k = ground (arith, trans x y z, all_below x z zs)

  pub all-drop : (p : A → Bool) (n : ℕ) (xs : List A) → all p xs ≡ true → all p (drop n xs) ≡ true
  all-drop p zero xs h = h
  all-drop p (suc n) [] h = h
  all-drop p (suc n) (x ∷ xs) h = ground (arith, all-drop p n xs)

  all_first : (x : A) (xs : List A) → is_sorted le (x ∷ xs) ≡ true → all (le x) xs ≡ true
  unfolding is_sorted
  all_first x [] h = refl
  all_first x (y ∷ ys) h = all_below x y ys (ground arith) (ground arith)

  pub sorted_split :
      (n : ℕ) (xs : List A)
      → is_sorted le xs ≡ true
      → all (λ (x : A). all (le x) (drop n xs)) (take n xs) ≡ true
  unfolding is_sorted
  sorted_split zero xs h = refl
  sorted_split (suc n) [] h = refl
  sorted_split (suc n) (x ∷ xs) h =
      ground (arith, sorted_split n xs, all-drop (le x) n xs, all_first x xs h)

pub count-take-drop {ℓ} :
    {A : Type ℓ} (p : A → Bool) (n : ℕ) (xs : List A)
    → count p (take n xs) + count p (drop n xs) ≡ count p xs
count-take-drop p zero xs = omega arith
count-take-drop p (suc n) [] = refl
count-take-drop p (suc n) (x ∷ xs) = ground (arith, count-take-drop p n xs)

pub counted {ℓ} : {A : Type ℓ} (p : A → Bool) (xs : List A) → any p xs ≡ true → 1 ≤ count p xs
counted p [] h = absurd (cc)
counted p (x ∷ xs) h = ground (arith, counted p xs)

pub all-take {ℓ} :
    {A : Type ℓ} (p : A → Bool) (n : ℕ) (xs : List A) → all p xs ≡ true → all p (take n xs) ≡ true
all-take p zero xs h = refl
all-take p (suc n) [] h = h
all-take p (suc n) (x ∷ xs) h = ground (arith, all-take p n xs)
