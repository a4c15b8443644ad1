-- ===== src/Logs/Recent.antt =====
-- The ring of master/src/logbuf.rs as what it stands for: the last records.
use mathlib.Core.List.{reverse, append_assoc, append-nil}
use honey.Prelude.{
  ℕ, suc, ◌-◌, ◌≤◌, String, Option, List, [], ◌∷◌, ◌++◌, ◌==◌, filter, take, drop, length,
  length-append, min, Bool-cases, inl, inr, ◌≡◌, ◌∙◌, refl, sym, arith,
}
use honey.Logs.{LogRecord, capacity, push, matches_filter, search}

-- The last `n` elements.
abbrev pub last {ℓ} : {A : Type ℓ} → ℕ → List A → List A
last n xs = drop (length xs - n) xs

unfoldable pub push_all : List LogRecord → List LogRecord → List LogRecord
unfolding push
push_all [] ring = ring
push_all (r ∷ rs) ring = push_all rs (push r ring)

last-cons {ℓ} :
    {A : Type ℓ} (n : ℕ) (x : A) (xs : List A) → n ≤ length xs → last n (x ∷ xs) ≡ last n xs
last-cons n x xs h = let e : suc (length xs) - n ≡ suc (length xs - n) = omega arith in rw e refl

last-all {ℓ} : {A : Type ℓ} (n : ℕ) (xs : List A) → length xs ≤ n → last n xs ≡ xs
last-all n xs h = let e : length xs - n ≡ 0 = omega arith in rw e refl

length-push :
    (r : LogRecord) (ring : List LogRecord)
    → length ring ≤ capacity
    → length (push r ring) ≤ capacity
unfolding push
length-push r [] h = ground (arith)
length-push r (x ∷ ring) h =
    ground (arith, length-append ring (r ∷ []), length-append (x ∷ ring) (r ∷ []))

last-push :
    (r : LogRecord) (ring rs : List LogRecord)
    → length ring ≤ capacity
    → last capacity (push r ring ++ rs) ≡ last capacity (ring ++ r ∷ rs)
unfolding push
last-push r [] rs h = refl
last-push r (x ∷ ring) rs h = elim (Bool-cases (length (x ∷ ring) == capacity)) [
  | inl full ↦ rw full (
      rw (append_assoc ring (r ∷ []) rs) (
        sym (
          last-cons capacity x (ring ++ r ∷ rs)
            (ground (arith, full, length-append ring (r ∷ rs))))))
  | inr room ↦ rw room (rw (append_assoc ring (r ∷ []) rs) refl)
]

push_all-last :
    (rs ring : List LogRecord)
    → length ring ≤ capacity
    → push_all rs ring ≡ last capacity (ring ++ rs)
unfolding push_all
push_all-last [] ring h = rw (append-nil ring) (sym (last-all capacity ring h))
push_all-last (r ∷ rs) ring h =
    push_all-last rs (push r ring) (length-push r ring h) ∙ last-push r ring rs h

-- The log in memory is the last 500 records: after any records the search answers the newest first,
-- of those 500 that pass the filter, and at most as many as it is asked for.
pub search_refines :
    (rs : List LogRecord) (limit : ℕ) (level code query : Option String)
    → search limit level code query (push_all rs [])
      ≡ take
          (min limit capacity)
          (filter (matches_filter level code query) (reverse (last capacity rs)))
unfolding search
search_refines rs limit level code query = rw (push_all-last rs [] (omega arith)) refl
