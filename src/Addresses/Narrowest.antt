-- ===== src/Addresses/Narrowest.antt =====
-- Which range of the location table answers for an address.
use honey.Prelude.{
  ℕ, ◌+◌, ◌≤◌, Bool, true, false, not, ◌&&◌, ◌||◌, Option, none, some, List, [], ◌∷◌, ◌≡◌, refl,
  sym, subst, arith, ltb, leb, all, Bool-cases, inl, inr, is_none_or,
}
use honey.Addresses.{Range, covers, width, better, scan}

-- In the order of their starts, as the table is sorted when it is loaded.
abbrev pub Sorted : List Range → Type 0
Sorted [] = Unit
Sorted (r ∷ table) = (all (λ s. leb r.start s.start) table ≡ true) × Sorted table

-- A range that does not cover the key, or is no narrower than the best.
abbrev pub is_beaten : ℕ → Option Range → Range → Bool
is_beaten key none r = not (covers key r)
is_beaten key (some b) r = not (covers key r) || leb (width b) (width r)

beaten_late :
    (key : ℕ) (best : Option Range) (start : ℕ) (table : List Range)
    → key + 1 ≤ start
    → all (λ s. leb start s.start) table ≡ true
    → all (is_beaten key best) table ≡ true
beaten_late key best start [] late h = refl
beaten_late key none start (r ∷ table) late h =
    ground (arith, beaten_late key none start table late)
beaten_late key (some b) start (r ∷ table) late h =
    ground (arith, beaten_late key (some b) start table late)

better-beats :
    (key : ℕ) (best : Option Range) (s r : Range)
    → is_beaten key best r ≡ true
    → is_beaten key (better key best s) r ≡ true
better-beats key none s r h = ground arith
better-beats key (some b) s r h = ground arith

better-beats_self :
    (key : ℕ) (best : Option Range) (s : Range) → is_beaten key (better key best s) s ≡ true
better-beats_self key none s = ground arith
better-beats_self key (some b) s = ground arith

both : {a b : Bool} → a ≡ true → b ≡ true → (a && b) ≡ true
both h k = ground arith

first_of : (a b : Bool) → (a && b) ≡ true → a ≡ true
first_of a b h = ground arith

rest_of : (a b : Bool) → (a && b) ≡ true → b ≡ true
rest_of a b h = ground arith

first_late :
    (key : ℕ) (best : Option Range) (s : Range)
    → ltb key s.start ≡ true
    → is_beaten key best s ≡ true
first_late key none s h = ground arith
first_late key (some b) s h = ground arith

better-passes :
    (key : ℕ) (p : Range → Bool) (best : Option Range) (s : Range)
    → ltb key s.start ≡ false
    → p s ≡ true
    → is_none_or best (λ r. covers key r && p r) ≡ true
    → is_none_or (better key best s) (λ r. covers key r && p r) ≡ true
better-passes key p none s near h k = ground arith
better-passes key p (some b) s near h k = ground arith

-- What the best so far beats, the result beats too.
scan-beats :
    (key : ℕ) (best : Option Range) (table : List Range) (r : Range)
    → is_beaten key best r ≡ true
    → is_beaten key (scan key best table) r ≡ true
unfolding scan
scan-beats key best [] r h = h
scan-beats key best (s ∷ table) r h =
    let later = scan-beats key (better key best s) table r (better-beats key best s r h) in
    elim (Bool-cases (ltb key s.start)) [ inl past ↦ rw past h | inr near ↦ rw near later ]

scan-past :
    (key : ℕ) (best : Option Range) (s : Range) (table : List Range)
    → ltb key s.start ≡ true
    → scan key best (s ∷ table) ≡ best
unfolding scan
scan-past key best s table past = rw past refl

scan-near :
    (key : ℕ) (best : Option Range) (s : Range) (table : List Range)
    → ltb key s.start ≡ false
    → scan key best (s ∷ table) ≡ scan key (better key best s) table
unfolding scan
scan-near key best s table near = rw near refl

scan-beats_all :
    (key : ℕ) (best : Option Range) (table : List Range)
    → Sorted table
    → all (is_beaten key (scan key best table)) table ≡ true
scan-beats_all key best [] h = refl
scan-beats_all key best (s ∷ table) h = elim (Bool-cases (ltb key s.start)) [
  | inl past ↦
      subst (λ o. all (is_beaten key o) (s ∷ table) ≡ true) (sym (scan-past key best s table past))
        (both (first_late key best s past) (beaten_late key best s.start table (ground arith) h.0))
  | inr near ↦
      subst (λ o. all (is_beaten key o) (s ∷ table) ≡ true) (sym (scan-near key best s table near))
        (both (scan-beats key (better key best s) table s (better-beats_self key best s))
          (scan-beats_all key (better key best s) table h.1))
]

-- A test that every range passes, and the covering of the key, hold of the result.
scan-passes :
    (key : ℕ) (p : Range → Bool) (best : Option Range) (table : List Range)
    → all p table ≡ true
    → is_none_or best (λ r. covers key r && p r) ≡ true
    → is_none_or (scan key best table) (λ r. covers key r && p r) ≡ true
unfolding scan
scan-passes key p best [] h k = k
scan-passes key p best (s ∷ table) h k = elim (Bool-cases (ltb key s.start)) [
  | inl past ↦ rw past k
  | inr near ↦ rw near (
      scan-passes key p (better key best s) table (rest_of (p s) (all p table) h)
        (better-passes key p best s near (first_of (p s) (all p table) h) k))
]

-- In a table sorted by start, the range that answers for a key covers it, is one of the table, in that
-- it passes every test that all of them pass, and no range that covers the key is narrower; if none
-- answers, none covers it.
pub scan-narrowest :
    (key : ℕ) (p : Range → Bool) (table : List Range)
    → Sorted table
    → all p table ≡ true
    → (is_none_or (scan key none table) (λ r. covers key r && p r) ≡ true)
      × (all (is_beaten key (scan key none table)) table ≡ true)
scan-narrowest key p table h k =
    (scan-passes key p none table k refl, scan-beats_all key none table h)
