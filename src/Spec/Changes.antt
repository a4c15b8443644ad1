-- ===== src/Spec/Changes.antt =====
-- What the preview of master/src/spec.rs reports, tag by tag.
use text.Mathlib.Text.{◌==◌ as str_eq}
use text.Mathlib.TextEquality.{eq_iff}
use honey.Prelude.{
  String, Bool, true, false, ◌&&◌, Option, none, some, List, [], ◌∷◌, ◌++◌, if◌then◌else◌, is_some,
  ◌≡◌, ◌∙◌, refl, arith,
}
use honey.Prelude.Sort.{insert_by}
use honey.Spec.Messages.{InboundSummary, summary_eq}
use honey.Spec.Preview.{
  find, put, put_all, replace, tag_le, by_tag, Diff, visit_all_new, visit_all_old, visit_new,
  visit_old,
}

abbrev pub first_of : Option InboundSummary → Option InboundSummary → Option InboundSummary
first_of none later = later
first_of (some i) later = some i

find-append :
    (t : String) (xs ys : List InboundSummary)
    → find t (xs ++ ys) ≡ first_of (find t xs) (find t ys)
unfolding find
find-append t [] ys = refl
find-append t (x ∷ xs) ys = ground (arith, find-append t xs ys)

find-replace :
    (t : String) (x : InboundSummary) (is : List InboundSummary)
    → find t (replace x is)
      ≡ (if is_some (find x.tag is) && str_eq x.tag t then some x else find t is)
unfolding find replace
find-replace t x [] = refl
find-replace t x (i ∷ is) =
    ground (arith, find-replace t x is, eq_iff i.tag x.tag, eq_iff i.tag t, eq_iff x.tag t)

find-insert_by :
    (t : String) (x : InboundSummary) (is : List InboundSummary)
    → find x.tag is ≡ none
    → find t (insert_by tag_le x is) ≡ (if str_eq x.tag t then some x else find t is)
unfolding find insert_by
find-insert_by t x [] h = refl
find-insert_by t x (i ∷ is) h =
    ground (arith, find-insert_by t x is, eq_iff i.tag x.tag, eq_iff i.tag t, eq_iff x.tag t)

find-put :
    (t : String) (x : InboundSummary) (is : List InboundSummary)
    → find t (put x is) ≡ (if str_eq x.tag t then some x else find t is)
unfolding put
find-put t x is = ground (arith, find-replace t x is, find-insert_by t x is)

-- No tag stands twice.
abbrev pub IsUnique : List InboundSummary → Type 0
IsUnique [] = Unit
IsUnique (i ∷ is) = (find i.tag is ≡ none) × IsUnique is

replace-IsUnique :
    (x : InboundSummary) (is : List InboundSummary) → IsUnique is → IsUnique (replace x is)
unfolding find replace
replace-IsUnique x [] h = tt
replace-IsUnique x (i ∷ is) h = ground (
  arith,
  eq_iff i.tag x.tag,
  eq_iff x.tag i.tag,
  find-replace i.tag x is,
  replace-IsUnique x is h.1,
)

insert_by-IsUnique :
    (x : InboundSummary) (is : List InboundSummary)
    → find x.tag is ≡ none
    → IsUnique is
    → IsUnique (insert_by tag_le x is)
unfolding find insert_by
insert_by-IsUnique x [] k h = (refl, tt)
insert_by-IsUnique x (i ∷ is) k h = ground (
  arith,
  eq_iff i.tag x.tag,
  eq_iff x.tag i.tag,
  find-insert_by i.tag x is,
  insert_by-IsUnique x is,
)

put-IsUnique : (x : InboundSummary) (is : List InboundSummary) → IsUnique is → IsUnique (put x is)
unfolding put
put-IsUnique x is h = ground (arith, replace-IsUnique x is h, insert_by-IsUnique x is)

put_all-IsUnique : (xs tree : List InboundSummary) → IsUnique tree → IsUnique (put_all xs tree)
unfolding put_all
put_all-IsUnique [] tree h = h
put_all-IsUnique (x ∷ xs) tree h = put_all-IsUnique xs (put x tree) (put-IsUnique x tree h)

pub by_tag-IsUnique : (xs : List InboundSummary) → IsUnique (by_tag xs)
unfolding by_tag
by_tag-IsUnique xs = put_all-IsUnique xs [] tt

-- What stands under a tag in the desired specification, if the old one has none.
abbrev pub if_absent : Option InboundSummary → Option InboundSummary → Option InboundSummary
if_absent none new = new
if_absent (some prior) new = none

-- What stands under a tag in the desired specification, if the old one has another.
abbrev pub if_other : Option InboundSummary → Option InboundSummary → Option InboundSummary
if_other none new = none
if_other (some prior) none = none
if_other (some prior) (some new) = if summary_eq prior new then none else some new

-- One round of each loop, as a change of what stands under a tag.
module _ (t : String) (i : InboundSummary) (d : Diff) where
  find-visit_new_added :
      (o : Option InboundSummary)
      → find t (visit_new i o d).added
        ≡ first_of (find t d.added) (if str_eq i.tag t then if_absent o (some i) else none)
  unfolding find visit_new
  find-visit_new_added none = ground (arith, find-append t d.added (i ∷ []))
  find-visit_new_added (some p) = ground arith

  find-visit_new_modified :
      (o : Option InboundSummary)
      → find t (visit_new i o d).modified
        ≡ first_of (find t d.modified) (if str_eq i.tag t then if_other o (some i) else none)
  unfolding find visit_new
  find-visit_new_modified none = ground arith
  find-visit_new_modified (some p) = ground (arith, find-append t d.modified (i ∷ []))

  removed-visit_new : (o : Option InboundSummary) → (visit_new i o d).removed ≡ d.removed
  unfolding visit_new
  removed-visit_new none = refl
  removed-visit_new (some p) = ground arith

  find-visit_old_removed :
      (b : Bool)
      → find t (visit_old i b d).removed
        ≡ first_of
            (find t d.removed)
            (if str_eq i.tag t then (if b then none else some i) else none)
  unfolding find visit_old
  find-visit_old_removed true = ground arith
  find-visit_old_removed false = ground (arith, find-append t d.removed (i ∷ []))

  others-visit_old :
      (b : Bool) → ((visit_old i b d).added ≡ d.added) × ((visit_old i b d).modified ≡ d.modified)
  unfolding visit_old
  others-visit_old true = (refl, refl)
  others-visit_old false = (refl, refl)

pub find-added :
    (t : String) (old new : List InboundSummary) (d : Diff)
    → find t (visit_all_new old new d).added
      ≡ first_of (find t d.added) (if_absent (find t old) (find t new))
unfolding visit_all_new find
find-added t old [] d = ground arith
find-added t old (i ∷ is) d =
    let o = find i.tag old in
    find-added t old is (visit_new i o d)
    ∙ ground (arith, find-visit_new_added t i d o, eq_iff i.tag t)

pub find-modified :
    (t : String) (old new : List InboundSummary) (d : Diff)
    → IsUnique new
    → find t (visit_all_new old new d).modified
      ≡ first_of (find t d.modified) (if_other (find t old) (find t new))
unfolding visit_all_new find
find-modified t old [] d h = ground arith
find-modified t old (i ∷ is) d h =
    let o = find i.tag old in
    find-modified t old is (visit_new i o d) h.1
    ∙ ground (arith, find-visit_new_modified t i d o, eq_iff i.tag t, h.0)

pub removed-visit_all_new :
    (old new : List InboundSummary) (d : Diff) → (visit_all_new old new d).removed ≡ d.removed
unfolding visit_all_new
removed-visit_all_new old [] d = refl
removed-visit_all_new old (i ∷ is) d =
    let o = find i.tag old in
    removed-visit_all_new old is (visit_new i o d) ∙ removed-visit_new i.tag i d o

pub others-visit_all_old :
    (new old : List InboundSummary) (d : Diff)
    → ((visit_all_old new old d).added ≡ d.added)
      × ((visit_all_old new old d).modified ≡ d.modified)
unfolding visit_all_old
others-visit_all_old new [] d = (refl, refl)
others-visit_all_old new (i ∷ is) d =
    let b = is_some (find i.tag new) in
    let now = others-visit_old i.tag i d b in
    let later = others-visit_all_old new is (visit_old i b d) in (later.0 ∙ now.0, later.1 ∙ now.1)

pub find-removed :
    (t : String) (new old : List InboundSummary) (d : Diff)
    → find t (visit_all_old new old d).removed
      ≡ first_of (find t d.removed) (if_absent (find t new) (find t old))
unfolding visit_all_old find
find-removed t new [] d = ground arith
find-removed t new (i ∷ is) d =
    let b = is_some (find i.tag new) in
    find-removed t new is (visit_old i b d)
    ∙ ground (arith, find-visit_old_removed t i d b, eq_iff i.tag t)
