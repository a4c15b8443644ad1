-- ===== src/Spec/Restarts.antt =====
-- What the preview of master/src/spec.rs as a whole reports: the three lists of changes and the cores
-- that a push restarts.
use text.Mathlib.Text.{◌==◌ as str_eq}
use text.Mathlib.TextEquality.{eq_iff}
use honey.Prelude.{
  String, Bool, true, false, ◌||◌, Option, none, some, List, [], ◌∷◌, ◌++◌, any, is_some,
  is_some_and, Bool-cases, inl, inr, ◌≡◌, refl, arith,
}
use honey.Api.Json.{Json}
use honey.Spec.Messages.{NodeSpec, InboundSummary, SpecSummary, summary_eq}
use honey.Spec.Preview.{
  find, by_tag, set_insert, Diff, empty_diff, visit_all_new, visit_all_old, visit_new, visit_old,
  diff, summarize, preview,
}
use honey.Spec.Changes.{
  if_absent, if_other, find-added, find-modified, find-removed, removed-visit_all_new,
  others-visit_all_old, by_tag-IsUnique,
}

abbrev member : String → List String → Bool
member c cs = any (str_eq c) cs

abbrev pub has_core : String → List InboundSummary → Bool
has_core c is = any (λ (i : InboundSummary). str_eq c i.core) is

-- Some of the inbounds had another core before.
abbrev pub had_core : String → List InboundSummary → List InboundSummary → Bool
had_core c old is =
    any
      (λ (i : InboundSummary).
        is_some_and (find i.tag old) (λ (p : InboundSummary). str_eq c p.core))
      is

member-set_insert :
    (c x : String) (ys : List String) → member c (set_insert x ys) ≡ (str_eq c x || member c ys)
unfolding set_insert
member-set_insert c x [] = refl
member-set_insert c x (y ∷ ys) =
    ground (arith, member-set_insert c x ys, eq_iff y x, eq_iff c x, eq_iff c y)

any-append {ℓ} :
    {A : Type ℓ} (p : A → Bool) (xs ys : List A) → any p (xs ++ ys) ≡ (any p xs || any p ys)
any-append p [] ys = refl
any-append p (x ∷ xs) ys = ground (arith, any-append p xs ys)

regroup :
    (new prior a r m h : Bool)
    → (new || (prior || (a || r || m || h)))
      ≡ (a || r || (m || (new || false)) || (h || (prior || false)))
regroup new prior a r m h = ground arith

module _ (c : String) (old : List InboundSummary) where
  -- A core restarts exactly if a change is about it.
  abbrev IsAccounted : Diff → Type 0
  IsAccounted d = member c d.restart_cores ≡ (
      has_core c d.added
      || has_core c d.removed
      || has_core c d.modified
      || had_core c old d.modified)

  abbrev runs_on : InboundSummary → Bool
  runs_on i = str_eq c i.core

  abbrev ran_on : InboundSummary → Bool
  ran_on i = is_some_and (find i.tag old) (λ (p : InboundSummary). str_eq c p.core)

  visit_new-IsAccounted :
      (i : InboundSummary) (d : Diff) (o : Option InboundSummary)
      → find i.tag old ≡ o
      → IsAccounted d
      → IsAccounted (visit_new i o d)
  unfolding visit_new
  visit_new-IsAccounted i d none e h =
      ground
        (arith, member-set_insert c i.core d.restart_cores, any-append runs_on d.added (i ∷ []))
  visit_new-IsAccounted i d (some p) e h = elim (Bool-cases (summary_eq p i)) [
    | inl same ↦ rw same h
    | inr other ↦ rw other (
        rw (member-set_insert c i.core (set_insert p.core d.restart_cores)) (
          rw (member-set_insert c p.core d.restart_cores) (
            rw (any-append runs_on d.modified (i ∷ [])) (
              rw (any-append ran_on d.modified (i ∷ [])) (
                rw e (
                  rw h (
                    regroup (runs_on i) (str_eq c p.core) (has_core c d.added)
                      (has_core c d.removed) (has_core c d.modified)
                      (had_core c old d.modified))))))))
  ]

  visit_old-IsAccounted :
      (i : InboundSummary) (d : Diff) (b : Bool) → IsAccounted d → IsAccounted (visit_old i b d)
  unfolding visit_old
  visit_old-IsAccounted i d true h = h
  visit_old-IsAccounted i d false h =
      ground
        (arith, member-set_insert c i.core d.restart_cores, any-append runs_on d.removed (i ∷ []))

  visit_all_new-IsAccounted :
      (is : List InboundSummary) (d : Diff) → IsAccounted d → IsAccounted (visit_all_new old is d)
  unfolding visit_all_new
  visit_all_new-IsAccounted [] d h = h
  visit_all_new-IsAccounted (i ∷ is) d h =
      visit_all_new-IsAccounted is (visit_new i (find i.tag old) d)
        (visit_new-IsAccounted i d (find i.tag old) refl h)

  visit_all_old-IsAccounted :
      (new is : List InboundSummary) (d : Diff)
      → IsAccounted d
      → IsAccounted (visit_all_old new is d)
  unfolding visit_all_old
  visit_all_old-IsAccounted new [] d h = h
  visit_all_old-IsAccounted new (i ∷ is) d h =
      let b = is_some (find i.tag new) in
      visit_all_old-IsAccounted new is (visit_old i b d) (visit_old-IsAccounted i d b h)

module _ (spec_hash : NodeSpec → String) (from_value : Json → Option SpecSummary) (spec : NodeSpec)
    (applied_hash : Option String) (json : Json) (previous : SpecSummary)
    (read : from_value json ≡ some previous) where
  -- With a summary of what was applied, the preview is exact at every tag: an inbound is listed as
  -- added if only the desired specification has the tag, as removed if only the applied one has it,
  -- and as modified, with its desired value, if both have it and any field of their summaries differs.
  pub preview_exact :
      (t : String)
      → let p = preview spec_hash from_value spec applied_hash (some json) in
        let old = by_tag previous.inbounds in
        let new = by_tag (summarize spec).inbounds in
        (find t p.added ≡ if_absent (find t old) (find t new))
        × (find t p.removed ≡ if_absent (find t new) (find t old))
        × (find t p.modified ≡ if_other (find t old) (find t new))
  unfolding preview diff find
  preview_exact t =
      let old = by_tag previous.inbounds in
      let new = by_tag (summarize spec).inbounds in
      let mid = visit_all_new old new empty_diff in
      let kept = others-visit_all_old new old mid in
      ground (
        arith,
        read,
        kept,
        find-added t old new empty_diff,
        find-modified t old new empty_diff (by_tag-IsUnique (summarize spec).inbounds),
        find-removed t new old mid,
        removed-visit_all_new old new empty_diff,
      )

  -- A core is among those to restart exactly if an added, removed or modified inbound runs on it, or a
  -- modified one ran on it before.
  pub restart_cores_exact :
      (c : String)
      → let p = preview spec_hash from_value spec applied_hash (some json) in
        any (str_eq c) p.restart_cores ≡ (
          has_core c p.added
          || has_core c p.removed
          || has_core c p.modified
          || had_core c (by_tag previous.inbounds) p.modified)
  unfolding preview diff
  restart_cores_exact c =
      let old = by_tag previous.inbounds in
      let new = by_tag (summarize spec).inbounds in
      let mid = visit_all_new old new empty_diff in
      let done =
        visit_all_old-IsAccounted c old new old mid
          (visit_all_new-IsAccounted c old new empty_diff refl) in
      rw read done
