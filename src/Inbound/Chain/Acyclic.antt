-- ===== src/Inbound/Chain/Acyclic.antt =====
-- No chain of upstreams ever loops.
use native.Mathlib.Decide.{ℕ_discrete}
use honey.Prelude.{
  ℕ, zero, suc, String, Option, none, some, ◌≡◌, ◌≢◌, refl, sym, ap, subst, ◌∙◌, arith,
  Option-cases, inl, inr, unwrap_or, and_then,
}
use honey.Prelude.Keys.{get, insert, get-insert, nat_eq}
use honey.Api.{ok, IsAccepted}
use honey.Inbound.{Patch, missing, null, value, Inbound, NewInbound, UpdateInbound}
use honey.Inbound.Store.{Fresh, create_inbound, update_inbound, patch_parts, case_when}
use honey.Inbound.Chain.{
  Inbounds, Walk, stopped, walk, walked, validate_upstream, create, check_patch, update,
}

unfoldable pub upstream_of : Inbounds → ℕ → Option ℕ
upstream_of store id = and_then (get id store) (λ row. row.upstream_inbound_id)

-- The chain that starts at an inbound ends after finitely many hops.
pub data Ends (store : Inbounds) : ℕ → Type 0 where
  stops : (id : ℕ) → upstream_of store id ≡ none → Ends store id
  hops : (id next : ℕ) → upstream_of store id ≡ some next → Ends store next → Ends store id

-- Two stores whose chains differ at one inbound at most.
abbrev Agree : ℕ → Inbounds → Inbounds → Type 0
Agree self store store' = (id : ℕ) → id ≢ self → upstream_of store' id ≡ upstream_of store id

insert-Agree :
    (self : ℕ) (row : Inbound) (store : Inbounds) → Agree self store (insert self row store)
unfolding upstream_of
insert-Agree self row store id other = ground (arith, get-insert self id row store)

Ends-transfer :
    (self : ℕ) (store store' : Inbounds)
    → Agree self store store'
    → Ends store' self
    → (id : ℕ) → Ends store id
    → Ends store' id
Ends-transfer self store store' agree ends id (stops _ e) = elim (ℕ_discrete id self) [
  | yes same ↦ subst (Ends store') (sym same) ends
  | no other ↦ stops id (agree id other ∙ e)
]
Ends-transfer self store store' agree ends id (hops _ next e rest) = elim (ℕ_discrete id self) [
  | yes same ↦ subst (Ends store') (sym same) ends
  | no other ↦
      hops id next (agree id other ∙ e) (Ends-transfer self store store' agree ends next rest)
]

-- One round of the loop that does not end it badly.
walk-suc :
    (store : Inbounds) (self n next : ℕ)
    → walk store self (suc n) (some next) ≡ stopped none
    → (next ≢ self) × (walk store self n (upstream_of store next) ≡ stopped none)
unfolding walk upstream_of
walk-suc store self n next e = ground arith

walk-Ends :
    (self : ℕ) (store store' : Inbounds)
    → Agree self store store'
    → (n id : ℕ) → walk store self n (some id) ≡ stopped none
    → Ends store' id
unfolding walk
walk-Ends self store store' agree zero id e = ground arith
walk-Ends self store store' agree (suc n) id e =
    let round = walk-suc store self n id e in
    elim (Option-cases (upstream_of store id)) [
      | inl none_left ↦ stops id (agree id round.0 ∙ none_left)
      | inr (next, found) ↦
          hops id next (agree id round.0 ∙ found) (
            walk-Ends self store store' agree n next (ap (walk store self n) (sym found) ∙ round.1))
    ]

walked-stopped : (w : Walk) → IsAccepted (walked w) → w ≡ stopped none
walked-stopped w h = ground arith

accepted-walk :
    (self upstream : ℕ) (entry_core : String) (store : Inbounds)
    → IsAccepted (validate_upstream store (some upstream) (some self) entry_core)
    → walk store self (suc 8) (some upstream) ≡ stopped none
unfolding validate_upstream walk
accepted-walk self upstream entry_core store h = elim (Option-cases (get upstream store)) [
  | inl gone ↦ ground arith
  | inr (exit, found) ↦ ground (arith, walked-stopped (walk store self 8 exit.upstream_inbound_id))
]

accepted-Ends :
    (self upstream : ℕ) (entry_core : String) (store store' : Inbounds)
    → Agree self store store'
    → IsAccepted (validate_upstream store (some upstream) (some self) entry_core)
    → Ends store' upstream
accepted-Ends self upstream entry_core store store' agree h =
    walk-Ends self store store' agree 9 upstream (accepted-walk self upstream entry_core store h)

change-ok :
    (fresh : Fresh) (id : ℕ) (input : UpdateInbound) (store store' : Inbounds) (row : Inbound)
    → update fresh id input store ≡ ok store'
    → get id store ≡ some row
    → (store' ≡ insert id (update_inbound fresh input row) store)
      × IsAccepted (check_patch store id input.upstream_inbound_id (unwrap_or input.core row.core))
unfolding update
change-ok fresh id input store store' row h found = ground arith

absent-refused :
    (fresh : Fresh) (id : ℕ) (input : UpdateInbound) (store store' : Inbounds)
    → update fresh id input store ≡ ok store'
    → get id store ≢ none
unfolding update
absent-refused fresh id input store store' h = λ gone. ground arith

upstream_of-insert :
    (id : ℕ) (row : Inbound) (store : Inbounds)
    → upstream_of (insert id row store) id ≡ row.upstream_inbound_id
unfolding upstream_of
upstream_of-insert id row store = ground (arith, get-insert id id row store)

Ends-same :
    (store store' : Inbounds)
    → ((i : ℕ) → upstream_of store' i ≡ upstream_of store i)
    → (i : ℕ) → Ends store i
    → Ends store' i
Ends-same store store' same i (stops _ e) = stops i (same i ∙ e)
Ends-same store store' same i (hops _ next e rest) =
    hops i next (same i ∙ e) (Ends-same store store' same next rest)

same-upstream :
    (id : ℕ) (row row' : Inbound) (store : Inbounds)
    → get id store ≡ some row
    → row'.upstream_inbound_id ≡ row.upstream_inbound_id
    → (i : ℕ) → upstream_of (insert id row' store) i ≡ upstream_of store i
unfolding upstream_of
same-upstream id row row' store found same i =
    ground (arith, get-insert id i row' store, nat_eq.beq_iff id i)

-- The inbound that is written ends, whatever the change says of its upstream.
written-Ends :
    (id : ℕ) (row row' : Inbound) (store : Inbounds) (patch : Patch ℕ) (core : String)
    → ((i : ℕ) → Ends store i)
    → get id store ≡ some row
    → row'.upstream_inbound_id ≡ case_when (patch_parts patch) row.upstream_inbound_id
    → IsAccepted (check_patch store id patch core)
    → Ends (insert id row' store) id
unfolding patch_parts
written-Ends id row row' store missing core ends found e h =
    Ends-same store (insert id row' store) (same-upstream id row row' store found e) id (ends id)
written-Ends id row row' store null core ends found e h =
    stops id (upstream_of-insert id row' store ∙ e)
written-Ends id row row' store (value upstream) core ends found e h =
    hops id upstream (upstream_of-insert id row' store ∙ e)
      (accepted-Ends id upstream core store (insert id row' store) (insert-Agree id row' store) h)

-- A change that the handler accepts keeps every chain of upstreams finite, so that none loops.
pub update-Ends :
    (fresh : Fresh) (id : ℕ) (input : UpdateInbound) (store store' : Inbounds)
    → ((i : ℕ) → Ends store i)
    → update fresh id input store ≡ ok store'
    → (i : ℕ) → Ends store' i
unfolding update_inbound
update-Ends fresh id input store store' ends h i = elim (Option-cases (get id store)) [
  | inl gone ↦ absurd (absent-refused fresh id input store store' h gone)
  | inr (row, found) ↦
      let parts = change-ok fresh id input store store' row h found in
      let row' : Inbound = update_inbound fresh input row in
      subst (λ s. Ends s i) (sym parts.0)
        (Ends-transfer id store (insert id row' store) (insert-Agree id row' store)
          (written-Ends id row row' store input.upstream_inbound_id _ ends found refl parts.1) i
          (ends i))
]

-- A chain that never meets `self` stays as it is.
Ends-unnamed :
    (self : ℕ) (store store' : Inbounds)
    → Agree self store store'
    → ((i : ℕ) → upstream_of store i ≢ some self)
    → (i : ℕ) → i ≢ self
    → Ends store i
    → Ends store' i
Ends-unnamed self store store' agree unnamed i other (stops _ e) = stops i (agree i other ∙ e)
Ends-unnamed self store store' agree unnamed i other (hops _ next e rest) =
    hops i next (agree i other ∙ e) (
      Ends-unnamed self store store' agree unnamed next (λ same. unnamed i (e ∙ ap some same)) rest)

upstream-known :
    (upstream : Option ℕ) (core : String) (store : Inbounds) (u : ℕ)
    → IsAccepted (validate_upstream store upstream none core)
    → upstream ≡ some u
    → get u store ≢ none
unfolding validate_upstream
upstream-known none core store u h e = λ gone. ground arith
upstream-known (some v) core store u h e = λ gone. ground arith

create-ok :
    (fresh : Fresh) (input : NewInbound) (store store' : Inbounds)
    → create fresh input store ≡ ok store'
    → (store' ≡ insert fresh.id (create_inbound fresh input) store)
      × IsAccepted (validate_upstream store input.upstream_inbound_id none input.core)
unfolding create
create-ok fresh input store store' h = ground arith

created-Ends :
    (id : ℕ) (row : Inbound) (core : String) (store : Inbounds)
    → ((i : ℕ) → Ends store i)
    → get id store ≡ none
    → ((i : ℕ) → upstream_of store i ≢ some id)
    → IsAccepted (validate_upstream store row.upstream_inbound_id none core)
    → Ends (insert id row store) id
created-Ends id row core store ends new unnamed h = elim (Option-cases row.upstream_inbound_id) [
  | inl e ↦ stops id (upstream_of-insert id row store ∙ e)
  | inr (u, e) ↦ hops id u (upstream_of-insert id row store ∙ e) (
      Ends-unnamed id store (insert id row store) (insert-Agree id row store) unnamed u
        (λ same.
          upstream-known row.upstream_inbound_id core store u h e
            (ap (λ j. get j store) same ∙ new))
        (ends u))
]

-- A new inbound that the handler accepts keeps every chain finite too, if its identifier is new: no
-- inbound has it or names it as its upstream.
create-Ends :
    (fresh : Fresh) (input : NewInbound) (store store' : Inbounds)
    → ((i : ℕ) → Ends store i)
    → get fresh.id store ≡ none
    → ((i : ℕ) → upstream_of store i ≢ some fresh.id)
    → create fresh input store ≡ ok store'
    → (i : ℕ) → Ends store' i
unfolding create_inbound
create-Ends fresh input store store' ends new unnamed h i =
    let parts = create-ok fresh input store store' h in
    let row : Inbound = create_inbound fresh input in
    subst (λ s. Ends s i) (sym parts.0)
      (Ends-transfer fresh.id store (insert fresh.id row store) (insert-Agree fresh.id row store)
        (created-Ends fresh.id row input.core store ends new unnamed parts.1) i (ends i))
