-- ===== src/Spec/Served.antt =====
-- When a specification can be built, and whom its inbounds serve.
use honey.Prelude.{
  ℕ, String, Bool, true, false, not, ◌&&◌, ◌||◌, Option, none, some, List, [], ◌∷◌, ◌++◌, is_some,
  is_none_or, and_then, map_option, Bool-cases, inl, inr, ◌≡◌, ◌∙◌, refl, sym, subst, arith,
}
use honey.Api.{ℤ, pos, negsuc, is_port, IsAccepted, Check, ok, err, require_not, ◌≫◌}
use honey.Api.Json.{Json}
use honey.Inbound.{Inbound, NewInbound}
use honey.Inbound.Store.{Fresh, create_inbound}
use honey.Inbound.Validate.{validate_inbound_basics}
use honey.Inbound.Validate.Requests.{validate_inbound}
use honey.Inbound.Security.{Stored, Stored-IsSound}
use honey.Spec.Messages.{WireInbound}
use honey.Spec.Build.{
  Member, ChainUser, checked_port, handshake_port, needs_tls, build_reality, build_tls,
  build_inbound, build_inbounds, upstream_outbound,
}

is_some-checked_port : (p : ℤ) → is_some (checked_port p) ≡ is_port p
is_some-checked_port (pos n) = ground arith
is_some-checked_port (negsuc n) = refl

-- No TLS block is written, or none with REALITY, or the handshake port is missing or in range.
abbrev pub has_good_handshake : Inbound → Bool
has_good_handshake ib =
    not (needs_tls ib) || not ib.reality || is_none_or ib.reality_handshake_port is_port

is_some-map_option {ℓ κ} :
    {A : Type ℓ} {B : Type κ} (f : A → B) (o : Option A) → is_some (map_option f o) ≡ is_some o
is_some-map_option f none = refl
is_some-map_option f (some a) = refl

is_some-three {ℓ κ μ ν} :
    {A : Type ℓ} {B : Type κ} {C : Type μ} {D : Type ν} (o : Option A) (p : Option B) (q : Option C)
    (f : A → B → C → D)
    → is_some (and_then o (λ (a : A). and_then p (λ (b : B). map_option (f a b) q)))
      ≡ (is_some o && is_some p && is_some q)
is_some-three none p q f = refl
is_some-three (some a) none q f = refl
is_some-three (some a) (some b) q f = is_some-map_option (f a b) q

and_then-none {ℓ κ} :
    {A : Type ℓ} {B : Type κ} (o : Option A) (f : A → Option B)
    → ((a : A) → f a ≡ none)
    → and_then o f ≡ none
and_then-none none f h = refl
and_then-none (some a) f h = h a

none_of {ℓ} : {A : Type ℓ} (o : Option A) → is_some o ≡ false → o ≡ none
none_of none h = refl
none_of (some a) h = absurd (cc)

is_some-handshake_port : (p : Option ℤ) → is_some (handshake_port p) ≡ is_none_or p is_port
is_some-handshake_port none = refl
is_some-handshake_port (some p) = is_some-checked_port p

is_some-build_reality :
    (ib : Inbound)
    → is_some (build_reality ib) ≡ (not ib.reality || is_none_or ib.reality_handshake_port is_port)
unfolding build_reality
is_some-build_reality ib = elim (Bool-cases ib.reality) [
  | inl e ↦ rw e (
      is_some-map_option _ (handshake_port ib.reality_handshake_port)
      ∙ is_some-handshake_port ib.reality_handshake_port)
  | inr e ↦ rw e refl
]

is_some-build_tls : (ib : Inbound) → is_some (build_tls ib) ≡ has_good_handshake ib
unfolding build_tls
is_some-build_tls ib = elim (Bool-cases (needs_tls ib)) [
  | inl e ↦ rw e (is_some-map_option _ (build_reality ib) ∙ is_some-build_reality ib)
  | inr e ↦ rw e refl
]

validate-any_handshake :
    (input : NewInbound) (p : Option ℤ)
    → validate_inbound (record input { reality_handshake_port = p }) ≡ validate_inbound input
unfolding validate_inbound
validate-any_handshake input p = refl

second_passed :
    (c : Check) (b : Bool) (m : String) (d : Check)
    → IsAccepted (c ≫ (require_not b m ≫ d))
    → b ≡ false
second_passed (err e) b m d h = absurd (cc)
second_passed (ok u) true m d h = absurd (cc)
second_passed (ok u) false m d h = refl

-- REALITY is accepted with TLS only.
tls_of_reality :
    (input : NewInbound)
    → IsAccepted (validate_inbound input)
    → input.reality ≡ true
    → input.tls_enabled ≡ true
unfolding validate_inbound
tls_of_reality input accepted reality =
    let basics =
      validate_inbound_basics input.tag input.kind input.core input.listen_port input.extra in
    let tls : (input.reality && not input.tls_enabled) ≡ false =
      second_passed basics _ _ _ accepted in
    ground (arith, reality, tls)

module _ (to_text : Json → String) (now : ℕ) (members : List Member) (chain : ℕ → List ChainUser)
    (outbound : Inbound → ℕ → Option String) where
  abbrev built : Inbound → Option WireInbound
  built = build_inbound to_text now members chain outbound

  abbrev exit_found : Inbound → Bool
  exit_found ib =
      is_some (upstream_outbound to_text now members chain outbound ib ib.upstream_inbound_id)

  is_some-build_inbound :
      (ib : Inbound)
      → is_some (built ib) ≡ (is_port ib.listen_port && exit_found ib && has_good_handshake ib)
  unfolding build_inbound
  is_some-build_inbound ib =
      is_some-three (checked_port ib.listen_port) _ (build_tls ib) _
      ∙ ground (arith, is_some-checked_port ib.listen_port, is_some-build_tls ib)

  -- An inbound that the API stored is built exactly if its exit, where it names one, can be and the
  -- port of a REALITY handshake that is written is missing or in range.
  pub build_inbound_iff :
      (ib : Inbound)
      → Stored ib
      → is_some (build_inbound to_text now members chain outbound ib) ≡ (
          is_some (upstream_outbound to_text now members chain outbound ib ib.upstream_inbound_id)
          && has_good_handshake ib)
  build_inbound_iff ib stored =
      let sound = Stored-IsSound ib stored in is_some-build_inbound ib ∙ rw (sound.3) refl

  none-build_inbounds :
      (before after : List Inbound) (ib : Inbound)
      → built ib ≡ none
      → build_inbounds to_text now members chain outbound (before ++ ib ∷ after) ≡ none
  unfolding build_inbounds
  none-build_inbounds [] after ib h = rw h refl
  none-build_inbounds (b ∷ before) after ib h =
      rw (none-build_inbounds before after ib h) (and_then-none (built b) _ (λ w. refl))

  -- A new inbound's REALITY handshake port is not checked: with any value, in range or not, the same
  -- request is accepted; and where the value is out of range no specification of the node can be
  -- built from then on, whatever the other inbounds are.
  pub unbuildable_created :
      (fresh : Fresh) (input : NewInbound) (p : ℤ) (before after : List Inbound)
      → IsAccepted (validate_inbound input)
      → input.reality ≡ true
      → is_port p ≡ false
      → let bad = record input { reality_handshake_port = some p } in
        IsAccepted (validate_inbound bad)
        × (build_inbounds to_text now members chain outbound
              (before ++ create_inbound fresh bad ∷ after)
            ≡ none)
  unfolding create_inbound
  unbuildable_created fresh input p before after accepted reality out =
      let bad : NewInbound = record input { reality_handshake_port = some p } in
      let ib = create_inbound fresh bad in
      let closed : is_some (built ib) ≡ false =
        is_some-build_inbound ib
        ∙ ground (arith, reality, out, tls_of_reality input accepted reality) in
      (
        subst (λ (c : Check). IsAccepted c) (sym (validate-any_handshake input (some p))) accepted,
        none-build_inbounds before after ib (none_of (built ib) closed),
      )
