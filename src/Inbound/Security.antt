-- ===== src/Inbound/Security.antt =====
-- What the checks of a new inbound and of a change promise about the rows that are written.
use honey.Prelude.{
  String, true, false, none, some, subst, Option, ◌≡◌, refl, ap, sym, ◌∙◌, arith, unwrap_or,
}
use honey.Prelude.Text.{is_empty, trim}
use honey.Api.{IsAccepted, ℤ, is_port}
use honey.Api.Json.{Json, is_object}
use honey.Inbound.{Patch, Inbound, NewInbound, UpdateInbound}
use honey.Inbound.Store.{
  Fresh, patch_parts, case_when, stated, stated_json, create_inbound, update_inbound,
  snapshot_update, revert_inbound,
}
use honey.Inbound.Rules.{row_security, is_secure, security_exact}
use honey.Inbound.Validate.{validate_vless_flow, validate_inbound_basics}
use honey.Inbound.Validate.Acme.{acme_enabled, validate_acme_for_core}
use honey.Inbound.Validate.Combined.{validate_effective_security}
use honey.Inbound.Validate.Requests.{
  new_security, validate_new_acme, validate_new_rest, validate_inbound, validate_update_inbound,
  effective_string, effective_security, validate_effective_update,
}

effective_string-case_when :
    (patch : Patch String) (o : Option String)
    → case_when (patch_parts patch) o ≡ effective_string patch o
unfolding patch_parts effective_string
effective_string-case_when patch o = ground arith

-- The fields that a change is checked with are those of the row that it then writes.
pub effective-update_inbound :
    (fresh : Fresh) (input : UpdateInbound) (row : Inbound)
    → row_security (update_inbound fresh input row) ≡ effective_security row input
unfolding update_inbound
effective-update_inbound fresh input row = simp effective_string-case_when

-- Rows that the handlers `create_inbound` and `update_inbound` write, each accepted by its checks, and
-- those that a revert writes which finds the private key that the version had.
pub data Stored : Inbound → Type 0 where
  created :
      (fresh : Fresh) (input : NewInbound)
      → IsAccepted (validate_inbound input)
      → Stored (create_inbound fresh input)
  updated :
      (fresh : Fresh) (input : UpdateInbound) (row : Inbound)
      → Stored row
      → IsAccepted (validate_update_inbound input)
      → IsAccepted (validate_effective_update row input)
      → Stored (update_inbound fresh input row)
  reverted :
      (fresh : Fresh) (old row : Inbound)
      → Stored old
      → Stored row
      → row.reality_private_key ≡ old.reality_private_key
      → Stored (revert_inbound fresh old row)

abbrev pub IsSound : Inbound → Type 0
IsSound row =
    (is_secure (row_security row) ≡ true)
    × IsAccepted (validate_vless_flow row.kind row.network row.tls_enabled row.flow)
    × IsAccepted (validate_acme_for_core row.core row.extra)
    × (is_port row.listen_port ≡ true)
    × (is_empty (trim row.tag) ≡ false)
    × (is_object row.extra ≡ true)

basics-passed :
    (tag kind core : String) (port : ℤ) (extra : Json)
    → IsAccepted (validate_inbound_basics tag kind core port extra)
    → (is_port port ≡ true) × (is_empty (trim tag) ≡ false) × (is_object extra ≡ true)
unfolding validate_inbound_basics
basics-passed tag kind core port extra h = ground arith

rest-passed :
    (input : NewInbound)
    → IsAccepted (validate_new_rest input)
    → IsAccepted (validate_vless_flow input.kind input.network input.tls_enabled input.flow)
unfolding validate_new_rest
rest-passed input h = ground arith

-- With ACME off there are no settings for a core to refuse.
off-IsAccepted :
    (core : String) (extra : Json)
    → acme_enabled extra ≡ false
    → IsAccepted (validate_acme_for_core core extra)
unfolding acme_enabled validate_acme_for_core
off-IsAccepted core extra h = ground arith

acme-passed :
    (input : NewInbound)
    → IsAccepted (validate_new_acme input)
    → IsAccepted (validate_acme_for_core input.core input.extra)
unfolding validate_new_acme
acme-passed input h = ground (arith, off-IsAccepted input.core input.extra)

pub inbound-passed :
    (input : NewInbound)
    → IsAccepted (validate_inbound input)
    → IsAccepted
        (validate_inbound_basics input.tag input.kind input.core input.listen_port input.extra)
      × IsAccepted (validate_new_acme input)
      × IsAccepted (validate_effective_security (new_security input))
      × IsAccepted (validate_new_rest input)
unfolding validate_inbound
inbound-passed input h = ground arith

create_inbound-IsSound :
    (fresh : Fresh) (input : NewInbound)
    → IsAccepted (validate_inbound input)
    → IsSound (create_inbound fresh input)
unfolding create_inbound
create_inbound-IsSound fresh input h =
    let parts = inbound-passed input h in
    let basics =
      basics-passed input.tag input.kind input.core input.listen_port input.extra parts.0 in
    (
      sym (security_exact (new_security input)) ∙ parts.2,
      rest-passed input parts.3,
      acme-passed input parts.1,
      basics.0,
      basics.1,
      basics.2,
    )

update-passed :
    (input : UpdateInbound) (port : ℤ) (tag : String) (extra : Json)
    → IsAccepted (validate_update_inbound input)
    → is_port port ≡ true
    → is_empty (trim tag) ≡ false
    → is_object extra ≡ true
    → (is_port (unwrap_or input.listen_port port) ≡ true)
      × (is_empty (trim (unwrap_or input.tag tag)) ≡ false)
      × (is_object (unwrap_or input.extra extra) ≡ true)
unfolding validate_update_inbound
update-passed input port tag extra h p q o = ground arith

pub effective-passed :
    (row : Inbound) (input : UpdateInbound)
    → IsAccepted (validate_effective_update row input)
    → IsAccepted (
        validate_vless_flow
          (unwrap_or input.kind row.kind)
          (unwrap_or input.network row.network)
          (unwrap_or input.tls_enabled row.tls_enabled)
          (unwrap_or input.flow row.flow))
      × IsAccepted (validate_effective_security (effective_security row input))
      × IsAccepted
          (validate_acme_for_core (unwrap_or input.core row.core) (unwrap_or input.extra row.extra))
unfolding validate_effective_update
effective-passed row input h = ground arith

update_inbound-IsSound :
    (fresh : Fresh) (input : UpdateInbound) (row : Inbound)
    → IsSound row
    → IsAccepted (validate_update_inbound input)
    → IsAccepted (validate_effective_update row input)
    → IsSound (update_inbound fresh input row)
unfolding update_inbound
update_inbound-IsSound fresh input row s h k =
    let parts = effective-passed row input k in
    let rest = update-passed input row.listen_port row.tag row.extra h s.3 s.4 s.5 in
    (
      ap is_secure (effective-update_inbound fresh input row)
          ∙ sym (security_exact (effective_security row input))
          ∙ parts.1,
      parts.0,
      parts.2,
      rest.0,
      rest.1,
      rest.2,
    )

stated-case_when :
    {A : Type 0} (o column : Option A) → case_when (patch_parts (stated o)) column ≡ o
unfolding patch_parts
stated-case_when none column = refl
stated-case_when (some a) column = refl

stated_json-unwrap_or :
    (extra column : Json) → is_object extra ≡ true → unwrap_or (stated_json extra) column ≡ extra
stated_json-unwrap_or (Json.object fs) column h = refl
stated_json-unwrap_or Json.null column h = absurd (cc)
stated_json-unwrap_or (Json.boolean b) column h = refl
stated_json-unwrap_or (Json.unsigned n) column h = refl
stated_json-unwrap_or (Json.negative n) column h = refl
stated_json-unwrap_or (Json.float n) column h = refl
stated_json-unwrap_or (Json.string v) column h = refl
stated_json-unwrap_or (Json.array es) column h = refl

-- A revert restores what the rules read, but for the private key, which stays.
revert-row_security :
    (fresh : Fresh) (old row : Inbound)
    → is_object old.extra ≡ true
    → row_security (revert_inbound fresh old row)
      ≡ record (row_security old) { reality_private_key = row.reality_private_key }
unfolding revert_inbound update_inbound snapshot_update patch_parts
revert-row_security fresh old row h =
    simp (stated-case_when, stated_json-unwrap_or old.extra row.extra h)

revert-extra :
    (fresh : Fresh) (old row : Inbound)
    → is_object old.extra ≡ true
    → (revert_inbound fresh old row).extra ≡ old.extra
unfolding revert_inbound update_inbound snapshot_update
revert-extra fresh old row h = stated_json-unwrap_or old.extra row.extra h

revert-flow :
    (fresh : Fresh) (old row : Inbound)
    → IsAccepted (validate_vless_flow old.kind old.network old.tls_enabled old.flow)
    → let r = revert_inbound fresh old row in
      IsAccepted (validate_vless_flow r.kind r.network r.tls_enabled r.flow)
unfolding revert_inbound update_inbound snapshot_update
revert-flow fresh old row h = h

revert_inbound-IsSound :
    (fresh : Fresh) (old row : Inbound)
    → IsSound old
    → row.reality_private_key ≡ old.reality_private_key
    → IsSound (revert_inbound fresh old row)
unfolding revert_inbound update_inbound snapshot_update
revert_inbound-IsSound fresh old row s same =
    let extra : (revert_inbound fresh old row).extra ≡ old.extra = revert-extra fresh old row s.5 in
    (
      ap is_secure (revert-row_security fresh old row s.5)
          ∙ ap (λ k. is_secure (record (row_security old) { reality_private_key = k })) same
          ∙ s.0,
      revert-flow fresh old row s.1,
      subst (λ e. IsAccepted (validate_acme_for_core old.core e)) (sym extra) s.2,
      s.3,
      s.4,
      ap is_object extra ∙ s.5,
    )

-- Every inbound that the handler of creation has written, and that the one of changes then changed and
-- reverts restored any number of times, each revert finding the private key that the version had,
-- satisfies the rules on protocol, core, transport, certificate and REALITY, those on the flow and on
-- the ACME settings of its core, and has a port in range, a tag and an object of extra settings.
pub Stored-IsSound : (row : Inbound) → Stored row → IsSound row
Stored-IsSound row (created fresh input h) = create_inbound-IsSound fresh input h
Stored-IsSound row (updated fresh input old s h k) =
    update_inbound-IsSound fresh input old (Stored-IsSound old s) h k
Stored-IsSound row (reverted fresh old before s r k) =
    revert_inbound-IsSound fresh old before (Stored-IsSound old s) k

-- A revert checks nothing: if the version has REALITY on and the row has no private key by now, the row
-- that is written is not secure, though the version and the row were.
pub reverted_insecure :
    (fresh : Fresh) (old row : Inbound)
    → Stored old
    → Stored row
    → old.reality ≡ true
    → row.reality_private_key ≡ none
    → is_secure (row_security (revert_inbound fresh old row)) ≡ false
reverted_insecure fresh old row s r on k =
    ap is_secure (revert-row_security fresh old row (Stored-IsSound old s).5)
    ∙ ap (λ o. is_secure (record (row_security old) { reality_private_key = o })) k
    ∙ keyless
  where
    keyless : is_secure (record (row_security old) { reality_private_key = none }) ≡ false
    keyless = ground (arith, on)
