-- ===== src/Fleet/Revocation.antt =====
-- Enrollment tokens serve once, and revoked certificates are refused for good.
use text.Mathlib.Text.{◌==◌ as str_eq}
use honey.Prelude.{
  ℕ, String, Bool, true, false, not, ◌&&◌, ◌||◌, none, List, [], ◌∷◌, ltb, ◌==◌, any, all, map,
  is_some, ◌≡◌, ◌∙◌, refl, arith,
}
use honey.Prelude.Text.{eq_ignore_ascii_case}
use honey.Fleet.{
  EnrollmentToken, is_open, revoke_token, revoke_enrollment_token, claim_token,
  claim_enrollment_token, NodeCertificate, is_valid_for, authorize_node_certificate,
  authorize_certificate, revoke_certificate, revoke_node_certificate, add_node_certificate,
}

-- What changes the table of tokens: a new one, a revocation, a claim.
pub data TokenOp : Type 0 where
  issue : EnrollmentToken → TokenOp
  revoke : ℕ → ℕ → TokenOp
  claim : String → ℕ → TokenOp

abbrev pub after : TokenOp → List EnrollmentToken → List EnrollmentToken
after (issue t) tokens = t ∷ tokens
after (revoke id now) tokens = (revoke_enrollment_token id now tokens).1
after (claim hash now) tokens = (claim_enrollment_token hash now tokens).1

abbrev pub run_tokens : List TokenOp → List EnrollmentToken → List EnrollmentToken
run_tokens [] tokens = tokens
run_tokens (op ∷ ops) tokens = run_tokens ops (after op tokens)

-- The hash of a new token is another one.
abbrev is_other : String → TokenOp → Bool
is_other hash (issue t) = not (str_eq t.token_hash hash)
is_other hash (revoke id now) = true
is_other hash (claim h now) = true

-- No token with the hash is open.
abbrev is_closed : String → EnrollmentToken → Bool
is_closed hash t = not (str_eq t.token_hash hash && is_open t)

all-map {ℓ} :
    {A : Type ℓ} (p : A → Bool) (f : A → A) (xs : List A)
    → ((x : A) → p x ≡ true → p (f x) ≡ true)
    → all p xs ≡ true
    → all p (map f xs) ≡ true
all-map p f [] keep h = refl
all-map p f (x ∷ xs) keep h = ground (arith, keep x, all-map p f xs keep)

revoke_token-closed :
    (hash : String) (id now : ℕ) (t : EnrollmentToken)
    → is_closed hash t ≡ true
    → is_closed hash (revoke_token id now t) ≡ true
unfolding revoke_token
revoke_token-closed hash id now t h = ground arith

claim_token-closed :
    (hash claimed : String) (now : ℕ) (t : EnrollmentToken)
    → is_closed hash t ≡ true
    → is_closed hash (claim_token claimed now t) ≡ true
unfolding claim_token
claim_token-closed hash claimed now t h = ground arith

after-closed :
    (hash : String) (op : TokenOp) (tokens : List EnrollmentToken)
    → is_other hash op ≡ true
    → all (is_closed hash) tokens ≡ true
    → all (is_closed hash) (after op tokens) ≡ true
unfolding revoke_enrollment_token claim_enrollment_token
after-closed hash (issue t) tokens o h = ground arith
after-closed hash (revoke id now) tokens o h =
    all-map (is_closed hash) (revoke_token id now) tokens (revoke_token-closed hash id now) h
after-closed hash (claim c now) tokens o h =
    all-map (is_closed hash) (claim_token c now) tokens (claim_token-closed hash c now) h

run-closed :
    (hash : String) (ops : List TokenOp) (tokens : List EnrollmentToken)
    → all (is_other hash) ops ≡ true
    → all (is_closed hash) tokens ≡ true
    → all (is_closed hash) (run_tokens ops tokens) ≡ true
run-closed hash [] tokens o h = h
run-closed hash (op ∷ ops) tokens o h =
    let parts : (is_other hash op ≡ true) × (all (is_other hash) ops ≡ true) = ground (arith, o) in
    run-closed hash ops (after op tokens) parts.1 (after-closed hash op tokens parts.0 h)

not-claimable :
    (hash : String) (now : ℕ) (tokens : List EnrollmentToken)
    → all (is_closed hash) tokens ≡ true
    → (claim_enrollment_token hash now tokens).0 ≡ none
unfolding claim_enrollment_token
not-claimable hash now [] h = refl
not-claimable hash now (t ∷ tokens) h = ground (arith, not-claimable hash now tokens)

-- No token with the hash has expired: those that are open can be claimed.
abbrev pub is_current : String → ℕ → EnrollmentToken → Bool
is_current hash now t = not (str_eq t.token_hash hash) || ltb now t.expires_at

claim-closed :
    (hash : String) (now : ℕ) (tokens : List EnrollmentToken)
    → all (is_current hash now) tokens ≡ true
    → all (is_closed hash) (claim_enrollment_token hash now tokens).1 ≡ true
unfolding claim_enrollment_token claim_token
claim-closed hash now [] h = refl
claim-closed hash now (t ∷ tokens) h = ground (arith, claim-closed hash now tokens)

-- After a claim in time, no later claim of the same token succeeds, whatever tokens are claimed,
-- revoked or issued with another hash in between.
pub claimed_once :
    (hash : String) (now later : ℕ) (ops : List TokenOp) (tokens : List EnrollmentToken)
    → all (is_current hash now) tokens ≡ true
    → all (is_other hash) ops ≡ true
    → (claim_enrollment_token hash later
        (run_tokens ops (claim_enrollment_token hash now tokens).1)).0
      ≡ none
claimed_once hash now later ops tokens h o =
    not-claimable hash later _ (run-closed hash ops _ o (claim-closed hash now tokens h))

-- What changes the table of certificates.
pub data CertificateOp : Type 0 where
  enroll : NodeCertificate → CertificateOp
  withdraw : ℕ → ℕ → CertificateOp

abbrev pub then_certificates : CertificateOp → List NodeCertificate → List NodeCertificate
then_certificates (enroll c) cs = add_node_certificate c cs
then_certificates (withdraw id now) cs = (revoke_node_certificate id now cs).1

abbrev pub run_certificates : List CertificateOp → List NodeCertificate → List NodeCertificate
run_certificates [] cs = cs
run_certificates (op ∷ ops) cs = run_certificates ops (then_certificates op cs)

abbrev pub has_print : ℕ → String → NodeCertificate → Bool
has_print node f c = (c.node_id == node) && eq_ignore_ascii_case c.fingerprint_sha256 f

-- The certificate that is enrolled is another one.
abbrev pub is_different : ℕ → String → CertificateOp → Bool
is_different node f (enroll c) = not (has_print node f c)
is_different node f (withdraw id now) = true

-- The node has a certificate, and none with the fingerprint is in force.
abbrev is_shut : ℕ → String → NodeCertificate → Bool
is_shut node f c = not (has_print node f c) || is_some c.revoked_at

abbrev has_any : ℕ → List NodeCertificate → Bool
has_any node cs = any (λ (c : NodeCertificate). c.node_id == node) cs

revoke-shut :
    (node : ℕ) (f : String) (id now : ℕ) (c : NodeCertificate)
    → is_shut node f c ≡ true
    → is_shut node f (revoke_certificate id now c) ≡ true
unfolding revoke_certificate
revoke-shut node f id now c h = ground arith

has_any-revoke :
    (node id now : ℕ) (cs : List NodeCertificate)
    → has_any node (map (revoke_certificate id now) cs) ≡ has_any node cs
unfolding revoke_certificate
has_any-revoke node id now [] = refl
has_any-revoke node id now (c ∷ cs) = ground (arith, has_any-revoke node id now cs)

run-shut :
    (node : ℕ) (f : String) (ops : List CertificateOp) (cs : List NodeCertificate)
    → all (is_different node f) ops ≡ true
    → has_any node cs ≡ true
    → all (is_shut node f) cs ≡ true
    → (has_any node (run_certificates ops cs) ≡ true)
      × (all (is_shut node f) (run_certificates ops cs) ≡ true)
unfolding add_node_certificate revoke_node_certificate
run-shut node f [] cs o h k = (h, k)
run-shut node f (enroll c ∷ ops) cs o h k =
    run-shut node f ops (add_node_certificate c cs) (ground (arith, o)) (ground (arith, h))
      (ground (arith, o, k))
run-shut node f (withdraw id now ∷ ops) cs o h k =
    run-shut node f ops (map (revoke_certificate id now) cs) (ground (arith, o))
      (has_any-revoke node id now cs ∙ h)
      (all-map (is_shut node f) (revoke_certificate id now) cs (revoke-shut node f id now) k)

shut-refused :
    (node : ℕ) (f : String) (now : ℕ) (cs : List NodeCertificate)
    → all (is_shut node f) cs ≡ true
    → any (λ (c : NodeCertificate). (c.node_id == node) && is_valid_for f now c) cs ≡ false
shut-refused node f now [] h = refl
shut-refused node f now (c ∷ cs) h = ground (arith, shut-refused node f now cs)

revoked-shut :
    (node : ℕ) (f : String) (id now : ℕ) (cs : List NodeCertificate)
    → all (λ (c : NodeCertificate). not (has_print node f c) || (c.id == id)) cs ≡ true
    → all (is_shut node f) (map (revoke_certificate id now) cs) ≡ true
unfolding revoke_certificate
revoked-shut node f id now [] h = refl
revoked-shut node f id now (c ∷ cs) h = ground (arith, revoked-shut node f id now cs)

has_any_of :
    (node : ℕ) (f : String) (id : ℕ) (cs : List NodeCertificate)
    → any (λ (c : NodeCertificate). has_print node f c && (c.id == id)) cs ≡ true
    → has_any node cs ≡ true
has_any_of node f id [] h = h
has_any_of node f id (c ∷ cs) h = ground (arith, has_any_of node f id cs)

-- A certificate that was revoked is refused from then on: after its row and any others of its
-- fingerprint were revoked, whatever other certificates are enrolled or revoked later, the agent that
-- presents it is not let in at any time, and the node is not taken for one without an inventory.
pub revoked_refused :
    (node : ℕ) (f : String) (id now later : ℕ) (ops : List CertificateOp)
    (cs : List NodeCertificate)
    → any (λ (c : NodeCertificate). has_print node f c && (c.id == id)) cs ≡ true
    → all (λ (c : NodeCertificate). not (has_print node f c) || (c.id == id)) cs ≡ true
    → all (is_different node f) ops ≡ true
    → authorize_certificate node f later
        (run_certificates ops (revoke_node_certificate id now cs).1)
      ≡ false
unfolding authorize_certificate authorize_node_certificate revoke_node_certificate
revoked_refused node f id now later ops cs there only o =
    let first = map (revoke_certificate id now) cs in
    let known = has_any-revoke node id now cs ∙ has_any_of node f id cs there in
    let kept = run-shut node f ops first o known (revoked-shut node f id now cs only) in
    refused _ _ kept.0 (shut-refused node f later (run_certificates ops first) kept.1)
  where
    refused : (b c : Bool) → b ≡ true → c ≡ false → not (b && not c) ≡ false
    refused b c h k = ground (arith, h, k)
