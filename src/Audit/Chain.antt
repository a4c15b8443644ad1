-- ===== src/Audit/Chain.antt =====
-- What the verification of the audit log finds: nothing in a log that was only recorded, and any entry
-- that was changed.
use honey.Prelude.{
  ℕ, ◌+◌, true, Option, none, some, List, [], ◌∷◌, ◌++◌, length, length-append, Option-cases,
  Bool-cases, inl, inr, ◌≡◌, ◌∙◌, ◌≢◌, is_some, refl, sym, ap, subst, arith,
}
use honey.Audit.{
  Bytes, bytes_eq, AuditEvent, chain_message, last_hash, audit_chain_hash, stamped, record_audit,
  judge_entry, verify_from, verify_audit_chain,
}

bytes_eq_refl : (xs : Bytes) → bytes_eq xs xs ≡ true
unfolding bytes_eq
bytes_eq_refl [] = refl
bytes_eq_refl (x ∷ xs) = ground (arith, bytes_eq_refl xs)

bytes_eq-path : (xs ys : Bytes) → bytes_eq xs ys ≡ true → xs ≡ ys
unfolding bytes_eq
bytes_eq-path [] [] h = refl
bytes_eq-path [] (y ∷ ys) h = absurd (cc)
bytes_eq-path (x ∷ xs) [] h = absurd (cc)
bytes_eq-path (x ∷ xs) (y ∷ ys) h = ground (arith, bytes_eq-path xs ys)

module _ (sha256 : Bytes → Bytes) where
  abbrev verify_rest : Option Bytes → ℕ → List AuditEvent → Option ℕ × ℕ
  verify_rest = verify_from sha256

  -- Every entry has the hash that the one before it leads to.
  abbrev IsChained : Option Bytes → List AuditEvent → Type 0
  IsChained prev [] = Unit
  IsChained prev (e ∷ events) =
      (e.entry_hash ≡ some (audit_chain_hash sha256 prev e)) × IsChained e.entry_hash events

  chained_intact :
      (prev : Option Bytes) (n : ℕ) (events : List AuditEvent)
      → IsChained prev events
      → verify_rest prev n events ≡ (none, n + length events)
  unfolding verify_from judge_entry audit_chain_hash chain_message
  chained_intact prev n [] h = ground arith
  chained_intact prev n (e ∷ events) h =
      let hash = audit_chain_hash sha256 prev e in
      rw (h.0) (
        rw (bytes_eq_refl hash) (
          chained_intact (some hash) (n + 1) events
            (subst (λ (o : Option Bytes). IsChained o events) (h.0) (h.1))
          ∙ ground arith))

  append-IsChained :
      (prev : Option Bytes) (events : List AuditEvent) (e : AuditEvent)
      → IsChained prev events
      → IsChained prev (events ++ (stamped sha256 (last_hash prev events) e ∷ []))
  unfolding audit_chain_hash chain_message
  append-IsChained prev [] e h = (refl, tt)
  append-IsChained prev (x ∷ events) e h = (h.0, append-IsChained x.entry_hash events e h.1)

  unfoldable pub record_all : List AuditEvent → List AuditEvent → List AuditEvent
  unfolding record_audit
  record_all [] log = log
  record_all (e ∷ es) log = record_all es (record_audit sha256 e log)

  record_all-IsChained :
      (es log : List AuditEvent)
      → IsChained none log
      → IsChained none (record_all es log) × (length (record_all es log) ≡ length es + length log)
  unfolding record_all record_audit
  record_all-IsChained [] log h = (h, omega arith)
  record_all-IsChained (e ∷ es) log h =
      let next = record_audit sha256 e log in
      let later = record_all-IsChained es next (append-IsChained none log e h) in
      (
        later.0,
        later.1 ∙ ground (arith, length-append log (stamped sha256 (last_hash none log) e ∷ [])),
      )

  -- A log that was only recorded is found intact, with every entry verified.
  pub recorded_intact :
      (es : List AuditEvent) → verify_audit_chain sha256 (record_all es []) ≡ (none, length es)
  unfolding verify_audit_chain
  recorded_intact es =
      let r = record_all-IsChained es [] tt in
      chained_intact none 0 (record_all es []) r.0 ∙ ap (λ (n : ℕ). (none, n)) (omega (arith, r.1))

  -- An entry with a hash lets the loop go on only if the hash is the expected one.
  expected_of :
      (stored expected : Bytes) (id n : ℕ) (next : Option Bytes → ℕ → Option ℕ × ℕ)
      → (judge_entry sha256 (some stored) expected id n next).0 ≡ none
      → expected ≡ stored
  unfolding judge_entry
  expected_of stored expected id n next h = elim (Bool-cases (bytes_eq expected stored)) [
    | inl same ↦ bytes_eq-path expected stored same
    | inr other ↦ absurd (broken (rw other at h))
  ]
    where
      broken : some id ≡ none → ⊥
      broken k = absurd (cc)

  carried_on :
      (o : Option Bytes) (expected : Bytes) (id n : ℕ) (next : Option Bytes → ℕ → Option ℕ × ℕ)
      → (judge_entry sha256 o expected id n next).0 ≡ none
      → (m : ℕ) × ((next o m).0 ≡ none)
  unfolding judge_entry
  carried_on none expected id n next h = (n, h)
  carried_on (some stored) expected id n next h = elim (Bool-cases (bytes_eq expected stored)) [
    | inl same ↦ (n + 1, (rw same at h))
    | inr other ↦ absurd (broken (rw other at h))
  ]
    where
      broken : some id ≡ none → ⊥
      broken k = absurd (cc)

  hash_at :
      (prev : Option Bytes) (n : ℕ) (events after : List AuditEvent) (e : AuditEvent)
      (stored : Bytes)
      → e.entry_hash ≡ some stored
      → (verify_rest prev n (events ++ e ∷ after)).0 ≡ none
      → audit_chain_hash sha256 (last_hash prev events) e ≡ stored
  unfolding verify_from
  hash_at prev n [] after e stored s h =
      expected_of stored (audit_chain_hash sha256 prev e) e.id n _ (
        subst
          (λ (o : Option Bytes).
            (judge_entry sha256 o (audit_chain_hash sha256 prev e) e.id n
              (λ next m. verify_from sha256 next m after)).0
            ≡ none)
          s h)
  hash_at prev n (x ∷ events) after e stored s h =
      let rest = carried_on x.entry_hash (audit_chain_hash sha256 prev x) x.id n _ h in
      hash_at x.entry_hash rest.0 events after e stored s rest.1

  -- If the digest tells the two messages apart, a changed entry is found: where a log is intact, and an
  -- entry with a hash is replaced by one with the same hash that differs in any byte of what is hashed,
  -- the verification breaks off.
  pub tampering_found :
      (events after : List AuditEvent) (e changed : AuditEvent) (stored : Bytes)
      → (audit_chain_hash sha256 (last_hash none events) changed
            ≡ audit_chain_hash sha256 (last_hash none events) e
          → chain_message (last_hash none events) changed ≡ chain_message (last_hash none events) e)
      → e.entry_hash ≡ some stored
      → changed.entry_hash ≡ some stored
      → (verify_audit_chain sha256 (events ++ e ∷ after)).0 ≡ none
      → chain_message (last_hash none events) changed ≢ chain_message (last_hash none events) e
      → is_some (verify_audit_chain sha256 (events ++ changed ∷ after)).0 ≡ true
  unfolding verify_audit_chain audit_chain_hash
  tampering_found events after e changed stored apart s t h differ =
      elim (Option-cases (verify_rest none 0 (events ++ changed ∷ after)).0) [
        | inl intact ↦ absurd (
            differ (
              apart (
                hash_at none 0 events after changed stored t intact
                ∙ sym (hash_at none 0 events after e stored s h))))
        | inr (at, e) ↦ rw e refl
      ]
