-- ===== src/Audit.antt =====
-- The audit log's hash chain: `audit_chain_hash` of master/src/auth.rs, `record_audit` of
-- master/src/db/repo.rs and `verify_audit_chain` of master/src/api/mod.rs. SHA-256 is an argument; the
-- details of an event are the text of their JSON value. The log stands oldest first.
pub mod Chain
use Prim.Native.Char.{code}
use Prim.Native.String.{String}
use honey.Prelude.{
  ℕ, zero, suc, ◌+◌, ◌-◌, ◌*◌, ◌/◌, ◌%◌, ◌^◌, Bool, true, false, ◌&&◌, Option, none, some, List, [],
  ◌∷◌, ◌++◌, ltb, ◌==◌, if◌then◌else◌, unwrap_or, is_some,
}

abbrev pub Bytes : Type 0
Bytes = List ℕ

unfoldable pub bytes_eq : Bytes → Bytes → Bool
bytes_eq [] [] = true
bytes_eq [] (y ∷ ys) = false
bytes_eq (x ∷ xs) [] = false
bytes_eq (x ∷ xs) (y ∷ ys) = (x == y) && bytes_eq xs ys

-- `as_bytes`: the UTF-8 of a character's number.
abbrev char_bytes : ℕ → Bytes
char_bytes c =
    if ltb c 128
    then c ∷ []
    else if ltb c 2048
    then (192 + c / 64) ∷ (128 + c % 64) ∷ []
    else if ltb c 65_536
    then (224 + c / 4096) ∷ (128 + c / 64 % 64) ∷ (128 + c % 64) ∷ []
    else (240 + c / 262_144) ∷ (128 + c / 4096 % 64) ∷ (128 + c / 64 % 64) ∷ (128 + c % 64) ∷ []

unfoldable pub as_bytes : String → Bytes
as_bytes String.[] = []
as_bytes (String.◌∷◌ c s) = char_bytes (code c) ++ as_bytes s

-- The lower bytes of a number, the highest first.
unfoldable pub be_bytes : ℕ → ℕ → Bytes
be_bytes zero n = []
be_bytes (suc w) n = (n / 256 ^ w % 256) ∷ be_bytes w n

pub record AuditEvent : Type 0 where
  pub id : ℕ
  pub actor_name : Option String
  pub action : String
  pub resource_type : String
  pub resource_id : Option String
  pub details : String
  pub created_micros : ℕ
  pub entry_hash : Option Bytes

abbrev ended : String → Bytes
ended field = as_bytes field ++ (0 ∷ [])

-- What is hashed, in the order of the updates.
unfoldable pub chain_message : Option Bytes → AuditEvent → Bytes
unfolding as_bytes be_bytes
chain_message prev e =
    unwrap_or prev []
    ++ (be_bytes 8 e.id
        ++ (ended (unwrap_or e.actor_name "")
            ++ (ended e.action
                ++ (ended e.resource_type
                    ++ (ended (unwrap_or e.resource_id "")
                        ++ (ended e.details ++ be_bytes 8 e.created_micros))))))

abbrev pub last_hash : Option Bytes → List AuditEvent → Option Bytes
last_hash prev [] = prev
last_hash prev (e ∷ events) = last_hash e.entry_hash events

module _ (sha256 : Bytes → Bytes) where
  unfoldable pub audit_chain_hash : Option Bytes → AuditEvent → Bytes
  audit_chain_hash prev e = sha256 (chain_message prev e)

  -- The event with its identifier and time, as the INSERT returns them, and its hash.
  abbrev pub stamped : Option Bytes → AuditEvent → AuditEvent
  stamped prev e = record e { entry_hash = some (audit_chain_hash prev e) }

  unfoldable pub record_audit : AuditEvent → List AuditEvent → List AuditEvent
  record_audit e events = events ++ (stamped (last_hash none events) e ∷ [])

  -- One round of the loop: where the chain is broken, and how many entries were verified. An entry
  -- with no hash is passed over, and the next one starts the chain anew.
  unfoldable pub judge_entry :
      Option Bytes → Bytes → ℕ → ℕ → (Option Bytes → ℕ → Option ℕ × ℕ) → Option ℕ × ℕ
  unfolding bytes_eq
  judge_entry none expected id checked next = next none checked
  judge_entry (some stored) expected id checked next =
      if bytes_eq expected stored then next (some stored) (checked + 1) else (some id, checked + 1)

  unfoldable pub verify_from : Option Bytes → ℕ → List AuditEvent → Option ℕ × ℕ
  verify_from prev checked [] = (none, checked)
  verify_from prev checked (e ∷ events) =
      judge_entry e.entry_hash (audit_chain_hash prev e) e.id checked
        (λ next n. verify_from next n events)

  unfoldable pub verify_audit_chain : List AuditEvent → Option ℕ × ℕ
  verify_audit_chain events = verify_from none 0 events
