-- ===== src/RecoveryCodes/Once.antt =====
-- A recovery code of master/src/db/repo.rs serves once.
use honey.Prelude.{ℕ, String, false, List, [], ◌∷◌, count, map, ◌≡◌, refl, arith}
use honey.RecoveryCodes.{RecoveryCode, is_unused, mark_used, consume_admin_recovery_code}

unused-mark :
    (admin : ℕ) (hash : String) (now : ℕ) (c : RecoveryCode)
    → is_unused admin hash (mark_used admin hash now c) ≡ false
unfolding mark_used
unused-mark admin hash now c = ground arith

none_unused :
    (admin : ℕ) (hash : String) (now : ℕ) (codes : List RecoveryCode)
    → count (is_unused admin hash) (map (mark_used admin hash now) codes) ≡ 0
none_unused admin hash now [] = refl
none_unused admin hash now (c ∷ codes) =
    ground (arith, unused-mark admin hash now c, none_unused admin hash now codes)

-- A recovery code is never accepted twice: after one attempt, accepted or not, the same code of the
-- same admin is refused.
consumed_once :
    (admin : ℕ) (hash : String) (now later : ℕ) (codes : List RecoveryCode)
    → (consume_admin_recovery_code admin hash later
        (consume_admin_recovery_code admin hash now codes).1).0
      ≡ false
unfolding consume_admin_recovery_code
consumed_once admin hash now later codes = rw (none_unused admin hash now codes) refl
