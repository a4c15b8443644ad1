-- ===== src/Api.antt =====
-- What the handlers of master/src/api/mod.rs share: the error they answer with, the result of a
-- check, and the values of a request.
pub mod Json
use honey.Prelude.{
  ℕ, ◌+◌, ◌*◌, String, Bool, true, false, ◌&&◌, leb, if◌then◌else◌, ◌≡◌, refl, arith,
}

-- `ApiError`: the HTTP status, the code and the message of an answer.
pub record ApiError : Type 0 where
  pub status : ℕ
  pub code : String
  pub message : String

abbrev pub unauthorized : String → ApiError
unauthorized message = record { status = 401; code = "M1207"; message = message }

abbrev pub bad_request : String → ApiError
bad_request message = record { status = 400; code = "M1201"; message = message }

abbrev pub not_found : String → ApiError
not_found message = record { status = 404; code = "M1204"; message = message }

abbrev pub forbidden : String → ApiError
forbidden message = record { status = 403; code = "M1211"; message = message }

abbrev pub conflict : String → ApiError
conflict message = record { status = 409; code = "M1205"; message = message }

-- `Result<A, ApiError>`
pub data Checked {ℓ} (A : Type ℓ) : Type ℓ where
  err : ApiError → Checked A
  ok : A → Checked A

-- `Result<(), ApiError>`
abbrev pub Check : Type 0
Check = Checked {0} Unit

-- The `?` operator.
abbrev pub bind {ℓ κ} : {A : Type ℓ} {B : Type κ} → Checked A → (A → Checked B) → Checked B
bind (err e) k = err e
bind (ok a) k = k a

abbrev pub is_ok {ℓ} : {A : Type ℓ} → Checked A → Bool
is_ok (err e) = false
is_ok (ok a) = true

-- `if … { return Err(ApiError::bad_request(…)) }`, to be followed by `?`.
abbrev pub require_not : Bool → String → Check
require_not true message = err (bad_request message)
require_not false message = ok tt

infixr 3 ◌≫◌
abbrev pub ◌≫◌ {ℓ} : {A : Type ℓ} → Check → Checked A → Checked A
err e ≫ next = err e
ok _ ≫ next = next

pub is_ok-≫ {ℓ} : {A : Type ℓ} (c : Check) (d : Checked A) → is_ok (c ≫ d) ≡ (is_ok c && is_ok d)
is_ok-≫ (err e) d = refl
is_ok-≫ (ok tt) d = refl

-- A signed integer of a request; `negsuc n` is -1 - n.
pub data ℤ : Type 0 where
  pos : ℕ → ℤ
  negsuc : ℕ → ℤ

abbrev pub is_negative : ℤ → Bool
is_negative (pos n) = false
is_negative (negsuc n) = true

abbrev pub max_zero : ℤ → ℤ
max_zero (pos n) = pos n
max_zero (negsuc n) = pos 0

-- `(1..=65_535).contains(&v)`
abbrev pub is_port : ℤ → Bool
is_port (pos n) = leb 1 n && leb n 65_535
is_port (negsuc n) = false

abbrev pub IsAccepted : Check → Type 0
IsAccepted c = is_ok c ≡ true

pub ≫-IsAccepted : (c d : Check) → IsAccepted (c ≫ d) → IsAccepted c × IsAccepted d
≫-IsAccepted (err e) d h = ground arith
≫-IsAccepted (ok tt) d h = (refl, h)

pub ≫-IsAccepted_of : (c d : Check) → IsAccepted c → IsAccepted d → IsAccepted (c ≫ d)
≫-IsAccepted_of (err e) d h k = h
≫-IsAccepted_of (ok tt) d h k = k

pub require_not-IsAccepted : (b : Bool) (m : String) → IsAccepted (require_not b m) → b ≡ false
require_not-IsAccepted true m h = ground arith
require_not-IsAccepted false m h = refl

-- One check that passed, and the rest.
pub passed :
    (b : Bool) (m : String) (d : Check)
    → IsAccepted (require_not b m ≫ d)
    → (b ≡ false) × IsAccepted d
passed b m d h =
    let both = ≫-IsAccepted (require_not b m) d h in (require_not-IsAccepted b m both.0, both.1)
