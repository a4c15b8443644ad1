-- ===== src/Inbound/Chain.antt =====
-- Multihop: `validate_upstream`, and the handlers `create_inbound` and `update_inbound` of
-- master/src/api/mod.rs up to the write of the row. The stored inbounds are a map from identifiers.
pub mod Acyclic
use text.Mathlib.Text.{◌==◌ as str_eq}
use Prim.Native.String.{◌++◌}
use honey.Prelude.{
  ℕ, zero, suc, String, Bool, true, false, not, Option, none, some, List, [], ◌∷◌, ◌==◌,
  if◌then◌else◌, is_some, and_then, unwrap_or,
}
use honey.Prelude.Text.{one_of}
use honey.Prelude.Keys.{nat_eq, Map, get, insert}
use honey.Api.{ApiError, bad_request, not_found, Checked, err, ok, bind, Check, require_not, ◌≫◌}
use honey.Inbound.{Patch, missing, null, value, Inbound, NewInbound, UpdateInbound}
use honey.Inbound.Store.{Fresh, create_inbound, update_inbound}
use honey.Inbound.Validate.Requests.{
  validate_inbound, validate_update_inbound, validate_effective_update,
}

abbrev pub Inbounds : Type 0
Inbounds = Map ℕ Inbound

abbrev pub chainable : List String
chainable = "vless" ∷ "vmess" ∷ "trojan" ∷ "hysteria2" ∷ "tuic" ∷ "shadowsocks" ∷ []

-- Where the walk along the chain stands when its loop is left: at the inbound it looks for, or with
-- the next hop, if there is one.
pub data Walk : Type 0 where
  cycle : Walk
  stopped : Option ℕ → Walk

-- The loop of at most `n` rounds.
unfoldable pub walk : Inbounds → ℕ → ℕ → Option ℕ → Walk
walk store self_id zero hop = stopped hop
walk store self_id (suc n) none = stopped none
walk store self_id (suc n) (some next) = if next == self_id then cycle else elim (get next store) [
  | none ↦ stopped (some next)
  | some row ↦ walk store self_id n row.upstream_inbound_id
]

abbrev pub walked : Walk → Check
walked cycle = err (bad_request "that chain leads back here (cycle)")
walked (stopped hop) = require_not (is_some hop) "multihop chain is too deep (max 8 hops)"

abbrev pub check_chain : Inbounds → Option ℕ → Inbound → Check
check_chain store none exit = ok tt
check_chain store (some self_id) exit = walked (walk store self_id 8 exit.upstream_inbound_id)

abbrev pub check_exit : Inbounds → Option ℕ → Option Inbound → Check
check_exit store self_id none = err (bad_request "upstream inbound not found")
check_exit store self_id (some exit) =
    require_not (not (str_eq exit.core "singbox")) "multihop exit must run on sing-box"
    ≫ require_not (not (one_of exit.kind chainable))
        ("protocol '" ++ exit.kind ++ "' cannot be a multihop exit")
    ≫ check_chain store self_id exit

abbrev pub is_self : Option ℕ → ℕ → Bool
is_self none upstream = false
is_self (some self_id) upstream = self_id == upstream

unfoldable pub validate_upstream : Inbounds → Option ℕ → Option ℕ → String → Check
validate_upstream store none self_id entry_core = ok tt
validate_upstream store (some upstream) self_id entry_core =
    require_not (str_eq entry_core "xray")
      "multihop entry must run on sing-box (the chain outbound is sing-box)"
    ≫ require_not (is_self self_id upstream) "an inbound cannot chain to itself"
    ≫ check_exit store self_id (get upstream store)

unfoldable pub create : Fresh → NewInbound → Inbounds → Checked Inbounds
create fresh input store =
    validate_inbound input
    ≫ validate_upstream store input.upstream_inbound_id none input.core
    ≫ ok (insert fresh.id (create_inbound fresh input) store)

-- The upstream is checked only where the change names one.
abbrev pub check_patch : Inbounds → ℕ → Patch ℕ → String → Check
check_patch store id missing entry_core = ok tt
check_patch store id null entry_core = ok tt
check_patch store id (value upstream) entry_core =
    validate_upstream store (some upstream) (some id) entry_core

abbrev change : Fresh → ℕ → UpdateInbound → Inbounds → Option Inbound → Checked Inbounds
change fresh id input store none = err (not_found "inbound not found")
change fresh id input store (some current) =
    validate_effective_update current input
    ≫ check_patch store id input.upstream_inbound_id (unwrap_or input.core current.core)
    ≫ ok (insert id (update_inbound fresh input current) store)

unfoldable pub update : Fresh → ℕ → UpdateInbound → Inbounds → Checked Inbounds
update fresh id input store =
    validate_update_inbound input ≫ change fresh id input store (get id store)
