-- ===== src/Addresses.antt =====
-- Addresses: the WireGuard pool of master/src/wg.rs and the location table of master/src/geo.rs. An
-- IPv4 address is a number below 2 ^ 32; the parsing of texts is left to the standard library.
pub mod Pool
pub mod Narrowest
use honey.Prelude.{
  ℕ, zero, suc, ◌+◌, ◌-◌, ◌*◌, ◌/◌, ◌%◌, ◌^◌, String, Bool, true, false, ◌&&◌, Option, none, some,
  List, [], ◌∷◌, ltb, leb, ◌==◌, any, if◌then◌else◌,
}

-- `allocate_ip` of a parsed CIDR. The shift of the mask is by `32 - prefix` bits, of which a release
-- build keeps the last five.
abbrev pub shift : ℕ → ℕ
shift prefix = (32 - prefix) % 32

unfoldable pub network_of : ℕ → ℕ → ℕ
network_of base prefix = base / 2 ^ shift prefix * 2 ^ shift prefix

unfoldable pub broadcast : ℕ → ℕ → ℕ
unfolding network_of
broadcast base prefix = network_of base prefix + (2 ^ shift prefix - 1)

-- The loop over the hosts from `host` on, `n` of them.
unfoldable pub first_free : List ℕ → ℕ → ℕ → Option ℕ
first_free taken host zero = none
first_free taken host (suc n) =
    let later = first_free taken (host + 1) n in
    if any (λ a. a == host) taken then later else some host

pub data Allocation : Type 0 where
  too_small : Allocation
  exhausted : Allocation
  address : ℕ → Allocation

abbrev pub allocated : Option ℕ → Allocation
allocated none = exhausted
allocated (some host) = address host

unfoldable pub allocate_ip : ℕ → ℕ → List ℕ → Allocation
allocate_ip base prefix taken =
    if leb 31 prefix
    then too_small
    else allocated (
        first_free taken (network_of base prefix + 2)
          (broadcast base prefix - (network_of base prefix + 2)))

-- A range of the location table.
pub record Range : Type 0 where
  pub start : ℕ
  pub end : ℕ
  pub code : String

abbrev pub covers : ℕ → Range → Bool
covers key r = leb r.start key && leb key r.end

abbrev pub width : Range → ℕ
width r = r.end - r.start

-- The best range so far after a range that starts no later than the key.
abbrev pub better : ℕ → Option Range → Range → Option Range
better key none r = if leb key r.end then some r else none
better key (some b) r = if leb key r.end && ltb (width r) (width b) then some r else some b

unfoldable pub scan : ℕ → Option Range → List Range → Option Range
scan key best [] = best
scan key best (r ∷ table) =
    let later = scan key (better key best r) table in if ltb key r.start then best else later

-- `lookup` of an IPv4 address in the loaded table.
unfoldable pub lookup : ℕ → List Range → String
lookup key table = elim (scan key none table) [ none ↦ "unknown" | some r ↦ r.code ]
