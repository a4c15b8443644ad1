-- ===== src/Addresses/Pool.antt =====
-- Which address of the pool is handed out.
use native.Mathlib.Decide.{ℕ_discrete}
use honey.Prelude.{
  ℕ, zero, suc, ◌+◌, ◌-◌, ◌≤◌, ◌<◌, Bool, true, false, some, List, ◌≡◌, arith, ltb, leb, not, ◌&&◌,
  ◌||◌, ◌≢◌, sym, subst, ◌==◌, any, inl, inr, Bool-cases,
}
use honey.Addresses.{network_of, broadcast, first_free, address, allocate_ip}

abbrev pub is_taken : List ℕ → ℕ → Bool
is_taken taken host = any (λ a. a == host) taken

-- Out of the hosts from `host` up to `a`, or taken.
abbrev pub is_passed : List ℕ → ℕ → ℕ → ℕ → Bool
is_passed taken host a h = not (leb host h && ltb h a) || is_taken taken h

passed_taken :
    (taken : List ℕ) (host a h : ℕ) → is_taken taken h ≡ true → is_passed taken host a h ≡ true
passed_taken taken host a h used = rw used (ground arith)

passed_other :
    (taken : List ℕ) (host a h : ℕ)
    → h ≢ host
    → is_passed taken (host + 1) a h ≡ true
    → is_passed taken host a h ≡ true
passed_other taken host a h other later = ground arith

handed_out :
    (base prefix : ℕ) (taken : List ℕ) (a : ℕ)
    → allocate_ip base prefix taken ≡ address a
    → first_free taken
        (network_of base prefix + 2)
        (broadcast base prefix - (network_of base prefix + 2))
      ≡ some a
unfolding allocate_ip
handed_out base prefix taken a e = ground arith

passed_next :
    (taken : List ℕ) (host a h : ℕ)
    → is_taken taken host ≡ true
    → is_passed taken (host + 1) a h ≡ true
    → is_passed taken host a h ≡ true
passed_next taken host a h used later = elim (ℕ_discrete h host) [
  | yes same ↦ passed_taken taken host a h (subst (λ k. is_taken taken k ≡ true) (sym same) used)
  | no other ↦ passed_other taken host a h other later
]

first_free-some :
    (taken : List ℕ) (h host n a : ℕ)
    → first_free taken host n ≡ some a
    → (host ≤ a) × (a < host + n) × (is_taken taken a ≡ false) × (is_passed taken host a h ≡ true)
unfolding first_free
first_free-some taken h host zero a e = ground arith
first_free-some taken h host (suc n) a e = elim (Bool-cases (is_taken taken host)) [
  | inl used ↦
      let later = first_free-some taken h (host + 1) n a (ground arith) in
      (
        omega (arith, later.0),
        omega (arith, later.1),
        later.2,
        passed_next taken host a h used later.3,
      )
  | inr free ↦ ground arith
]

-- The address that is handed out is a host of the pool past the server's own and short of the
-- broadcast address, it is free, and every lower host of the pool is taken.
allocate_ip-lowest :
    (base prefix : ℕ) (taken : List ℕ) (a h : ℕ)
    → allocate_ip base prefix taken ≡ address a
    → (network_of base prefix + 2 ≤ a)
      × (a < broadcast base prefix)
      × (is_taken taken a ≡ false)
      × (is_passed taken (network_of base prefix + 2) a h ≡ true)
unfolding allocate_ip
allocate_ip-lowest base prefix taken a h e =
    let f =
      first_free-some taken h (network_of base prefix + 2)
        (broadcast base prefix - (network_of base prefix + 2)) a
        (handed_out base prefix taken a e) in
    (f.0, omega (arith, f.0, f.1), f.2, f.3)
