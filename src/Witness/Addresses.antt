-- ===== src/Witness/Addresses.antt =====
-- A pool of six hosts and a table of three ranges.
use honey.Prelude.{ℕ, ◌&&◌, true, none, List, [], ◌∷◌, ◌≡◌, refl, leb, all, is_none_or}
use honey.Addresses.{network_of, broadcast, first_free, allocate_ip, address, Range, covers, scan}
use honey.Addresses.Narrowest.{is_beaten, scan-narrowest}

-- 10.8.0.0/29, of which .2 is taken.
abbrev pool : ℕ
pool = 168_296_448

third_host : allocate_ip pool 29 (168_296_450 ∷ []) ≡ address 168_296_451
unfolding allocate_ip network_of broadcast first_free
third_host = refl

abbrev table : List Range
table =
    record { start = 10; end = 99; code = "AA" }
    ∷ record { start = 20; end = 29; code = "BB" }
    ∷ record { start = 50; end = 59; code = "CC" }
    ∷ []

scan-narrowest_example :
    (is_none_or (scan 25 none table) (λ r. covers 25 r && leb 10 r.start) ≡ true)
    × (all (is_beaten 25 (scan 25 none table)) table ≡ true)
scan-narrowest_example =
    scan-narrowest 25 (λ r. leb 10 r.start) table (refl, (refl, (refl, tt))) refl
