-- ===== src/Monitor/Devices.antt =====
-- Which devices the limit of master/src/monitor.rs leaves connected.
use text.Mathlib.Text.{◌==◌ as str_eq}
use text.Mathlib.TextEquality.{eq_iff}
use honey.Prelude.{
  ℕ, ◌≤◌, ◌<◌, String, Bool, true, false, ◌&&◌, ◌||◌, Option, none, some, min, unwrap_or,
  is_some_and, leb, ltb, ◌==◌, if◌then◌else◌, Bool-cases, inl, inr, ap, sym, ◌≢◌, List, [], ◌∷◌,
  any, all, count, take, drop, length, ◌≡◌, ◌∙◌, refl, arith,
}
use honey.Prelude.Sort.{sort_by, sort_by-is_sorted, any-sort_by, all-sort_by, count-sort_by}
use honey.Prelude.Cut.{
  any-take-drop, length-take, length-sort_by, count-take-drop, counted, all-take, all-drop,
  sorted_split,
}
use honey.Prelude.Keys.{string_eq, Map, get, insert, IsUnique, insert-IsUnique, get-insert}
use honey.Monitor.{
  ConnRef, start_of, earlier, note_ip, ip_first, older, ranked, has_ip, cut_devices, Limited,
  to_limit, judge_user,
}

-- The devices that are not cut.
abbrev pub kept_devices : ℕ → List ConnRef → List (String × ℕ)
kept_devices limit conns = take limit (ranked conns)

has_ip-insert :
    (ip k : String) (v : ℕ) (m : Map String ℕ)
    → has_ip ip (insert k v m) ≡ (str_eq k ip || has_ip ip m)
unfolding insert
has_ip-insert ip k v [] = refl
has_ip-insert ip k v ((j, w) ∷ m) =
    ground (arith, eq_iff j k, eq_iff j ip, eq_iff k ip, has_ip-insert ip k v m)

-- The table of devices has an address exactly if a connection has it.
has_ip-ip_first :
    (ip : String) (conns : List ConnRef) (seen : Map String ℕ)
    → has_ip ip (ip_first conns seen)
      ≡ (has_ip ip seen || any (λ (c : ConnRef). str_eq c.ip ip) conns)
unfolding ip_first
has_ip-ip_first ip [] seen = ground arith
has_ip-ip_first ip (c ∷ cs) seen =
    has_ip-ip_first ip cs (note_ip c seen)
    ∙ ground (arith, has_ip-insert ip c.ip (earlier (start_of c) (get c.ip seen)) seen)

-- A device stands once among the ranked ones, so that it is not both kept and cut.
abbrev times : String → List (String × ℕ) → ℕ
times ip devices = count (λ (d : String × ℕ). str_eq d.0 ip) devices

times_absent : (ip : String) (m : Map String ℕ) → get ip m ≡ none → times ip m ≡ 0
unfolding get
times_absent ip [] h = refl
times_absent ip ((j, w) ∷ m) h = ground (arith, times_absent ip m)

times_unique : (ip : String) (m : Map String ℕ) → IsUnique m → times ip m ≤ 1
times_unique ip [] h = omega arith
times_unique ip ((j, w) ∷ m) h =
    ground (arith, times_unique ip m h.1, times_absent ip m, eq_iff j ip, h.0)

ip_first-IsUnique :
    (conns : List ConnRef) (seen : Map String ℕ) → IsUnique seen → IsUnique (ip_first conns seen)
unfolding ip_first
ip_first-IsUnique [] seen h = h
ip_first-IsUnique (c ∷ cs) seen h =
    ip_first-IsUnique cs (note_ip c seen)
      (insert-IsUnique c.ip (earlier (start_of c) (get c.ip seen)) seen h)

kept-not-cut :
    (limit : ℕ) (conns : List ConnRef) (ip : String)
    → (has_ip ip (kept_devices limit conns) && has_ip ip (cut_devices limit conns)) ≡ false
unfolding cut_devices ranked
kept-not-cut limit conns ip =
    let devices = ip_first conns [] in
    let is_it = λ (d : String × ℕ). str_eq d.0 ip in
    ground (
      arith,
      times_unique ip devices (ip_first-IsUnique conns [] tt),
      count-sort_by older is_it devices,
      count-take-drop is_it limit (sort_by older devices),
      counted is_it (take limit (sort_by older devices)),
      counted is_it (drop limit (sort_by older devices)),
    )

-- The earliest session of a device, found by going through the connections.
abbrev pub first_start : String → List ConnRef → Option ℕ
first_start ip [] = none
first_start ip (c ∷ cs) =
    let rest = first_start ip cs in
    if str_eq c.ip ip then some (min (start_of c) (unwrap_or rest (start_of c))) else rest

abbrev least : Option ℕ → Option ℕ → Option ℕ
least none o = o
least (some m) none = some m
least (some m) (some n) = some (min m n)

least-earlier :
    (s : ℕ) (o rest : Option ℕ)
    → least (some (earlier s o)) rest ≡ least o (some (min s (unwrap_or rest s)))
least-earlier s none none = ground arith
least-earlier s none (some n) = ground arith
least-earlier s (some m) none = ground arith
least-earlier s (some m) (some n) = ground arith

get-ip_first :
    (ip : String) (conns : List ConnRef) (seen : Map String ℕ)
    → get ip (ip_first conns seen) ≡ least (get ip seen) (first_start ip conns)
unfolding ip_first
get-ip_first ip [] seen = least_none (get ip seen)
  where
    least_none : (o : Option ℕ) → o ≡ least o none
    least_none none = refl
    least_none (some m) = refl
get-ip_first ip (c ∷ cs) seen = elim (Bool-cases (str_eq c.ip ip)) [
  | inl same ↦
      let here : get c.ip seen ≡ get ip seen = ap (λ k. get k seen) ((eq_iff c.ip ip).0 same) in
      let noted : get ip (note_ip c seen) ≡ some (earlier (start_of c) (get ip seen)) =
        ground
          (arith, get-insert c.ip ip (earlier (start_of c) (get c.ip seen)) seen, same, here) in
      get-ip_first ip cs (note_ip c seen)
      ∙ ap (λ o. least o (first_start ip cs)) noted
      ∙ least-earlier (start_of c) (get ip seen) (first_start ip cs)
      ∙ rw same refl
  | inr other ↦
      let noted : get ip (note_ip c seen) ≡ get ip seen =
        ground (arith, get-insert c.ip ip (earlier (start_of c) (get c.ip seen)) seen, other) in
      get-ip_first ip cs (note_ip c seen)
      ∙ ap (λ o. least o (first_start ip cs)) noted
      ∙ rw other refl
]

abbrev dated : (String → Option ℕ) → String × ℕ → Bool
dated f d = is_some_and (f d.0) (λ (n : ℕ). n == d.1)

-- What agrees with the table of devices agrees with each of its entries.
all-dated :
    (f : String → Option ℕ) (m : Map String ℕ)
    → IsUnique m
    → ((k : String) (v : ℕ) → get k m ≡ some v → f k ≡ some v)
    → all (dated f) m ≡ true
unfolding get
all-dated f [] u h = refl
all-dated f ((j, w) ∷ m) u h =
    let first : f j ≡ some w = h j w (ground (arith, eq_iff j j)) in
    rw first (ground (arith, all-dated f m u.1 (λ k v e. h k v (later k v e))))
  where
    later : (k : String) (v : ℕ) → get k m ≡ some v → get k ((j, w) ∷ m) ≡ some v
    later k v e = ground (arith, e, u.0, eq_iff j k)

-- The first session of the one is there, and not after that of the other.
abbrev pub no_later : Option ℕ → Option ℕ → Bool
no_later none o = false
no_later (some m) none = false
no_later (some m) (some n) = leb m n

cut_in_time :
    (f : String → Option ℕ) (d : String × ℕ) (es : List (String × ℕ))
    → dated f d ≡ true
    → all (dated f) es ≡ true
    → all (older d) es ≡ true
    → all (λ (e : String × ℕ). no_later (f d.0) (f e.0)) es ≡ true
cut_in_time f d [] h k o = refl
cut_in_time f d (e ∷ es) h k o = ground (arith, h, k, o, cut_in_time f d es h)

kept_in_time :
    (f : String → Option ℕ) (ds es : List (String × ℕ))
    → all (dated f) ds ≡ true
    → all (dated f) es ≡ true
    → all (λ (d : String × ℕ). all (older d) es) ds ≡ true
    → all (λ (d : String × ℕ). all (λ (e : String × ℕ). no_later (f d.0) (f e.0)) es) ds ≡ true
kept_in_time f [] es h k o = refl
kept_in_time f (d ∷ ds) es h k o = ground (arith, h, o, cut_in_time f d es, kept_in_time f ds es, k)

all-sort_by-older :
    (p : String × ℕ → Bool) (xs : List (String × ℕ)) → all p (sort_by older xs) ≡ all p xs
all-sort_by-older p xs = all-sort_by older p xs

ranked-dated :
    (conns : List ConnRef) → all (dated (λ ip. first_start ip conns)) (ranked conns) ≡ true
unfolding ranked
ranked-dated conns =
    all-sort_by-older (dated (λ ip. first_start ip conns)) (ip_first conns [])
    ∙ all-dated (λ ip. first_start ip conns) (ip_first conns []) (ip_first-IsUnique conns [] tt)
        (λ k v e. sym (get-ip_first k conns []) ∙ e)

exceeded :
    (enforce : Bool) (user : String) (limited : Limited) (conns : List ConnRef)
    → judge_user enforce user limited conns ≢ []
    → (0 < to_limit limited.limit) × (to_limit limited.limit < length (ip_first conns []))
unfolding judge_user
exceeded enforce user limited conns h =
    let n = to_limit limited.limit in
    elim (Bool-cases (ltb 0 n && ltb n (length (ip_first conns [])))) [
      | inl over ↦ ground (arith, over)
      | inr within ↦ absurd (h (rw within refl))
    ]

-- Where the tick acts on a user, the user's limit is above 0, and: exactly as many devices as the limit
-- are not cut; the earliest of all sessions of a device that is kept is not later than the earliest of
-- one that is cut; an address is among the kept or the cut ones exactly if a connection has it, and
-- never among both.
pub limit_kept :
    (enforce : Bool) (user : String) (limited : Limited) (conns : List ConnRef)
    → judge_user enforce user limited conns ≢ []
    → let limit = to_limit limited.limit in
      let kept = kept_devices limit conns in
      let cut = cut_devices limit conns in
      (0 < limit)
      × (length kept ≡ limit)
      × (all
            (λ (d : String × ℕ).
              all
                (λ (e : String × ℕ). no_later (first_start d.0 conns) (first_start e.0 conns))
                cut)
            kept
          ≡ true)
      × ((ip : String)
          → (has_ip ip kept || has_ip ip cut) ≡ any (λ (c : ConnRef). str_eq c.ip ip) conns)
      × ((ip : String) → (has_ip ip kept && has_ip ip cut) ≡ false)
unfolding cut_devices ranked
limit_kept enforce user limited conns h =
    let limit = to_limit limited.limit in
    let devices = ip_first conns [] in
    let over = exceeded enforce user limited conns h in
    let dates = ranked-dated conns in
    (
      over.0,
      length-take limit (sort_by older devices)
          (omega (arith, over.1, length-sort_by older devices)),
      kept_in_time (λ ip. first_start ip conns) (take limit (sort_by older devices))
          (drop limit (sort_by older devices)) (all-take _ limit (sort_by older devices) dates)
          (all-drop older (λ x y z p q. ground arith) _ limit (sort_by older devices) dates)
          (sorted_split older (λ x y z p q. ground arith) limit (sort_by older devices)
            (sort_by-is_sorted older (λ x y p. ground arith) devices)),
      λ ip.
          any-take-drop (λ (d : String × ℕ). str_eq d.0 ip) limit (sort_by older devices)
          ∙ (any-sort_by older (λ (d : String × ℕ). str_eq d.0 ip) devices
              ∙ has_ip-ip_first ip conns []),
      kept-not-cut limit conns,
    )
