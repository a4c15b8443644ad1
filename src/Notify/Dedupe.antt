-- ===== src/Notify/Dedupe.antt =====
-- How often master/src/notify.rs dispatches one alert.
use text.Mathlib.Text.{◌==◌ as str_eq}
use text.Mathlib.TextEquality.{eq_iff}
use honey.Prelude.{
  ℕ, suc, ◌+◌, ◌<◌, String, Bool, true, false, ◌&&◌, Option, none, some, List, [], ◌∷◌, ltb, leb,
  if◌then◌else◌, filter, any, all, map, Option-cases, inl, inr, ◌≡◌, ◌∙◌, refl, arith,
}
use honey.Notify.{
  SystemNotification, is_there, Alert, Alerts, alert, cut_alert, cooldown, is_recent, latest,
  count_again, notification_of, prune_system_notifications, record_found,
  record_system_notification,
}

-- A row under the key that was created at `t` or later.
abbrev pub has_since : ℕ → String → List SystemNotification → Bool
has_since t key table =
    any (λ (n : SystemNotification). str_eq n.dedupe_key key && leb t n.created_at) table

is_there-latest :
    (n : SystemNotification) (ns : List SystemNotification) → is_there (latest (n ∷ ns)) ≡ true
unfolding latest
is_there-latest n ns = elim (Option-cases (latest ns)) [
  | inl e ↦ rw e refl
  | inr (m, e) ↦ rw e (ground arith)
]

is_there-latest-filter :
    (p : SystemNotification → Bool) (table : List SystemNotification)
    → any p table ≡ true
    → is_there (latest (filter p table)) ≡ true
is_there-latest-filter p [] h = absurd (cc)
is_there-latest-filter p (n ∷ table) h =
    ground (arith, is_there-latest n (filter p table), is_there-latest-filter p table)

has_since-prune :
    (now t : ℕ) (key : String) (table : List SystemNotification)
    → now < t + cooldown
    → has_since t key table ≡ true
    → has_since t key (prune_system_notifications now table) ≡ true
unfolding prune_system_notifications
has_since-prune now t key [] h k = k
has_since-prune now t key (n ∷ table) h k = ground (arith, has_since-prune now t key table h)

has_since-count_again :
    (now id t : ℕ) (a : Alert) (key : String) (table : List SystemNotification)
    → has_since t key (map (count_again now id a) table) ≡ has_since t key table
unfolding count_again
has_since-count_again now id t a key [] = refl
has_since-count_again now id t a key (n ∷ table) =
    ground (arith, has_since-count_again now id t a key table)

recent_of_since :
    (now t : ℕ) (key : String) (table : List SystemNotification)
    → now < t + cooldown
    → has_since t key table ≡ true
    → any (λ (n : SystemNotification). is_recent now key n) table ≡ true
recent_of_since now t key [] h k = k
recent_of_since now t key (n ∷ table) h k = ground (arith, recent_of_since now t key table h)

-- A row that was created less than 30 minutes ago survives every transaction, and keeps its key from
-- being inserted again.
module _ (t : ℕ) (key : String) (now fresh : ℕ) (a : Alert) (soon : now < t + cooldown) where
  has_since-record_found :
      (table : List SystemNotification) (found : Option SystemNotification)
      → has_since t key table ≡ true
      → has_since t key (record_found now fresh a table found).1 ≡ true
  unfolding record_found
  has_since-record_found table none h =
      has_since-prune now t key (notification_of now fresh a ∷ table) soon (ground (arith, h))
  has_since-record_found table (some n) h =
      has_since-prune now t key (map (count_again now n.id a) table) soon
        (has_since-count_again now n.id t a key table ∙ h)

  none_found :
      (table : List SystemNotification) (found : Option SystemNotification)
      → is_there found ≡ true
      → is_there (record_found now fresh a table found).0 ≡ false
  unfolding record_found
  none_found table none h = absurd (cc)
  none_found table (some n) h = refl

  not-inserted_again :
      (table : List SystemNotification)
      → a.key ≡ key
      → has_since t key table ≡ true
      → is_there (record_system_notification now fresh a table).0 ≡ false
  unfolding record_system_notification
  not-inserted_again table e h = none_found table (latest (filter (is_recent now a.key) table)) (
      is_there-latest-filter (is_recent now a.key) table
        (rw e (recent_of_since now t key table soon h)))

-- One call of `alert` with the database answering.
pub record Call : Type 0 where
  pub now : ℕ
  pub fresh : ℕ
  pub alert : Alert

abbrev after : Call → Alerts → Bool × Alerts
after c s = alert true c.now c.fresh c.alert s

-- How often a history dispatches an alert under a key, which is cut to 256 characters.
unfoldable pub dispatches : String → List Call → Alerts → ℕ
unfolding alert cut_alert
dispatches key [] s = 0
dispatches key (c ∷ calls) s =
    let rest = dispatches key calls (after c s).1 in
    if (after c s).0 && str_eq (cut_alert c.alert).key key then suc rest else rest

inserted-has_since :
    (t fresh : ℕ) (a : Alert) (table : List SystemNotification) (found : Option SystemNotification)
    → is_there (record_found t fresh a table found).0 ≡ true
    → has_since t a.key (record_found t fresh a table found).1 ≡ true
unfolding record_found notification_of prune_system_notifications
inserted-has_since t fresh a table (some n) h = absurd (cc)
inserted-has_since t fresh a table none h = ground (arith, eq_iff a.key a.key)

unless_same :
    (b same : Bool) (rest : ℕ)
    → (same ≡ true → b ≡ false)
    → rest ≡ 0
    → (if b && same then suc rest else rest) ≡ 0
unless_same b same rest h e = ground (arith, h)

head_soon :
    (t : ℕ) (c : Call) (calls : List Call)
    → all (λ (c : Call). ltb c.now (t + cooldown)) (c ∷ calls) ≡ true
    → (c.now < t + cooldown) × (all (λ (c : Call). ltb c.now (t + cooldown)) calls ≡ true)
head_soon t c calls h = ground arith

dispatches-zero :
    (t : ℕ) (key : String) (calls : List Call) (s : Alerts)
    → all (λ (c : Call). ltb c.now (t + cooldown)) calls ≡ true
    → has_since t key s.table ≡ true
    → dispatches key calls s ≡ 0
unfolding dispatches alert record_system_notification
dispatches-zero t key [] s h k = refl
dispatches-zero t key (c ∷ calls) s h k =
    let parts = head_soon t c calls h in
    let cut = cut_alert c.alert in
    let found = latest (filter (is_recent c.now cut.key) s.table) in
    let kept = has_since-record_found t key c.now c.fresh cut parts.0 s.table found k in
    unless_same _ (str_eq cut.key key) _
      (λ same.
        not-inserted_again t key c.now c.fresh cut parts.0 s.table ((eq_iff cut.key key).0 same) k)
      (dispatches-zero t key calls (after c s).1 parts.1 kept)

-- While the database answers, an alert that is dispatched is not dispatched again under the same key
-- by any later calls of the next 30 minutes, whatever other alerts they raise.
pub dispatched_once :
    (first : Call) (calls : List Call) (s : Alerts)
    → (alert true first.now first.fresh first.alert s).0 ≡ true
    → all (λ (c : Call). ltb c.now (first.now + cooldown)) calls ≡ true
    → dispatches
        (cut_alert first.alert).key
        calls
        (alert true first.now first.fresh first.alert s).1
      ≡ 0
unfolding alert record_system_notification
dispatched_once first calls s h k =
    dispatches-zero first.now (cut_alert first.alert).key calls
      (alert true first.now first.fresh first.alert s).1 k
      (inserted-has_since first.now first.fresh (cut_alert first.alert) s.table _ h)
