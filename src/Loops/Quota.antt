-- ===== src/Loops/Quota.antt =====
-- What a tick of the quota windows, master/src/quota.rs, leaves behind.
use honey.Prelude.{
  ℕ, String, Bool, true, false, not, ◌||◌, List, [], ◌∷◌, leb, ◌==◌, ==_iff, all, any, Option-cases,
  is_none_or, ◌≡◌, refl, arith, Bool-cases, inl, inr,
}
use honey.Prelude.Keys.{nat_eq, get, get-insert}
use honey.Traffic.{User, Tables, reset_user_traffic}
use honey.Loops.{
  Window, Windows, is_due, due_quota_resets, next_boundary, advance_quota_reset, Quotas,
  reset_due_window, reset_all, quota_tick,
}

abbrev pub listed_in : ℕ → List (ℕ × String) → Bool
listed_in id due = any (λ (d : ℕ × String). d.0 == id) due

-- What is still due is in the list.
abbrev lists_due : ℕ → List (ℕ × String) → Windows → Bool
lists_due now due ws = all (λ (e : ℕ × Window). not (is_due now e.1) || listed_in e.0 due) ws

lists_due-more :
    (now : ℕ) (d : ℕ × String) (due : List (ℕ × String)) (ws : Windows)
    → lists_due now due ws ≡ true
    → lists_due now (d ∷ due) ws ≡ true
lists_due-more now d due [] h = refl
lists_due-more now d due (e ∷ ws) h = ground (arith, lists_due-more now d due ws)

lists_due-due : (now : ℕ) (ws : Windows) → lists_due now (due_quota_resets now ws) ws ≡ true
unfolding due_quota_resets
lists_due-due now [] = refl
lists_due-due now ((id, w) ∷ ws) = elim (Bool-cases (is_due now w)) [
  | inl due ↦ ground (
    arith,
    due,
    ==_iff id id,
    lists_due-due now ws,
    lists_due-more now (id, w.interval) (due_quota_resets now ws) ws,
  )
  | inr idle ↦ ground (arith, idle, lists_due-due now ws)
]

later_boundary : (now : ℕ) (interval : String) → leb (next_boundary now interval) now ≡ false
unfolding next_boundary
later_boundary now interval = ground arith

lists_due-advance :
    (now id : ℕ) (interval : String) (due : List (ℕ × String)) (ws : Windows)
    → lists_due now ((id, interval) ∷ due) ws ≡ true
    → lists_due now due (advance_quota_reset id (next_boundary now interval) ws) ≡ true
unfolding advance_quota_reset
lists_due-advance now id interval due [] h = refl
lists_due-advance now id interval due ((j, w) ∷ ws) h = ground (
  arith,
  ==_iff j id,
  ==_iff id j,
  later_boundary now interval,
  lists_due-advance now id interval due ws,
)

abbrev pub never : ℕ → Bool
never id = false

-- A user that is there has no traffic.
abbrev pub is_zero : ℕ → Tables → Bool
is_zero id t = is_none_or (get id t.users) (λ (u : User). u.used_traffic_bytes == 0)

is_zero-reset :
    (id j : ℕ) (t : Tables)
    → (is_zero id t || (j == id)) ≡ true
    → is_zero id (reset_user_traffic j t).1 ≡ true
unfolding reset_user_traffic
is_zero-reset id j t h = elim (Option-cases (get j t.users)) [
  | inl e ↦ rw (e, reset_user_traffic) (ground (arith, h, e, ==_iff j id))
  | inr (u, e) ↦
      rw (e, reset_user_traffic)
        (ground
          (arith, h, e, ==_iff j id, get-insert j id (record u { used_traffic_bytes = 0 }) t.users))
]

due-none : (now : ℕ) (ws : Windows) → lists_due now [] ws ≡ true → due_quota_resets now ws ≡ []
unfolding due_quota_resets
due-none now [] h = refl
due-none now ((id, w) ∷ ws) h = ground (arith, due-none now ws)

module _ (connected : ℕ → Bool) (user_node_ids : ℕ → List ℕ) (now : ℕ) where
  abbrev run : List (ℕ × String) → Quotas → Quotas
  run = reset_all connected user_node_ids now never never

  lists_due-run :
      (due : List (ℕ × String)) (q : Quotas)
      → lists_due now due q.windows ≡ true
      → lists_due now [] (run due q).windows ≡ true
  unfolding reset_all reset_due_window
  lists_due-run [] q h = h
  lists_due-run ((id, interval) ∷ due) q h =
      lists_due-run due (reset_due_window connected user_node_ids now false false (id, interval) q)
        (lists_due-advance now id interval due q.windows h)

  is_zero-run :
      (id : ℕ) (due : List (ℕ × String)) (q : Quotas)
      → (is_zero id q.tables || listed_in id due) ≡ true
      → is_zero id (run due q).tables ≡ true
  unfolding reset_all reset_due_window
  is_zero-run id [] q h = ground arith
  is_zero-run id ((j, interval) ∷ due) q h = elim (Bool-cases (listed_in id due)) [
    | inl later ↦ is_zero-run id due _ (rw later (or_true _))
    | inr last ↦ is_zero-run id due _ (ground (arith, last, h, is_zero-reset id j q.tables))
  ]
    where
      or_true : (b : Bool) → (b || true) ≡ true
      or_true b = ground arith

  -- After a tick in which no reset and no advance of a window fails, no window is due any more, and every user whose window was
  -- due has no traffic counted.
  pub quota_tick-resets :
      (q : Quotas)
      → (due_quota_resets now (quota_tick connected user_node_ids now never never q).windows ≡ [])
        × ((id : ℕ)
            → listed_in id (due_quota_resets now q.windows) ≡ true
            → is_zero id (quota_tick connected user_node_ids now never never q).tables ≡ true)
  unfolding quota_tick
  quota_tick-resets q =
      let due = due_quota_resets now q.windows in
      (
        due-none now (run due q).windows (lists_due-run due q (lists_due-due now q.windows)),
        λ id h. is_zero-run id due q (rw h (or_true (is_zero id q.tables))),
      )
    where
      or_true : (b : Bool) → (b || true) ≡ true
      or_true b = ground arith
