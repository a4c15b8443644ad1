-- ===== src/Loops/Schedule.antt =====
-- Scheduled operations, master/src/schedule.rs, are executed once.
use text.Mathlib.Text.{◌==◌ as str_eq}
use honey.Prelude.{
  ℕ, zero, suc, String, Bool, true, false, not, ◌||◌, List, [], ◌∷◌, ◌==◌, ==_iff, if◌then◌else◌,
  all, any, filter, take, ◌≡◌, ◌∙◌, refl, arith, Bool-cases, inl, inr,
}
use honey.Prelude.Sort.{sort_by, any-sort_by}
use honey.Loops.{
  ScheduledOp, Estate, Executed, failed, done, is_waiting, runs_first, due_scheduled_ops, marked,
  mark_scheduled_op, execute, run_ops, schedule_tick,
}

abbrev pub has_op : ℕ → List ScheduledOp → Bool
has_op id ops = any (λ (o : ScheduledOp). o.id == id) ops

-- No row with the identifier is pending.
abbrev is_settled : ℕ → List ScheduledOp → Bool
is_settled id ops =
    all (λ (o : ScheduledOp). not (o.id == id) || not (str_eq o.status "pending")) ops

module _ (connected : ℕ → Bool) (user_node_ids : ℕ → List ℕ) (token : String) where
  abbrev mark : ℕ → Executed → List ScheduledOp → List ScheduledOp
  mark = mark_scheduled_op

  marked-settled :
      (id : ℕ) (r : Executed) (o : ScheduledOp) → is_settled id (marked r o ∷ []) ≡ true
  marked-settled id (failed why) o = ground arith
  marked-settled id (done message) o = ground arith

  mark-is_settled :
      (id : ℕ) (r : Executed) (ops : List ScheduledOp) → is_settled id (mark id r ops) ≡ true
  unfolding mark_scheduled_op
  mark-is_settled id r [] = refl
  mark-is_settled id r (o ∷ ops) = elim (Bool-cases (o.id == id)) [
    | inl same ↦ rw same (ground (arith, marked-settled id r o, mark-is_settled id r ops))
    | inr other ↦ rw other (ground (arith, other, mark-is_settled id r ops))
  ]

  mark-stays_settled :
      (id j : ℕ) (r : Executed) (ops : List ScheduledOp)
      → is_settled id ops ≡ true
      → is_settled id (mark j r ops) ≡ true
  unfolding mark_scheduled_op
  mark-stays_settled id j r [] h = refl
  mark-stays_settled id j r (o ∷ ops) h =
      let rest : is_settled id ops ≡ true = ground (arith, h) in
      elim (Bool-cases (o.id == j)) [
        | inl same ↦
            rw same (ground (arith, marked-settled id r o, mark-stays_settled id j r ops rest))
        | inr other ↦ rw other (ground (arith, h, mark-stays_settled id j r ops rest))
      ]

  abbrev run : (ℕ → Bool) → List ScheduledOp → List ScheduledOp → Estate → List ScheduledOp × Estate
  run = run_ops connected user_node_ids token

  -- The table after an operation, recorded or not.
  abbrev recorded : (ℕ → Bool) → ℕ → Executed → List ScheduledOp → List ScheduledOp
  recorded unmarked j r ops = if unmarked j then ops else mark j r ops

  recorded-stays_settled :
      (id j : ℕ) (unmarked : ℕ → Bool) (r : Executed) (ops : List ScheduledOp)
      → is_settled id ops ≡ true
      → is_settled id (recorded unmarked j r ops) ≡ true
  recorded-stays_settled id j unmarked r ops h = elim (Bool-cases (unmarked j)) [
    | inl lost ↦ rw lost h
    | inr kept ↦ rw kept (mark-stays_settled id j r ops h)
  ]

  run-stays_settled :
      (id : ℕ) (unmarked : ℕ → Bool) (due ops : List ScheduledOp) (e : Estate)
      → is_settled id ops ≡ true
      → is_settled id (run unmarked due ops e).0 ≡ true
  unfolding run_ops
  run-stays_settled id unmarked [] ops e h = h
  run-stays_settled id unmarked (op ∷ due) ops e h =
      let r = execute connected user_node_ids token op e in
      run-stays_settled id unmarked due (recorded unmarked op.id r.0 ops) r.1
        (recorded-stays_settled id op.id unmarked r.0 ops h)

  recorded-is_settled :
      (id j : ℕ) (unmarked : ℕ → Bool) (r : Executed) (ops : List ScheduledOp)
      → j ≡ id
      → unmarked id ≡ false
      → is_settled id (recorded unmarked j r ops) ≡ true
  recorded-is_settled id j unmarked r ops e kept = rw (e, kept) (mark-is_settled id r ops)

  run-is_settled :
      (id : ℕ) (unmarked : ℕ → Bool) (due ops : List ScheduledOp) (e : Estate)
      → unmarked id ≡ false
      → has_op id due ≡ true
      → is_settled id (run unmarked due ops e).0 ≡ true
  unfolding run_ops
  run-is_settled id unmarked [] ops e kept h = absurd (cc)
  run-is_settled id unmarked (op ∷ due) ops e kept h =
      let r = execute connected user_node_ids token op e in
      elim (Bool-cases (op.id == id)) [
        | inl same ↦
            run-stays_settled id unmarked due (recorded unmarked op.id r.0 ops) r.1
              (recorded-is_settled id op.id unmarked r.0 ops ((==_iff op.id id).0 same) kept)
        | inr other ↦
            run-is_settled id unmarked due (recorded unmarked op.id r.0 ops) r.1 kept
              (ground (arith, other, h))
      ]

  not-waiting :
      (id later : ℕ) (ops : List ScheduledOp)
      → is_settled id ops ≡ true
      → has_op id (filter (is_waiting later) ops) ≡ false
  not-waiting id later [] h = refl
  not-waiting id later (o ∷ ops) h = ground (arith, not-waiting id later ops)

  any-take {ℓ} :
      {A : Type ℓ} (p : A → Bool) (n : ℕ) (xs : List A)
      → any p xs ≡ false
      → any p (take n xs) ≡ false
  any-take p zero xs h = refl
  any-take p (suc n) [] h = refl
  any-take p (suc n) (x ∷ xs) h = ground (arith, any-take p n xs)

  -- An operation that a tick takes, whether it fails or not, and whose outcome is then recorded, is not
  -- taken by the next tick, however late that is, and whatever other outcomes cannot be recorded.
  pub executed_once :
      (id now later : ℕ) (unmarked : ℕ → Bool) (ops : List ScheduledOp) (e : Estate)
      → has_op id (due_scheduled_ops now ops) ≡ true
      → unmarked id ≡ false
      → has_op id (
          due_scheduled_ops later
            (schedule_tick connected user_node_ids token now unmarked ops e).0)
        ≡ false
  unfolding schedule_tick due_scheduled_ops
  executed_once id now later unmarked ops e h kept =
      let due = due_scheduled_ops now ops in
      let after = (run unmarked due ops e).0 in
      let waiting = filter (is_waiting later) after in
      any-take (λ (o : ScheduledOp). o.id == id) 50 (sort_by runs_first waiting)
        (any-sort_by runs_first (λ (o : ScheduledOp). o.id == id) waiting
          ∙ not-waiting id later after (run-is_settled id unmarked due ops e kept h))
