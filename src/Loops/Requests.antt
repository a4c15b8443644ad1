-- ===== src/Loops/Requests.antt =====
-- The requests behind the loops, master/src/api/mod.rs and master/src/db/repo.rs: the quota interval of
-- a user, and operations that are scheduled and cancelled. The audit log is left out.
use text.Mathlib.Text.{◌==◌ as str_eq}
use honey.Prelude.{
  ℕ, ◌-◌, String, Bool, true, false, not, ◌&&◌, ◌||◌, Option, none, some, List, [], ◌∷◌, ltb, ◌==◌,
  if◌then◌else◌, any, map, ◌≡◌, arith,
}
use honey.Prelude.Text.{trim, one_of}
use honey.Api.{Checked, err, ok, Check, require_not, ◌≫◌, bad_request, not_found}
use honey.Loops.{Window, Windows, next_boundary, ScheduledOp, is_op, switches}

-- `set_user_quota_interval`: whether a row was changed, and the table.
unfoldable pub set_user_quota_interval : ℕ → String → Option ℕ → Windows → Bool × Windows
set_user_quota_interval id interval reset_at ws = (
  any (λ (e : ℕ × Window). e.0 == id) ws,
  map
      (λ (e : ℕ × Window).
        (e.0, (if e.0 == id then record { interval = interval; reset_at = reset_at } else e.1)))
      ws,
)

abbrev when_changed : String → Bool × Windows → Checked Windows
when_changed why (true, ws) = ok ws
when_changed why (false, ws) = err (not_found why)

unfoldable pub set_quota_interval : ℕ → ℕ → String → Windows → Checked Windows
unfolding set_user_quota_interval
set_quota_interval now id text ws =
    let interval = trim text in
    require_not (not (one_of interval ("none" ∷ "daily" ∷ "weekly" ∷ [])))
      "interval must be none, daily or weekly"
    ≫ when_changed "user not found" (
        set_user_quota_interval id interval
          (if str_eq interval "none" then none else some (next_boundary now interval)) ws)

pub record NewScheduledOp : Type 0 where
  pub resource_type : String
  pub resource_id : ℕ
  pub action : String
  pub run_at : ℕ

-- The actions of a resource type, if there is such a type.
unfoldable pub allowed_actions : String → Option (List String)
allowed_actions kind =
    if str_eq kind "node"
    then some ("enable" ∷ "disable" ∷ "push" ∷ [])
    else if str_eq kind "user"
    then some ("enable" ∷ "disable" ∷ "reset-traffic" ∷ "rotate-sub" ∷ [])
    else if str_eq kind "inbound"
    then some ("enable" ∷ "disable" ∷ [])
    else none

abbrev check_action : String → Option (List String) → Check
check_action action none = err (bad_request "resource_type must be node/user/inbound")
check_action action (some allowed) =
    require_not (not (one_of action allowed)) "unsupported action for this resource type"

unfoldable pub inserted_op : ℕ → NewScheduledOp → ScheduledOp
inserted_op fresh input = record {
  id = fresh;
  resource_type = input.resource_type;
  resource_id = input.resource_id;
  action = input.action;
  run_at = input.run_at;
  status = "pending";
  result = none;
}

unfoldable pub create_scheduled_op :
    ℕ → ℕ → NewScheduledOp → List ScheduledOp → Checked (List ScheduledOp)
unfolding allowed_actions inserted_op
create_scheduled_op fresh now input ops =
    check_action input.action (allowed_actions input.resource_type)
    ≫ require_not (ltb input.run_at (now - 60)) "run_at must be in the future"
    ≫ ok (inserted_op fresh input ∷ ops)

abbrev is_pending : ℕ → ScheduledOp → Bool
is_pending id op = (op.id == id) && str_eq op.status "pending"

unfoldable pub canceled_op : ℕ → ScheduledOp → ScheduledOp
canceled_op id op = if is_pending id op then record op { status = "canceled" } else op

-- Whether a row was changed, and the table.
unfoldable pub cancel_scheduled_op : ℕ → List ScheduledOp → Bool × List ScheduledOp
unfolding canceled_op
cancel_scheduled_op id ops = (any (is_pending id) ops, map (canceled_op id) ops)

-- The pairs that the loop has a branch for.
abbrev has_branch : ScheduledOp → Bool
has_branch op =
    switches op "node"
    || is_op op "node" "push"
    || switches op "user"
    || is_op op "user" "reset-traffic"
    || is_op op "user" "rotate-sub"
    || switches op "inbound"

-- What the API accepts, the loop has a branch for.
created-has_branch :
    (fresh now : ℕ) (input : NewScheduledOp) (ops after : List ScheduledOp)
    → create_scheduled_op fresh now input ops ≡ ok after
    → has_branch (inserted_op fresh input) ≡ true
unfolding create_scheduled_op inserted_op allowed_actions one_of
created-has_branch fresh now input ops after h = ground (arith, h)
