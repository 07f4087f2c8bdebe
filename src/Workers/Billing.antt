-- ===== src/Workers/Billing.antt =====
-- agent_pool.go: `BillingService`.
use catgirl.Base.{ℕ, String, Option, str_eq, M, ◌+◌, ◌*◌, if◌then◌else◌}
use catgirl.Models.{Uuid, Time, UsageOperationType}
use catgirl.Repository.{Db, create_usage_record}

pub record BillingService : Type 0 where
  pub session_id : Uuid
  pub user_id : String

-- In tenths.
unfoldable pub get_cost_multiplier : String → ℕ
get_cost_multiplier membership =
    if str_eq membership "free"
    then 10
    else if str_eq membership "basic"
    then 9
    else if str_eq membership "pro"
    then 7
    else if str_eq membership "enterprise"
    then 5
    else 10

-- `fresh` is the uuid that the call draws.
unfoldable pub record_usage :
    BillingService
    → Time
    → Uuid
    → Option Uuid
    → UsageOperationType
    → String
    → ℕ
    → ℕ
    → String
    → M Db (Unit {0})
record_usage svc now fresh task_id operation_type operation_name input_tokens output_tokens
      membership_level =
    let total_tokens = input_tokens + output_tokens in
    let cost_multiplier = get_cost_multiplier membership_level in
    create_usage_record (record {
      usage_id = fresh;
      task_id = task_id;
      session_id = svc.session_id;
      user_id = svc.user_id;
      operation_type = operation_type;
      operation_name = operation_name;
      input_tokens = input_tokens;
      output_tokens = output_tokens;
      total_tokens = total_tokens;
      membership_level = membership_level;
      cost_multiplier = cost_multiplier;
      effective_tokens = total_tokens * cost_multiplier;
      timestamp = now;
    })
