-- ===== src/Sdk.antt =====
-- The values of the Temporal SDK that the program reads and writes: the fields of
-- workflow.ActivityOptions, workflow.LocalActivityOptions and temporal.RetryPolicy, and of
-- activity.Info. Durations are `time.Duration`, 64-bit nanoseconds.
use temporal_mistakes.Base.{ℕ, Option, none, String, List, ℤ, pos}

abbrev pub second : ℤ
second = pos 1_000_000_000

abbrev pub minute : ℤ
minute = pos 60_000_000_000

abbrev pub hour : ℤ
hour = pos 3_600_000_000_000

pub record RetryPolicy (F : Type 0) : Type 0 where
  pub initial_interval : ℤ
  pub backoff_coefficient : F
  pub maximum_interval : ℤ
  pub maximum_attempts : ℤ

pub record ActivityOptions (F : Type 0) : Type 0 where
  pub task_queue : String
  pub schedule_to_close_timeout : ℤ
  pub schedule_to_start_timeout : ℤ
  pub start_to_close_timeout : ℤ
  pub heartbeat_timeout : ℤ
  pub retry_policy : Option (RetryPolicy F)

-- The zero value, from which an options literal sets fields.
abbrev pub zero_options : {F : Type 0} → ActivityOptions F
zero_options = record {
  task_queue = "";
  schedule_to_close_timeout = pos 0;
  schedule_to_start_timeout = pos 0;
  start_to_close_timeout = pos 0;
  heartbeat_timeout = pos 0;
  retry_policy = none;
}

pub record LocalActivityOptions (F : Type 0) : Type 0 where
  pub schedule_to_close_timeout : ℤ
  pub start_to_close_timeout : ℤ
  pub retry_policy : Option (RetryPolicy F)

pub record WorkflowExecution : Type 0 where
  pub id : String
  pub run_id : String

-- The texts of `activity.Info` are their bytes.
pub record ActivityInfo (F : Type 0) : Type 0 where
  pub workflow_id : List ℕ
  pub run_id : List ℕ
  pub activity_id : List ℕ
  pub attempt : ℤ
  pub heartbeat_timeout : ℤ
  pub retry_policy : Option (RetryPolicy F)
