-- ===== src/Portal/Schema.antt =====
-- The portal's tables as the queries of portal/*.go use them, and the types of portal/job/job.go.
-- Row ids, team ids and scores are the non-negative numbers that the program stores.
use isucon6_final.Common.{ℕ, Option, List, String, Bool}

pub data Status : Type 0 where
  waiting running done aborted : Status

pub record QueueRow : Type 0 where
  pub id : ℕ
  pub team_id : ℕ
  pub status : Status
  pub bench_node : Option String
  pub stderr : Option String
  pub created_at : ℕ
  pub updated_at : ℕ

pub record ResultRow : Type 0 where
  pub id : ℕ
  pub team_id : ℕ
  pub queue_id : ℕ
  pub pass : ℕ
  pub score : ℕ
  pub messages : String
  pub created_at : ℕ

pub data Category : Type 0 where
  general students official : Category

pub record TeamRow : Type 0 where
  pub id : ℕ
  pub name : String
  pub password : String
  pub ip_address : Option String
  pub instance_name : Option String
  pub category : Category
  pub azure_resource_group : String

pub record MessageRow : Type 0 where
  pub id : ℕ
  pub message : String
  pub kind : String

-- `next_*` are the AUTO_INCREMENT counters.
pub record Tables : Type 0 where
  pub queues : List QueueRow
  pub next_queue : ℕ
  pub results : List ResultRow
  pub next_result : ℕ
  pub teams : List TeamRow
  pub proxies : List String
  pub messages : List MessageRow
  pub next_message : ℕ

-- `wrapped` is an error of the driver with the text that `errors.Wrap` adds (empty if none does),
-- `affected` the error for a number of rows that cannot be.
pub data Error : Type 0 where
  wrapped : String → Error
  already_queued : ℕ → Error
  affected : ℕ → Error
  http : ℕ → Error
  http_message : ℕ → String → Error

pub record Job : Type 0 where
  pub id : ℕ
  pub team_id : ℕ
  pub urls : String

pub record Output : Type 0 where
  pub pass : Bool
  pub score : ℕ
  pub messages : List String

-- The pointers `Job` and `Output` are nil where the posted JSON has no such member.
pub record JobResult : Type 0 where
  pub job : Option Job
  pub output : Option Output
  pub stderr : String
