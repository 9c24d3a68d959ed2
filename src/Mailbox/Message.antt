-- ===== src/Mailbox/Message.antt =====
-- app/multiagent/mailbox.py: `MailboxMessage`, without its free-form `metadata`.
use mega_deepagents.Base.{ℕ, String, Option}

pub data MessageSeverity : Type 0 where
  info warning error critical : MessageSeverity

pub record Message : Type 0 where
  pub message_id : String
  pub from_agent_id : String
  pub from_agent_name : String
  pub from_role : String
  -- None: broadcast
  pub to_agent_id : Option String
  pub to_role : Option String
  pub run_id : String
  pub title : String
  pub content : String
  pub severity : MessageSeverity
  pub thread_id : Option String
  pub reply_to : Option String
  pub delivery_attempts : ℕ
  pub consumed_at : Option ℕ
  pub created_at : ℕ
