-- ===== src/Core/Audit.antt =====
-- core/audit.py: the append-only audit trail. `AuditEvent.timestamp` is not kept.
pub mod Laws
use ai_inference_project.Common.{ℕ, Option, String, List, [], ◌∷◌, ◌++◌, filter, ◌==◌, string_key}

-- A value in the details of an event: a text or None, or a number.
pub data Detail : Type 0 where
  words : Option String → Detail
  number : ℕ → Detail

pub record AuditEvent : Type 0 where
  pub request_id : String
  pub event : String
  pub component : String
  pub detail : List (String × Detail)

-- `AuditLog`: the in-memory log, and the log that discards what it is told.
pub data AuditLog : Type 0 where
  in_memory : List AuditEvent → AuditLog
  disabled : AuditLog

unfoldable pub record_event : AuditEvent → AuditLog → AuditLog
record_event event (in_memory events) = in_memory (events ++ event ∷ [])
record_event event disabled = disabled

unfoldable pub get_trail : AuditLog → String → List AuditEvent
unfolding filter
get_trail (in_memory events) request_id = filter (λ e. e.request_id == request_id) events
get_trail disabled request_id = []
