-- ===== src/Core/Audit/Laws.antt =====
-- What an audit trail shows of what was recorded.
use ai_inference_project.Common.{
  String, ◌≡◌, List, [], ◌∷◌, ◌++◌, filter-append, ◌==◌, string_key, if◌then◌else◌,
}
use ai_inference_project.Core.Audit.{AuditEvent, in_memory, record_event, get_trail}

-- Recording an event in an in-memory log puts it at the end of the trail of its own request, and
-- leaves the trail of every other request as it was.
pub get_trail-record_event :
    (event : AuditEvent) (events : List AuditEvent) (request_id : String)
    → get_trail (record_event event (in_memory events)) request_id
      ≡ get_trail (in_memory events) request_id
        ++ (if event.request_id == request_id then event ∷ [] else [])
unfolding get_trail record_event
get_trail-record_event event events request_id =
    filter-append (λ e. e.request_id == request_id) events (event ∷ [])
