-- ===== src/Audit.antt =====
-- apps/moderation/audit.py: one row for each sensitive event.
use tucano.Prelude.{ℕ, Option, String, List, [], ◌∷◌, ◌++◌}
use tucano.Models.{Subject, Meta, AuditEvent}
use tucano.Db.{Db}

-- `log_event`. An actor that is not logged in is `none`, as is the system. `object_repr` names the
-- object by its kind and key: the text that it comes to as a string, and the limit of 255 characters
-- on it, are not modelled.
unfoldable pub log_event : Option ℕ → String → Subject → List (String × Meta) → Db → Db
log_event actor event_type obj metadata d =
    let event : AuditEvent = record {
      actor = actor;
      event_type = event_type;
      object_repr = obj;
      metadata = metadata;
    } in
    record d { audit = d.audit ++ (event ∷ []) }
