-- ===== src/Audit.antt =====
-- `writeAudit` of app/worker/lib/db.ts.
use ctf_website.Base.{[], ◌∷◌, ◌++◌}
use ctf_website.Schema.{AuditRow}
use ctf_website.Http.{Exec, write}

unfoldable pub write_audit : AuditRow → Exec (Unit {0})
write_audit entry = write (λ db. record db { audit_log = db.audit_log ++ entry ∷ [] })
