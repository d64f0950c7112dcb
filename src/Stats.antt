-- ===== src/Stats.antt =====
-- app/worker/lib/statsCache.ts: the version of an organization's statistics.
use ctf_website.Base.{◌+◌, String, str_eq, update_where}
use ctf_website.Schema.{Db}
use ctf_website.Http.{Exec, write}

abbrev pub bumped : String → Db → Db
bumped org_id db = record db {
  organizations =
      update_where (λ org. str_eq org.id org_id)
        (λ org. record org { stats_version = org.stats_version + 1 }) db.organizations;
}

unfoldable pub bump_stats_version : String → Exec (Unit {0})
bump_stats_version org_id = write (bumped org_id)
