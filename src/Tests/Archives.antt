-- ===== src/Tests/Archives.antt =====
-- Retention on a store of two grants, of which one is old.
use rmt_platform.Prelude.{[], ◌∷◌, Bool, ◌≡◌, ◌==◌, string_eq, some}
use rmt_platform.Agent.Authority.{AuthorityGrant, grant_schema}
use rmt_platform.Ops.Retention.{Archived, archive_store}
use rmt_platform.Ops.Retention.Lossless.{total, archive-total}
use rmt_platform.Tests.Operations.{start_grant, grants}

abbrev old_grant : AuthorityGrant
old_grant = record start_grant { grant_id = "g0"; created_at = 10 }

abbrev aged : Archived AuthorityGrant
aged = record {
  store = record grants {
    records = old_grant ∷ start_grant ∷ [];
    rows =
        record { key = some "g0"; created_at = 10; payload = old_grant }
        ∷ record { key = some "g1"; created_at = 100; payload = start_grant }
        ∷ [];
  };
  lines = [];
}

abbrev of_web : AuthorityGrant → Bool
of_web g = g.target == "web"

archive-total_example : total of_web (archive_store grant_schema 50 aged).1 ≡ total of_web aged
archive-total_example = archive-total grant_schema 50 of_web aged
