-- ===== src/Event/Order.antt =====
-- Events in the order of their versions: `sort` in client/src/realtime/projectSyncEngine.ts and
-- ORDER BY aggregateVersion in server/infra/mysqlProjectStore.ts.
pub mod Sorted
use bahn_project_manager.Prelude.{List, [], ◌∷◌, if◌then◌else◌, leb}
use bahn_project_manager.Event.{DomainEvent}

-- `sort((a, b) => a.aggregateVersion - b.aggregateVersion)`, which is stable.
unfoldable pub insert_by_version : DomainEvent → List DomainEvent → List DomainEvent
insert_by_version e [] = e ∷ []
insert_by_version e (d ∷ ds) =
    if leb e.aggregate_version d.aggregate_version then e ∷ d ∷ ds else d ∷ insert_by_version e ds

unfoldable pub sort_by_version : List DomainEvent → List DomainEvent
unfolding insert_by_version
sort_by_version [] = []
sort_by_version (e ∷ es) = insert_by_version e (sort_by_version es)
