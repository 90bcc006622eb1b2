-- ===== src/Governance/Chain/Sorting.antt =====
-- governance_core.py: `list_events`, `ORDER BY event_sequence` as an insertion sort that keeps the
-- table's order among equals.
use sentinel_grc.Prelude.{String, List, [], ◌∷◌, leb, if◌then◌else◌, ◌==◌, string_eq, select}
use sentinel_grc.Governance.Rows.{Event, Db}

unfoldable pub insert_event : Event → List Event → List Event
insert_event e [] = e ∷ []
insert_event e (f ∷ fs) =
    let rest = insert_event e fs in
    if leb e.event_sequence f.event_sequence then e ∷ f ∷ fs else f ∷ rest

unfoldable pub sort_events : List Event → List Event
unfolding insert_event
sort_events [] = []
sort_events (e ∷ es) = insert_event e (sort_events es)

unfoldable pub list_events : String → Db → List Event
list_events k db = sort_events (select (λ e. e.finding_id == k) db.events)
