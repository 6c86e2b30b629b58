-- ===== src/SourceRuns.antt =====
-- SqliteSourceRunStore of src/presentator/adapters/decks.py: the `source_runs` table. Rows are held
-- newest first, which is `ORDER BY id DESC`, since the ids of an AUTOINCREMENT only grow.
pub mod Laws
pub mod Tests
use agent_presentator.Base.{
  ℕ, zero, suc, String, Bool, Option, none, some, List, [], ◌∷◌, str_eq, if◌then◌else◌, keep, take,
  not,
}
use agent_presentator.Contracts.{SourceRun, recent_source_runs}

abbrev pub Runs : Type 0
Runs = List SourceRun

abbrev pub of_source : String → SourceRun → Bool
of_source source_id run = str_eq run.source_id source_id

-- `_PRUNE_OLDER_RUNS`: of that source only the newest `limit` rows stay.
unfoldable pub prune : String → ℕ → Runs → Runs
prune source_id limit [] = []
prune source_id zero (run ∷ table) =
    let rest = prune source_id zero table in if of_source source_id run then rest else run ∷ rest
prune source_id (suc limit) (run ∷ table) =
    run ∷ prune source_id (if of_source source_id run then limit else suc limit) table

-- `record`: `_RECORD_SOURCE_RUN`, then `_PRUNE_OLDER_RUNS`
unfoldable pub record_run : SourceRun → Runs → Runs
unfolding prune
record_run run table = prune run.source_id recent_source_runs (run ∷ table)

-- `recent`: `_RECENT_SOURCE_RUNS`
unfoldable pub recent : String → Runs → Runs
recent source_id table = take recent_source_runs (keep (of_source source_id) table)

abbrev pub first_run : Runs → Option SourceRun
first_run [] = none
first_run (run ∷ runs) = some run

-- `newest`: `_NEWEST_SOURCE_RUN`
unfoldable pub newest : String → Runs → Option SourceRun
newest source_id table = first_run (take 1 (keep (of_source source_id) table))

-- `remove_for_source`
unfoldable pub remove_for_source : String → Runs → Runs
remove_for_source source_id table = keep (λ run. not (of_source source_id run)) table
