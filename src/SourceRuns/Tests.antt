-- ===== src/SourceRuns/Tests.antt =====
-- Five polls of two sources, and the laws of the bounded history there.
use agent_presentator.Base.{ℕ, ◌≡◌, refl, String, none, some, [], ◌∷◌, keep, take}
use agent_presentator.Contracts.{SourceRun, SourceRunOutcome, recent_source_runs}
use agent_presentator.SourceRuns.{Runs, of_source, recent}
use agent_presentator.SourceRuns.Laws.{record_all, recent-record_all}

abbrev polled : String → ℕ → SourceRun
polled source_id at = record {
  source_id = source_id;
  at = at;
  outcome = SourceRunOutcome.success;
  commit = some "c";
  reason = none;
}

abbrev history : Runs
history = polled "s" 5 ∷ polled "t" 4 ∷ polled "s" 3 ∷ polled "s" 2 ∷ polled "s" 1 ∷ []

three_left : recent "s" (record_all history) ≡ polled "s" 5 ∷ polled "s" 3 ∷ polled "s" 2 ∷ []
unfolding recent record_all
three_left = refl

recent-record_all_example :
    (recent "s" (record_all history) ≡ take recent_source_runs (keep (of_source "s") history))
    × (keep (of_source "s") (record_all history) ≡ recent "s" (record_all history))
recent-record_all_example = recent-record_all "s" history
