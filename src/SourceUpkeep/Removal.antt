-- ===== src/SourceUpkeep/Removal.antt =====
-- The tables before and after remove_source.
use agent_presentator.Base.{
  ℕ, ◌+◌, ◌≡◌, true, false, not, ◌&&◌, Option, none, some, [], str_eq, ◌==◌, keep, all, any,
}
use agent_presentator.Contracts.{Source}
use agent_presentator.DeckStore
use agent_presentator.DeckStore.{DeckRow, Table, for_source}
use agent_presentator.SourceRuns
use agent_presentator.SourceRuns.{Runs, recent, of_source}
use agent_presentator.SourceStore
use agent_presentator.SourceStore.{SourceRow, source_of}
use agent_presentator.Refresh.{World}
use agent_presentator.SourceUpkeep.{
  Around, RemovalAnswer, preview_of, build_directories, remove_builds, leftover,
}

-- The three tables are as they were.
abbrev pub Untouched : World → World → Type 0
Untouched w after = (after.sources ≡ w.sources) × (after.decks ≡ w.decks) × (after.runs ≡ w.runs)

-- Nothing of the source is left, and all that is not the source's is.
abbrev pub Gone : Source → World → World → Type 0
Gone source w after =
    (for_source source.id after.decks ≡ [])
    × (recent source.id after.runs ≡ [])
    × (any (λ (row : SourceRow). str_eq row.id source.id) after.sources ≡ false)
    × (keep (λ (row : DeckRow). not (str_eq row.source_id source.id)) after.decks
        ≡ keep (λ (row : DeckRow). not (str_eq row.source_id source.id)) w.decks)
    × (keep (λ run. not (of_source source.id run)) after.runs
        ≡ keep (λ run. not (of_source source.id run)) w.runs)
    × (keep (λ (row : SourceRow). not (str_eq row.id source.id)) after.sources
        ≡ keep (λ (row : SourceRow). not (str_eq row.id source.id)) w.sources)

module _ (around : Around) where
  -- The disk is clean: the mirror is gone, and so is every directory that a deck of the source,
  -- listed or not, was built in.
  abbrev pub DiskIsClean : Source → World → Type 0
  DiskIsClean source w =
      (around.forget w.calls source ≡ true)
      × (all (λ gone. gone)
            (remove_builds around (w.calls + 1) (build_directories (for_source source.id w.decks)))
          ≡ true)

  -- What each answer of a removal says of the world before and after it.
  abbrev pub Says : Option Source → ℕ → ℕ → World → RemovalAnswer → World → Type 0
  Says found decks runs w RemovalAnswer.unknown after = (found ≡ none) × Untouched w after
  Says found decks runs w (RemovalAnswer.stale shown) after =
      (((shown.deck_count == decks) && (shown.run_count == runs)) ≡ false) × Untouched w after
  Says found decks runs w RemovalAnswer.disk_leftover after =
      (source : Source) × (found ≡ some source)
      × (leftover around source w ≡ true)
      × Untouched w after
  Says found decks runs w (RemovalAnswer.removed shown) after =
      (source : Source) × (found ≡ some source)
      × (shown.deck_count ≡ decks)
      × (shown.run_count ≡ runs)
      × (shown ≡ preview_of source (for_source source.id w.decks) w.runs)
      × DiskIsClean source w
      × Gone source w after
