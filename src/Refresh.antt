-- ===== src/Refresh.antt =====
-- The refresh of src/presentator/application/decks.py: taking sources in and building what changed.
-- `World` is what the ports hold, and `Outside` what they answer from outside the process: the
-- clock, git, the toolchain. Each answer takes the number of calls made so far, so no two calls
-- need agree, and nothing is assumed of any of them.
pub mod OneDeck
pub mod DeckAfter
pub mod Outcome
pub mod Settled
pub mod Listed
pub mod Pass
pub mod Builds
pub mod TakenIn
pub mod Carried
pub mod Kept
pub mod Tests
use agent_presentator.Base.{
  ℕ, ◌+◌, ◌-◌, String, Bool, true, false, not, ◌&&◌, ◌||◌, Option, none, some, List, [], ◌∷◌, map,
  str_eq, ltb, leb, if◌then◌else◌, is_none, is_some, any, find, keep,
}
use agent_presentator.Contracts.{
  Source, DeckFolder, SourcePoll, SourceRun, SourceRunOutcome, Deck, Build, BuildAttempt,
  BuildOutcome, BuildFailure, Artefacts,
}
use agent_presentator.FolderName.{is_a_plain_folder_name}
use agent_presentator.DeckStore
use agent_presentator.DeckStore.{Table}
use agent_presentator.SourceRuns.{Runs, record_run}
use agent_presentator.KeyDrafts.{Drafts, sweep}
use agent_presentator.SourceStore.{SourceTable, all_sources}

-- `BuildRunner.build`'s answer: `Artefacts | BuildFailure`
pub data Built : Type 0 where
  artefacts : Artefacts → Built
  failure : BuildFailure → Built

pub record Outside : Type 0 where
  pub now : ℕ → ℕ
  pub folders : ℕ → Source → SourcePoll
  pub build : ℕ → Deck → Source → Built
  pub holds : ℕ → Artefacts → Bool
  pub printable : ℕ → Bool
  pub build_bound : ℕ

pub record World : Type 0 where
  pub sources : SourceTable
  pub key_drafts : Drafts
  pub decks : Table
  pub runs : Runs
  -- the builds that were started, slug and commit, newest first
  pub builds : List (String × String)
  -- how many calls the world outside has answered
  pub calls : ℕ

-- SLIDES_FILE
abbrev pub slides_file : String
slides_file = "slides.md"

-- DRAFT_MAX_AGE: one day
abbrev pub draft_max_age : ℕ
draft_max_age = 86_400_000_000

-- `_failed`'s and `_give_up_on_a_build_that_never_returned`'s `replace`
abbrev pub as_failed : BuildAttempt → BuildAttempt
as_failed attempt = record attempt { outcome = BuildOutcome.failed }

abbrev pub outcome_of : SourcePoll → SourceRunOutcome
outcome_of poll =
    if is_none poll.folders then SourceRunOutcome.failure else SourceRunOutcome.success

-- `_deliver_the_standing_talk_again`
unfoldable pub deliver_again : Deck → Build → World → World
deliver_again deck standing w =
    if is_none deck.attempt
    then w
    else record w { decks = DeckStore.put_build deck.slug standing w.decks }

-- `_failed`
unfoldable pub failed : Deck → BuildAttempt → Option String → World → World
failed deck attempt said w = record w {
  decks = DeckStore.put_attempt deck.slug (record (as_failed attempt) { failure = said }) w.decks;
}

-- `_was_already_tried`
abbrev pub was_already_tried : Deck → Bool
was_already_tried deck = elim deck.attempt [
  | none ↦ false
  | some attempt ↦ str_eq attempt.commit deck.commit
]

-- `standing is not None and standing.commit == deck.commit`
abbrev pub stands_at_its_commit : Deck → Bool
stands_at_its_commit deck = elim deck.build [
  | none ↦ false
  | some standing ↦ str_eq standing.commit deck.commit
]

-- `_named`
unfoldable pub named : String → List Source → Option Source
named name sources = find (λ (item : Source). str_eq item.name name) sources

unfoldable pub take_deck : Option Deck → Table → Table
take_deck none table = table
take_deck (some deck) table = (DeckStore.put deck table).1

module _ (outside : Outside) where
  -- The deck of a folder that carries a manifest and slides; nothing for a folder that is skipped.
  unfoldable pub deck_of_folder : Source → DeckFolder → Option Deck
  unfolding is_a_plain_folder_name
  deck_of_folder source folder =
      if not (is_a_plain_folder_name outside.printable folder.name)
      then none
      else elim folder.title [
        | none ↦ none
        | some title ↦
            if not (any (str_eq slides_file) folder.file_names)
            then none
            else some (record {
              slug = folder.name;
              title = title;
              changed_at = folder.changed_at;
              owner_id = source.owner_id;
              source_id = source.id;
              commit = folder.commit;
              build = none;
              attempt = none;
            })
      ]

  -- one round of `_take_in`'s loop; a name of another source is only logged
  unfoldable pub take_folder : Source → DeckFolder → Table → Table
  unfolding deck_of_folder take_deck
  take_folder source folder table = take_deck (deck_of_folder source folder) table

  unfoldable pub take_folders : Source → List DeckFolder → Table → Table
  unfolding take_folder
  take_folders source [] table = table
  take_folders source (folder ∷ folders) table =
      take_folders source folders (take_folder source folder table)

  -- what `_take_in` does to the decks: nothing for a source that nobody could read
  unfoldable pub take_answer : Source → ℕ → Option (List DeckFolder) → Table → Table
  unfolding take_folders
  take_answer source at none table = table
  take_answer source at (some folders) table =
      DeckStore.mark_removed_except (map (λ (f : DeckFolder). f.name) folders) source.id at
        (take_folders source folders table)

  -- `_take_in`
  unfoldable pub take_in : Source → World → World
  unfolding take_answer
  take_in source w =
      let at = outside.now w.calls in
      let poll = outside.folders (w.calls + 1) source in
      let run : SourceRun = record {
        source_id = source.id;
        at = at;
        outcome = outcome_of poll;
        commit = poll.commit;
        reason = poll.failure;
      } in
      record w {
        decks = take_answer source at poll.folders w.decks;
        runs = record_run run w.runs;
        calls = w.calls + 2;
      }

  -- `_give_up_on_a_build_that_never_returned`, once the attempt is there
  unfoldable pub abandon : Deck → BuildAttempt → BuildOutcome → World → World
  abandon deck attempt BuildOutcome.failed w = w
  abandon deck attempt BuildOutcome.running w =
      let read : World = record w { calls = w.calls + 1 } in
      if leb (outside.now w.calls) (attempt.started_at + outside.build_bound)
      then read
      else record read { decks = DeckStore.put_attempt deck.slug (as_failed attempt) w.decks }

  unfoldable pub give_up_attempt : Deck → Option BuildAttempt → World → World
  unfolding abandon
  give_up_attempt deck none w = w
  give_up_attempt deck (some attempt) w = abandon deck attempt attempt.outcome w

  -- `_give_up_on_a_build_that_never_returned`
  unfoldable pub give_up : Deck → World → World
  unfolding give_up_attempt
  give_up deck w = give_up_attempt deck deck.attempt w

  -- The attempt that `_switch_over` records before the toolchain starts.
  abbrev pub begun : Deck → World → BuildAttempt
  begun deck w = record {
    commit = deck.commit;
    started_at = outside.now w.calls;
    outcome = BuildOutcome.running;
    failure = none;
  }

  abbrev pub begin : Deck → World → World
  begin deck w = record w {
    decks = DeckStore.put_attempt deck.slug (begun deck w) w.decks;
    builds = (deck.slug, deck.commit) ∷ w.builds;
    calls = w.calls + 2;
  }

  -- `_switch_over` once the builder has answered
  unfoldable pub finish : Deck → BuildAttempt → Built → World → World
  unfolding failed
  finish deck attempt (Built.failure broken) w = failed deck attempt broken.text w
  finish deck attempt (Built.artefacts built) w =
      let asked : World = record w { calls = w.calls + 1 } in
      if not (outside.holds w.calls built) then failed deck attempt none asked else record asked {
        decks =
            DeckStore.put_build deck.slug
              (record {
                directory = built.directory;
                pdf = built.pdf;
                commit = deck.commit;
                built_at = outside.now (w.calls + 1);
              })
              w.decks;
        calls = w.calls + 2;
      }

  -- `_switch_over`
  unfoldable pub switch_over : Deck → Source → World → World
  unfolding finish
  switch_over deck source w =
      finish deck (begun deck w) (outside.build (w.calls + 1) deck source) (begin deck w)

  -- The deck whose folder moved, or that nothing has tried yet, is built.
  unfoldable pub build_or_skip : Deck → Source → World → World
  unfolding switch_over
  build_or_skip deck source w = if was_already_tried deck then w else switch_over deck source w

  unfoldable pub build_or_deliver : Deck → Source → Option Build → World → World
  unfolding build_or_skip deliver_again
  build_or_deliver deck source none w = build_or_skip deck source w
  build_or_deliver deck source (some standing) w =
      if str_eq standing.commit deck.commit
      then deliver_again deck standing w
      else build_or_skip deck source w

  -- One round of `_build_what_changed`'s loop.
  unfoldable pub build_one : Source → Deck → World → World
  unfolding give_up build_or_deliver
  build_one source deck w =
      if str_eq deck.source_id source.id
      then build_or_deliver deck source deck.build (give_up deck w)
      else w

  unfoldable pub build_each : Source → List Deck → World → World
  unfolding build_one
  build_each source [] w = w
  build_each source (deck ∷ decks) w = build_each source decks (build_one source deck w)

  -- `_build_what_changed`: the decks are read once, before the first is built
  unfoldable pub build_what_changed : Source → World → World
  unfolding build_each
  build_what_changed source w = build_each source (DeckStore.all w.decks) w

  -- `_take_in_and_build_one`
  unfoldable pub take_in_and_build_one : Source → World → World
  unfolding take_in build_what_changed
  take_in_and_build_one source w = build_what_changed source (take_in source w)

  unfoldable pub take_in_and_build_each : List Source → World → World
  unfolding take_in_and_build_one
  take_in_and_build_each [] w = w
  take_in_and_build_each (source ∷ sources) w =
      take_in_and_build_each sources (take_in_and_build_one source w)

  -- `_take_in_and_build`: the sweep, then the sources one by one
  unfoldable pub take_in_and_build : World → World
  unfolding take_in_and_build_each
  take_in_and_build w = take_in_and_build_each (all_sources w.sources) (record w {
    key_drafts = sweep (outside.now w.calls - draft_max_age) w.key_drafts;
    calls = w.calls + 1;
  })

  -- `refresh`: `held` says that another refresh holds the lock
  unfoldable pub refresh : Bool → World → World
  unfolding take_in_and_build
  refresh held w = if held then w else take_in_and_build w

  -- `refresh_named`
  unfoldable pub refresh_named : Bool → String → World → Bool × World
  unfolding named take_in_and_build_one
  refresh_named held name w = elim (named name (all_sources w.sources)) [
    | none ↦ (false, w)
    | some source ↦ (true, if held then w else take_in_and_build_one source w)
  ]
