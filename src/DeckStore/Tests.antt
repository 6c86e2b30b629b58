-- ===== src/DeckStore/Tests.antt =====
-- The deck table on small inputs, and its theorems there.
use agent_presentator.Base.{◌≡◌, ◌≢◌, refl, String, false, none, some, List, [], ◌∷◌, arith, eq_iff}
use agent_presentator.Contracts.{Deck, Build, BuildAttempt, BuildOutcome}
use agent_presentator.DeckStore
use agent_presentator.DeckStore.{DeckRow, Table, deck_of}
use agent_presentator.DeckStore.Rows.{row_at, HasUniqueSlugs, map_option}
use agent_presentator.DeckStore.Spec.{Command, run}
use agent_presentator.DeckStore.Promise.{view, promises, read, run-promised}
use agent_presentator.DeckStore.Ownership.{source_kept, talk_kept}

-- A folder as source `s` carries it at a commit.
abbrev pub folder_deck : String → String → String → Deck
folder_deck slug source_id commit = record {
  slug = slug;
  title = "Talk";
  changed_at = 5;
  owner_id = "anna";
  source_id = source_id;
  commit = commit;
  build = none;
  attempt = none;
}

abbrev pub first_build : Build
first_build = record {
  directory = "/builds/1";
  pdf = "/builds/1/deck.pdf";
  commit = "c1";
  built_at = 7;
}

abbrev pub running : String → BuildAttempt
running commit = record {
  commit = commit;
  started_at = 8;
  outcome = BuildOutcome.running;
  failure = none;
}

-- The row of a talk that was built once.
abbrev pub built_row : DeckRow
built_row = record {
  slug = "talk";
  title = "Talk";
  changed_at = 5;
  owner_id = "anna";
  source_id = "s";
  commit_sha = "c1";
  active_build = some "/builds/1";
  pdf_export = some "/builds/1/deck.pdf";
  built_commit = some "c1";
  built_at = some 7;
  attempt_commit = none;
  attempt_started_at = none;
  attempt_outcome = none;
  attempt_failure = none;
  removed_at = none;
}

built_row_reached :
    run (Command.put (folder_deck "talk" "s" "c1") ∷ Command.put_build "talk" first_build ∷ []) []
    ≡ built_row ∷ []
unfolding run DeckStore.put DeckStore.put_build
built_row_reached = refl

-- Another source's folder of that name, a push, a failed attempt, a mark and a return.
abbrev later : List Command
later =
    Command.put (folder_deck "talk" "t" "d1")
    ∷ Command.put (folder_deck "talk" "s" "c2")
    ∷ Command.put_attempt "talk" (running "c2")
    ∷ Command.mark_removed_except [] "s" 9
    ∷ Command.mark_removed_except ("talk" ∷ []) "s" 10
    ∷ Command.remove_for_source "t"
    ∷ []

t-ne-s : ◌≢◌ {A = String} "t" "s"
t-ne-s = ground (arith, eq_iff "t" "s")

here : row_at "talk" (built_row ∷ []) ≡ some built_row
unfolding row_at
here = refl

unique : HasUniqueSlugs (built_row ∷ [])
unfolding row_at
unique = (refl, tt)

source_kept_example :
    (after : DeckRow) × (row_at "talk" (run later (built_row ∷ [])) ≡ some after)
    × (after.source_id ≡ "s")
source_kept_example =
    source_kept later "talk" (built_row ∷ []) built_row unique here
      (tt, (tt, (tt, (tt, (tt, (t-ne-s, tt))))))

talk_kept_example :
    (after : DeckRow) × (row_at "talk" (run later (built_row ∷ [])) ≡ some after)
    × ((deck_of after).build ≡ (deck_of built_row).build)
talk_kept_example =
    talk_kept later "talk" (built_row ∷ []) built_row unique here
      (tt, (tt, (tt, (tt, (tt, (t-ne-s, tt)))))) (tt, (tt, (tt, (tt, (tt, (tt, tt))))))

foreign_put : (DeckStore.put (folder_deck "talk" "t" "d1") (built_row ∷ [])).0 ≡ false
unfolding DeckStore.put
foreign_put = refl

run-promised_example :
    (map_option view (row_at "talk" (run (Command.put (folder_deck "talk" "s" "c1") ∷ later) []))
      ≡ promises (Command.put (folder_deck "talk" "s" "c1") ∷ later) "talk" none)
    × (DeckStore.get "talk" (run (Command.put (folder_deck "talk" "s" "c1") ∷ later) [])
        ≡ read (promises (Command.put (folder_deck "talk" "s" "c1") ∷ later) "talk" none))
run-promised_example = run-promised (Command.put (folder_deck "talk" "s" "c1") ∷ later) "talk"
