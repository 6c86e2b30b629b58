-- ===== src/Lobby/Tests.antt =====
-- The lobby over one table, and its theorems there.
use mathlib.Core.List.{Perm}
use agent_presentator.Base.{
  ℕ, ◌+◌, ◌≤◌, ◌≡◌, refl, Bool, true, none, some, List, [], ◌∷◌, map, keep, ◌⊎◌,
}
use agent_presentator.Base.Int.{pos}
use agent_presentator.Contracts.{
  Source, Deck, DeckState, Build, BuildAttempt, BuildOutcome, Artefacts, is_owned_by,
}
use agent_presentator.DeckStore
use agent_presentator.DeckStore.{DeckRow, Table, deck_of, with_attempt}
use agent_presentator.DeckStore.Rows.{row_at, HasUniqueSlugs}
use agent_presentator.DeckStore.Tests.{built_row, first_build, running}
use agent_presentator.SourceStore.{SourceRow}
use agent_presentator.Refresh.{Outside, World, Built, build_one}
use agent_presentator.Refresh.Outcome.{Holds}
use agent_presentator.Lobby.{listed, page, built_talk, exported_pdf, state_of}
use agent_presentator.Lobby.Order.{IsNewestFirst, row_of, listed_lem}
use agent_presentator.Lobby.Privacy.{rows_of, hidden_from_others}
use agent_presentator.Lobby.States.{answer, held, talk-build_one, building-build_one}

abbrev decks : Table
decks =
    built_row
    ∷ record built_row { slug = "newer"; changed_at = 9 }
    ∷ record built_row { slug = "hers"; owner_id = "berta" }
    ∷ []

annas_list :
    listed 10 "anna" decks
    ≡ record { slug = "newer"; title = "Talk"; state = DeckState.ready; age = pos 1 }
      ∷ record { slug = "talk"; title = "Talk"; state = DeckState.ready; age = pos 5 }
      ∷ []
unfolding listed DeckStore.all
annas_list = refl

listed_lem_example :
    (shown : List Deck) × (listed 10 "anna" decks ≡ map (row_of 10) shown)
    × Perm shown (keep (λ deck. is_owned_by deck "anna") (DeckStore.all decks))
    × IsNewestFirst shown
listed_lem_example = listed_lem 10 "anna" decks

abbrev talk : Deck
talk = record {
  slug = "talk";
  title = "Talk";
  changed_at = 5;
  owner_id = "anna";
  source_id = "s";
  commit = "c1";
  build = some first_build;
  attempt = none;
}

found : DeckStore.get "talk" decks ≡ some talk
unfolding DeckStore.get
found = refl

abbrev printable : ℕ → Bool
printable c = true

unique_decks : HasUniqueSlugs decks
unfolding row_at
unique_decks = (refl, (refl, (refl, tt)))

hidden_from_others_example :
    (listed 10 "berta" decks ≡ listed 10 "berta" (rows_of "berta" decks))
    × (page 10 none [] "talk" "berta" decks
        ≡ page 10 none [] "talk" "berta" (rows_of "berta" decks))
    × (built_talk "talk" "berta" decks ≡ built_talk "talk" "berta" (rows_of "berta" decks))
    × (exported_pdf printable "talk" "berta" decks
        ≡ exported_pdf printable "talk" "berta" (rows_of "berta" decks))
hidden_from_others_example =
    hidden_from_others 10 none [] printable "talk" "berta" decks unique_decks

abbrev source : Source
source = record {
  id = "s";
  name = "talks";
  url = "u";
  ref = "main";
  owner_id = "anna";
  public_key = none;
}

-- A toolchain that builds, and a clock at 60.
abbrev outside : Outside
outside = record {
  now = λ n. 60;
  folders = λ n s. record { folders = none; commit = none; failure = none };
  build = λ n d s. Built.artefacts (record { directory = "/builds/2"; pdf = "/builds/2/deck.pdf" });
  holds = λ n a. true;
  printable = printable;
  build_bound = 60;
}

abbrev source_row : SourceRow
source_row = record {
  id = "s";
  name = "talks";
  url = source.url;
  ref = "main";
  encrypted_secret = "";
  hook_secret_hash = none;
  owner_id = "anna";
  ssh_public_key = none;
}

abbrev world : World
world = record {
  sources = source_row ∷ [];
  key_drafts = [];
  decks = decks;
  runs = [];
  builds = [];
  calls = 0;
}

-- The talk after a push, and while its build began before a restart.
abbrev moved : Deck
moved = record talk { commit = "c2" }

abbrev begun_before : Deck
begun_before = record talk { commit = "c2"; attempt = some (running "c2") }

abbrev moved_row : DeckRow
moved_row = record built_row { commit_sha = "c2" }

abbrev begun_row : DeckRow
begun_row = with_attempt (running "c2") moved_row

abbrev over : DeckRow → World
over row = record world { decks = row ∷ [] }

unique : (row : DeckRow) → HasUniqueSlugs (row ∷ [])
unfolding row_at
unique row = (refl, tt)

moved_here : Holds "talk" moved (over moved_row).decks
unfolding row_at deck_of
moved_here = (moved_row, refl, refl)

begun_here : Holds "talk" begun_before (over begun_row).decks
unfolding row_at deck_of with_attempt
begun_here = (begun_row, refl, refl)

-- What the round leaves of each.
abbrev switched_row : DeckRow
switched_row = record moved_row {
  active_build = some "/builds/2";
  pdf_export = some "/builds/2/deck.pdf";
  built_commit = some "c2";
  built_at = some 60;
}

moved_after :
    row_at "talk" (build_one outside source moved (over moved_row)).decks ≡ some switched_row
unfolding row_at build_one DeckStore.put_attempt DeckStore.put_build
moved_after = refl

begun_after :
    row_at "talk" (build_one outside source begun_before (over begun_row)).decks ≡ some begun_row
unfolding row_at build_one DeckStore.put_attempt DeckStore.put_build with_attempt
begun_after = refl

talk-build_one_example :
    ((deck_of switched_row).build ≡ moved.build)
    ⊎ ((a : Artefacts) × (b : Build) × (answer outside source moved (over moved_row)
          ≡ Built.artefacts a)
        × (held outside source moved (over moved_row) a ≡ true)
        × ((deck_of switched_row).build ≡ some b)
        × (b.directory ≡ a.directory)
        × (b.pdf ≡ a.pdf)
        × (b.commit ≡ "c2"))
talk-build_one_example =
    talk-build_one outside source moved (over moved_row) switched_row (unique moved_row) moved_here
      refl moved_after

still_building : state_of (deck_of begun_row) ≡ DeckState.building
unfolding state_of deck_of with_attempt
still_building = refl

building-build_one_example :
    (a : BuildAttempt) × (begun_before.attempt ≡ some a)
    × (a.outcome ≡ BuildOutcome.running)
    × (a.commit ≡ "c2")
    × (60 ≤ a.started_at + 60)
building-build_one_example =
    building-build_one outside source begun_before (over begun_row) begun_row (unique begun_row)
      begun_here refl begun_after still_building
