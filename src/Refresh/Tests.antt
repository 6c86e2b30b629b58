-- ===== src/Refresh/Tests.antt =====
-- A source with one talk, refreshed after a push that does not build, and the theorems there.
use agent_presentator.Base.{◌+◌, ◌≡◌, refl, true, none, some, [], ◌∷◌}
use agent_presentator.Contracts.{Source, Deck, DeckFolder, SourceRunFailure, BuildOutcome}
use agent_presentator.FolderName.{is_a_plain_folder_name}
use agent_presentator.DeckStore
use agent_presentator.DeckStore.{DeckRow, Table, deck_of, is_listed, is_in}
use agent_presentator.DeckStore.Rows.{row_at, HasUniqueSlugs}
use agent_presentator.DeckStore.Tests.{built_row, first_build}
use agent_presentator.SourceStore.{SourceRow}
use agent_presentator.Refresh.{Outside, World, Built, build_one, build_what_changed, take_in}
use agent_presentator.Refresh.Outcome.{Holds, build_one-Holds}
use agent_presentator.Refresh.DeckAfter.{deck_after}
use agent_presentator.Refresh.OneDeck.{is_settled}
use agent_presentator.Refresh.Pass.{build_what_changed_settles}
use agent_presentator.Refresh.Builds.{
  asked_builds, builds-build_what_changed, build_what_changed_again, build_what_changed_others,
}
use agent_presentator.Refresh.TakenIn.{names, take_in_others, take_in_listed}
use agent_presentator.Refresh.Carried.{Counts, folder_deck, deck_taken, get-take_in}

abbrev source : Source
source = record {
  id = "s";
  name = "talks";
  url = "https://host/talks.git";
  ref = "main";
  owner_id = "anna";
  public_key = none;
}

abbrev pushed : DeckFolder
pushed = record {
  name = "talk";
  file_names = "deck.toml" ∷ "slides.md" ∷ [];
  title = some "Talk";
  changed_at = 20;
  commit = "c2";
}

abbrev pub outside : Outside
outside = record {
  now = λ n. 100 + n;
  folders = λ n s. record { folders = some (pushed ∷ []); commit = some "c2"; failure = none };
  build = λ n d s. Built.failure (record { text = some "no such layout" });
  holds = λ n a. true;
  printable = λ c. true;
  build_bound = 60;
}

-- The row of another source's talk.
abbrev foreign_row : DeckRow
foreign_row = record built_row { slug = "other"; source_id = "t" }

abbrev moved_row : DeckRow
moved_row = record built_row { commit_sha = "c2" }

abbrev source_row : SourceRow
source_row = record {
  id = "s";
  name = "talks";
  url = source.url;
  ref = "main";
  encrypted_secret = "";
  hook_secret_hash = none;
  owner_id = "anna";
  ssh_public_key = none;
}

abbrev world : DeckRow → World
world row = record {
  sources = source_row ∷ [];
  key_drafts = [];
  decks = row ∷ foreign_row ∷ [];
  runs = [];
  builds = [];
  calls = 0;
}

unique : HasUniqueSlugs (world moved_row).decks
unfolding row_at
unique = (refl, (refl, tt))

unique_built : HasUniqueSlugs (world built_row).decks
unfolding row_at
unique_built = (refl, (refl, tt))

-- The build fails: the talk of the first commit stands, and the attempt tells what was said.
failed_build : (build_what_changed outside source (world moved_row)).builds ≡ ("talk", "c2") ∷ []
unfolding build_what_changed DeckStore.all DeckStore.put_attempt
failed_build = refl

-- The row after that pass.
abbrev failed_row : DeckRow
failed_row = record moved_row {
  attempt_commit = some "c2";
  attempt_started_at = some 100;
  attempt_outcome = some BuildOutcome.failed;
  attempt_failure = some "no such layout";
}

after_pass :
    row_at "talk" (build_what_changed outside source (world moved_row)).decks ≡ some failed_row
unfolding row_at build_what_changed DeckStore.all DeckStore.put_attempt
after_pass = refl

build_what_changed_settles_example : is_settled (deck_of failed_row) ≡ true
unfolding deck_of
build_what_changed_settles_example =
    build_what_changed_settles outside source (world moved_row) "talk" failed_row unique after_pass
      refl refl

build_what_changed_again_example :
    (build_what_changed outside source (build_what_changed outside source (world moved_row))).builds
    ≡ (build_what_changed outside source (world moved_row)).builds
build_what_changed_again_example = build_what_changed_again outside source (world moved_row) unique

builds-build_what_changed_example :
    (build_what_changed outside source (world moved_row)).builds
    ≡ asked_builds source (DeckStore.all (world moved_row).decks) []
builds-build_what_changed_example = builds-build_what_changed outside source (world moved_row)

abbrev moved_deck : Deck
moved_deck = record {
  slug = "talk";
  title = "Talk";
  changed_at = 5;
  owner_id = "anna";
  source_id = "s";
  commit = "c2";
  build = some first_build;
  attempt = none;
}

moved_here : Holds "talk" moved_deck (world moved_row).decks
unfolding row_at deck_of
moved_here = (moved_row, refl, refl)

build_one-Holds_example :
    Holds "talk"
      (deck_after outside source moved_deck (world moved_row))
      (build_one outside source moved_deck (world moved_row)).decks
build_one-Holds_example =
    build_one-Holds outside moved_deck source (world moved_row) unique moved_here refl

other_here : row_at "other" (world moved_row).decks ≡ some foreign_row
unfolding row_at
other_here = refl

build_what_changed_others_example :
    row_at "other" (build_what_changed outside source (world moved_row)).decks ≡ some foreign_row
build_what_changed_others_example =
    build_what_changed_others outside source (world moved_row) "other" foreign_row unique other_here
      refl

take_in_others_example :
    row_at "other" (take_in outside source (world moved_row)).decks ≡ some foreign_row
take_in_others_example =
    take_in_others outside source (world moved_row) "other" foreign_row unique other_here refl

-- The same world while the remote refuses the key.
abbrev refused : Outside
refused = record outside {
  folders =
      λ n s. record { folders = none; commit = none; failure = some SourceRunFailure.refused };
}

-- What the push makes of the row: the folder's commit and title.
abbrev taken_row : DeckRow
taken_row = record built_row { changed_at = 20; commit_sha = "c2" }

taken : row_at "talk" (take_in outside source (world built_row)).decks ≡ some taken_row
unfolding row_at take_in DeckStore.put DeckStore.mark_removed_except
taken = refl

take_in_listed_example : is_listed taken_row ≡ is_in (names (pushed ∷ [])) "talk"
take_in_listed_example =
    take_in_listed outside source (world built_row) (pushed ∷ []) "talk" taken_row unique_built refl
      taken refl

counts : Counts outside source pushed "Talk"
unfolding is_a_plain_folder_name
counts = (refl, refl, refl)

get-take_in_example :
    DeckStore.get "talk" (take_in outside source (world built_row)).decks
    ≡ some (
        deck_taken
          (folder_deck outside source pushed "Talk")
          (row_at "talk" (world built_row).decks))
unfolding row_at
get-take_in_example =
    get-take_in outside source [] [] pushed "Talk" counts refl refl (world built_row) unique_built
      refl refl
