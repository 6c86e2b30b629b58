-- ===== src/Lobby.antt =====
-- What the lobby shows, in src/presentator/application/decks.py: the list, the deck page, the
-- sources. `now` is what the clock answers; `themes` what the toolchain's project names;
-- `access_kind_of` the access of an address.
pub mod Privacy
pub mod Order
pub mod States
pub mod Tests
use Prim.Native.Nat.{Ordering}
use Prim.Native.String
use agent_presentator.Base.{
  ℕ, zero, suc, String, Bool, true, false, not, ◌&&◌, Option, none, some, List, [], ◌∷◌, map,
  str_eq, ltb, ◌==◌, if◌then◌else◌, find, keep, length,
}
use agent_presentator.Base.Int.{ℤ, sub_ℕ}
use agent_presentator.Contracts
use agent_presentator.Contracts.{
  Source, Deck, Build, BuildAttempt, BuildOutcome, DeckState, ListedDeck, ListedSource,
  ShownSourceRun, SourceDeck, SourcePage, ShownAttempt, DeckPage, SourceRun, SourceRunOutcome,
  SourceRunFailure, SourceState, AccessKind, is_owned_by,
}
use agent_presentator.FolderName.{is_a_plain_folder_name}
use agent_presentator.DeckStore
use agent_presentator.DeckStore.{Table}
use agent_presentator.SourceRuns.{Runs, newest, recent}
use agent_presentator.Refresh.{named}

-- `text[:n]`
abbrev pub prefix : ℕ → String → String
prefix zero text = String.[]
prefix (suc n) String.[] = String.[]
prefix (suc n) (String.◌∷◌ c text) = String.◌∷◌ c (prefix n text)

-- `commit[:_SHORT_COMMIT]`
abbrev pub short_commit : String → String
short_commit = prefix 7

-- `_source_state_of`
unfoldable pub source_state_of : SourceRun → SourceState
source_state_of run = elim run.outcome [
  | SourceRunOutcome.success ↦ SourceState.reachable
  | SourceRunOutcome.failure ↦ elim run.reason [
    | none ↦ SourceState.error
    | some reason ↦ elim reason [
      | SourceRunFailure.refused ↦ SourceState.refused
      | SourceRunFailure.failed ↦ SourceState.failed
      | _ ↦ SourceState.error
    ]
  ]
]

-- `_state_of`
unfoldable pub state_of : Deck → DeckState
state_of deck = elim deck.attempt [
  | none ↦ elim deck.build [ none ↦ DeckState.never_built | some built ↦ DeckState.ready ]
  | some attempt ↦ elim attempt.outcome [
    | BuildOutcome.running ↦ DeckState.building
    | BuildOutcome.failed ↦ DeckState.failed
  ]
]

-- `sorted(decks, key=lambda deck: deck.changed_at, reverse=True)`, which keeps the order of equals
unfoldable pub insert_newest : Deck → List Deck → List Deck
insert_newest deck [] = deck ∷ []
insert_newest deck (other ∷ decks) =
    let rest = insert_newest deck decks in
    if ltb deck.changed_at other.changed_at then other ∷ rest else deck ∷ other ∷ decks

unfoldable pub newest_first : List Deck → List Deck
unfolding insert_newest
newest_first [] = []
newest_first (deck ∷ decks) = insert_newest deck (newest_first decks)

-- `listed`
unfoldable pub listed : ℕ → String → Table → List ListedDeck
unfolding newest_first state_of
listed now viewer decks =
    map
      (λ (deck : Deck). record {
        slug = deck.slug;
        title = deck.title;
        state = state_of deck;
        age = sub_ℕ now deck.changed_at;
      })
      (newest_first (keep (λ deck. is_owned_by deck viewer) (DeckStore.all decks)))

-- `_owned`
unfoldable pub owned : String → String → Table → Option Deck
owned slug viewer decks = elim (DeckStore.get slug decks) [
  | none ↦ none
  | some deck ↦ if is_owned_by deck viewer then some deck else none
]

-- `_shown`
unfoldable pub shown : ℕ → Option BuildAttempt → Option ShownAttempt
shown now none = none
shown now (some attempt) = some (record {
  commit = short_commit attempt.commit;
  ago = sub_ℕ now attempt.started_at;
  failure = attempt.failure;
})

-- `_address_of`
unfoldable pub address_of : Deck → List Source → Option String
address_of deck sources = elim (find (λ (item : Source). str_eq item.id deck.source_id) sources) [
  | none ↦ none
  | some item ↦ some item.url
]

-- `(deck.commit if built is None else built.commit)`
abbrev pub delivered_commit : Deck → String
delivered_commit deck = elim deck.build [ none ↦ deck.commit | some built ↦ built.commit ]

abbrev pub built_ago : ℕ → Option Build → Option ℤ
built_ago now none = none
built_ago now (some built) = some (sub_ℕ now built.built_at)

-- `page`, of a deck that the viewer owns
unfoldable pub page_of : ℕ → Option (List String) → List Source → Deck → DeckPage
unfolding shown address_of state_of
page_of now themes sources deck = record {
  slug = deck.slug;
  title = deck.title;
  source = address_of deck sources;
  commit = short_commit (delivered_commit deck);
  built_ago = built_ago now deck.build;
  state = state_of deck;
  attempt = shown now deck.attempt;
  themes = themes;
}

abbrev pub map_option {ℓ κ} : {A : Type ℓ} {B : Type κ} → (A → B) → Option A → Option B
map_option f none = none
map_option f (some a) = some (f a)

-- `page`
unfoldable pub page :
    ℕ → Option (List String) → List Source → String → String → Table → Option DeckPage
unfolding owned page_of
page now themes sources slug viewer decks =
    map_option (page_of now themes sources) (owned slug viewer decks)

abbrev pub build_directory : Option Deck → Option String
build_directory none = none
build_directory (some deck) = map_option (λ (b : Build). b.directory) deck.build

abbrev pub build_pdf : Option Deck → Option String
build_pdf none = none
build_pdf (some deck) = map_option (λ (b : Build). b.pdf) deck.build

-- `built_talk`
unfoldable pub built_talk : String → String → Table → Option String
unfolding owned
built_talk slug viewer decks = build_directory (owned slug viewer decks)

-- `exported_pdf`
unfoldable pub exported_pdf : (ℕ → Bool) → String → String → Table → Option String
unfolding owned
exported_pdf printable slug viewer decks =
    if not (is_a_plain_folder_name printable slug)
    then none
    else build_pdf (owned slug viewer decks)

abbrev pub only_address : List Source → Option String
only_address (source ∷ []) = some source.url
only_address _ = none

-- `source_address`
unfoldable pub source_address : String → List Source → Option String
source_address viewer sources =
    only_address (keep (λ (source : Source). str_eq source.owner_id viewer) sources)

abbrev pub title_before : Deck → Deck → Bool
title_before a b = elim (Prim.Native.String.compare a.title b.title) [
  | Ordering.lt ↦ true
  | _ ↦ false
]

-- `sorted(decks, key=lambda deck: deck.title)`
unfoldable pub insert_by_title : Deck → List Deck → List Deck
insert_by_title deck [] = deck ∷ []
insert_by_title deck (other ∷ decks) =
    let rest = insert_by_title deck decks in
    if title_before other deck then other ∷ rest else deck ∷ other ∷ decks

unfoldable pub by_title : List Deck → List Deck
unfolding insert_by_title
by_title [] = []
by_title (deck ∷ decks) = insert_by_title deck (by_title decks)

unfoldable pub shown_run : ℕ → SourceRun → ShownSourceRun
shown_run now run = record {
  outcome = run.outcome;
  age = sub_ℕ now run.at;
  commit = map_option short_commit run.commit;
  reason = run.reason;
}

module _ (access_kind_of : String → Option AccessKind) where
  abbrev pub listed_source_of : ℕ → Source → Option SourceRun → ListedSource
  listed_source_of now source none = record {
    name = source.name;
    url = source.url;
    access = access_kind_of source.url;
    state = SourceState.never_fetched;
    age = none;
  }
  listed_source_of now source (some run) = record {
    name = source.name;
    url = source.url;
    access = access_kind_of source.url;
    state = source_state_of run;
    age = some (sub_ℕ now run.at);
  }

  -- `_listed_source`
  unfoldable pub listed_source : ℕ → Source → Runs → ListedSource
  unfolding source_state_of
  listed_source now source runs = listed_source_of now source (newest source.id runs)

  -- `listed_sources`
  unfoldable pub listed_sources : ℕ → List Source → Runs → List ListedSource
  unfolding listed_source
  listed_sources now sources runs = map (λ source. listed_source now source runs) sources

  -- `shown_source`, of a source that is there
  unfoldable pub source_page : ℕ → String → Source → Runs → Table → SourcePage
  unfolding listed_source shown_run by_title
  source_page now viewer source runs decks =
      let row : ListedSource = listed_source now source runs in
      record {
        name = row.name;
        url = row.url;
        access = row.access;
        state = row.state;
        age = row.age;
        public_key = source.public_key;
        runs = map (shown_run now) (recent source.id runs);
        decks =
            map (λ (deck : Deck). record { slug = deck.slug; title = deck.title })
              (by_title (
                keep (λ (deck : Deck). str_eq deck.source_id source.id && is_owned_by deck viewer)
                  (DeckStore.all decks)));
      }

  -- `shown_source`
  unfoldable pub shown_source : ℕ → String → String → List Source → Runs → Table → Option SourcePage
  unfolding source_page named
  shown_source now name viewer sources runs decks =
      map_option (λ source. source_page now viewer source runs decks) (named name sources)
