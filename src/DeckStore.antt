-- ===== src/DeckStore.antt =====
-- SqliteDeckStore of src/presentator/adapters/decks.py: the `decks` table and the statements over
-- it. A nullable column is an Option. Moments and outcomes are kept as values; their text in a
-- column is `isoformat` and `value`, which `fromisoformat` and `BuildOutcome` read back.
pub mod Rows
pub mod Spec
pub mod Promise
pub mod Ownership
pub mod Tests
use agent_presentator.Base.{
  ℕ, ◌≡◌, refl, String, Bool, true, false, not, ◌&&◌, Option, none, some, List, [], ◌∷◌, map,
  str_eq, if◌then◌else◌, is_none, is_some, find, keep, any,
}
use agent_presentator.Contracts.{Deck, Build, BuildAttempt, BuildOutcome}

pub record DeckRow : Type 0 where
  pub slug : String
  pub title : String
  pub changed_at : ℕ
  pub owner_id : String
  pub source_id : String
  pub commit_sha : String
  pub active_build : Option String
  pub pdf_export : Option String
  pub built_commit : Option String
  pub built_at : Option ℕ
  pub attempt_commit : Option String
  pub attempt_started_at : Option ℕ
  pub attempt_outcome : Option BuildOutcome
  pub attempt_failure : Option String
  pub removed_at : Option ℕ

abbrev pub Table : Type 0
Table = List DeckRow

-- `_build`: the talk of a row, when all four columns are there
unfoldable pub build_of : Option String → Option String → Option String → Option ℕ → Option Build
build_of (some directory) (some pdf) (some commit) (some built_at) =
    some (record { directory = directory; pdf = pdf; commit = commit; built_at = built_at })
build_of _ _ _ _ = none

-- `_attempt`: the attempt of a row, when its first three columns are there
unfoldable pub attempt_of :
    Option String → Option ℕ → Option BuildOutcome → Option String → Option BuildAttempt
attempt_of (some commit) (some started_at) (some outcome) failure =
    some (record { commit = commit; started_at = started_at; outcome = outcome; failure = failure })
attempt_of _ _ _ _ = none

-- `_deck`
unfoldable pub deck_of : DeckRow → Deck
unfolding build_of attempt_of
deck_of row = record {
  slug = row.slug;
  title = row.title;
  changed_at = row.changed_at;
  owner_id = row.owner_id;
  source_id = row.source_id;
  commit = row.commit_sha;
  build = build_of row.active_build row.pdf_export row.built_commit row.built_at;
  attempt =
      attempt_of row.attempt_commit row.attempt_started_at row.attempt_outcome row.attempt_failure;
}

-- An UPDATE: the rows that a condition picks are rewritten.
abbrev pub update_where : (DeckRow → Bool) → (DeckRow → DeckRow) → Table → Table
update_where p f = map (λ row. if p row then f row else row)

abbrev pub has_slug : String → DeckRow → Bool
has_slug slug row = str_eq row.slug slug

-- `_ALL_DECKS`'s condition
abbrev pub is_listed : DeckRow → Bool
is_listed row = is_none row.removed_at

-- The columns that `_PUT_DECK` writes over a row of the same source.
unfoldable pub carried : Deck → DeckRow → DeckRow
carried deck row = record row {
  title = deck.title;
  changed_at = deck.changed_at;
  owner_id = deck.owner_id;
  commit_sha = deck.commit;
}

-- The row that `_PUT_DECK` inserts.
unfoldable pub new_row : Deck → DeckRow
new_row deck = record {
  slug = deck.slug;
  title = deck.title;
  changed_at = deck.changed_at;
  owner_id = deck.owner_id;
  source_id = deck.source_id;
  commit_sha = deck.commit;
  active_build = none;
  pdf_export = none;
  built_commit = none;
  built_at = none;
  attempt_commit = none;
  attempt_started_at = none;
  attempt_outcome = none;
  attempt_failure = none;
  removed_at = none;
}

-- `put`: `_PUT_DECK` over the primary key, and whether it wrote a row.
unfoldable pub put : Deck → Table → Bool × Table
unfolding carried new_row
put deck [] = (true, new_row deck ∷ [])
put deck (row ∷ table) =
    let (wrote, rest) = put deck table in
    if has_slug deck.slug row
    then (if str_eq row.source_id deck.source_id
        then (true, carried deck row ∷ table)
        else (false, row ∷ table))
    else (wrote, row ∷ rest)

-- `_PUT_BUILD`: everything a build wrote moves at once, and the attempt goes.
unfoldable pub with_build : Build → DeckRow → DeckRow
with_build build row = record row {
  active_build = some build.directory;
  pdf_export = some build.pdf;
  built_commit = some build.commit;
  built_at = some build.built_at;
  attempt_commit = none;
  attempt_started_at = none;
  attempt_outcome = none;
  attempt_failure = none;
}

unfoldable pub put_build : String → Build → Table → Table
unfolding with_build
put_build slug build = update_where (has_slug slug) (with_build build)

-- `_PUT_ATTEMPT`
unfoldable pub with_attempt : BuildAttempt → DeckRow → DeckRow
with_attempt attempt row = record row {
  attempt_commit = some attempt.commit;
  attempt_started_at = some attempt.started_at;
  attempt_outcome = some attempt.outcome;
  attempt_failure = attempt.failure;
}

unfoldable pub put_attempt : String → BuildAttempt → Table → Table
unfolding with_attempt
put_attempt slug attempt = update_where (has_slug slug) (with_attempt attempt)

-- `get`
unfoldable pub get : String → Table → Option Deck
unfolding deck_of
get slug table = elim (find (λ row. is_listed row && has_slug slug row) table) [
  | none ↦ none
  | some row ↦ some (deck_of row)
]

-- `all`
unfoldable pub all : Table → List Deck
unfolding deck_of
all table = map deck_of (keep is_listed table)

-- `slug IN (SELECT value FROM json_each(?))`
abbrev pub is_in : List String → String → Bool
is_in present slug = any (λ name. str_eq name slug) present

-- `_MARK_REMOVED`'s and `_UNMARK_CARRIED`'s conditions
abbrev pub gone : List String → String → DeckRow → Bool
gone present source_id row =
    is_none row.removed_at && (str_eq row.source_id source_id && not (is_in present row.slug))

abbrev pub back : List String → String → DeckRow → Bool
back present source_id row =
    is_some row.removed_at && (str_eq row.source_id source_id && is_in present row.slug)

-- `mark_removed_except`
unfoldable pub mark_removed_except : List String → String → ℕ → Table → Table
mark_removed_except present source_id at table =
    update_where (back present source_id) (λ row. record row { removed_at = none })
      (update_where (gone present source_id) (λ row. record row { removed_at = some at }) table)

-- `for_source`
unfoldable pub for_source : String → Table → List Deck
unfolding deck_of
for_source source_id table = map deck_of (keep (λ row. str_eq row.source_id source_id) table)

-- `remove_for_source`
unfoldable pub remove_for_source : String → Table → Table
remove_for_source source_id = keep (λ row. not (str_eq row.source_id source_id))
