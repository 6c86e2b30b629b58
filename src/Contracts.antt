-- ===== src/Contracts.antt =====
-- The records and enumerations of src/presentator/contracts/decks.py that the stores and the use
-- cases exchange. Moments are whole microseconds since an origin; paths are texts.
use agent_presentator.Base.{ℕ, String, Bool, Option, List, str_eq}
use agent_presentator.Base.Int.{ℤ}

-- RECENT_SOURCE_RUNS
abbrev pub recent_source_runs : ℕ
recent_source_runs = 3

pub data AccessKind : Type 0 where
  https ssh file : AccessKind

pub record SourceWrite : Type 0 where
  pub name : String
  pub url : String
  pub ref : String
  pub owner_id : String
  pub access_secret : String
  pub hook_secret_hash : List ℕ
  pub public_key : Option String

pub record Source : Type 0 where
  pub id : String
  pub name : String
  pub url : String
  pub ref : String
  pub owner_id : String
  pub public_key : Option String

pub record DeployKeyDraft : Type 0 where
  pub id : String
  pub owner_id : String
  pub public_key : String
  pub private_key : String
  pub created_at : ℕ

pub record DeckFolder : Type 0 where
  pub name : String
  pub file_names : List String
  pub title : Option String
  pub changed_at : ℕ
  pub commit : String

pub data SourceRunOutcome : Type 0 where
  success failure : SourceRunOutcome

pub data SourceRunFailure : Type 0 where
  credential_unresolvable refused failed unreachable : SourceRunFailure

pub record SourcePoll : Type 0 where
  pub folders : Option (List DeckFolder)
  pub commit : Option String
  pub failure : Option SourceRunFailure

pub record ConnectionCheckResult : Type 0 where
  pub failure : Option SourceRunFailure
  pub commit : Option String
  pub detail : Option String
  pub fingerprint : Option String

pub record SourceRun : Type 0 where
  pub source_id : String
  pub at : ℕ
  pub outcome : SourceRunOutcome
  pub commit : Option String
  pub reason : Option SourceRunFailure

pub record Artefacts : Type 0 where
  pub directory : String
  pub pdf : String

pub record BuildFailure : Type 0 where
  pub text : Option String

pub record Build : Type 0 where
  pub directory : String
  pub pdf : String
  pub commit : String
  pub built_at : ℕ

pub data BuildOutcome : Type 0 where
  running failed : BuildOutcome

pub record BuildAttempt : Type 0 where
  pub commit : String
  pub started_at : ℕ
  pub outcome : BuildOutcome
  pub failure : Option String

pub data DeckState : Type 0 where
  ready building failed never_built : DeckState

pub record Deck : Type 0 where
  pub slug : String
  pub title : String
  pub changed_at : ℕ
  pub owner_id : String
  pub source_id : String
  pub commit : String
  pub build : Option Build
  pub attempt : Option BuildAttempt

-- `Deck.is_owned_by`
abbrev pub is_owned_by : Deck → String → Bool
is_owned_by deck viewer = str_eq deck.owner_id viewer

pub record ListedDeck : Type 0 where
  pub slug : String
  pub title : String
  pub state : DeckState
  pub age : ℤ

pub data SourceState : Type 0 where
  reachable error refused failed never_fetched : SourceState

pub record ListedSource : Type 0 where
  pub name : String
  pub url : String
  pub access : Option AccessKind
  pub state : SourceState
  pub age : Option ℤ

pub record ShownSourceRun : Type 0 where
  pub outcome : SourceRunOutcome
  pub age : ℤ
  pub commit : Option String
  pub reason : Option SourceRunFailure

pub record SourceDeck : Type 0 where
  pub slug : String
  pub title : String

pub record SourcePage : Type 0 where
  pub name : String
  pub url : String
  pub access : Option AccessKind
  pub state : SourceState
  pub age : Option ℤ
  pub public_key : Option String
  pub runs : List ShownSourceRun
  pub decks : List SourceDeck

pub record SourceRemoval : Type 0 where
  pub name : String
  pub deck_count : ℕ
  pub run_count : ℕ

pub record ShownAttempt : Type 0 where
  pub commit : String
  pub ago : ℤ
  pub failure : Option String

pub record DeckPage : Type 0 where
  pub slug : String
  pub title : String
  pub source : Option String
  pub commit : String
  pub built_ago : Option ℤ
  pub state : DeckState
  pub attempt : Option ShownAttempt
  pub themes : Option (List String)
