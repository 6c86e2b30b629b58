-- ===== src/SourceUpkeep.antt =====
-- What src/presentator/application/decks.py does with a source that stands: renew_access,
-- renew_webhook, removal, remove_source and accept_hook. `Around` is what they ask outside the
-- process beside the refresh's calls.
pub mod Removal
pub mod Hooks
pub mod Tests
use agent_presentator.Base.{
  bytes_eq, ℕ, ◌+◌, String, Bool, true, false, not, ◌&&◌, ◌||◌, Option, none, some, List, [], ◌∷◌,
  str_eq, ◌==◌, if◌then◌else◌, all, length,
}
use agent_presentator.Contracts.{
  Source, Deck, Build, AccessKind, SourceRemoval, ConnectionCheckResult,
}
use agent_presentator.DeckStore
use agent_presentator.DeckStore.{Table, for_source}
use agent_presentator.SourceRuns
use agent_presentator.SourceRuns.{Runs, recent}
use agent_presentator.KeyDrafts.{Vault}
use agent_presentator.SourceStore
use agent_presentator.SourceStore.{
  all_sources, put_credential, renew_deploy_key, put_hook_secret_hash, hook_secret_hash_of,
}
use agent_presentator.SourceNames.{is_blank, strip}
use agent_presentator.Secrets.{Crypto, no_hash, hash_webhook_secret}
use agent_presentator.Refresh.{Outside, World, named, refresh_named}

pub record Around : Type 0 where
  -- `ConnectionChecker.check`, of a url, a ref and a secret
  pub check : ℕ → String → String → String → ConnectionCheckResult
  -- `LocalMount.canonical_repository`
  pub canonical_repository : ℕ → String → Option String
  -- `DeckFolders.forget`: whether the mirror is gone
  pub forget : ℕ → Source → Bool
  -- `BuildRunner.remove`: whether the directory is gone
  pub remove_build : ℕ → String → Bool
  -- `secrets.token_urlsafe`
  pub token : ℕ → String

-- `remove_source`'s answers
pub data RemovalAnswer : Type 0 where
  unknown : RemovalAnswer
  stale : SourceRemoval → RemovalAnswer
  disk_leftover : RemovalAnswer
  removed : SourceRemoval → RemovalAnswer

-- `_preview_of`
unfoldable pub preview_of : Source → List Deck → Runs → SourceRemoval
preview_of source carried runs = record {
  name = source.name;
  deck_count = length carried;
  run_count = length (recent source.id runs);
}

-- `_preview`
unfoldable pub preview : Source → World → SourceRemoval
unfolding preview_of
preview source w = preview_of source (for_source source.id w.decks) w.runs

-- `removal`
unfoldable pub removal_found : Option Source → World → Option SourceRemoval
unfolding preview
removal_found none w = none
removal_found (some source) w = some (preview source w)

unfoldable pub removal : String → World → Option SourceRemoval
unfolding removal_found
removal name w = removal_found (named name (all_sources w.sources)) w

-- The directories that the decks' builds stand in.
abbrev pub prepend_directory : Option Build → List String → List String
prepend_directory none directories = directories
prepend_directory (some build) directories = build.directory ∷ directories

unfoldable pub build_directories : List Deck → List String
build_directories [] = []
build_directories (deck ∷ decks) = prepend_directory deck.build (build_directories decks)

-- The three tables without the source.
unfoldable pub without_source : Source → World → World
without_source source w = record w {
  decks = DeckStore.remove_for_source source.id w.decks;
  runs = SourceRuns.remove_for_source source.id w.runs;
  sources = SourceStore.remove source.id w.sources;
}

-- Whether the counts differ from what was confirmed.
abbrev pub differs : SourceRemoval → ℕ → ℕ → Bool
differs shown expected_deck_count expected_run_count =
    not (shown.deck_count == expected_deck_count) || not (shown.run_count == expected_run_count)

module _ (around : Around) where
  -- `list(map(self.builder.remove, build_directories))`, the calls from `n` on
  unfoldable pub remove_builds : ℕ → List String → List Bool
  remove_builds n [] = []
  remove_builds n (directory ∷ directories) =
      around.remove_build n directory ∷ remove_builds (n + 1) directories

  -- Whether anything of the source is left on disk.
  abbrev pub leftover : Source → World → Bool
  leftover source w =
      not (around.forget w.calls source)
      || not (
          all (λ gone. gone)
            (remove_builds (w.calls + 1) (build_directories (for_source source.id w.decks))))

  unfoldable pub decided : Bool → Bool → SourceRemoval → Source → World → RemovalAnswer × World
  unfolding without_source
  decided true left shown source w = (RemovalAnswer.stale shown, w)
  decided false true shown source w = (
    RemovalAnswer.disk_leftover,
    record w { calls = w.calls + 1 + length (build_directories (for_source source.id w.decks)) },
  )
  decided false false shown source w = (
    RemovalAnswer.removed shown,
    without_source source (record w {
      calls = w.calls + 1 + length (build_directories (for_source source.id w.decks));
    }),
  )

  -- `remove_source`, once the source is there
  unfoldable pub remove_found : Source → ℕ → ℕ → World → RemovalAnswer × World
  unfolding preview_of decided
  remove_found source expected_deck_count expected_run_count w =
      let shown = preview_of source (for_source source.id w.decks) w.runs in
      decided (differs shown expected_deck_count expected_run_count) (leftover source w) shown
        source w

  unfoldable pub remove_named : Option Source → ℕ → ℕ → World → RemovalAnswer × World
  unfolding remove_found
  remove_named none expected_deck_count expected_run_count w = (RemovalAnswer.unknown, w)
  remove_named (some source) expected_deck_count expected_run_count w =
      remove_found source expected_deck_count expected_run_count w

  -- `remove_source`
  unfoldable pub remove_source : String → ℕ → ℕ → World → RemovalAnswer × World
  unfolding remove_named
  remove_source name expected_deck_count expected_run_count w =
      remove_named (named name (all_sources w.sources)) expected_deck_count expected_run_count w

module _ (vault : Vault) (access_kind_of : String → Option AccessKind) where
  -- `renew_access`, of a source of that kind
  unfoldable pub renew_kind : Option AccessKind → Source → String → World → Bool × World
  unfolding renew_deploy_key put_credential
  renew_kind (some AccessKind.ssh) source secret w =
      let (renewed, rows) = renew_deploy_key vault source.id w.calls w.sources in
      (renewed, record w { sources = rows; calls = w.calls + 2 })
  renew_kind (some AccessKind.https) source secret w = if is_blank secret then (false, w) else (
    true,
    record w {
      sources = put_credential vault source.id secret w.calls w.sources;
      calls = w.calls + 1;
    },
  )
  renew_kind (some AccessKind.file) source secret w = (false, w)
  renew_kind none source secret w = (false, w)

  unfoldable pub renew_found : Option Source → String → World → Bool × World
  unfolding renew_kind
  renew_found none secret w = (false, w)
  renew_found (some source) secret w = renew_kind (access_kind_of source.url) source secret w

  -- `renew_access`
  unfoldable pub renew_access : String → String → World → Bool × World
  unfolding renew_found
  renew_access name secret w = renew_found (named name (all_sources w.sources)) secret w

module _ (crypto : Crypto) (around : Around) where
  unfoldable pub renew_webhook_found : Option Source → String → World → Option String × World
  unfolding put_hook_secret_hash hash_webhook_secret
  renew_webhook_found none name w = (none, w)
  renew_webhook_found (some source) name w =
      let secret = around.token w.calls in
      (
        some secret,
        record w {
          sources = (put_hook_secret_hash name (hash_webhook_secret crypto secret) w.sources).1;
          calls = w.calls + 1;
        },
      )

  -- `renew_webhook`
  unfoldable pub renew_webhook : String → World → Option String × World
  unfolding renew_webhook_found
  renew_webhook name w = renew_webhook_found (named name (all_sources w.sources)) name w

-- `stored if stored is not None else _NO_HASH`
abbrev pub stored_or_none : Option (List ℕ) → List ℕ
stored_or_none none = no_hash
stored_or_none (some digest) = digest

abbrev pub is_stored : Option (List ℕ) → Bool
is_stored none = false
is_stored (some digest) = true

module _ (crypto : Crypto) (outside : Outside) where
  -- Whether the offered secret is the stored one; a missing hash takes the same compare.
  abbrev pub is_accepted : Option (List ℕ) → String → Bool
  is_accepted stored offered =
      is_stored stored && bytes_eq (hash_webhook_secret crypto offered) (stored_or_none stored)

  unfoldable pub answered : Bool → Bool → String → World → Bool × World
  unfolding refresh_named
  answered false held name w = (false, w)
  answered true held name w = (true, (refresh_named outside held name w).1)

  -- `accept_hook`: `held` says that another refresh holds the lock
  unfoldable pub accept_hook : Bool → String → String → World → Bool × World
  unfolding hash_webhook_secret hook_secret_hash_of answered
  accept_hook held name offered w =
      answered (is_accepted (hook_secret_hash_of name w.sources) offered) held name w
