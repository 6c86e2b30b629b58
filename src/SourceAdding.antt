-- ===== src/SourceAdding.antt =====
-- source_key_draft, check_connection and add_source of src/presentator/application/decks.py.
pub mod Proofs
pub mod Rows
pub mod Tests
use agent_presentator.Base.{
  ℕ, ◌+◌, ◌-◌, String, Bool, true, false, not, ◌&&◌, Option, none, some, List, [], ◌∷◌, str_eq,
  if◌then◌else◌, any,
}
use agent_presentator.Contracts.{
  Source, SourceWrite, AccessKind, DeployKeyDraft, ConnectionCheckResult, SourceRunFailure,
}
use agent_presentator.KeyDrafts.{Vault, unconsumed_for, mint, get_or_mint}
use agent_presentator.SourceStore.{Stored, all_sources, add, add_from_draft}
use agent_presentator.SourceNames.{
  SourceRefusal, NewSourceDraft, strip, is_kind, access_matches_url, refusal_for,
}
use agent_presentator.Secrets.{
  Crypto, ConnectionProof, compare_digest, connection_fingerprint, hash_webhook_secret,
}
use agent_presentator.Lobby.{map_option, short_commit}
use agent_presentator.Refresh.{Outside, World, refresh_named, draft_max_age}
use agent_presentator.SourceUpkeep.{Around}

-- `_ADDED_REF`
abbrev pub added_ref : String
added_ref = "main"

-- `check_connection`'s answers
pub data CheckAnswer : Type 0 where
  checked : ConnectionCheckResult → CheckAnswer
  refused : SourceRefusal → CheckAnswer

-- `add_source`'s answers: AddedSource, a refusal, or the TypeError of a comparison
pub data AddAnswer : Type 0 where
  added : Source → String → AddAnswer
  refused : SourceRefusal → AddAnswer
  raised : AddAnswer

-- `_canonical_address`'s answers
pub data Canonical : Type 0 where
  address : String → Canonical
  refused : SourceRefusal → Canonical

-- The draft's parts that a proof binds; without a draft, the empty text and the typed secret.
abbrev pub credential_of : Option DeployKeyDraft → String → String
credential_of none secret = secret
credential_of (some draft) secret = draft.private_key

abbrev pub proof_of : Option DeployKeyDraft → String → String → String → ConnectionProof
proof_of none owner_id url secret = record {
  owner_id = owner_id;
  draft_id = "";
  public_key = "";
  url = url;
  ref = added_ref;
  secret = secret;
}
proof_of (some draft) owner_id url secret = record {
  owner_id = owner_id;
  draft_id = draft.id;
  public_key = draft.public_key;
  url = url;
  ref = added_ref;
  secret = draft.private_key;
}

abbrev pub of_form : String → Option DeployKeyDraft → Option DeployKeyDraft
of_form draft_id none = none
of_form draft_id (some draft) = if str_eq draft.id draft_id then some draft else none

module _ (outside : Outside) (vault : Vault) where
  -- `unconsumed_for` under the present moment, as both checks ask it
  abbrev pub current_draft : String → World → Option DeployKeyDraft
  current_draft owner_id w =
      unconsumed_for vault owner_id (outside.now w.calls - draft_max_age) w.key_drafts

  -- `_deploy_key_for`
  unfoldable pub deploy_key_for : String → String → World → Option DeployKeyDraft
  deploy_key_for owner_id draft_id w = of_form draft_id (current_draft owner_id w)

  -- `source_key_draft`
  unfoldable pub source_key_draft : String → World → DeployKeyDraft × World
  unfolding get_or_mint
  source_key_draft owner_id w =
      let now = outside.now w.calls in
      let (draft, rows) =
        get_or_mint vault owner_id (now - draft_max_age) now (w.calls + 1) w.key_drafts in
      (draft, record w { key_drafts = rows; calls = w.calls + 4 })

module _ (outside : Outside) (vault : Vault) (crypto : Crypto) (around : Around)
    (access_kind_of : String → Option AccessKind) where
  -- `check_connection`, once the probe has answered
  unfoldable pub probed :
      Option SourceRunFailure → ConnectionCheckResult → ConnectionProof → ConnectionCheckResult
  unfolding connection_fingerprint
  probed (some failure) result proof = result
  probed none result proof = record {
    failure = none;
    commit = map_option short_commit result.commit;
    detail = none;
    fingerprint = some (connection_fingerprint crypto proof);
  }

  abbrev pub probe : Option DeployKeyDraft → String → String → String → ℕ → ConnectionCheckResult
  probe draft owner_id url secret n =
      let result = around.check n url added_ref (credential_of draft secret) in
      probed result.failure result (proof_of draft owner_id url secret)

  unfoldable pub probe_draft :
      Option DeployKeyDraft → String → String → String → ℕ → ConnectionCheckResult
  unfolding probed
  probe_draft none owner_id url secret n = record {
    failure = some SourceRunFailure.refused;
    commit = none;
    detail = none;
    fingerprint = none;
  }
  probe_draft (some draft) owner_id url secret n = probe (some draft) owner_id url secret n

  -- `check_connection`, which writes nothing down
  unfoldable pub check_connection : String → String → String → String → String → World → CheckAnswer
  unfolding access_matches_url deploy_key_for probed probe_draft strip
  check_connection url access secret owner_id key_draft_id w =
      let stripped = strip url in
      if not (access_matches_url access_kind_of access stripped)
      then CheckAnswer.refused SourceRefusal.access_mismatch
      else CheckAnswer.checked (
          if str_eq access "ssh"
          then probe_draft (deploy_key_for outside vault owner_id key_draft_id w) owner_id stripped
              secret (w.calls + 1)
          else probe none owner_id stripped secret w.calls)

  -- `_canonical_address` of a local address, once the mount has answered
  unfoldable pub local_address : Option String → List Source → Canonical
  local_address none existing = Canonical.refused SourceRefusal.outside_mount
  local_address (some normalized) existing =
      if any (λ (source : Source). str_eq source.url normalized) existing
      then Canonical.refused SourceRefusal.duplicate_url
      else Canonical.address normalized

  -- `_canonical_address`
  unfoldable pub canonical_address : String → List Source → ℕ → Canonical
  unfolding local_address
  canonical_address url existing n =
      if not (is_kind AccessKind.file (access_kind_of url))
      then Canonical.address url
      else local_address (around.canonical_repository n url) existing

  -- What `add_source` writes.
  abbrev pub write_of :
      NewSourceDraft → Option DeployKeyDraft → String → String → String → SourceWrite
  write_of draft key owner_id url token = record {
    name = strip draft.name;
    url = url;
    ref = added_ref;
    owner_id = owner_id;
    access_secret = credential_of key draft.secret;
    hook_secret_hash = hash_webhook_secret crypto token;
    public_key = map_option (λ (k : DeployKeyDraft). k.public_key) key;
  }

  -- `add_from_draft` for an SSH source, `add` for any other
  unfoldable pub store_write : Option DeployKeyDraft → SourceWrite → String → World → Stored
  unfolding add add_from_draft
  store_write none write draft_id w = add vault write w.calls w.sources w.key_drafts
  store_write (some key) write draft_id w =
      add_from_draft vault write draft_id w.calls w.sources w.key_drafts

  -- The end of `add_source`: the table's answer, then the first refresh of the new source.
  unfoldable pub settle : Bool → Option Source → String → World → AddAnswer × World
  unfolding refresh_named
  settle held none token w = (AddAnswer.refused SourceRefusal.duplicate_name, w)
  settle held (some source) token w =
      (AddAnswer.added source token, (refresh_named outside held source.name w).1)

  unfoldable pub store_at :
      Bool → NewSourceDraft → Option DeployKeyDraft → String → Canonical → World → AddAnswer × World
  unfolding store_write settle hash_webhook_secret strip
  store_at held draft key owner_id (Canonical.refused reason) w = (AddAnswer.refused reason, w)
  store_at held draft key owner_id (Canonical.address url) w =
      let token = around.token w.calls in
      let asked : World = record w { calls = w.calls + 1 } in
      let stored =
        store_write key (write_of draft key owner_id url token) draft.key_draft_id asked in
      settle held stored.stored token
        (record w { sources = stored.rows; key_drafts = stored.drafts; calls = w.calls + 3 })

  -- `add_source` once the fingerprint was compared
  unfoldable pub add_proven :
      Bool
      → NewSourceDraft
      → Option DeployKeyDraft
      → String
      → Option Bool
      → World
      → AddAnswer × World
  unfolding store_at canonical_address strip
  add_proven held draft key owner_id none w = (AddAnswer.raised, w)
  add_proven held draft key owner_id (some false) w =
      (AddAnswer.refused SourceRefusal.not_checked, w)
  add_proven held draft key owner_id (some true) w =
      store_at held draft key owner_id
        (canonical_address (strip draft.url) (all_sources w.sources) w.calls)
        (record w { calls = w.calls + 1 })

  unfoldable pub add_with :
      Bool → NewSourceDraft → Option DeployKeyDraft → String → World → AddAnswer × World
  unfolding add_proven compare_digest connection_fingerprint strip
  add_with held draft key owner_id w =
      add_proven held draft key owner_id
        (compare_digest draft.fingerprint
          (connection_fingerprint crypto (proof_of key owner_id (strip draft.url) draft.secret)))
        w

  -- An SSH source needs the draft key of the form; without it a fresh draft is minted.
  unfoldable pub add_keyed :
      Bool → NewSourceDraft → Option DeployKeyDraft → String → World → AddAnswer × World
  unfolding add_with mint
  add_keyed held draft none owner_id w = (
    AddAnswer.refused SourceRefusal.deploy_key_unavailable,
    record w {
      key_drafts = (mint vault owner_id (outside.now w.calls) (w.calls + 1) w.key_drafts).1;
      calls = w.calls + 4;
    },
  )
  add_keyed held draft (some key) owner_id w = add_with held draft (some key) owner_id w

  unfoldable pub add_allowed :
      Bool → Option SourceRefusal → NewSourceDraft → String → World → AddAnswer × World
  unfolding add_keyed add_with deploy_key_for strip
  add_allowed held (some reason) draft owner_id w = (AddAnswer.refused reason, w)
  add_allowed held none draft owner_id w =
      if is_kind AccessKind.ssh (access_kind_of (strip draft.url))
      then add_keyed held draft (deploy_key_for outside vault owner_id draft.key_draft_id w)
          owner_id (record w { calls = w.calls + 1 })
      else add_with held draft none owner_id w

  -- `add_source`: `held` says that another refresh holds the lock
  unfoldable pub add_source : Bool → NewSourceDraft → String → World → AddAnswer × World
  unfolding add_allowed refusal_for strip
  add_source held draft owner_id w =
      add_allowed held
        (refusal_for access_kind_of draft (strip draft.name) (strip draft.url)
          (all_sources w.sources))
        draft owner_id w
