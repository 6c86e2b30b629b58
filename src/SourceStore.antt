-- ===== src/SourceStore.antt =====
-- SqliteSourceStore of src/presentator/adapters/decks.py: the `sources` table, with its unique id,
-- name and url.
use agent_presentator.Base.{
  ℕ, ◌+◌, String, Bool, not, ◌||◌, Option, none, some, List, [], ◌∷◌, ◌++◌, map, str_eq, ◌==◌,
  if◌then◌else◌, find, keep, any, count,
}
use agent_presentator.Contracts.{Source, SourceWrite, DeployKeyDraft}
use agent_presentator.KeyDrafts.{Vault, Drafts, is_draft_of, draft_found, remove_draft}

-- A row of `sources`, in the table's columns.
pub record SourceRow : Type 0 where
  pub id : String
  pub name : String
  pub url : String
  pub ref : String
  pub encrypted_secret : String
  pub hook_secret_hash : Option (List ℕ)
  pub owner_id : String
  pub ssh_public_key : Option String

abbrev pub SourceTable : Type 0
SourceTable = List SourceRow

-- `_source`, over the columns of `_ALL_SOURCES`
unfoldable pub source_of : SourceRow → Source
source_of row = record {
  id = row.id;
  name = row.name;
  url = row.url;
  ref = row.ref;
  owner_id = row.owner_id;
  public_key = row.ssh_public_key;
}

-- `all`
unfoldable pub all_sources : SourceTable → List Source
unfolding source_of
all_sources = map source_of

-- Whether `_ADD_SOURCE` would break the uniqueness of an id, a name or a url.
abbrev pub collides : SourceRow → SourceRow → Bool
collides row other =
    str_eq other.id row.id || (str_eq other.name row.name || str_eq other.url row.url)

-- `_ADD_SOURCE`, or nothing where it raises IntegrityError
unfoldable pub add_row : SourceRow → SourceTable → Option SourceTable
add_row row table = if any (collides row) table then none else some (table ++ row ∷ [])

-- The row that a write makes, its secret encrypted.
abbrev pub row_of : String → SourceWrite → String → Option String → SourceRow
row_of id write encrypted public_key = record {
  id = id;
  name = write.name;
  url = write.url;
  ref = write.ref;
  encrypted_secret = encrypted;
  hook_secret_hash = some write.hook_secret_hash;
  owner_id = write.owner_id;
  ssh_public_key = public_key;
}

-- What a caller of the table reads back: the source stored, and the tables after it.
pub record Stored : Type 0 where
  pub stored : Option Source
  pub rows : SourceTable
  pub drafts : Drafts

-- The end of `add` and `add_from_draft`: what the INSERT left, and the drafts to keep if it did.
unfoldable pub inserted : SourceRow → Option SourceTable → SourceTable → Drafts → Drafts → Stored
unfolding source_of
inserted row none before drafts promoted = record { stored = none; rows = before; drafts = drafts }
inserted row (some after) before drafts promoted = record {
  stored = some (source_of row);
  rows = after;
  drafts = promoted;
}

-- `hook_secret_hash`
unfoldable pub hash_found : Option SourceRow → Option (List ℕ)
hash_found none = none
hash_found (some row) = row.hook_secret_hash

unfoldable pub hook_secret_hash_of : String → SourceTable → Option (List ℕ)
unfolding hash_found
hook_secret_hash_of name table = hash_found (find (λ (row : SourceRow). str_eq row.name name) table)

-- `put_hook_secret_hash`: whether it wrote one row, and the table
unfoldable pub put_hook_secret_hash : String → List ℕ → SourceTable → Bool × SourceTable
put_hook_secret_hash name digest table = (
  count (λ (row : SourceRow). str_eq row.name name) table == 1,
  map
      (λ (row : SourceRow).
        if str_eq row.name name then record row { hook_secret_hash = some digest } else row)
      table,
)

-- `remove`
unfoldable pub remove : String → SourceTable → SourceTable
remove source_id = keep (λ (row : SourceRow). not (str_eq row.id source_id))

module _ (vault : Vault) where
  -- `add`: the identifier and the encryption are two calls from `n` on
  unfoldable pub add : SourceWrite → ℕ → SourceTable → Drafts → Stored
  unfolding add_row inserted
  add write n table drafts =
      let row =
        row_of (vault.new_id n) write (vault.encrypt (n + 1) write.access_secret)
          write.public_key in
      inserted row (add_row row table) table drafts drafts

  unfoldable pub promote :
      Option DeployKeyDraft → SourceWrite → String → ℕ → SourceTable → Drafts → Stored
  unfolding add_row inserted
  promote none write draft_id n table drafts = record {
    stored = none;
    rows = table;
    drafts = drafts;
  }
  promote (some draft) write draft_id n table drafts =
      let row =
        row_of (vault.new_id n) write (vault.encrypt (n + 1) draft.private_key)
          (some draft.public_key) in
      inserted row (add_row row table) table drafts (remove_draft draft_id drafts)

  -- `add_from_draft`: a draft that is not there or does not open, and a collision, roll back
  unfoldable pub add_from_draft : SourceWrite → String → ℕ → SourceTable → Drafts → Stored
  unfolding promote
  add_from_draft write draft_id n table drafts =
      promote (draft_found vault (find (is_draft_of draft_id write.owner_id) drafts)) write draft_id
        n table drafts

  -- `put_credential`
  unfoldable pub put_credential : String → String → ℕ → SourceTable → SourceTable
  put_credential source_id secret n = map (λ (row : SourceRow).
      if str_eq row.id source_id
      then record row { encrypted_secret = vault.encrypt n secret }
      else row)

  -- `renew_deploy_key`: the pair and its encryption are two calls from `n` on
  unfoldable pub renew_deploy_key : String → ℕ → SourceTable → Bool × SourceTable
  renew_deploy_key source_id n table = (
    count (λ (row : SourceRow). str_eq row.id source_id) table == 1,
    map
        (λ (row : SourceRow).
          if str_eq row.id source_id
          then record row {
            encrypted_secret = vault.encrypt (n + 1) (vault.pair n).private_key;
            ssh_public_key = some (vault.pair n).public_key;
          }
          else row)
        table,
  )

  -- SourceCredentials.resolve
  unfoldable pub secret_found : Option SourceRow → Option String
  secret_found none = none
  secret_found (some row) = vault.decrypt row.encrypted_secret

  unfoldable pub resolve : String → SourceTable → Option String
  unfolding secret_found
  resolve source_id table = secret_found (find (λ (row : SourceRow). str_eq row.id source_id) table)
