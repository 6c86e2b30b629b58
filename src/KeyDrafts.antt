-- ===== src/KeyDrafts.antt =====
-- SqliteSourceKeyDrafts of src/presentator/adapters/key_drafts.py: the `source_key_drafts` table, with
-- its UNIQUE owner. `Vault` is what the adapters call outside: fresh identifiers, key pairs, and the
-- box that encrypts under the instance key, its ciphertexts as texts; a call takes the number of
-- calls made before it.
pub mod Laws
pub mod OneEach
pub mod Tests
use agent_presentator.Base.{
  ℕ, ◌+◌, ◌≡◌, String, Bool, not, ◌&&◌, Option, none, some, List, [], ◌∷◌, str_eq, leb, ltb,
  if◌then◌else◌, find, keep, count,
}
use agent_presentator.Contracts.{DeployKeyDraft}

pub record KeyPair : Type 0 where
  pub public_key : String
  pub private_key : String

pub record Vault : Type 0 where
  pub new_id : ℕ → String
  pub pair : ℕ → KeyPair
  pub encrypt : ℕ → String → String
  pub decrypt : String → Option String

-- What the box promises: it opens what it closed.
abbrev pub Opens : Vault → Type 0
Opens vault = (n : ℕ) (secret : String) → vault.decrypt (vault.encrypt n secret) ≡ some secret

-- `DraftRow`
pub record DraftRow : Type 0 where
  pub id : String
  pub owner_id : String
  pub public_key : String
  pub encrypted_private_key : String
  pub created_at : ℕ

abbrev pub Drafts : Type 0
Drafts = List DraftRow

abbrev pub has_owner : String → DraftRow → Bool
has_owner owner_id row = str_eq row.owner_id owner_id

-- `DRAFT_BY_ID_AND_OWNER`'s condition
abbrev pub is_draft_of : String → String → DraftRow → Bool
is_draft_of draft_id owner_id row = str_eq row.id draft_id && has_owner owner_id row

-- `draft_of_row`, once the box has answered
unfoldable pub opened : DraftRow → Option String → Option DeployKeyDraft
opened row none = none
opened row (some private_key) = some (record {
  id = row.id;
  owner_id = row.owner_id;
  public_key = row.public_key;
  private_key = private_key;
  created_at = row.created_at;
})

-- `draft if draft is not None and draft.created_at >= newer_than else None`
unfoldable pub young : ℕ → Option DeployKeyDraft → Option DeployKeyDraft
young newer_than none = none
young newer_than (some draft) = if leb newer_than draft.created_at then some draft else none

-- `_ADD_DRAFT`: the owner's row is written over, or a row is added; its new identifier is taken to be that
-- of no other row
unfoldable pub put_draft : DraftRow → Drafts → Drafts
put_draft row [] = row ∷ []
put_draft row (other ∷ table) =
    let rest = put_draft row table in
    if has_owner row.owner_id other then row ∷ table else other ∷ rest

-- `REMOVE_DRAFT`
unfoldable pub remove_draft : String → Drafts → Drafts
remove_draft draft_id = keep (λ row. not (str_eq row.id draft_id))

-- `count_for_owner`
unfoldable pub count_for_owner : String → Drafts → ℕ
count_for_owner owner_id table = count (has_owner owner_id) table

-- `remove_for_owner`: how many rows went, and the rest
unfoldable pub remove_for_owner : String → Drafts → ℕ × Drafts
remove_for_owner owner_id table =
    (count (has_owner owner_id) table, keep (λ row. not (has_owner owner_id row)) table)

-- `sweep`
unfoldable pub sweep : ℕ → Drafts → Drafts
sweep older_than = keep (λ row. not (ltb row.created_at older_than))

module _ (vault : Vault) where
  -- `draft_of_row`
  unfoldable pub draft_of_row : DraftRow → Option DeployKeyDraft
  unfolding opened
  draft_of_row row = opened row (vault.decrypt row.encrypted_private_key)

  unfoldable pub draft_found : Option DraftRow → Option DeployKeyDraft
  unfolding draft_of_row
  draft_found none = none
  draft_found (some row) = draft_of_row row

  -- `unconsumed_for`: `_DRAFT_BY_OWNER` finds the owner's one row
  unfoldable pub unconsumed_for : String → ℕ → Drafts → Option DeployKeyDraft
  unfolding young draft_found
  unconsumed_for owner_id newer_than table =
      young newer_than (draft_found (find (has_owner owner_id) table))

  -- The draft that `mint` returns, whose pair, identifier and encryption are three calls from `n` on.
  abbrev pub minted : String → ℕ → ℕ → DeployKeyDraft
  minted owner_id at n = record {
    id = vault.new_id (n + 1);
    owner_id = owner_id;
    public_key = (vault.pair n).public_key;
    private_key = (vault.pair n).private_key;
    created_at = at;
  }

  abbrev pub minted_row : String → ℕ → ℕ → DraftRow
  minted_row owner_id at n = record {
    id = vault.new_id (n + 1);
    owner_id = owner_id;
    public_key = (vault.pair n).public_key;
    encrypted_private_key = vault.encrypt (n + 2) (vault.pair n).private_key;
    created_at = at;
  }

  -- `mint`
  unfoldable pub mint : String → ℕ → ℕ → Drafts → DeployKeyDraft × Drafts
  unfolding put_draft
  mint owner_id at n table = (minted owner_id at n, put_draft (minted_row owner_id at n) table)

  unfoldable pub reuse_or_mint :
      Option DeployKeyDraft → String → ℕ → ℕ → Drafts → DeployKeyDraft × Drafts
  unfolding mint
  reuse_or_mint none owner_id at n table = mint owner_id at n table
  reuse_or_mint (some draft) owner_id at n table = (draft, table)

  -- `get_or_mint`
  unfoldable pub get_or_mint : String → ℕ → ℕ → ℕ → Drafts → DeployKeyDraft × Drafts
  unfolding unconsumed_for reuse_or_mint
  get_or_mint owner_id newer_than at n table =
      reuse_or_mint (unconsumed_for owner_id newer_than table) owner_id at n table

  unfoldable pub take_found : Option DraftRow → String → Drafts → Option DeployKeyDraft × Drafts
  unfolding draft_of_row remove_draft
  take_found none draft_id table = (none, table)
  take_found (some row) draft_id table = (draft_of_row row, remove_draft draft_id table)

  -- `bind`
  unfoldable pub bind : String → String → Drafts → Option DeployKeyDraft × Drafts
  unfolding take_found
  bind draft_id owner_id table =
      take_found (find (is_draft_of draft_id owner_id) table) draft_id table
