-- ===== src/KeyDrafts/Laws.antt =====
-- The drafts of an owner after one is put in, and what get_or_mint hands out.
use agent_presentator.Base.{
  ℕ, ◌+◌, ◌≤◌, ◌≡◌, String, Option, none, some, [], ◌∷◌, str_eq, arith, eq_iff, le→leb,
  if◌then◌else◌, max, find, count, refl,
}
use agent_presentator.Contracts.{DeployKeyDraft}
use agent_presentator.KeyDrafts.{
  Vault, Opens, DraftRow, Drafts, has_owner, put_draft, young, opened, unconsumed_for, minted_row,
  mint, get_or_mint, reuse_or_mint, draft_found, draft_of_row,
}

find-put_draft :
    (row : DraftRow) (table : Drafts)
    → find (has_owner row.owner_id) (put_draft row table) ≡ some row
unfolding put_draft
find-put_draft row [] = ground (arith, eq_iff row.owner_id row.owner_id)
find-put_draft row (other ∷ table) =
    ground (arith, find-put_draft row table, eq_iff row.owner_id row.owner_id)

-- After a draft is put in, its owner has it alone if the owner had at most one, and every other
-- owner has as many as before.
pub count-put_draft :
    (row : DraftRow) (j : String) (table : Drafts)
    → count (has_owner j) (put_draft row table) ≡ (
        if str_eq row.owner_id j
        then max 1 (count (has_owner j) table)
        else count (has_owner j) table)
unfolding put_draft
count-put_draft row j [] = ground arith
count-put_draft row j (other ∷ table) = ground (
  arith,
  count-put_draft row j table,
  eq_iff row.owner_id j,
  eq_iff other.owner_id j,
  eq_iff other.owner_id row.owner_id,
)

module _ (vault : Vault) where
  young-leb :
      (newer_than : ℕ) (found : Option DeployKeyDraft) (draft : DeployKeyDraft)
      → young newer_than found ≡ some draft
      → found ≡ some draft
  unfolding young
  young-leb newer_than none draft e = ground arith
  young-leb newer_than (some found) draft e = ground arith

  unconsumed_for-mint :
      (opens : Opens vault) (owner : String) (newer_than at n : ℕ) (table : Drafts)
      → newer_than ≤ at
      → unconsumed_for vault owner newer_than (mint vault owner at n table).1
        ≡ some (mint vault owner at n table).0
  unfolding unconsumed_for mint draft_found draft_of_row young opened
  unconsumed_for-mint opens owner newer_than at n table fresh = ground (
    arith,
    find-put_draft (minted_row vault owner at n) table,
    opens (n + 2) (vault.pair n).private_key,
    le→leb newer_than at fresh,
  )

  reuse :
      (opens : Opens vault) (owner : String) (newer_than at n : ℕ) (table : Drafts)
      (found : Option DeployKeyDraft)
      → newer_than ≤ at
      → unconsumed_for vault owner newer_than table ≡ found
      → (let (draft, after) = reuse_or_mint vault found owner at n table in
          unconsumed_for vault owner newer_than after ≡ some draft)
  unfolding reuse_or_mint
  reuse opens owner newer_than at n table none fresh e =
      unconsumed_for-mint opens owner newer_than at n table fresh
  reuse opens owner newer_than at n table (some draft) fresh e = e

  -- While the box opens what it closed, and for a limit of age that lets a new draft pass: the
  -- draft that opening the Add form hands out is the one that is found for that owner
  -- afterwards, whether it was reused or minted.
  pub unconsumed_for-get_or_mint :
      (opens : Opens vault) (owner : String) (newer_than at n : ℕ) (table : Drafts)
      → newer_than ≤ at
      → unconsumed_for vault owner newer_than (get_or_mint vault owner newer_than at n table).1
        ≡ some (get_or_mint vault owner newer_than at n table).0
  unfolding get_or_mint
  unconsumed_for-get_or_mint opens owner newer_than at n table fresh =
      reuse opens owner newer_than at n table (unconsumed_for vault owner newer_than table) fresh
        refl
