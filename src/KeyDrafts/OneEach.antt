-- ===== src/KeyDrafts/OneEach.antt =====
-- The drafts of one owner, over any calls of the draft table.
use agent_presentator.Base.{
  ℕ, ◌≤◌, String, Bool, Option, none, some, List, [], ◌∷◌, arith, keep, count, find, str_eq, not,
  ltb,
}
use agent_presentator.Contracts.{DeployKeyDraft}
use agent_presentator.KeyDrafts.{
  Vault, DraftRow, Drafts, has_owner, is_draft_of, remove_draft, count_for_owner, remove_for_owner,
  sweep, minted_row, mint, get_or_mint, reuse_or_mint, unconsumed_for, take_found, bind,
}
use agent_presentator.KeyDrafts.Laws.{count-put_draft}

-- The calls that write the table, with the moments and the number of calls that they meet.
pub data DraftCommand : Type 0 where
  minting : String → ℕ → ℕ → DraftCommand
  opening : String → ℕ → ℕ → ℕ → DraftCommand
  binding : String → String → DraftCommand
  erasing : String → DraftCommand
  sweeping : ℕ → DraftCommand

module _ {ℓ} {A : Type ℓ} (p q : A → Bool) where
  count-keep-le : (xs : List A) → count p (keep q xs) ≤ count p xs
  count-keep-le [] = omega arith
  count-keep-le (x ∷ xs) = ground (arith, count-keep-le xs)

module _ (vault : Vault) where
  unfoldable pub run_drafts : List DraftCommand → Drafts → Drafts
  run_drafts [] table = table
  run_drafts (DraftCommand.minting owner_id at n ∷ commands) table =
      run_drafts commands (mint vault owner_id at n table).1
  run_drafts (DraftCommand.opening owner_id newer_than at n ∷ commands) table =
      run_drafts commands (get_or_mint vault owner_id newer_than at n table).1
  run_drafts (DraftCommand.binding draft_id owner_id ∷ commands) table =
      run_drafts commands (bind vault draft_id owner_id table).1
  run_drafts (DraftCommand.erasing owner_id ∷ commands) table =
      run_drafts commands (remove_for_owner owner_id table).1
  run_drafts (DraftCommand.sweeping older_than ∷ commands) table =
      run_drafts commands (sweep older_than table)

  module _ (j : String) where
    one-mint :
        (owner_id : String) (at n : ℕ) (table : Drafts)
        → count_for_owner j table ≤ 1
        → count_for_owner j (mint vault owner_id at n table).1 ≤ 1
    unfolding mint count_for_owner
    one-mint owner_id at n table h =
        ground (arith, count-put_draft (minted_row vault owner_id at n) j table)

    one-reuse_or_mint :
        (found : Option DeployKeyDraft) (owner_id : String) (at n : ℕ) (table : Drafts)
        → count_for_owner j table ≤ 1
        → count_for_owner j (reuse_or_mint vault found owner_id at n table).1 ≤ 1
    unfolding reuse_or_mint
    one-reuse_or_mint none owner_id at n table h = one-mint owner_id at n table h
    one-reuse_or_mint (some draft) owner_id at n table h = h

    one-take_found :
        (found : Option DraftRow) (draft_id : String) (table : Drafts)
        → count_for_owner j table ≤ 1
        → count_for_owner j (take_found vault found draft_id table).1 ≤ 1
    unfolding take_found remove_draft count_for_owner
    one-take_found none draft_id table h = h
    one-take_found (some row) draft_id table h =
        omega (arith, count-keep-le (has_owner j) (λ row. not (str_eq row.id draft_id)) table)

    -- A table in which an owner has at most one draft stays so, for that owner, through any calls.
    pub run_drafts-one :
        (commands : List DraftCommand) (table : Drafts)
        → count_for_owner j table ≤ 1
        → count_for_owner j (run_drafts commands table) ≤ 1
    unfolding run_drafts get_or_mint bind remove_for_owner sweep count_for_owner
    run_drafts-one [] table h = h
    run_drafts-one (DraftCommand.minting owner_id at n ∷ commands) table h =
        run_drafts-one commands _ (one-mint owner_id at n table h)
    run_drafts-one (DraftCommand.opening owner_id newer_than at n ∷ commands) table h =
        run_drafts-one commands _
          (one-reuse_or_mint (unconsumed_for vault owner_id newer_than table) owner_id at n table h)
    run_drafts-one (DraftCommand.binding draft_id owner_id ∷ commands) table h =
        run_drafts-one commands _
          (one-take_found (find (is_draft_of draft_id owner_id) table) draft_id table h)
    run_drafts-one (DraftCommand.erasing owner_id ∷ commands) table h =
        run_drafts-one commands _ (
          omega (arith, h, count-keep-le (has_owner j) (λ row. not (has_owner owner_id row)) table))
    run_drafts-one (DraftCommand.sweeping older_than ∷ commands) table h =
        run_drafts-one commands _ (
          omega (
            arith,
            h,
            count-keep-le (has_owner j) (λ row. not (ltb row.created_at older_than)) table,
          ))
