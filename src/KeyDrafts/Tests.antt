-- ===== src/KeyDrafts/Tests.antt =====
-- A vault whose box keeps the text, and the draft table's theorem there.
use agent_presentator.Base.{◌≤◌, ◌≡◌, refl, some, List, [], ◌∷◌, arith, if◌then◌else◌, ◌==◌}
use agent_presentator.KeyDrafts.{Vault, Opens, Drafts, unconsumed_for, get_or_mint, count_for_owner}
use agent_presentator.KeyDrafts.OneEach.{DraftCommand, run_drafts, run_drafts-one}
use agent_presentator.KeyDrafts.Laws.{unconsumed_for-get_or_mint}

abbrev pub vault : Vault
vault = record {
  new_id = λ n. if n == 5 then "i5" else "i";
  pair = λ n. record { public_key = "public"; private_key = "private" };
  encrypt = λ n secret. secret;
  decrypt = λ sealed. some sealed;
}

pub vault-Opens : Opens vault
vault-Opens n secret = refl

-- An old draft of Anna's beside one of Berta's.
abbrev pub drafts : Drafts
drafts =
    record {
      id = "old";
      owner_id = "anna";
      public_key = "p";
      encrypted_private_key = "q";
      created_at = 3;
    }
    ∷ record {
      id = "hers";
      owner_id = "berta";
      public_key = "p";
      encrypted_private_key = "q";
      created_at = 90;
    }
    ∷ []

unconsumed_for-get_or_mint_example :
    unconsumed_for vault "anna" 10 (get_or_mint vault "anna" 10 100 4 drafts).1
    ≡ some (get_or_mint vault "anna" 10 100 4 drafts).0
unconsumed_for-get_or_mint_example =
    unconsumed_for-get_or_mint vault vault-Opens "anna" 10 100 4 drafts (omega arith)

-- Anna opens the form, binds her draft and opens it again, between two sweeps.
abbrev morning : List DraftCommand
morning =
    DraftCommand.opening "anna" 10 100 4
    ∷ DraftCommand.sweeping 50
    ∷ DraftCommand.binding "i5" "anna"
    ∷ DraftCommand.opening "anna" 20 110 9
    ∷ DraftCommand.sweeping 60
    ∷ []

one_draft : count_for_owner "anna" drafts ≤ 1
unfolding count_for_owner
one_draft = omega arith

run_drafts-one_example : count_for_owner "anna" (run_drafts vault morning drafts) ≤ 1
run_drafts-one_example = run_drafts-one vault "anna" morning drafts one_draft
