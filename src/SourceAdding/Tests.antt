-- ===== src/SourceAdding/Tests.antt =====
-- A second source that is checked and added, and the theorems there.
use agent_presentator.Base.{◌≡◌, refl, String, Option, false, some, none}
use agent_presentator.Contracts.{AccessKind}
use agent_presentator.KeyDrafts.Tests.{vault}
use agent_presentator.SourceNames.{NewSourceDraft}
use agent_presentator.Refresh.Tests.{outside}
use agent_presentator.SourceUpkeep.Tests.{crypto, around, world}
use agent_presentator.SourceAdding.{add_source, check_connection}
use agent_presentator.SourceAdding.Rows.{AddSays, add_source-AddSays}
use agent_presentator.SourceAdding.Proofs.{is_unproven, Proves, add_source-proven}

-- The access of an address that starts with an h.
abbrev access_kind_of : String → Option AccessKind
access_kind_of String.[] = none
access_kind_of (String.◌∷◌ c text) = some AccessKind.https

abbrev typed : NewSourceDraft
typed = record {
  name = " more ";
  url = "https://host/more.git";
  access = "https";
  secret = "secret";
  fingerprint = "f00d";
  key_draft_id = "";
}

add_source-AddSays_example :
    AddSays outside vault crypto around access_kind_of typed "anna"
      (add_source outside vault crypto around access_kind_of false typed "anna" world).0
      world.sources
      (add_source outside vault crypto around access_kind_of false typed "anna" world).1.sources
add_source-AddSays_example =
    add_source-AddSays outside vault crypto around access_kind_of false typed "anna" world

checked :
    Proves
      (check_connection outside vault crypto around access_kind_of "https://host/more.git" "https"
        "secret" "anna" "" world)
      "f00d"
unfolding check_connection
checked = (refl, refl)

add_source-proven_example :
    is_unproven (add_source outside vault crypto around access_kind_of false typed "anna" world).0
    ≡ false
add_source-proven_example =
    add_source-proven outside vault crypto around access_kind_of false typed "anna" world world refl
      checked refl
