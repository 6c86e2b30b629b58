-- ===== src/SourceUpkeep/Tests.antt =====
-- A source that stands with one talk, and the theorems on its removal and its webhook.
use agent_presentator.Base.{◌≡◌, refl, true, false, none, some, [], ◌∷◌, codes}
use agent_presentator.DeckStore.Tests.{built_row}
use agent_presentator.SourceStore.{SourceRow, all_sources, source_of, hook_secret_hash_of}
use agent_presentator.Secrets.{Crypto}
use agent_presentator.Refresh.{World, named}
use agent_presentator.Refresh.Tests.{outside}
use agent_presentator.SourceUpkeep.{Around, renew_webhook, accept_hook}
use agent_presentator.SourceUpkeep.Hooks.{HookSays, accept_hook-renew_webhook, accept_hook-HookSays}

-- Hashes that keep what they are given.
abbrev pub crypto : Crypto
crypto = record { encode = codes; sha256 = λ bytes. bytes; signed = λ message. "f00d" }

abbrev pub around : Around
around = record {
  check = λ n url ref secret. record {
    failure = none;
    commit = some "c1c1c1c1";
    detail = none;
    fingerprint = none;
  };
  canonical_repository = λ n url. some url;
  forget = λ n source. true;
  remove_build = λ n directory. true;
  token = λ n. "token";
}

abbrev pub talks : SourceRow
talks = record {
  id = "s";
  name = "talks";
  url = "https://host/talks.git";
  ref = "main";
  encrypted_secret = "";
  hook_secret_hash = none;
  owner_id = "anna";
  ssh_public_key = none;
}

abbrev pub world : World
world = record {
  sources = talks ∷ [];
  key_drafts = [];
  decks = built_row ∷ record built_row { slug = "other"; source_id = "t" } ∷ [];
  runs = [];
  builds = [];
  calls = 0;
}

token_returned : (renew_webhook crypto around "talks" world).0 ≡ some "token"
unfolding renew_webhook named all_sources source_of
token_returned = refl

accept_hook-renew_webhook_example :
    (accept_hook crypto outside true "talks" "token"
      (renew_webhook crypto around "talks" world).1).0
    ≡ true
accept_hook-renew_webhook_example =
    accept_hook-renew_webhook crypto around outside true "talks" "token" world token_returned

accept_hook-HookSays_example :
    HookSays crypto around outside
      (accept_hook crypto outside false "talks" "guess" world).0
      false
      "talks"
      (hook_secret_hash_of "talks" world.sources)
      "guess"
      world
      (accept_hook crypto outside false "talks" "guess" world).1
accept_hook-HookSays_example =
    accept_hook-HookSays crypto around outside false "talks" "guess" world
