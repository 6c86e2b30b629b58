-- ===== src/SourceUpkeep/Hooks.antt =====
-- The webhook of a source: renew_webhook and accept_hook.
use agent_presentator.Base.{
  bytes_eq_refl, bytes_eq→eq, ℕ, ◌≡◌, ◌≢◌, refl, ap, sym, ◌∙◌, String, Bool, true, false, Option,
  none, some, List, [], ◌∷◌, str_eq, arith, Bool-cases, inl, inr,
}
use agent_presentator.Contracts.{Source}
use agent_presentator.SourceStore.{
  SourceTable, all_sources, source_of, hook_secret_hash_of, hash_found, put_hook_secret_hash,
}
use agent_presentator.Secrets.{Crypto, hash_webhook_secret}
use agent_presentator.Refresh.{Outside, World, named, refresh_named}
use agent_presentator.SourceUpkeep.{
  Around, is_accepted, answered, accept_hook, renew_webhook, renew_webhook_found,
}

-- After a hash is put under a name that the table has, it is what stands under the name.
hash-put_hash :
    (name : String) (digest : List ℕ) (table : SourceTable) (source : Source)
    → named name (all_sources table) ≡ some source
    → hook_secret_hash_of name (put_hook_secret_hash name digest table).1 ≡ some digest
unfolding named all_sources source_of hook_secret_hash_of put_hook_secret_hash hash_found
hash-put_hash name digest [] source e = absurd (ground arith)
hash-put_hash name digest (row ∷ table) source e = elim (Bool-cases (str_eq row.name name)) [
  | inl same ↦ ground arith
  | inr other ↦ ground (arith, hash-put_hash name digest table source)
]

module _ (crypto : Crypto) (around : Around) (outside : Outside) where
  is_accepted-itself :
      (secret : String)
      → is_accepted crypto outside (some (hash_webhook_secret crypto secret)) secret ≡ true
  is_accepted-itself secret = ground (arith, bytes_eq_refl (hash_webhook_secret crypto secret))

  answered_first :
      (accepted held : Bool) (name : String) (w : World)
      → (answered crypto outside accepted held name w).0 ≡ accepted
  unfolding answered
  answered_first true held name w = refl
  answered_first false held name w = refl

  accepted_after :
      (held : Bool) (name secret : String) (w : World)
      → hook_secret_hash_of name w.sources ≡ some (hash_webhook_secret crypto secret)
      → (accept_hook crypto outside held name secret w).0 ≡ true
  unfolding accept_hook
  accepted_after held name secret w e =
      answered_first (is_accepted crypto outside (hook_secret_hash_of name w.sources) secret) held
        name w
      ∙ rw e (is_accepted-itself secret)

  renewed :
      (found : Option Source) (held : Bool) (name secret : String) (w : World)
      → named name (all_sources w.sources) ≡ found
      → (renew_webhook_found crypto around found name w).0 ≡ some secret
      → (accept_hook crypto outside held name secret
          (renew_webhook_found crypto around found name w).1).0
        ≡ true
  unfolding renew_webhook_found
  renewed none held name secret w e f = absurd (ground arith)
  renewed (some source) held name secret w e f =
      let is_token : around.token w.calls ≡ secret = ground arith in
      accepted_after held name secret (renew_webhook_found crypto around (some source) name w).1 (
        hash-put_hash name (hash_webhook_secret crypto (around.token w.calls)) w.sources source e
        ∙ ap (λ token. some (hash_webhook_secret crypto token)) is_token)

  -- The secret that renewing a webhook returned is accepted, whether or not a refresh is running.
  pub accept_hook-renew_webhook :
      (held : Bool) (name secret : String) (w : World)
      → (renew_webhook crypto around name w).0 ≡ some secret
      → (accept_hook crypto outside held name secret (renew_webhook crypto around name w).1).0
        ≡ true
  unfolding renew_webhook
  accept_hook-renew_webhook held name secret w e =
      renewed (named name (all_sources w.sources)) held name secret w refl e

  -- What an answer of the hook says: an accepted secret hashes to what is stored under the name
  -- and starts its refresh; a refused one does not, and changes nothing.
  abbrev pub HookSays : Bool → Bool → String → Option (List ℕ) → String → World → World → Type 0
  HookSays true held name stored offered w after =
      (stored ≡ some (hash_webhook_secret crypto offered))
      × (after ≡ (refresh_named outside held name w).1)
  HookSays false held name stored offered w after =
      (stored ≢ some (hash_webhook_secret crypto offered)) × (after ≡ w)

  answered-HookSays :
      (accepted held : Bool) (stored : Option (List ℕ)) (name offered : String) (w : World)
      → is_accepted crypto outside stored offered ≡ accepted
      → HookSays
          (answered crypto outside accepted held name w).0
          held
          name
          stored
          offered
          w
          (answered crypto outside accepted held name w).1
  unfolding answered
  answered-HookSays true held none name offered w e = absurd (ground arith)
  answered-HookSays true held (some digest) name offered w e = (
    ap (λ bytes. some bytes)
        (sym (bytes_eq→eq (hash_webhook_secret crypto offered) digest (ground arith))),
    refl,
  )
  answered-HookSays false held stored name offered w e =
      (λ is_hash. absurd (ground (arith, is_accepted-itself offered, is_hash)), refl)

  -- A hook is accepted exactly when the offered secret hashes to what is stored under the name; an
  -- unknown name and a source without a webhook accept nothing. An accepted hook does
  -- what a refresh of that source does, and a refusal changes nothing.
  pub accept_hook-HookSays :
      (held : Bool) (name offered : String) (w : World)
      → HookSays
          (accept_hook crypto outside held name offered w).0
          held
          name
          (hook_secret_hash_of name w.sources)
          offered
          w
          (accept_hook crypto outside held name offered w).1
  unfolding accept_hook
  accept_hook-HookSays held name offered w =
      answered-HookSays _ held (hook_secret_hash_of name w.sources) name offered w refl
