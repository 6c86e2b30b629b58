-- ===== src/SourceAdding/Rows.antt =====
-- What add_source leaves in the sources' table.
use agent_presentator.Base.{
  ℕ, ◌+◌, ◌≡◌, refl, String, str_eq, ◌||◌, Bool, true, false, Option, none, some, [], ◌∷◌, ◌++◌,
  any, find, Bool-cases, inl, inr,
}
use agent_presentator.Contracts.{Source, SourceWrite, AccessKind, DeployKeyDraft}
use agent_presentator.KeyDrafts.{Vault, Drafts, is_draft_of, draft_found, remove_draft}
use agent_presentator.SourceStore.{
  SourceRow, SourceTable, source_of, collides, add_row, row_of, inserted, add, promote,
  add_from_draft,
}
use agent_presentator.SourceNames.{SourceRefusal, NewSourceDraft, strip, is_kind}
use agent_presentator.Secrets.{Crypto, hash_webhook_secret}
use agent_presentator.Refresh.{Outside, World}
use agent_presentator.Refresh.Kept.{sources-refresh_named}
use agent_presentator.SourceUpkeep.{Around}
use agent_presentator.SourceAdding.{
  AddAnswer, Canonical, added_ref, deploy_key_for, write_of, store_write, settle, store_at,
  add_proven, add_with, add_keyed, add_allowed, add_source,
}

-- A row that a write makes: it collides with no row that was there.
abbrev pub Inserted : SourceWrite → Source → SourceTable → SourceTable → Type 0
Inserted write source before after =
    (row : SourceRow) × (after ≡ before ++ row ∷ [])
    × (source_of row ≡ source)
    × (row.hook_secret_hash ≡ some write.hook_secret_hash)
    × (row.name ≡ write.name)
    × (row.url ≡ write.url)
    × (row.owner_id ≡ write.owner_id)
    × (row.ref ≡ write.ref)
    × (any (collides row) before ≡ false)

-- What a store's answer says of its table.
abbrev pub StoreSays : SourceWrite → Option Source → SourceTable → SourceTable → Type 0
StoreSays write none before after = after ≡ before
StoreSays write (some source) before after = Inserted write source before after

inserted-StoreSays :
    (write : SourceWrite) (id encrypted : String) (key : Option String) (before : SourceTable)
    (drafts promoted : Drafts)
    → (let row = row_of id write encrypted key in
        let s = inserted row (add_row row before) before drafts promoted in
        StoreSays write s.stored before s.rows)
unfolding inserted add_row
inserted-StoreSays write id encrypted key before drafts promoted =
    let row : SourceRow = row_of id write encrypted key in
    elim (Bool-cases (any (collides row) before)) [
      | inl collision ↦ rw collision refl
      | inr fresh ↦ rw fresh (row, refl, refl, refl, refl, refl, refl, refl, fresh)
    ]

module _ (outside : Outside) (vault : Vault) (crypto : Crypto) (around : Around)
    (access_kind_of : String → Option AccessKind) where
  promote-StoreSays :
      (found : Option DeployKeyDraft) (write : SourceWrite) (draft_id : String) (n : ℕ)
      (table : SourceTable) (drafts : Drafts)
      → (let s = promote vault found write draft_id n table drafts in
          StoreSays write s.stored table s.rows)
  unfolding promote
  promote-StoreSays none write draft_id n table drafts = refl
  promote-StoreSays (some draft) write draft_id n table drafts =
      inserted-StoreSays write (vault.new_id n) (vault.encrypt (n + 1) draft.private_key)
        (some draft.public_key) table drafts (remove_draft draft_id drafts)

  store_write-StoreSays :
      (key : Option DeployKeyDraft) (write : SourceWrite) (draft_id : String) (w : World)
      → (let s = store_write outside vault crypto around access_kind_of key write draft_id w in
          StoreSays write s.stored w.sources s.rows)
  unfolding store_write add add_from_draft
  store_write-StoreSays none write draft_id w =
      inserted-StoreSays write (vault.new_id w.calls)
        (vault.encrypt (w.calls + 1) write.access_secret) write.public_key w.sources w.key_drafts
        w.key_drafts
  store_write-StoreSays (some key) write draft_id w =
      promote-StoreSays
        (draft_found vault (find (is_draft_of draft_id write.owner_id) w.key_drafts)) write draft_id
        w.calls w.sources w.key_drafts

  -- What an answer says of the sources' table before and after it.
  abbrev pub AddSays : NewSourceDraft → String → AddAnswer → SourceTable → SourceTable → Type 0
  AddSays draft owner_id (AddAnswer.added source token) before after =
      (row : SourceRow) × (after ≡ before ++ row ∷ [])
      × (source_of row ≡ source)
      × (row.name ≡ strip draft.name)
      × (row.owner_id ≡ owner_id)
      × (row.ref ≡ added_ref)
      × (row.hook_secret_hash ≡ some (hash_webhook_secret crypto token))
      × (any
            (λ (other : SourceRow).
              str_eq other.id row.id || (str_eq other.name row.name || str_eq other.url row.url))
            before
          ≡ false)
  AddSays draft owner_id (AddAnswer.refused reason) before after = after ≡ before
  AddSays draft owner_id AddAnswer.raised before after = after ≡ before

  settle-AddSays :
      (held : Bool) (draft : NewSourceDraft) (key : Option DeployKeyDraft)
      (owner_id url token : String) (stored : Option Source) (before : SourceTable) (w : World)
      → StoreSays
          (write_of outside vault crypto around access_kind_of draft key owner_id url token)
          stored
          before
          w.sources
      → (let a = settle outside vault crypto around access_kind_of held stored token w in
          AddSays draft owner_id a.0 before a.1.sources)
  unfolding settle
  settle-AddSays held draft key owner_id url token none before w says = says
  settle-AddSays held draft key owner_id url token (some source) before w says =
      rw (sources-refresh_named outside held source.name w)
        (says.0, says.1, says.2, says.4, says.6, says.7, says.3, says.8)

  store_at-AddSays :
      (held : Bool) (draft : NewSourceDraft) (key : Option DeployKeyDraft) (owner_id : String)
      (canonical : Canonical) (w : World)
      → (let a =
            store_at outside vault crypto around access_kind_of held draft key owner_id canonical
              w in
          AddSays draft owner_id a.0 w.sources a.1.sources)
  unfolding store_at
  store_at-AddSays held draft key owner_id (Canonical.refused reason) w = refl
  store_at-AddSays held draft key owner_id (Canonical.address url) w =
      let token = around.token w.calls in
      let asked : World = record w { calls = w.calls + 1 } in
      let write =
        write_of outside vault crypto around access_kind_of draft key owner_id url token in
      let s =
        store_write outside vault crypto around access_kind_of key write draft.key_draft_id asked in
      settle-AddSays held draft key owner_id url token s.stored w.sources
        (record w { sources = s.rows; key_drafts = s.drafts; calls = w.calls + 3 })
        (store_write-StoreSays key write draft.key_draft_id asked)

  add_proven-AddSays :
      (held : Bool) (draft : NewSourceDraft) (key : Option DeployKeyDraft) (owner_id : String)
      (proven : Option Bool) (w : World)
      → (let a =
            add_proven outside vault crypto around access_kind_of held draft key owner_id proven
              w in
          AddSays draft owner_id a.0 w.sources a.1.sources)
  unfolding add_proven
  add_proven-AddSays held draft key owner_id none w = refl
  add_proven-AddSays held draft key owner_id (some false) w = refl
  add_proven-AddSays held draft key owner_id (some true) w =
      store_at-AddSays held draft key owner_id _ (record w { calls = w.calls + 1 })

  add_keyed-AddSays :
      (held : Bool) (draft : NewSourceDraft) (key : Option DeployKeyDraft) (owner_id : String)
      (w : World)
      → (let a = add_keyed outside vault crypto around access_kind_of held draft key owner_id w in
          AddSays draft owner_id a.0 w.sources a.1.sources)
  unfolding add_keyed add_with
  add_keyed-AddSays held draft none owner_id w = refl
  add_keyed-AddSays held draft (some key) owner_id w =
      add_proven-AddSays held draft (some key) owner_id _ w

  add_allowed-AddSays :
      (held : Bool) (refusal : Option SourceRefusal) (draft : NewSourceDraft) (owner_id : String)
      (w : World)
      → (let a =
            add_allowed outside vault crypto around access_kind_of held refusal draft owner_id w in
          AddSays draft owner_id a.0 w.sources a.1.sources)
  unfolding add_allowed add_with
  add_allowed-AddSays held (some reason) draft owner_id w = refl
  add_allowed-AddSays held none draft owner_id w =
      elim (Bool-cases (is_kind AccessKind.ssh (access_kind_of (strip draft.url)))) [
        | inl ssh ↦ rw ssh (
            add_keyed-AddSays held draft
              (deploy_key_for outside vault owner_id draft.key_draft_id w) owner_id
              (record w { calls = w.calls + 1 }))
        | inr other ↦ rw other (add_proven-AddSays held draft none owner_id _ w)
      ]

  -- A source that was added is the one new row of the sources' table, also after its first refresh:
  -- it has the name that was typed, its blanks stripped, the owner who asked, the ref of an added source,
  -- the hash of the token that is returned, and no name, url or identifier that the table had. Any other answer leaves the
  -- table as it was.
  pub add_source-AddSays :
      (held : Bool) (draft : NewSourceDraft) (owner_id : String) (w : World)
      → AddSays draft owner_id
          (add_source outside vault crypto around access_kind_of held draft owner_id w).0
          w.sources
          (add_source outside vault crypto around access_kind_of held draft owner_id w).1.sources
  unfolding add_source
  add_source-AddSays held draft owner_id w = add_allowed-AddSays held _ draft owner_id w
