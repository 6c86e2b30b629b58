-- ===== src/SourceAdding/Proofs.antt =====
-- The proof that check_connection hands out and add_source asks for.
use agent_presentator.Base.{
  ℕ, ◌+◌, ◌≡◌, refl, sym, ◌∙◌, String, Bool, true, false, Option, none, some, List, str_eq, arith,
  eq_iff, Bool-cases, inl, inr,
}
use agent_presentator.Contracts.{
  Source, AccessKind, DeployKeyDraft, ConnectionCheckResult, SourceRunFailure,
}
use agent_presentator.KeyDrafts.{Vault}
use agent_presentator.SourceStore.{all_sources}
use agent_presentator.SourceNames.{
  SourceRefusal, NewSourceDraft, strip, is_kind, matches, expected_access_kind, access_matches_url,
  refusal_for,
}
use agent_presentator.Secrets.{
  Crypto, ConnectionProof, is_ascii, compare_digest, connection_fingerprint,
}
use agent_presentator.Refresh.{Outside, World}
use agent_presentator.SourceUpkeep.{Around}
use agent_presentator.SourceAdding.{
  CheckAnswer, AddAnswer, Canonical, proof_of, deploy_key_for, probed, probe_draft,
  check_connection, local_address, canonical_address, settle, store_at, add_proven, add_with,
  add_keyed, add_allowed, add_source,
}

-- The answers that find the proof wanting.
abbrev pub is_unproven : AddAnswer → Bool
is_unproven (AddAnswer.added source token) = false
is_unproven (AddAnswer.refused SourceRefusal.not_checked) = true
is_unproven (AddAnswer.refused SourceRefusal.deploy_key_unavailable) = true
is_unproven (AddAnswer.refused reason) = false
is_unproven AddAnswer.raised = true

-- What a check answers once its probe went through.
abbrev pub Proves : CheckAnswer → String → Type 0
Proves (CheckAnswer.checked result) fingerprint =
    (result.failure ≡ none) × (result.fingerprint ≡ some fingerprint)
Proves (CheckAnswer.refused reason) fingerprint = ⊥

module _ (outside : Outside) (vault : Vault) (crypto : Crypto) (around : Around)
    (access_kind_of : String → Option AccessKind) where
  refusal_for-proven :
      (draft : NewSourceDraft) (name url : String) (existing : List Source) (reason : SourceRefusal)
      → refusal_for access_kind_of draft name url existing ≡ some reason
      → is_unproven (AddAnswer.refused reason) ≡ false
  unfolding refusal_for
  refusal_for-proven draft name url existing reason e = ground arith

  local_address-proven :
      (found : Option String) (existing : List Source) (reason : SourceRefusal)
      → local_address outside vault crypto around access_kind_of found existing
        ≡ Canonical.refused reason
      → is_unproven (AddAnswer.refused reason) ≡ false
  unfolding local_address
  local_address-proven none existing reason e = ground arith
  local_address-proven (some normalized) existing reason e = ground arith

  canonical_address-proven :
      (url : String) (existing : List Source) (n : ℕ) (reason : SourceRefusal)
      → canonical_address outside vault crypto around access_kind_of url existing n
        ≡ Canonical.refused reason
      → is_unproven (AddAnswer.refused reason) ≡ false
  unfolding canonical_address
  canonical_address-proven url existing n reason e =
      elim (Bool-cases (is_kind AccessKind.file (access_kind_of url))) [
        | inl local ↦
            local_address-proven (around.canonical_repository n url) existing reason (rw local at e)
        | inr remote ↦ absurd (ground arith)
      ]

  settle-proven :
      (held : Bool) (stored : Option Source) (token : String) (w : World)
      → is_unproven (settle outside vault crypto around access_kind_of held stored token w).0
        ≡ false
  unfolding settle
  settle-proven held none token w = refl
  settle-proven held (some source) token w = refl

  store_at-proven :
      (held : Bool) (draft : NewSourceDraft) (key : Option DeployKeyDraft) (owner_id : String)
      (canonical : Canonical) (w : World)
      → ((reason : SourceRefusal)
          → canonical ≡ Canonical.refused reason
          → is_unproven (AddAnswer.refused reason) ≡ false)
      → is_unproven
          (store_at outside vault crypto around access_kind_of held draft key owner_id canonical
            w).0
        ≡ false
  unfolding store_at
  store_at-proven held draft key owner_id (Canonical.refused reason) w h = h reason refl
  store_at-proven held draft key owner_id (Canonical.address url) w h = settle-proven held _ _ _

  -- The fingerprint of the values themselves passes.
  add_with-proven :
      (held : Bool) (draft : NewSourceDraft) (key : Option DeployKeyDraft) (owner_id : String)
      (w : World)
      → draft.fingerprint
        ≡ connection_fingerprint crypto (proof_of key owner_id (strip draft.url) draft.secret)
      → is_ascii draft.fingerprint ≡ true
      → is_unproven
          (add_with outside vault crypto around access_kind_of held draft key owner_id w).0
        ≡ false
  unfolding add_with add_proven
  add_with-proven held draft key owner_id w e ascii =
      let same : compare_digest draft.fingerprint
            (connection_fingerprint crypto (proof_of key owner_id (strip draft.url) draft.secret))
          ≡ some true =
        rw (← e)
          (unfold compare_digest in (ground (arith, eq_iff draft.fingerprint draft.fingerprint))) in
      rw same (
        store_at-proven held draft key owner_id _ (record w { calls = w.calls + 1 })
          (canonical_address-proven (strip draft.url) (all_sources w.sources) w.calls))

  probed-fingerprint :
      (failure : Option SourceRunFailure) (result : ConnectionCheckResult) (proof : ConnectionProof)
      (fingerprint : String)
      → failure ≡ result.failure
      → (let answer = probed outside vault crypto around access_kind_of failure result proof in
          answer.failure ≡ none
          → answer.fingerprint ≡ some fingerprint
          → fingerprint ≡ connection_fingerprint crypto proof)
  unfolding probed
  probed-fingerprint none result proof fingerprint same ok is_print = ground arith
  probed-fingerprint (some failure) result proof fingerprint same ok is_print =
      absurd (ground arith)

  expected_ssh :
      (access : String)
      → str_eq access "ssh" ≡ true
      → expected_access_kind access ≡ some AccessKind.ssh
  expected_ssh access e = rw ((eq_iff access "ssh").0 e) refl

  other_kind :
      (access : String) (kind : Option AccessKind)
      → str_eq access "ssh" ≡ false
      → matches (expected_access_kind access) kind ≡ true
      → is_kind AccessKind.ssh kind ≡ false
  other_kind access none other m = refl
  other_kind access (some AccessKind.https) other m = refl
  other_kind access (some AccessKind.ssh) other m = absurd (ground arith)
  other_kind access (some AccessKind.file) other m = refl

  -- An access that matches its address is SSH exactly when the address is.
  ssh-access :
      (access url : String)
      → access_matches_url access_kind_of access url ≡ true
      → str_eq access "ssh" ≡ is_kind AccessKind.ssh (access_kind_of url)
  unfolding access_matches_url
  ssh-access access url m = elim (Bool-cases (str_eq access "ssh")) [
    | inl ssh ↦
        let by_kind : is_kind AccessKind.ssh (access_kind_of url) ≡ true =
          rw (expected_ssh access ssh) at m in
        ssh ∙ sym by_kind
    | inr other ↦ other ∙ sym (other_kind access (access_kind_of url) other m)
  ]

  add_keyed-proven :
      (held : Bool) (draft : NewSourceDraft) (found : Option DeployKeyDraft) (owner_id : String)
      (n : ℕ) (w : World)
      → (let answer =
            probe_draft outside vault crypto around access_kind_of found owner_id
              (strip draft.url)
              draft.secret
              n in
          answer.failure ≡ none
          → answer.fingerprint ≡ some draft.fingerprint
          → is_ascii draft.fingerprint ≡ true
          → is_unproven
              (add_keyed outside vault crypto around access_kind_of held draft found owner_id w).0
            ≡ false)
  unfolding probe_draft add_keyed
  add_keyed-proven held draft none owner_id n w ok is_print ascii = absurd (ground arith)
  add_keyed-proven held draft (some key) owner_id n w ok is_print ascii =
      let result = around.check n (strip draft.url) "main" key.private_key in
      add_with-proven held draft (some key) owner_id w
        (probed-fingerprint result.failure result
          (proof_of (some key) owner_id (strip draft.url) draft.secret) draft.fingerprint refl ok
          is_print)
        ascii

  add_allowed-proven :
      (held : Bool) (draft : NewSourceDraft) (owner_id : String) (before w : World)
      → deploy_key_for outside vault owner_id draft.key_draft_id w
        ≡ deploy_key_for outside vault owner_id draft.key_draft_id before
      → Proves
          (check_connection outside vault crypto around access_kind_of draft.url draft.access
            draft.secret owner_id draft.key_draft_id before)
          draft.fingerprint
      → is_ascii draft.fingerprint ≡ true
      → is_unproven
          (add_allowed outside vault crypto around access_kind_of held none draft owner_id w).0
        ≡ false
  unfolding add_allowed check_connection
  add_allowed-proven held draft owner_id before w same proves ascii =
      elim (Bool-cases (access_matches_url access_kind_of draft.access (strip draft.url))) [
        | inr apart ↦ absurd (rw apart at proves)
        | inl m ↦ elim (Bool-cases (str_eq draft.access "ssh")) [
          | inl ssh ↦
              let kind : is_kind AccessKind.ssh (access_kind_of (strip draft.url)) ≡ true =
                sym (ssh-access draft.access (strip draft.url) m) ∙ ssh in
              let (ok, is_print) = rw (m, ssh) at proves in
              rw (kind, same)
                (add_keyed-proven held draft
                  (deploy_key_for outside vault owner_id draft.key_draft_id before) owner_id
                  (before.calls + 1) (record w { calls = w.calls + 1 }) ok is_print ascii)
          | inr other ↦
              let kind : is_kind AccessKind.ssh (access_kind_of (strip draft.url)) ≡ false =
                sym (ssh-access draft.access (strip draft.url) m) ∙ other in
              let (ok, is_print) = rw (m, other) at proves in
              let result = around.check before.calls (strip draft.url) "main" draft.secret in
              rw kind (
                add_with-proven held draft none owner_id w
                  (probed-fingerprint result.failure result
                    (proof_of none owner_id (strip draft.url) draft.secret) draft.fingerprint refl
                    ok is_print)
                  ascii)
        ]
      ]

  -- A fingerprint that a check of the same values handed out, and that is ASCII as a hexdigest is, is
  -- enough for add_source, as long as the owner's draft key is the one that the check saw: the answer
  -- is neither that nothing was checked, nor that the key is unavailable, nor an error.
  pub add_source-proven :
      (held : Bool) (draft : NewSourceDraft) (owner_id : String) (before w : World)
      → deploy_key_for outside vault owner_id draft.key_draft_id w
        ≡ deploy_key_for outside vault owner_id draft.key_draft_id before
      → Proves
          (check_connection outside vault crypto around access_kind_of draft.url draft.access
            draft.secret owner_id draft.key_draft_id before)
          draft.fingerprint
      → is_ascii draft.fingerprint ≡ true
      → is_unproven (add_source outside vault crypto around access_kind_of held draft owner_id w).0
        ≡ false
  unfolding add_source add_allowed
  add_source-proven held draft owner_id before w same proves ascii =
      by_refusal
        (refusal_for access_kind_of draft (strip draft.name) (strip draft.url)
          (all_sources w.sources))
        refl
    where
      by_refusal :
          (refusal : Option SourceRefusal)
          → refusal_for access_kind_of draft
              (strip draft.name)
              (strip draft.url)
              (all_sources w.sources)
            ≡ refusal
          → is_unproven
              (add_allowed outside vault crypto around access_kind_of held refusal draft owner_id
                w).0
            ≡ false
      by_refusal none e = add_allowed-proven held draft owner_id before w same proves ascii
      by_refusal (some reason) e =
          refusal_for-proven draft (strip draft.name) (strip draft.url) (all_sources w.sources)
            reason e
