-- ===== src/SourceNames.antt =====
-- The checks of what a person typed toward a new source: `_SOURCE_NAME`, `_access_matches_url` and
-- `_refusal_for` of src/presentator/application/decks.py, and `str.strip`. `access_kind_of` is the
-- access that an address names.
use Prim.Native.Char.{code}
use agent_presentator.Base.{
  ℕ, String, Bool, true, false, not, ◌&&◌, ◌||◌, Option, none, some, List, [], ◌∷◌, str_eq, leb,
  ◌==◌, if◌then◌else◌, any, all, length, codes,
}
use agent_presentator.Contracts.{Source, AccessKind}

-- `str.isspace` of one character
abbrev pub is_space : ℕ → Bool
is_space c =
    any (λ s. c == s) (32 ∷ 133 ∷ 160 ∷ 5760 ∷ 8232 ∷ 8233 ∷ 8239 ∷ 8287 ∷ 12288 ∷ [])
    || ((leb 9 c && leb c 13) || ((leb 28 c && leb c 31) || (leb 8192 c && leb c 8202)))

abbrev pub left_strip : String → String
left_strip String.[] = String.[]
left_strip (String.◌∷◌ c text) =
    let rest = left_strip text in if is_space (code c) then rest else String.◌∷◌ c text

abbrev pub right_strip : String → String
right_strip String.[] = String.[]
right_strip (String.◌∷◌ c text) =
    let rest = right_strip text in
    if is_space (code c) && str_eq rest "" then "" else String.◌∷◌ c rest

-- `text.strip()`
unfoldable pub strip : String → String
strip text = left_strip (right_strip text)

-- `not text.strip()`
abbrev pub is_blank : String → Bool
is_blank text = str_eq (strip text) ""

abbrev pub is_lower_or_digit : ℕ → Bool
is_lower_or_digit c = (leb 97 c && leb c 122) || (leb 48 c && leb c 57)

-- `_SOURCE_NAME.fullmatch`
abbrev pub is_name : List ℕ → Bool
is_name [] = false
is_name (c ∷ rest) =
    is_lower_or_digit c && (all (λ d. is_lower_or_digit d || d == 45) rest && leb (length rest) 63)

-- SourceRefusal
pub data SourceRefusal : Type 0 where
  malformed_name duplicate_name duplicate_url : SourceRefusal
  access_mismatch blank_access not_checked : SourceRefusal
  credential_not_allowed outside_mount deploy_key_unavailable : SourceRefusal

-- NewSourceDraft
pub record NewSourceDraft : Type 0 where
  pub name : String
  pub url : String
  pub access : String
  pub secret : String
  pub fingerprint : String
  pub key_draft_id : String

-- `_EXPECTED_ACCESS_KIND.get`
abbrev pub expected_access_kind : String → Option AccessKind
expected_access_kind access =
    if str_eq access "https"
    then some AccessKind.https
    else if str_eq access "ssh"
    then some AccessKind.ssh
    else if str_eq access "file"
    then some AccessKind.file
    else none

abbrev pub is_kind : AccessKind → Option AccessKind → Bool
is_kind AccessKind.https (some AccessKind.https) = true
is_kind AccessKind.ssh (some AccessKind.ssh) = true
is_kind AccessKind.file (some AccessKind.file) = true
is_kind kind found = false

abbrev pub matches : Option AccessKind → Option AccessKind → Bool
matches none found = false
matches (some expected) found = is_kind expected found

-- `next((reason for matched, reason in checks if matched), None)`
abbrev pub first_matched : List (Bool × SourceRefusal) → Option SourceRefusal
first_matched [] = none
first_matched ((matched, reason) ∷ checks) = if matched then some reason else first_matched checks

module _ (access_kind_of : String → Option AccessKind) where
  -- `_access_matches_url`
  unfoldable pub access_matches_url : String → String → Bool
  access_matches_url access url = matches (expected_access_kind access) (access_kind_of url)

  -- `_refusal_for`
  unfoldable pub refusal_for : NewSourceDraft → String → String → List Source → Option SourceRefusal
  unfolding access_matches_url strip
  refusal_for draft name url existing = first_matched (
      (str_eq name "new" || not (is_name (codes name)), SourceRefusal.malformed_name)
      ∷ (not (access_matches_url draft.access url), SourceRefusal.access_mismatch)
      ∷ (str_eq draft.access "https" && is_blank draft.secret, SourceRefusal.blank_access)
      ∷ (
        (str_eq draft.access "file" || str_eq draft.access "ssh") && not (is_blank draft.secret),
        SourceRefusal.credential_not_allowed,
      )
      ∷ (any (λ (source : Source). str_eq source.name name) existing, SourceRefusal.duplicate_name)
      ∷ (any (λ (source : Source). str_eq source.url url) existing, SourceRefusal.duplicate_url)
      ∷ [])
