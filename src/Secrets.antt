-- ===== src/Secrets.antt =====
-- The hashes and proofs of src/presentator/application/decks.py. `Crypto` is what hashlib and hmac
-- answer, over bytes as lists of numbers.
use agent_presentator.Base.{
  ℕ, String, Bool, ◌&&◌, Option, none, some, List, [], ◌∷◌, ◌++◌, str_eq, ltb, if◌then◌else◌, all,
  codes,
}

pub record Crypto : Type 0 where
  -- `text.encode()`
  pub encode : String → List ℕ
  -- `sha256(bytes).digest()`
  pub sha256 : List ℕ → List ℕ
  -- `hmac.new(fingerprint_key, message, sha256).hexdigest()`, under the instance's key
  pub signed : List ℕ → String

-- `_ConnectionProof`
pub record ConnectionProof : Type 0 where
  pub owner_id : String
  pub draft_id : String
  pub public_key : String
  pub url : String
  pub ref : String
  pub secret : String

-- `compare_digest` on texts, or nothing where it raises TypeError: it takes ASCII texts only.
abbrev pub is_ascii : String → Bool
is_ascii text = all (λ c. ltb c 128) (codes text)

unfoldable pub compare_digest : String → String → Option Bool
compare_digest a b = if is_ascii a && is_ascii b then some (str_eq a b) else none

-- `_NO_HASH`
abbrev pub no_hash : List ℕ
no_hash =
    0 ∷ 0 ∷ 0 ∷ 0 ∷ 0 ∷ 0 ∷ 0 ∷ 0 ∷ 0 ∷ 0 ∷ 0 ∷ 0 ∷ 0 ∷ 0 ∷ 0 ∷ 0 ∷ 0 ∷ 0 ∷ 0 ∷ 0 ∷ 0 ∷ 0 ∷ 0 ∷ 0
    ∷ 0 ∷ 0 ∷ 0 ∷ 0 ∷ 0 ∷ 0 ∷ 0 ∷ 0 ∷ []

-- `b"\0".join`
abbrev pub join_zero : List (List ℕ) → List ℕ
join_zero [] = []
join_zero (part ∷ []) = part
join_zero (part ∷ next ∷ parts) = part ++ 0 ∷ join_zero (next ∷ parts)

module _ (crypto : Crypto) where
  -- `hash_webhook_secret`
  unfoldable pub hash_webhook_secret : String → List ℕ
  hash_webhook_secret secret = crypto.sha256 (crypto.encode secret)

  -- `_connection_fingerprint`
  unfoldable pub connection_fingerprint : ConnectionProof → String
  connection_fingerprint proof = crypto.signed (
      join_zero (
        crypto.encode proof.owner_id
        ∷ crypto.encode proof.draft_id
        ∷ crypto.encode proof.public_key
        ∷ crypto.encode proof.url
        ∷ crypto.encode proof.ref
        ∷ crypto.sha256 (crypto.encode proof.secret)
        ∷ []))
