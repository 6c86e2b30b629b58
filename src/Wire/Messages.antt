-- ===== src/Wire/Messages.antt =====
-- Messages: a preamble, the length of a header and the header. `Json` is what pydantic reads and writes;
-- a text is the list of its code points.
use agent_presentator.Base.{
  ℕ, String, Bool, true, ◌&&◌, Option, none, some, List, [], ◌∷◌, ◌++◌, leb, ltb, ◌==◌,
  if◌then◌else◌, length, bytes_eq, big_endian, of_big_endian,
}
use agent_presentator.Base.Int.{ℤ}
use agent_presentator.FolderName.{is_a_plain_folder_name}
use agent_presentator.Wire.{
  Result, ok, refused, raised, ◌>>=◌, ◌>>◌, ensure, Bytes, magic, version, minimum_header_bytes,
  maximum_header_bytes,
}
use agent_presentator.Wire.Reading.{read_exactly}

-- StepKind of src/presentator/contracts/decks.py
pub data StepKind : Type 0 where
  build export : StepKind

-- MessageKind, and its numbers
pub data MessageKind : Type 0 where
  hello step status outcome : MessageKind

abbrev pub number : MessageKind → ℕ
number MessageKind.hello = 1
number MessageKind.step = 2
number MessageKind.status = 3
number MessageKind.outcome = 5

pub record StepHeader : Type 0 where
  pub step : StepKind
  pub slug : String

pub data RefusalLimit : Type 0 where
  shape entries megabytes : RefusalLimit

-- Outcome: BuiltOutcome, RefusedOutcome, FailedOutcome
pub data Outcome : Type 0 where
  built : Outcome
  refusal : RefusalLimit → Option ℤ → Outcome
  failed : Option (List ℕ) → Outcome

pub record Json : Type 0 where
  pub is_empty_object : Bytes → Bool
  pub read_step : Bytes → Option StepHeader
  pub write_step : StepHeader → Bytes
  pub read_outcome : Bytes → Option Outcome
  pub write_outcome : Outcome → Bytes

-- FAILURE_TEXT_LIMIT of src/presentator/contracts/decks.py
abbrev pub failure_text_limit : ℕ
failure_text_limit = 2000

-- `StringConstraints(max_length=FAILURE_TEXT_LIMIT)`
abbrev pub is_allowed : Outcome → Bool
is_allowed (Outcome.failed (some text)) = leb (length text) failure_text_limit
is_allowed other = true

-- A header that does not validate refuses the message.
abbrev pub validated {ℓ} : {A : Type ℓ} → (A → Bool) → Option A → Result A
validated p none = refused
validated p (some header) = if p header then ok header else refused

-- `_HEADER_MODELS[kind]`, and `_send_message`'s argument
pub data Request : Type 0 where
  hello : Request
  step : StepHeader → Request

-- `MessageKind(number)` among the accepted ones
abbrev pub kind_among : List MessageKind → ℕ → Option MessageKind
kind_among [] n = none
kind_among (kind ∷ accepted) n = if number kind == n then some kind else kind_among accepted n

abbrev pub known {ℓ} : {A : Type ℓ} → Option A → Result A
known none = refused
known (some kind) = ok kind

-- `_preamble`
abbrev pub preamble : MessageKind → Bytes
preamble kind = magic ++ version ∷ number kind ∷ []

-- The preamble that was read: MAGIC and VERSION, then the number of an accepted kind.
unfoldable pub preamble_kind : List MessageKind → Bytes → Result MessageKind
preamble_kind accepted (m ∷ a ∷ g ∷ v ∷ n ∷ []) =
    if bytes_eq (m ∷ a ∷ g ∷ v ∷ []) (magic ++ version ∷ [])
    then known (kind_among accepted n)
    else refused
preamble_kind accepted other = refused

-- `_send_message`: what `sendall` hands to the connection
unfoldable pub send_message : MessageKind → Bytes → Result Bytes
send_message kind header =
    if ltb (length header) 65536
    then ok (preamble kind ++ big_endian 2 (length header) ++ header)
    else raised

-- `send_hello`, `send_status`
abbrev pub empty_object : Bytes
empty_object = 123 ∷ 125 ∷ []

unfoldable pub send_hello : Result Bytes
unfolding send_message
send_hello = send_message MessageKind.hello empty_object

unfoldable pub send_status : Result Bytes
unfolding send_message
send_status = send_message MessageKind.status empty_object

module _ (chunk : ℕ → ℕ → ℕ) where
  -- `_read_message`
  unfoldable pub read_message : List MessageKind → Bytes → Result ((MessageKind × Bytes) × Bytes)
  unfolding preamble_kind
  read_message accepted bytes = do
    (front, after) ← read_exactly chunk 5 bytes
    kind ← preamble_kind accepted front
    (size, after') ← read_exactly chunk 2 after
    ensure (
        leb minimum_header_bytes (of_big_endian 0 size)
        && leb (of_big_endian 0 size) maximum_header_bytes)
    (header, rest) ← read_exactly chunk (of_big_endian 0 size) after'
    ok ((kind, header), rest)

  module _ (json : Json) (printable : ℕ → Bool) where
    -- StepHeader's validation
    abbrev pub is_plain : StepHeader → Bool
    is_plain header = is_a_plain_folder_name printable header.slug

    unfoldable pub request_of : MessageKind → Bytes → Result Request
    unfolding is_a_plain_folder_name
    request_of MessageKind.hello header =
        if json.is_empty_object header then ok Request.hello else refused
    request_of MessageKind.step header =
        validated is_plain (json.read_step header) >>= λ step. ok (Request.step step)
    request_of other header = refused

    -- `read_request`
    unfoldable pub read_request : Bytes → Result (Request × Bytes)
    unfolding read_message request_of
    read_request bytes = do
      ((kind, header), rest) ← read_message (MessageKind.hello ∷ MessageKind.step ∷ []) bytes
      request ← request_of kind header
      ok (request, rest)

    -- `read_status`
    unfoldable pub read_status : Bytes → Result Bytes
    unfolding read_message
    read_status bytes = do
      ((kind, header), rest) ← read_message (MessageKind.status ∷ []) bytes
      ensure (json.is_empty_object header)
      ok rest

    -- `read_outcome`
    unfoldable pub read_outcome : Bytes → Result (Outcome × Bytes)
    unfolding read_message
    read_outcome bytes = do
      ((kind, header), rest) ← read_message (MessageKind.outcome ∷ []) bytes
      answer ← validated is_allowed (json.read_outcome header)
      ok (answer, rest)

module _ (json : Json) where
  -- `send_step`, over `encode_record`
  unfoldable pub send_step : StepHeader → Result Bytes
  unfolding send_message
  send_step header = send_message MessageKind.step (json.write_step header)

  -- `send_outcome`
  unfoldable pub send_outcome : Outcome → Result Bytes
  unfolding send_message
  send_outcome answer = send_message MessageKind.outcome (json.write_outcome answer)
