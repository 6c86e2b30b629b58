-- ===== src/Wire/Answers.antt =====
-- What one end of the wire sends, as the other end reads it.
use agent_presentator.Base.{
  ℕ, ◌≤◌, ◌≡◌, refl, Bool, true, some, List, [], ◌∷◌, ◌++◌, length, arith, big_endian,
  of_big_endian-big_endian,
}
use agent_presentator.FolderName.{is_a_plain_folder_name}
use agent_presentator.Wire.{ok, Bytes, maximum_header_bytes, minimum_header_bytes}
use agent_presentator.Wire.Reading.{read_exactly-append}
use agent_presentator.Wire.Messages.{
  MessageKind, Json, StepHeader, Outcome, Request, number, kind_among, preamble, preamble_kind,
  send_message, read_message, is_allowed, send_step, send_outcome, read_request, read_outcome,
  request_of,
}

-- A header that a peer takes.
abbrev pub Fits : Bytes → Type 0
Fits header = (minimum_header_bytes ≤ length header) × (length header ≤ maximum_header_bytes)

module _ (chunk : ℕ → ℕ → ℕ) where
  read-send_message :
      (accepted : List MessageKind) (kind : MessageKind) (header rest : Bytes)
      → kind_among accepted (number kind) ≡ some kind
      → Fits header
      → (sent : Bytes) × (send_message kind header ≡ ok sent)
        × (read_message chunk accepted (sent ++ rest) ≡ ok ((kind, header), rest))
  unfolding send_message read_message preamble_kind
  read-send_message accepted kind header rest among fits = (
    preamble kind ++ big_endian 2 (length header) ++ header,
    ground arith,
    ground (
      arith,
      read_exactly-append chunk 5 (preamble kind) (big_endian 2 (length header) ++ (header ++ rest))
          refl,
      read_exactly-append chunk 2 (big_endian 2 (length header)) (header ++ rest) refl,
      of_big_endian-big_endian 2 (length header) (omega arith),
      read_exactly-append chunk (length header) header rest refl,
    ),
  )

  module _ (json : Json) (printable : ℕ → Bool) where
    -- A step that a client sends for a plain slug is read as that step by the worker, which leaves what
    -- follows it, if pydantic reads what it writes and the header fits.
    pub read_request-send_step :
        (step : StepHeader) (rest : Bytes)
        → json.read_step (json.write_step step) ≡ some step
        → is_a_plain_folder_name printable step.slug ≡ true
        → Fits (json.write_step step)
        → (sent : Bytes) × (send_step json step ≡ ok sent)
          × (read_request chunk json printable (sent ++ rest) ≡ ok (Request.step step, rest))
    unfolding read_request send_step request_of
    read_request-send_step step rest kept plain fits =
        let (sent, is_sent, is_read) =
          read-send_message (MessageKind.hello ∷ MessageKind.step ∷ []) MessageKind.step
            (json.write_step step) rest refl fits in
        (sent, is_sent, ground (arith, is_read))

    -- An outcome that the worker sends is the outcome that the client reads, which leaves what follows
    -- it, if pydantic reads what it writes, the header fits and the text is within its limit.
    pub read_outcome-send_outcome :
        (answer : Outcome) (rest : Bytes)
        → json.read_outcome (json.write_outcome answer) ≡ some answer
        → is_allowed answer ≡ true
        → Fits (json.write_outcome answer)
        → (sent : Bytes) × (send_outcome json answer ≡ ok sent)
          × (read_outcome chunk json printable (sent ++ rest) ≡ ok (answer, rest))
    unfolding read_outcome send_outcome
    read_outcome-send_outcome answer rest kept allowed fits =
        let (sent, is_sent, is_read) =
          read-send_message (MessageKind.outcome ∷ []) MessageKind.outcome
            (json.write_outcome answer) rest refl fits in
        (sent, is_sent, ground (arith, is_read))
