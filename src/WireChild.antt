-- ===== src/WireChild.antt =====
-- The wire child of src/presentator/host/worker_wire.py: its three roles over one connection, and the
-- tail of a step's errors that it answers with.
pub mod Life
pub mod Tests
use agent_presentator.Base.{
  ℕ, ◌-◌, ◌≡◌, Bool, Option, none, some, List, [], ◌∷◌, ◌++◌, length, drop, is_empty, if◌then◌else◌,
}
use agent_presentator.Wire.{
  Result, ok, refused, tree_refused, os_error, raised, stuck, ◌>>=◌, ◌>>◌, Bytes,
}
use agent_presentator.Wire.Messages.{
  StepKind, StepHeader, Request, Json, failure_text_limit, send_status, read_request,
}
use agent_presentator.Wire.Suffix.{last, send_failed}
use agent_presentator.Wire.Trees.{TreeEntry, Children}
use agent_presentator.Wire.Sending.{send_end}
use agent_presentator.Wire.Receiving.{receive_entries}
use agent_presentator.Wire.Survey.{send_tree_reply}
use agent_presentator.Wire.Record.{write_record, read_record}

-- WireExit, ReplyPlan
pub data WireExit : Type 0 where
  closed answered accepted uploaded sent : WireExit

pub data ReplyPlan : Type 0 where
  walk failed_text failed_null : ReplyPlan

-- FAILURE_TAIL_BYTES of src/presentator/contracts/decks.py
abbrev pub failure_tail_bytes : ℕ
failure_tail_bytes = 8000

-- `bounded_failure`, `failure_text`; `decoded` is bytes.decode with errors replaced, and str.strip
abbrev pub bounded_failure : List ℕ → List ℕ
bounded_failure said = last failure_text_limit said

abbrev pub said_text : (Bytes → List ℕ) → Bytes → List ℕ
said_text decoded said = bounded_failure (decoded said)

-- `failure_text(tail) or None`
abbrev pub unless_empty : List ℕ → Option (List ℕ)
unless_empty [] = none
unless_empty (c ∷ text) = some (c ∷ text)

-- `_step_text`, over the bytes of the step's stderr file
unfoldable pub step_text : (Bytes → List ℕ) → Bytes → Option (List ℕ)
step_text decoded errors = unless_empty (said_text decoded (last failure_tail_bytes errors))

-- What a role comes to: its exit, what it sent, the record file, and what it wrote of an upload.
pub record Ran : Type 0 where
  pub exit : WireExit
  pub answer : Bytes
  pub file : Bytes
  pub entries : List TreeEntry

module _ (chunk : ℕ → ℕ → ℕ) (json : Json) (printable : ℕ → Bool) where
  abbrev pub serve : Request → Bytes → Result Ran
  serve Request.hello file = do
    status ← send_status
    ok (record { exit = WireExit.answered; answer = status; file = file; entries = [] })
  serve (Request.step header) file = do
    file' ← write_record chunk json header file
    ok (record { exit = WireExit.accepted; answer = []; file = file'; entries = [] })

  -- `_idle`
  unfoldable pub idle : Bytes → Bytes → Result Ran
  unfolding read_request write_record send_status
  idle file bytes = do (request, rest) ← read_request chunk json printable bytes; serve request file

  -- `_upload`
  unfoldable pub upload : ℕ → Bytes → Bytes → Result Ran
  unfolding read_record send_status receive_entries
  upload megabytes file bytes = do
    header ← read_record json printable file
    status ← send_status
    (entries, rest) ← receive_entries chunk megabytes bytes
    ok (record { exit = WireExit.uploaded; answer = status; file = file; entries = entries })

  -- `_send_walked`
  unfoldable pub send_walked : ℕ → Bytes → Children → Result Bytes
  unfolding read_record send_tree_reply
  send_walked megabytes file output = do
    header ← read_record json printable file
    send_tree_reply chunk json output header.step megabytes

  -- The failed replies of `_send`.
  unfoldable pub send_failure : Option (List ℕ) → Result Bytes
  unfolding send_failed send_end
  send_failure text = do front ← send_failed json text; end ← send_end 0 0; ok (front ++ end)

  abbrev pub planned :
      (Bytes → List ℕ) → ℕ → Bytes → Children → Bytes → Option ReplyPlan → Result Bytes
  planned decoded megabytes file output errors none = refused
  planned decoded megabytes file output errors (some ReplyPlan.walk) =
      send_walked megabytes file output
  planned decoded megabytes file output errors (some ReplyPlan.failed_text) =
      send_failure (step_text decoded errors)
  planned decoded megabytes file output errors (some ReplyPlan.failed_null) = send_failure none

  -- `_send`
  unfoldable pub send :
      (Bytes → List ℕ) → ℕ → Bytes → Children → Bytes → Option ReplyPlan → Result Ran
  unfolding send_walked send_failure step_text
  send decoded megabytes file output errors plan = do
    reply ← planned decoded megabytes file output errors plan
    ok (record { exit = WireExit.sent; answer = reply; file = file; entries = [] })

-- `main`: what its `except (WireRefusedError, OSError)` makes of a role
unfoldable pub exit_of : Result Ran → Result WireExit
exit_of (ok ran) = ok ran.exit
exit_of refused = ok WireExit.closed
exit_of os_error = ok WireExit.closed
exit_of tree_refused = tree_refused
exit_of raised = raised
exit_of stuck = stuck
