-- ===== src/BuildClient/Socket.antt =====
-- Whether what answers on the socket is the worker: `what_is_wrong`, `fault_of`, `_refused_deck`, and
-- `_attempt` with what it calls.
use agent_presentator.Base.{
  ℕ, Bool, true, false, Option, none, some, List, [], ◌∷◌, if◌then◌else◌, ◌==◌, ◌&&◌,
}
use agent_presentator.Wire.{maximum_entries}
use agent_presentator.Wire.Messages.{RefusalLimit}
use agent_presentator.Wire.Trees.{Children}
use agent_presentator.Wire.Survey.{Judgement, check_upload}
use agent_presentator.BuildClient.{PageText, PageFailure}

-- Fault, SocketFault
pub data Fault : Type 0 where
  not_the_worker deadline connection reply_grammar step_contract local : Fault

pub data SocketFault : Type 0 where
  directory_owner directory_mode directory_group socket_type socket_owner socket_mode peer :
      SocketFault

-- An exception, as `fault_of` tells them apart.
pub data Error : Type 0 where
  not_the_worker_error : SocketFault → Error
  wire_refused tree_refused_error timeout connection_error other_error : Error

-- `fault_of`
unfoldable pub fault_of : Error → Fault
fault_of (Error.not_the_worker_error cause) = Fault.not_the_worker
fault_of Error.wire_refused = Fault.reply_grammar
fault_of Error.tree_refused_error = Fault.step_contract
fault_of Error.timeout = Fault.deadline
fault_of Error.connection_error = Fault.connection
fault_of Error.other_error = Fault.local

-- What `lstat` tells: the type of the file, the permission bits, and who owns it.
pub data FileType : Type 0 where
  is_directory is_socket is_other : FileType

pub record Status : Type 0 where
  pub file_type : FileType
  pub mode : ℕ
  pub uid : ℕ
  pub gid : ℕ

abbrev pub is_a_directory : FileType → Bool
is_a_directory FileType.is_directory = true
is_a_directory other = false

abbrev pub is_a_socket : FileType → Bool
is_a_socket FileType.is_socket = true
is_a_socket other = false

-- SOCKET_DIRECTORY_MODE and SOCKET_MODE of src/presentator/adapters/build_wire.py, 0o750 and 0o660
abbrev pub socket_directory_mode : ℕ
socket_directory_mode = 488

abbrev pub socket_permissions : ℕ
socket_permissions = 432

abbrev pub is_peer : Option ℕ → ℕ → Bool
is_peer none uid = true
is_peer (some other) uid = other == uid

-- `next((cause for cause, holds in checks if not holds), None)`
abbrev pub first_fault : List (SocketFault × Bool) → Option SocketFault
first_fault [] = none
first_fault ((cause, holds) ∷ checks) = if holds then first_fault checks else some cause

-- The checks of `what_is_wrong`, in order.
abbrev pub checks_of : Status → Status → Option ℕ → ℕ → ℕ → List (SocketFault × Bool)
checks_of directory socket_status peer_uid uid gid =
    (SocketFault.directory_owner, directory.uid == uid)
    ∷ (
      SocketFault.directory_mode,
      is_a_directory directory.file_type && directory.mode == socket_directory_mode,
    )
    ∷ (SocketFault.directory_group, directory.gid == gid)
    ∷ (SocketFault.socket_type, is_a_socket socket_status.file_type)
    ∷ (SocketFault.socket_owner, socket_status.uid == uid)
    ∷ (SocketFault.socket_mode, socket_status.mode == socket_permissions)
    ∷ (SocketFault.peer, is_peer peer_uid uid)
    ∷ []

-- `what_is_wrong`
unfoldable pub what_is_wrong : Status → Status → Option ℕ → ℕ → ℕ → Option SocketFault
what_is_wrong directory socket_status peer_uid uid gid =
    first_fault (checks_of directory socket_status peer_uid uid gid)

-- `_refused_deck`, where reading the deck does not fail
abbrev pub deck_text : RefusalLimit → ℕ → PageText
deck_text RefusalLimit.shape megabytes = PageText.deck_paths
deck_text other megabytes = PageText.deck_size megabytes maximum_entries

abbrev pub deck_refusal : Judgement → ℕ → Option PageFailure
deck_refusal Judgement.within megabytes = none
deck_refusal (Judgement.outside limit written) megabytes =
    some (record { text = some (deck_text limit megabytes) })

unfoldable pub refused_deck : Children → ℕ → Option PageFailure
unfolding check_upload
refused_deck deck megabytes = deck_refusal (check_upload deck megabytes) megabytes

-- What an attempt to open the socket comes to; `_NotYetError` is `not_yet`.
pub data Attempt : Type 0 where
  opened not_yet : Attempt
  fails : Error → Attempt

-- What `lstat` of the socket and of its directory, `connect` and the first exchange come to: a call that
-- is interrupted is one that FileNotFoundError, ConnectionRefusedError, ConnectionResetError or
-- BrokenPipeError ends.
pub data Seen : Type 0 where
  found : Status → Seen
  interrupted not_permitted : Seen
  unreadable : Error → Seen

pub data Called : Type 0 where
  answers closes breaks : Called
  errs : Error → Called

-- What the operating system answers to an attempt, in the order of its calls; `permitted` is the
-- second `lstat` of `_socket_status`, after a PermissionError.
pub record Sight : Type 0 where
  pub socket : Seen
  pub permitted : Seen
  pub directory : Seen
  pub connected : Called
  pub peer_uid : ℕ
  pub sent : Called
  pub begun : Called

-- `_judged`, and what follows it
abbrev pub judged : Option SocketFault → Attempt → Attempt
judged none next = next
judged (some cause) next = Attempt.fails (Error.not_the_worker_error cause)

abbrev pub after_lstat : Seen → (Status → Attempt) → Attempt
after_lstat (Seen.found status) next = next status
after_lstat Seen.interrupted next = Attempt.not_yet
after_lstat Seen.not_permitted next = Attempt.fails Error.other_error
after_lstat (Seen.unreadable error) next = Attempt.fails error

-- A close is `_NotYetError` where the first byte of the reply is awaited, and no answer elsewhere.
abbrev pub after_call : Called → Attempt → Attempt
after_call Called.answers next = next
after_call Called.closes next = Attempt.not_yet
after_call Called.breaks next = Attempt.not_yet
after_call (Called.errs error) next = Attempt.fails error

module _ (expected_uid expected_gid : ℕ) where
  -- The PermissionError branch of `_socket_status`.
  abbrev pub not_searchable : Bool → Seen → Attempt
  not_searchable false parent = Attempt.fails Error.other_error
  not_searchable true parent = after_lstat parent (λ status.
      if status.uid == expected_uid
      then Attempt.not_yet
      else Attempt.fails (Error.not_the_worker_error SocketFault.directory_owner))

  -- `_socket_status`
  abbrev pub looked : Bool → Seen → (Status → Attempt) → Seen → Attempt
  looked at_start permitted next Seen.not_permitted = not_searchable at_start permitted
  looked at_start permitted next other = after_lstat other next

  -- `_attempt` once both are seen, and once the socket is
  abbrev pub after_directory : Sight → Status → Status → Attempt
  after_directory sight socket directory =
      judged (what_is_wrong directory socket none expected_uid expected_gid) (
        after_call sight.connected (
          judged (what_is_wrong directory socket (some sight.peer_uid) expected_uid expected_gid)
            (after_call sight.sent (after_call sight.begun Attempt.opened))))

  abbrev pub after_socket : Sight → Status → Attempt
  after_socket sight socket =
      after_lstat sight.directory (λ directory. after_directory sight socket directory)

  -- `_attempt`
  unfoldable pub attempt_once : Bool → Sight → Attempt
  attempt_once at_start sight =
      looked at_start sight.permitted (λ socket. after_socket sight socket) sight.socket
