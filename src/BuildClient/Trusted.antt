-- ===== src/BuildClient/Trusted.antt =====
-- Which sockets `_attempt` opens.
use agent_presentator.Base.{
  ℕ, ◌≡◌, ◌≢◌, refl, Bool, true, false, Option, none, some, List, [], ◌∷◌, arith, All,
}
use agent_presentator.BuildClient.Socket.{
  SocketFault, Status, is_a_directory, is_a_socket, first_fault, checks_of, what_is_wrong,
  socket_directory_mode, socket_permissions, Attempt, Seen, Called, Sight, judged, after_lstat,
  after_call, not_searchable, looked, after_directory, after_socket, attempt_once,
}

-- The worker's own socket, in the directory that the worker shares with the web's group.
abbrev pub IsWorkers : ℕ → ℕ → Status → Status → ℕ → Type 0
IsWorkers uid gid directory socket peer_uid =
    (directory.uid ≡ uid)
    × (is_a_directory directory.file_type ≡ true)
    × (directory.mode ≡ socket_directory_mode)
    × (directory.gid ≡ gid)
    × (is_a_socket socket.file_type ≡ true)
    × (socket.uid ≡ uid)
    × (socket.mode ≡ socket_permissions)
    × (peer_uid ≡ uid)

first_fault-none :
    (checks : List (SocketFault × Bool))
    → first_fault checks ≡ none
    → All (λ (check : SocketFault × Bool). check.1 ≡ true) checks
first_fault-none [] e = tt
first_fault-none ((cause, true) ∷ checks) e = (refl, first_fault-none checks e)
first_fault-none ((cause, false) ∷ checks) e = absurd (ground arith)

what_is_wrong-none :
    (directory socket : Status) (peer_uid uid gid : ℕ)
    → what_is_wrong directory socket (some peer_uid) uid gid ≡ none
    → IsWorkers uid gid directory socket peer_uid
unfolding what_is_wrong
what_is_wrong-none directory socket peer_uid uid gid e =
    let (owned, (directory_mode, (group, (socket_type, (socket_owner, (mode, (peers, rest))))))) =
      first_fault-none (checks_of directory socket (some peer_uid) uid gid) e in
    (
      ground (arith, owned),
      ground (arith, directory_mode),
      ground (arith, directory_mode),
      ground (arith, group),
      socket_type,
      ground (arith, socket_owner),
      ground (arith, mode),
      ground (arith, peers),
    )

after_call-opened :
    (called : Called) (next : Attempt)
    → after_call called next ≡ Attempt.opened
    → (called ≡ Called.answers) × (next ≡ Attempt.opened)
after_call-opened Called.answers next e = (refl, e)
after_call-opened Called.closes next e = absurd (ground arith)
after_call-opened Called.breaks next e = absurd (ground arith)
after_call-opened (Called.errs error) next e = absurd (ground arith)

judged-opened :
    (cause : Option SocketFault) (next : Attempt)
    → judged cause next ≡ Attempt.opened
    → (cause ≡ none) × (next ≡ Attempt.opened)
judged-opened none next e = (refl, e)
judged-opened (some cause) next e = absurd (ground arith)

after_lstat-opened :
    (seen : Seen) (next : Status → Attempt)
    → after_lstat seen next ≡ Attempt.opened
    → (status : Status) × (seen ≡ Seen.found status) × (next status ≡ Attempt.opened)
after_lstat-opened (Seen.found status) next e = (status, refl, e)
after_lstat-opened Seen.interrupted next e = absurd (ground arith)
after_lstat-opened Seen.not_permitted next e = absurd (ground arith)
after_lstat-opened (Seen.unreadable error) next e = absurd (ground arith)

module _ (uid gid : ℕ) where
  not_searchable-opened :
      (at_start : Bool) (parent : Seen) → not_searchable uid gid at_start parent ≢ Attempt.opened
  not_searchable-opened false parent e = absurd (ground arith)
  not_searchable-opened true (Seen.found status) e = absurd (ground arith)
  not_searchable-opened true Seen.interrupted e = absurd (ground arith)
  not_searchable-opened true Seen.not_permitted e = absurd (ground arith)
  not_searchable-opened true (Seen.unreadable error) e = absurd (ground arith)

  looked-opened :
      (at_start : Bool) (seen permitted : Seen) (next : Status → Attempt)
      → looked uid gid at_start permitted next seen ≡ Attempt.opened
      → (status : Status) × (seen ≡ Seen.found status) × (next status ≡ Attempt.opened)
  looked-opened at_start (Seen.found status) permitted next e = (status, refl, e)
  looked-opened at_start Seen.interrupted permitted next e = absurd (ground arith)
  looked-opened at_start Seen.not_permitted permitted next e =
      absurd (not_searchable-opened at_start permitted e)
  looked-opened at_start (Seen.unreadable error) permitted next e = absurd (ground arith)

  -- A connection is opened only to a socket that is the worker's, in a directory that is the worker's and
  -- shared with the web's group, each with exactly its mode, and whose peer runs as the worker; the first
  -- message was sent over it, and the peer has begun to answer.
  pub attempt_once-IsWorkers :
      (at_start : Bool) (sight : Sight)
      → attempt_once uid gid at_start sight ≡ Attempt.opened
      → (socket : Status) × (directory : Status) × (sight.socket ≡ Seen.found socket)
        × (sight.directory ≡ Seen.found directory)
        × IsWorkers uid gid directory socket sight.peer_uid
        × (sight.sent ≡ Called.answers)
        × (sight.begun ≡ Called.answers)
  unfolding attempt_once
  attempt_once-IsWorkers at_start sight e =
      let (socket, is_socket, seen) =
        looked-opened at_start sight.socket sight.permitted
          (λ status. after_socket uid gid sight status) e in
      let (directory, is_directory, first_judged) =
        after_lstat-opened sight.directory (λ d. after_directory uid gid sight socket d) seen in
      let after = after_call sight.sent (after_call sight.begun Attempt.opened) in
      let second = judged (what_is_wrong directory socket (some sight.peer_uid) uid gid) after in
      let (fine, called) =
        judged-opened (what_is_wrong directory socket none uid gid)
          (after_call sight.connected second) first_judged in
      let (connected, second_judged) = after_call-opened sight.connected second called in
      let (right, sending) =
        judged-opened (what_is_wrong directory socket (some sight.peer_uid) uid gid) after
          second_judged in
      let (sent, beginning) =
        after_call-opened sight.sent (after_call sight.begun Attempt.opened) sending in
      let (begun, done) = after_call-opened sight.begun Attempt.opened beginning in
      (
        socket,
        directory,
        is_socket,
        is_directory,
        what_is_wrong-none directory socket sight.peer_uid uid gid right,
        sent,
        begun,
      )
