-- ===== src/BuildClient/Tests.antt =====
-- The client's theorems at a small talk, and a worker that comes up late.
use agent_presentator.Base.{
  ℕ, ◌+◌, ◌≡◌, inr, refl, Bool, true, false, Option, none, some, List, [], ◌∷◌, ◌++◌, arith, ltb,
  if◌then◌else◌,
}
use agent_presentator.Wire.{ok, Bytes, pdf_name, talk_name}
use agent_presentator.Wire.Messages.{StepKind, RefusalLimit, send_outcome}
use agent_presentator.Wire.Trees.{special, Children, no_children, child, TreeEntry, tree}
use agent_presentator.Wire.Survey.{Judgement, check_step_tree, refused_outcome, send_tree_reply}
use agent_presentator.Wire.Sent.{end_bytes}
use agent_presentator.Wire.Tests.{
  one_by_one, all_at_once, small_json, deck, deck-passes, talk, talk-AreNamed,
}
use agent_presentator.BuildClient.{PageText, answer}
use agent_presentator.BuildClient.Replies.{
  Explains, answer-send_tree_reply, answer-send_tree_reply_refused,
}
use agent_presentator.BuildClient.Exchange.{
  IsLeft, exchange_with_worker, exchange_with_worker-IsLeft,
}
use agent_presentator.BuildClient.Socket.{
  Attempt, FileType, Status, Seen, Called, Sight, socket_directory_mode, socket_permissions,
  what_is_wrong, attempt_once,
}
use agent_presentator.BuildClient.Trusted.{IsWorkers, attempt_once-IsWorkers}
use agent_presentator.BuildClient.Toolchain.{Remains, ran, ran-Remains}
use agent_presentator.BuildClient.Opening.{Opening, opened_within, opened_within-opens}

abbrev pub printable : ℕ → Bool
printable b = true

-- A disk that shows the talk.
abbrev pub shows_talk : List TreeEntry → Children
shows_talk entries = talk

abbrev pub linked : Children
linked = child talk_name special no_children

pub talk-passes : check_step_tree talk StepKind.build 1 ≡ Judgement.within
unfolding check_step_tree
talk-passes = refl

linked-broken : check_step_tree linked StepKind.build 1 ≡ Judgement.outside RefusalLimit.shape none
unfolding check_step_tree
linked-broken = refl

answer-send_tree_reply_example :
    (sent : Bytes) × (send_tree_reply one_by_one small_json talk StepKind.build 1 ≡ ok sent)
    × (answer all_at_once small_json printable shows_talk StepKind.build 1 sent (pdf_name ∷ [])
        ≡ (ok none, talk_name ∷ pdf_name ∷ []))
answer-send_tree_reply_example =
    answer-send_tree_reply one_by_one all_at_once small_json printable shows_talk StepKind.build 1
      (omega arith) talk (pdf_name ∷ []) talk-AreNamed talk-passes refl (omega arith, omega arith)
      refl refl

answer-send_tree_reply_refused_example :
    (front : Bytes) × (text : PageText) × (send_outcome small_json
        (refused_outcome RefusalLimit.shape none)
      ≡ ok front)
    × (send_tree_reply one_by_one small_json linked StepKind.build 1 ≡ ok (front ++ end_bytes 0 0))
    × (answer all_at_once small_json printable shows_talk StepKind.build 1
          (front ++ end_bytes 0 0)
          []
        ≡ (ok (some (record { text = some text })), []))
    × Explains 1 (tree none linked).entries RefusalLimit.shape text
answer-send_tree_reply_refused_example =
    answer-send_tree_reply_refused one_by_one all_at_once small_json printable shows_talk
      StepKind.build 1 (omega arith) linked [] RefusalLimit.shape none linked-broken refl
      (omega arith, omega arith)

-- A worker that only hands back a broken preamble.
abbrev pub babbles : Bytes → Option Bytes
babbles sent = some (80 ∷ 66 ∷ sent)

exchange_with_worker-IsLeft_example :
    IsLeft StepKind.build true
      (record { staging = false; out = pdf_name ∷ [] })
      (exchange_with_worker one_by_one small_json printable shows_talk true babbles deck
        StepKind.build 1
        (record { staging = false; out = pdf_name ∷ [] }))
exchange_with_worker-IsLeft_example =
    exchange_with_worker-IsLeft one_by_one small_json printable shows_talk StepKind.build 1 true
      babbles deck (record { staging = false; out = pdf_name ∷ [] }) (omega arith) deck-passes

-- Up at 900 milliseconds; an attempt takes one.
abbrev pub late : ℕ → Attempt × ℕ
late now = (if ltb now 900 then Attempt.not_yet else Attempt.opened, now + 1)

-- A sleep takes two milliseconds more.
abbrev pub overslept : ℕ → ℕ → ℕ
overslept now wait = now + wait + 2

opened_within-opens_example :
    (t : ℕ) × (opened_within late overslept 70000 4000 250 0 ≡ Opening.stands t)
opened_within-opens_example =
    opened_within-opens late overslept 70000 4000 900 1 2 (omega arith)
      (λ t d. (omega arith, omega arith)) (λ t. omega arith) (λ t h k. ground arith)
      (λ t h. inr (ground arith, omega arith)) (omega arith) 250 0 (omega arith) (omega arith)
      (omega arith)

-- A worker of uid 100 and a web in group 200.
abbrev pub their_socket : Status
their_socket = record {
  file_type = FileType.is_socket;
  mode = socket_permissions;
  uid = 100;
  gid = 100;
}

abbrev pub their_directory : Status
their_directory = record {
  file_type = FileType.is_directory;
  mode = socket_directory_mode;
  uid = 100;
  gid = 200;
}

abbrev pub their_sight : Sight
their_sight = record {
  socket = Seen.found their_socket;
  permitted = Seen.interrupted;
  directory = Seen.found their_directory;
  connected = Called.answers;
  peer_uid = 100;
  sent = Called.answers;
  begun = Called.answers;
}

their_sight-opened : attempt_once 100 200 true their_sight ≡ Attempt.opened
unfolding attempt_once what_is_wrong
their_sight-opened = refl

attempt_once-IsWorkers_example :
    (socket : Status) × (directory : Status) × (Seen.found their_socket ≡ Seen.found socket)
    × (Seen.found their_directory ≡ Seen.found directory)
    × IsWorkers 100 200 directory socket 100
    × (Called.answers ≡ Called.answers)
    × (Called.answers ≡ Called.answers)
attempt_once-IsWorkers_example = attempt_once-IsWorkers 100 200 true their_sight their_sight-opened

ran-Remains_example :
    Remains one_by_one small_json printable shows_talk StepKind.build 1 true
      (record { staging = false; out = pdf_name ∷ [] })
      (ran one_by_one small_json printable shows_talk StepKind.build 1 true
        (opened_within late overslept 70000 4000 250 0)
        (80 ∷ 66 ∷ [])
        babbles
        (some deck)
        (record { staging = false; out = pdf_name ∷ [] }))
ran-Remains_example =
    ran-Remains one_by_one small_json printable shows_talk StepKind.build 1 late overslept 70000
      4000 250 0 true (80 ∷ 66 ∷ []) babbles (some deck)
      (record { staging = false; out = pdf_name ∷ [] }) (omega arith) (omega arith)
      (λ t d. omega arith) (λ t. omega arith) (omega arith)
