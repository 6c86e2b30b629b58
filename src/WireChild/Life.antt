-- ===== src/WireChild/Life.antt =====
-- One life of the worker and its client: a step is accepted, its deck uploaded, its output replied.
use agent_presentator.Base.{
  ℕ, ◌*◌, ◌<◌, ◌≡◌, refl, ap, sym, ◌∙◌, Bool, true, false, none, some, List, [], ◌∷◌, any,
  append-nil, bytes_eq, byte_range,
}
use agent_presentator.FolderName.{is_a_plain_folder_name}
use agent_presentator.Wire.{ok, Bytes, megabyte, scratch_name}
use agent_presentator.Wire.Messages.{
  StepHeader, Request, Outcome, Json, send_status, send_step, read_request,
}
use agent_presentator.Wire.Answers.{Fits, read_request-send_step}
use agent_presentator.Wire.Trees.{TreeEntry, Children, tree}
use agent_presentator.Wire.Sending.{send_tree}
use agent_presentator.Wire.Receiving.{receive_entries}
use agent_presentator.Wire.Survey.{Judgement, check_upload, check_step_tree}
use agent_presentator.Wire.Walks.{AreNamed}
use agent_presentator.Wire.RoundTrip.{sent_bytes, receive_entries-send_tree}
use agent_presentator.Wire.Record.{read_record, write_record-empty, read_record_lem}
use agent_presentator.BuildClient.{admitted_name, answer}
use agent_presentator.BuildClient.Replies.{answer-send_tree_reply}
use agent_presentator.WireChild.{WireExit, ReplyPlan, Ran, idle, upload, send, send_walked}

-- What pydantic and the step's header have to do with each other.
abbrev pub IsKept : Json → (ℕ → Bool) → StepHeader → Type 0
IsKept json printable header =
    (json.read_step (json.write_step header) ≡ some header)
    × (is_a_plain_folder_name printable header.slug ≡ true)
    × Fits (json.write_step header)
    × (json.read_outcome (json.write_outcome Outcome.built) ≡ some Outcome.built)
    × Fits (json.write_outcome Outcome.built)

module _ (worker client : ℕ → ℕ → ℕ) (json : Json) (printable : ℕ → Bool)
    (listed : List TreeEntry → Children) (megabytes : ℕ)
    (bounded : megabytes * megabyte < byte_range 8) (header : StepHeader)
    (kept : IsKept json printable header) where
  idle-send_step :
      (sent : Bytes) × (send_step json header ≡ ok sent)
      × (idle worker json printable [] sent
          ≡ ok (record {
            exit = WireExit.accepted;
            answer = [];
            file = json.write_step header;
            entries = [];
          }))
  unfolding idle
  idle-send_step =
      let (sent, is_sent, is_read) =
        read_request-send_step worker json printable header [] kept.0 kept.1 kept.2 in
      let read : read_request worker json printable sent ≡ ok (Request.step header, []) =
        ap (read_request worker json printable) (sym (append-nil sent)) ∙ is_read in
      (sent, is_sent, rw (read, write_record-empty worker json header) refl)

  recorded : read_record json printable (json.write_step header) ≡ ok header
  recorded = read_record_lem json printable header kept.2.1 kept.0 kept.1

  upload-send_tree :
      (deck : Children)
      → AreNamed deck
      → check_upload deck megabytes ≡ Judgement.within
      → (status : Bytes) × (send_status ≡ ok status)
        × (upload worker json printable megabytes (json.write_step header) (sent_bytes deck)
            ≡ ok (record {
              exit = WireExit.uploaded;
              answer = status;
              file = json.write_step header;
              entries = (tree (some scratch_name) deck).entries;
            }))
  unfolding upload send_status
  upload-send_tree deck named passed =
      let received : receive_entries worker megabytes (sent_bytes deck)
          ≡ ok ((tree (some scratch_name) deck).entries, []) =
        ap (receive_entries worker megabytes) (sym (append-nil (sent_bytes deck)))
        ∙ (receive_entries-send_tree client worker megabytes bounded deck [] named passed).1 in
      (_, refl, rw (recorded, received) refl)

  send-answer :
      (decoded : Bytes → List ℕ) (output : Children) (errors : Bytes) (out : List Bytes)
      → AreNamed output
      → check_step_tree output header.step megabytes ≡ Judgement.within
      → tree none (listed (tree none output).entries) ≡ tree none output
      → any (λ other. bytes_eq other (admitted_name header.step)) out ≡ false
      → (ran : Ran) × (send worker json printable decoded megabytes
            (json.write_step header)
            output
            errors
            (some ReplyPlan.walk)
          ≡ ok ran)
        × (ran.exit ≡ WireExit.sent)
        × (answer client json printable listed header.step megabytes ran.answer out
            ≡ (ok none, admitted_name header.step ∷ out))
  unfolding send send_walked
  send-answer decoded output errors out named passed shown absent =
      let (sent, is_sent, is_taken) =
        answer-send_tree_reply worker client json printable listed header.step megabytes bounded
          output out named passed kept.3 kept.4 shown absent in
      (
        record { exit = WireExit.sent; answer = sent; file = json.write_step header; entries = [] },
        rw (recorded, is_sent) refl,
        refl,
        is_taken,
      )

  -- One life of a worker, whatever the two ends' connections and disks take at a time: the step that the
  -- client sends is accepted and its record kept; the deck that the client uploads after it, where
  -- `check_upload` passes it, is written entry for entry; and an output within the step's contract and the
  -- same budget is replied so that the client admits the step's entry into out/, where it was not. It is
  -- assumed that the slug is plain, that pydantic reads the headers it writes and that they fit, and that
  -- a walk over what was written yields what was written.
  pub life-builds :
      (decoded : Bytes → List ℕ) (deck output : Children) (errors : Bytes) (out : List Bytes)
      → AreNamed deck
      → AreNamed output
      → check_upload deck megabytes ≡ Judgement.within
      → check_step_tree output header.step megabytes ≡ Judgement.within
      → tree none (listed (tree none output).entries) ≡ tree none output
      → any (λ other. bytes_eq other (admitted_name header.step)) out ≡ false
      → (step : Bytes) × (upload_bytes : Bytes) × (first : Ran) × (second : Ran) × (third : Ran)
        × (send_step json header ≡ ok step)
        × (idle worker json printable [] step ≡ ok first)
        × (first.exit ≡ WireExit.accepted)
        × (send_tree client (some scratch_name) deck ≡ ok upload_bytes)
        × (upload worker json printable megabytes first.file upload_bytes ≡ ok second)
        × (second.entries ≡ (tree (some scratch_name) deck).entries)
        × (send worker json printable decoded megabytes second.file output errors
              (some ReplyPlan.walk)
            ≡ ok third)
        × (answer client json printable listed header.step megabytes third.answer out
            ≡ (ok none, admitted_name header.step ∷ out))
  life-builds decoded deck output errors out deck_named output_named passed within shown absent =
      let (step, is_step, accepted) = idle-send_step in
      let (status, is_status, is_uploaded) = upload-send_tree deck deck_named passed in
      let (third, is_sent, exit, is_taken) =
        send-answer decoded output errors out output_named within shown absent in
      (
        step,
        sent_bytes deck,
        _,
        _,
        third,
        is_step,
        accepted,
        refl,
        (receive_entries-send_tree client worker megabytes bounded deck [] deck_named passed).0,
        is_uploaded,
        refl,
        is_sent,
        is_taken,
      )
