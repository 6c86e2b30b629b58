-- ===== src/BuildClient/Replies.antt =====
-- The worker's `send_tree_reply` and the client's `_answer` to it.
use agent_presentator.Base.{
  ℕ, suc, ◌+◌, ◌-◌, ◌*◌, ◌/◌, ◌<◌, ◌≡◌, refl, sym, ap, subst, ◌∙◌, Bool, true, false, not, Option,
  none, some, List, [], if◌then◌else◌, ltb, ◌==◌, ◌∷◌, ◌++◌, any, is_none, bytes_eq, length, arith,
  byte_range, append-nil,
}
use agent_presentator.Base.Int.{ℤ, pos}
use agent_presentator.Wire.{ok, Bytes, maximum_entries, megabyte}
use agent_presentator.Wire.Reading.{read_exactly-append}
use agent_presentator.Wire.Messages.{StepKind, RefusalLimit, Outcome, Json, send_outcome}
use agent_presentator.Wire.Answers.{Fits, read_outcome-send_outcome}
use agent_presentator.Wire.Trees.{TreeEntry, Children, tree, size_of}
use agent_presentator.Wire.Receiving.{receive_entries, read_empty_end}
use agent_presentator.Wire.Survey.{
  Judgement, bad_shape, breaks, is_missing, judge_size, survey_loop, survey, check_step_tree,
  refused_outcome, reply, send_tree_reply,
}
use agent_presentator.Wire.Carrying.{total_size, encoded_all}
use agent_presentator.Wire.Walks.{AreNamed}
use agent_presentator.Wire.Judged.{survey-IsWithin, Keeps-HasNoScratch}
use agent_presentator.Wire.Sent.{end_bytes}
use agent_presentator.Wire.RoundTrip.{send_tree_lem, receive_entries-tree}
use agent_presentator.BuildClient.{
  PageText, same, is_megabytes, limit_text, refusal_text, nothing_follows, admitted_name, admitted,
  staged_reply, failure_text, answer_to, answer,
}

-- A reply's tree on the wire.
abbrev pub reply_bytes : Children → Bytes
reply_bytes root =
    let entries = (tree none root).entries in
    encoded_all entries ++ end_bytes (length entries) (total_size entries)

-- What a walk of so many entries, of so many bytes, has to do with a limit that refuses it.
abbrev Outside : ℕ → ℕ → ℕ → RefusalLimit → Option ℕ → Type 0
Outside megabytes count total RefusalLimit.shape written = written ≡ none
Outside megabytes count total RefusalLimit.entries written =
    (written ≡ none) × (maximum_entries < count)
Outside megabytes count total RefusalLimit.megabytes written =
    (written ≡ some ((total + megabyte - 1) / megabyte)) × (megabytes * megabyte < total)

abbrev IsOutside : ℕ → ℕ → ℕ → Judgement → Type 0
IsOutside megabytes count total Judgement.within = Unit
IsOutside megabytes count total (Judgement.outside limit written) =
    Outside megabytes count total limit written

-- The text that a page shows for a limit that the entries break.
abbrev pub Explains : ℕ → List TreeEntry → RefusalLimit → PageText → Type 0
Explains megabytes entries RefusalLimit.shape text = text ≡ PageText.output_shape
Explains megabytes entries RefusalLimit.entries text =
    (text ≡ PageText.too_many maximum_entries) × (maximum_entries < length entries)
Explains megabytes entries RefusalLimit.megabytes text =
    (text
      ≡ PageText.too_much (some (pos ((total_size entries + megabyte - 1) / megabyte))) megabytes)
    × (megabytes * megabyte < total_size entries)

IsOutside-if :
    (megabytes count total : ℕ) (b : Bool) (m n : Judgement)
    → (b ≡ true → IsOutside megabytes count total m)
    → (b ≡ false → IsOutside megabytes count total n)
    → IsOutside megabytes count total (if b then m else n)
IsOutside-if megabytes count total true m n h k = h refl
IsOutside-if megabytes count total false m n h k = k refl

module _ (contract : Option StepKind) (megabytes : ℕ) where
  judge_size-IsOutside :
      (count total : ℕ)
      → IsOutside megabytes count total (judge_size megabytes contract count total)
  unfolding judge_size
  judge_size-IsOutside count total =
      IsOutside-if megabytes count total (is_missing contract count) bad_shape _ (λ missing. refl)
        (λ there.
          IsOutside-if megabytes count total (ltb (megabytes * megabyte) total) _ Judgement.within
            (λ above. (refl, ground arith)) (λ below. tt))

  survey_loop-IsOutside :
      (entries : List TreeEntry) (ends : Bool) (count total : ℕ)
      → IsOutside megabytes
          (count + length entries)
          (total + total_size entries)
          (survey_loop megabytes contract entries ends count total)
  unfolding survey_loop
  survey_loop-IsOutside [] true count total =
      let few : count + 0 ≡ count = omega arith in
      let small : total + 0 ≡ total = omega arith in
      rw (few, small) (judge_size-IsOutside count total)
  survey_loop-IsOutside [] false count total = refl
  survey_loop-IsOutside (entry ∷ entries) ends count total =
      let few : count + suc (length entries) ≡ count + 1 + length entries = omega arith in
      let small : total + (size_of entry + total_size entries)
          ≡ total + size_of entry + total_size entries =
        omega arith in
      let n = count + suc (length entries) in
      let bytes = total + (size_of entry + total_size entries) in
      IsOutside-if megabytes n bytes (count == maximum_entries) _ _ (λ full. (refl, ground arith))
        (λ room.
          IsOutside-if megabytes n bytes (breaks contract count entry) bad_shape _ (λ broken. refl)
            (λ meets.
              rw (few, small)
                (survey_loop-IsOutside entries ends (count + 1) (total + size_of entry))))

  walk_judged :
      (entries : List TreeEntry) (ends : Bool)
      → IsOutside megabytes
          (length entries)
          (total_size entries)
          (survey_loop megabytes contract entries ends 0 0)
  walk_judged entries ends =
      let few : 0 + length entries ≡ length entries = omega arith in
      let small : 0 + total_size entries ≡ total_size entries = omega arith in
      rw (few, small) at (survey_loop-IsOutside entries ends 0 0)

-- What is asked of the refusal's outcome, and the text that comes of it.
abbrev Explained : ℕ → List TreeEntry → RefusalLimit → Option ℕ → Type 0
Explained megabytes entries limit written =
    (asked : Option ℤ) × (text : PageText) × (refused_outcome limit written
      ≡ Outcome.refusal limit asked)
    × (same (not (is_none asked)) (is_megabytes limit) ≡ true)
    × (limit_text limit asked megabytes ≡ text)
    × Explains megabytes entries limit text

limit_told :
    (megabytes : ℕ) (entries : List TreeEntry) (limit : RefusalLimit) (written : Option ℕ)
    → Outside megabytes (length entries) (total_size entries) limit written
    → Explained megabytes entries limit written
limit_told megabytes entries RefusalLimit.shape written h =
    (none, PageText.output_shape, rw h refl, refl, refl, refl)
limit_told megabytes entries RefusalLimit.entries written h =
    (none, PageText.too_many maximum_entries, rw (h.0) refl, refl, refl, (refl, h.1))
limit_told megabytes entries RefusalLimit.megabytes written h = (
  some (pos ((total_size entries + megabyte - 1) / megabyte)),
  _,
  rw (h.0) refl,
  refl,
  refl,
  (refl, h.1),
)

refusal_told :
    (step : StepKind) (megabytes : ℕ) (root : Children) (limit : RefusalLimit) (written : Option ℕ)
    → check_step_tree root step megabytes ≡ Judgement.outside limit written
    → Explained megabytes (tree none root).entries limit written
unfolding check_step_tree survey
refusal_told step megabytes root limit written broken =
    let walk = tree none root in
    let judged : IsOutside megabytes (length walk.entries) (total_size walk.entries)
        (Judgement.outside limit written) =
      subst (IsOutside megabytes (length walk.entries) (total_size walk.entries)) broken
        (walk_judged (some step) megabytes walk.entries walk.ends) in
    limit_told megabytes walk.entries limit written judged

module _ (chunk theirs : ℕ → ℕ → ℕ) (json : Json) (printable : ℕ → Bool)
    (listed : List TreeEntry → Children) (step : StepKind) (megabytes : ℕ)
    (bounded : megabytes * megabyte < byte_range 8) where
  staged_reply_lem :
      (root : Children) (out : List Bytes)
      → AreNamed root
      → check_step_tree root step megabytes ≡ Judgement.within
      → tree none (listed (tree none root).entries) ≡ tree none root
      → any (λ other. bytes_eq other (admitted_name step)) out ≡ false
      → staged_reply theirs json printable listed step megabytes (reply_bytes root) out
        ≡ (ok tt, admitted_name step ∷ out)
  unfolding staged_reply nothing_follows admitted check_step_tree survey
  staged_reply_lem root out named passed shown absent =
      let (ends, few, small, keeps, there) =
        (survey-IsWithin megabytes (some step) none root).0 passed in
      let received : receive_entries theirs megabytes (reply_bytes root)
          ≡ ok ((tree none root).entries, []) =
        ap (receive_entries theirs megabytes) (sym (append-nil (reply_bytes root)))
        ∙ receive_entries-tree theirs megabytes bounded none root [] named ends
            (Keeps-HasNoScratch step 0 (tree none root).entries keeps) few small in
      rw (received, shown, passed, absent) refl

  -- What the worker replies with a tree that keeps the step's contract and the budget, the client with the
  -- same budget admits into out/, whatever the two connections and disks take at a time, if out/ does not
  -- hold the step's entry yet. It is assumed that pydantic reads the header that it writes, that the
  -- header fits, and that a walk over what was written yields what was written.
  pub answer-send_tree_reply :
      (root : Children) (out : List Bytes)
      → AreNamed root
      → check_step_tree root step megabytes ≡ Judgement.within
      → json.read_outcome (json.write_outcome Outcome.built) ≡ some Outcome.built
      → Fits (json.write_outcome Outcome.built)
      → tree none (listed (tree none root).entries) ≡ tree none root
      → any (λ other. bytes_eq other (admitted_name step)) out ≡ false
      → (sent : Bytes) × (send_tree_reply chunk json root step megabytes ≡ ok sent)
        × (answer theirs json printable listed step megabytes sent out
            ≡ (ok none, admitted_name step ∷ out))
  unfolding send_tree_reply reply answer answer_to
  answer-send_tree_reply root out named passed kept fits shown absent =
      let h = (survey-IsWithin megabytes (some step) none root).0 passed in
      let (front, is_sent, is_read) =
        read_outcome-send_outcome theirs json printable Outcome.built (reply_bytes root) kept refl
          fits in
      (
        front ++ reply_bytes root,
        rw (passed, is_sent, send_tree_lem chunk megabytes bounded none root h.0 h.1 h.2) refl,
        rw (is_read, staged_reply_lem root out named passed shown absent) refl,
      )

  read_empty_end_lem : read_empty_end theirs (end_bytes 0 0) ≡ ok []
  unfolding read_empty_end
  read_empty_end_lem =
      rw
        (
          read_exactly-append theirs 1 (3 ∷ []) (0 ∷ 0 ∷ 0 ∷ 0 ∷ 0 ∷ 0 ∷ 0 ∷ 0 ∷ 0 ∷ 0 ∷ 0 ∷ 0 ∷ [])
              refl,
          read_exactly-append theirs 12 (0 ∷ 0 ∷ 0 ∷ 0 ∷ 0 ∷ 0 ∷ 0 ∷ 0 ∷ 0 ∷ 0 ∷ 0 ∷ 0 ∷ []) []
              refl,
        )
        refl

  -- Where the worker's tree breaks the contract or a limit, the refusal and an empty end are all that is
  -- sent: the client reads the refusal, leaves out/ as it is, and shows the text for the limit. For MEGABYTES the tree's files are
  -- above the budget, and the text has their size in megabytes, rounded up, beside the budget; for ENTRIES
  -- there are more entries than the limit, and the text has the limit; for SHAPE it is the text on the shape.
  -- The header is assumed to be read as it was written, and to fit; the
  -- budget is below 2 ^ 64 bytes.
  pub answer-send_tree_reply_refused :
      (root : Children) (out : List Bytes) (limit : RefusalLimit) (written : Option ℕ)
      → check_step_tree root step megabytes ≡ Judgement.outside limit written
      → json.read_outcome (json.write_outcome (refused_outcome limit written))
        ≡ some (refused_outcome limit written)
      → Fits (json.write_outcome (refused_outcome limit written))
      → (front : Bytes) × (text : PageText) × (send_outcome json (refused_outcome limit written)
          ≡ ok front)
        × (send_tree_reply chunk json root step megabytes ≡ ok (front ++ end_bytes 0 0))
        × (answer theirs json printable listed step megabytes (front ++ end_bytes 0 0) out
            ≡ (ok (some (record { text = some text })), out))
        × Explains megabytes (tree none root).entries limit text
  unfolding send_tree_reply reply answer answer_to failure_text refusal_text nothing_follows
  answer-send_tree_reply_refused root out limit written broken kept fits =
      let (asked, text, is_asked, fitting, is_text, explains) =
        refusal_told step megabytes root limit written broken in
      let (front, is_sent, is_read) =
        read_outcome-send_outcome theirs json printable (Outcome.refusal limit asked)
          (end_bytes 0 0) (rw (← is_asked) kept) refl (rw (← is_asked) fits) in
      (
        front,
        text,
        rw is_asked is_sent,
        rw (broken, is_asked, is_sent) refl,
        rw (is_read, fitting, is_text, read_empty_end_lem) refl,
        explains,
      )
