-- ===== src/Wire/Survey.antt =====
-- `_survey`, `check_step_tree`, `check_upload` and `send_tree_reply`: a tree judged before it is sent.
use agent_presentator.Base.{
  ℕ, ◌+◌, ◌-◌, ◌*◌, ◌/◌, Bool, true, false, not, ◌&&◌, Option, none, some, List, [], ◌∷◌, ◌++◌, ltb,
  ◌==◌, if◌then◌else◌, bytes_eq,
}
use agent_presentator.Base.Int.{pos}
use agent_presentator.Wire.{
  Result, ok, ◌>>=◌, Bytes, maximum_entries, megabyte, scratch_name, talk_name, pdf_name,
}
use agent_presentator.Wire.Messages.{StepKind, RefusalLimit, Outcome, Json, send_outcome}
use agent_presentator.Wire.Trees.{TreeEntry, Children, tree, is_directory, size_of}
use agent_presentator.Wire.Receiving.{names_eq}
use agent_presentator.Wire.Sending.{send_end, send_tree}

-- The judgement: within contract, or the RefusedOutcome that TreeRefusedError carries.
pub data Judgement : Type 0 where
  within : Judgement
  outside : RefusalLimit → Option ℕ → Judgement

abbrev pub bad_shape : Judgement
bad_shape = Judgement.outside RefusalLimit.shape none

-- `entry.components[0] == talk`
abbrev pub is_below : Bytes → List Bytes → Bool
is_below name [] = false
is_below name (first ∷ rest) = bytes_eq first name

-- `_meets_step_contract`
unfoldable pub meets_step_contract : StepKind → ℕ → TreeEntry → Bool
meets_step_contract StepKind.export position entry =
    position == 0 && (names_eq entry.components (pdf_name ∷ []) && not (is_directory entry))
meets_step_contract StepKind.build position entry =
    if position == 0
    then names_eq entry.components (talk_name ∷ []) && is_directory entry
    else is_below talk_name entry.components

-- `contract is not None and not contract(count, entry)`
abbrev pub breaks : Option StepKind → ℕ → TreeEntry → Bool
breaks none position entry = false
breaks (some step) position entry = not (meets_step_contract step position entry)

-- `contract is not None and count == 0`
abbrev pub is_missing : Option StepKind → ℕ → Bool
is_missing none count = false
is_missing (some step) count = count == 0

-- `_survey` once the walk is over
unfoldable pub judge_size : ℕ → Option StepKind → ℕ → ℕ → Judgement
judge_size megabytes contract count total =
    if is_missing contract count
    then bad_shape
    else if ltb (megabytes * megabyte) total
    then Judgement.outside RefusalLimit.megabytes (some ((total + megabyte - 1) / megabyte))
    else Judgement.within

-- The loop of `_survey`.
unfoldable pub survey_loop : ℕ → Option StepKind → List TreeEntry → Bool → ℕ → ℕ → Judgement
unfolding meets_step_contract judge_size
survey_loop megabytes contract [] true count total = judge_size megabytes contract count total
survey_loop megabytes contract [] false count total = bad_shape
survey_loop megabytes contract (entry ∷ entries) ends count total =
    let rest = survey_loop megabytes contract entries ends (count + 1) (total + size_of entry) in
    if count == maximum_entries
    then Judgement.outside RefusalLimit.entries none
    else if breaks contract count entry
    then bad_shape
    else rest

-- `_survey`
unfoldable pub survey : ℕ → Option StepKind → Option Bytes → Children → Judgement
unfolding survey_loop tree
survey megabytes contract omitting root =
    let walk = tree omitting root in survey_loop megabytes contract walk.entries walk.ends 0 0

-- `check_step_tree`, `check_upload`
unfoldable pub check_step_tree : Children → StepKind → ℕ → Judgement
unfolding survey
check_step_tree root step megabytes = survey megabytes (some step) none root

unfoldable pub check_upload : Children → ℕ → Judgement
unfolding survey
check_upload root megabytes = survey megabytes none (some scratch_name) root

-- RefusedOutcome of a judgement, whose count is an integer on the wire
abbrev pub refused_outcome : RefusalLimit → Option ℕ → Outcome
refused_outcome limit none = Outcome.refusal limit none
refused_outcome limit (some written) = Outcome.refusal limit (some (pos written))

-- `send_tree_reply` once the tree is judged
unfoldable pub reply : (ℕ → ℕ → ℕ) → Json → Judgement → Children → Result Bytes
unfolding send_outcome send_end send_tree
reply chunk json Judgement.within root = do
  front ← send_outcome json Outcome.built
  entries ← send_tree chunk none root
  ok (front ++ entries)
reply chunk json (Judgement.outside limit written) root = do
  front ← send_outcome json (refused_outcome limit written)
  end ← send_end 0 0
  ok (front ++ end)

-- `send_tree_reply`
unfoldable pub send_tree_reply : (ℕ → ℕ → ℕ) → Json → Children → StepKind → ℕ → Result Bytes
unfolding check_step_tree reply
send_tree_reply chunk json root step megabytes =
    reply chunk json (check_step_tree root step megabytes) root
