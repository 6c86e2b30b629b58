-- ===== src/WireChild/Tests.antt =====
-- The life of a worker that builds the small talk of the wire's tests.
use agent_presentator.Base.{ℕ, ◌≡◌, refl, none, some, List, [], ◌∷◌, arith}
use agent_presentator.FolderName.{is_a_plain_folder_name}
use agent_presentator.Wire.{ok, Bytes, scratch_name, talk_name, pdf_name}
use agent_presentator.Wire.Messages.{StepKind, StepHeader, Json, send_step}
use agent_presentator.Wire.Trees.{tree}
use agent_presentator.Wire.Sending.{send_tree}
use agent_presentator.Wire.Tests.{
  one_by_one, all_at_once, small_json, deck, deck-AreNamed, deck-passes, talk, talk-AreNamed,
}
use agent_presentator.BuildClient.{answer}
use agent_presentator.BuildClient.Tests.{printable, shows_talk, talk-passes}
use agent_presentator.WireChild.{WireExit, ReplyPlan, Ran, idle, upload, send}
use agent_presentator.WireChild.Life.{IsKept, life-builds}

abbrev pub intro : StepHeader
intro = record { step = StepKind.build; slug = "intro" }

-- Headers that only tell this step.
abbrev pub step_json : Json
step_json = record small_json {
  read_step = λ header. some intro;
  write_step = λ header. 115 ∷ 116 ∷ [];
}

abbrev pub shown : Bytes → List ℕ
shown said = said

intro-IsKept : IsKept step_json printable intro
unfolding is_a_plain_folder_name
intro-IsKept = (refl, refl, (omega arith, omega arith), refl, (omega arith, omega arith))

life-builds_example :
    (step : Bytes) × (upload_bytes : Bytes) × (first : Ran) × (second : Ran) × (third : Ran)
    × (send_step step_json intro ≡ ok step)
    × (idle one_by_one step_json printable [] step ≡ ok first)
    × (first.exit ≡ WireExit.accepted)
    × (send_tree all_at_once (some scratch_name) deck ≡ ok upload_bytes)
    × (upload one_by_one step_json printable 1 first.file upload_bytes ≡ ok second)
    × (second.entries ≡ (tree (some scratch_name) deck).entries)
    × (send one_by_one step_json printable shown 1 second.file talk [] (some ReplyPlan.walk)
        ≡ ok third)
    × (answer all_at_once step_json printable shows_talk StepKind.build 1 third.answer
          (pdf_name ∷ [])
        ≡ (ok none, talk_name ∷ pdf_name ∷ []))
life-builds_example =
    life-builds one_by_one all_at_once step_json printable shows_talk 1 (omega arith) intro
      intro-IsKept shown deck talk [] (pdf_name ∷ []) deck-AreNamed talk-AreNamed deck-passes
      talk-passes refl refl
