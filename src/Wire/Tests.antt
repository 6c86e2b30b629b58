-- ===== src/Wire/Tests.antt =====
-- A small deck on the wire, byte by byte, and the wire's theorems there.
use agent_presentator.Base.{
  ℕ, ◌-◌, ◌≤◌, ◌<◌, ◌≡◌, ◌↔◌, refl, true, Option, none, some, [], ◌∷◌, ◌++◌, codes, length-drop,
  arith, if◌then◌else◌, ◌==◌,
}
use agent_presentator.Wire.{ok, Bytes, scratch_name, talk_name, maximum_header_bytes}
use agent_presentator.Wire.Reading.{read_exactly, reads, read_exactly-eq-reads}
use agent_presentator.Wire.Messages.{StepKind, RefusalLimit, Outcome, Json}
use agent_presentator.Wire.Suffix.{last, size, longest_fitting_suffix, longest_fitting_suffix_lem}
use agent_presentator.Wire.Trees.{directory, file, Children, no_children, child, tree}
use agent_presentator.Wire.Sending.{send_tree}
use agent_presentator.Wire.Receiving.{receive_entries}
use agent_presentator.Wire.Survey.{Judgement, survey, check_upload}
use agent_presentator.Wire.Sorted.{bytes_ltb-ne}
use agent_presentator.Wire.Walks.{AreNamed}
use agent_presentator.Wire.Judged.{IsWithin, survey-IsWithin}
use agent_presentator.Wire.Holding.{Holds}
use agent_presentator.Wire.Bounds.{Written, receive_entries-Holds}
use agent_presentator.Wire.RoundTrip.{sent_bytes, receive_entries-send_tree}

-- A connection that hands out one byte at a time, and one that hands out all it has.
abbrev pub one_by_one : ℕ → ℕ → ℕ
one_by_one left asked = 1

abbrev pub all_at_once : ℕ → ℕ → ℕ
all_at_once left asked = asked

-- Headers of two bytes and the text.
abbrev pub small_json : Json
small_json = record {
  is_empty_object = λ header. true;
  read_step = λ header. none;
  write_step = λ header. [];
  read_outcome = read;
  write_outcome = write;
}
  where
    write : Outcome → Bytes
    write Outcome.built = 98 ∷ 98 ∷ []
    write (Outcome.refusal limit written) = 114 ∷ 114 ∷ []
    write (Outcome.failed none) = 110 ∷ 110 ∷ []
    write (Outcome.failed (some text)) = 116 ∷ 116 ∷ text

    read : Bytes → Option Outcome
    read [] = none
    read (b ∷ rest) =
        if b == 114 then some (Outcome.refusal RefusalLimit.shape none) else some Outcome.built

abbrev pub deck : Children
deck = child scratch_name (directory (child (codes "lib") (file 3 (1 ∷ [])) no_children)) (
    child (codes "pages") (directory (child (codes "one") (file 1 (35 ∷ 49 ∷ [])) no_children))
      (child (codes "slides.md") (file 1 (35 ∷ [])) no_children))

abbrev pub talk : Children
talk =
    child talk_name (directory (child (codes "index.html") (file 1 (60 ∷ 62 ∷ [])) no_children))
      no_children

pub deck-AreNamed : AreNamed deck
unfolding AreNamed
deck-AreNamed = (
  refl,
  refl,
  (refl, refl, tt, tt, tt),
  (
    bytes_ltb-ne scratch_name (codes "pages") refl,
    (bytes_ltb-ne scratch_name (codes "slides.md") refl, tt),
  ),
  (
    refl,
    refl,
    (refl, refl, tt, tt, tt),
    (bytes_ltb-ne (codes "pages") (codes "slides.md") refl, tt),
    (refl, refl, tt, tt, tt),
  ),
)

pub talk-AreNamed : AreNamed talk
unfolding AreNamed
talk-AreNamed = (refl, refl, (refl, refl, tt, tt, tt), tt, tt)

pub deck-passes : check_upload deck 1 ≡ Judgement.within
unfolding check_upload
deck-passes = refl

receive_entries-send_tree_example :
    (send_tree one_by_one (some scratch_name) deck ≡ ok (sent_bytes deck))
    × (receive_entries all_at_once 1 (sent_bytes deck ++ 7 ∷ [])
        ≡ ok ((tree (some scratch_name) deck).entries, 7 ∷ []))
receive_entries-send_tree_example =
    receive_entries-send_tree one_by_one all_at_once 1 (omega arith) deck (7 ∷ []) deck-AreNamed
      deck-passes

receive_entries-Holds_example :
    Holds (Written 1 one_by_one) (receive_entries one_by_one 1 (1 ∷ 0 ∷ 1 ∷ 97 ∷ 2 ∷ []))
receive_entries-Holds_example = receive_entries-Holds 1 one_by_one (1 ∷ 0 ∷ 1 ∷ 97 ∷ 2 ∷ [])

survey-IsWithin_example :
    (survey 1 (some StepKind.build) none talk ≡ Judgement.within)
    ↔ IsWithin 1 (some StepKind.build) (tree none talk)
survey-IsWithin_example = survey-IsWithin 1 (some StepKind.build) none talk

read_exactly-eq-reads_example :
    read_exactly one_by_one 3 (1 ∷ 2 ∷ 3 ∷ 4 ∷ []) ≡ reads 3 (1 ∷ 2 ∷ 3 ∷ 4 ∷ [])
read_exactly-eq-reads_example = read_exactly-eq-reads one_by_one 3 (1 ∷ 2 ∷ 3 ∷ 4 ∷ [])

longest_fitting_suffix_lem_example :
    (n : ℕ) × (n ≤ 3)
    × (longest_fitting_suffix small_json (codes "abc") ≡ ok (last n (codes "abc")))
    × (size small_json (codes "abc") n ≤ maximum_header_bytes)
    × ((m : ℕ) → n < m → m ≤ 3 → maximum_header_bytes < size small_json (codes "abc") m)
longest_fitting_suffix_lem_example =
    longest_fitting_suffix_lem small_json (codes "abc") (omega arith)
      (λ m n h.
        omega (arith, h, length-drop (3 - m) (codes "abc"), length-drop (3 - n) (codes "abc")))
      (omega arith)
