-- ===== src/BuildClient/Ending.antt =====
-- How the calls of the client end: they return or raise one of the three errors that are caught.
use agent_presentator.Base.{
  ℕ, ◌≡◌, refl, Bool, not, Option, none, some, List, [], ◌∷◌, ◌++◌, is_none, bytes_eq,
  of_big_endian, ◌==◌, ◌&&◌, leb, take, drop,
}
use agent_presentator.Wire.{
  Result, ok, refused, tree_refused, os_error, raised, stuck, ensure, Bytes, magic, version,
  minimum_header_bytes, maximum_header_bytes,
}
use agent_presentator.Wire.Reading.{read_exactly}
use agent_presentator.Wire.Messages.{
  RefusalLimit, Outcome, Json, MessageKind, preamble_kind, known, kind_among, validated, is_allowed,
  read_message, read_outcome,
}
use agent_presentator.Wire.Receiving.{read_empty_end, first_byte}
use agent_presentator.Wire.Survey.{Judgement}
use agent_presentator.Wire.Holding.{
  Holds, Ends, Ends-then, Holds-if, Ends-ensure, Ends-read_exactly,
}
use agent_presentator.Base.Int.{ℤ}
use agent_presentator.BuildClient.{
  Doing, lift, and_then, same, is_megabytes, refusal_text, require_within, failure_text,
}

Ends-known {ℓ} : {A : Type ℓ} (found : Option A) → Ends (known found)
Ends-known none = tt
Ends-known (some a) = tt

Ends-validated {ℓ} : {A : Type ℓ} (p : A → Bool) (found : Option A) → Ends (validated p found)
Ends-validated p none = tt
Ends-validated p (some a) = Holds-if (λ _. Unit) (p a) (ok a) refused (λ _. tt) (λ _. tt)

module _ (chunk : ℕ → ℕ → ℕ) where
  pub Ends-read_empty_end : (bytes : Bytes) → Ends (read_empty_end chunk bytes)
  unfolding read_empty_end
  Ends-read_empty_end bytes =
      Ends-then (λ _. Unit) (read_exactly chunk 1 bytes) _ (Ends-read_exactly chunk 1 bytes)
        (λ (tag, after).
          Ends-then (λ _. Unit) (ensure (first_byte tag == 3)) _ (Ends-ensure (first_byte tag == 3))
            (λ _.
              Ends-then (λ _. Unit) (read_exactly chunk 12 after) _
                (Ends-read_exactly chunk 12 after)
                (λ (counts, rest).
                  let nothing =
                    of_big_endian 0 (take 4 counts) == 0 && of_big_endian 0 (drop 4 counts) == 0 in
                  Ends-then (λ _. Unit) (ensure nothing) _ (Ends-ensure nothing) (λ _. tt))))

  Ends-preamble_kind :
      (accepted : List MessageKind) (front : Bytes) → Ends (preamble_kind accepted front)
  unfolding preamble_kind
  Ends-preamble_kind accepted (m ∷ a ∷ g ∷ v ∷ n ∷ []) =
      Holds-if (λ _. Unit) (bytes_eq (m ∷ a ∷ g ∷ v ∷ []) (magic ++ version ∷ []))
        (known (kind_among accepted n)) refused (λ _. Ends-known (kind_among accepted n)) (λ _. tt)
  Ends-preamble_kind accepted [] = tt
  Ends-preamble_kind accepted (a ∷ []) = tt
  Ends-preamble_kind accepted (a ∷ b ∷ []) = tt
  Ends-preamble_kind accepted (a ∷ b ∷ c ∷ []) = tt
  Ends-preamble_kind accepted (a ∷ b ∷ c ∷ d ∷ []) = tt
  Ends-preamble_kind accepted (a ∷ b ∷ c ∷ d ∷ e ∷ f ∷ front) = tt

  pub Ends-read_message :
      (accepted : List MessageKind) (bytes : Bytes) → Ends (read_message chunk accepted bytes)
  unfolding read_message
  Ends-read_message accepted bytes =
      Ends-then (λ _. Unit) (read_exactly chunk 5 bytes) _ (Ends-read_exactly chunk 5 bytes)
        (λ (front, after).
          Ends-then (λ _. Unit) (preamble_kind accepted front) _ (Ends-preamble_kind accepted front)
            (λ kind.
              Ends-then (λ _. Unit) (read_exactly chunk 2 after) _ (Ends-read_exactly chunk 2 after)
                (λ (size, after').
                  let fits =
                    leb minimum_header_bytes (of_big_endian 0 size)
                    && leb (of_big_endian 0 size) maximum_header_bytes in
                  Ends-then (λ _. Unit) (ensure fits) _ (Ends-ensure fits)
                    (λ _.
                      Ends-then (λ _. Unit) (read_exactly chunk (of_big_endian 0 size) after') _
                        (Ends-read_exactly chunk (of_big_endian 0 size) after') (λ _. tt)))))

  pub Ends-read_outcome :
      (json : Json) (printable : ℕ → Bool) (bytes : Bytes)
      → Ends (read_outcome chunk json printable bytes)
  unfolding read_outcome
  Ends-read_outcome json printable bytes =
      Ends-then (λ _. Unit) (read_message chunk (MessageKind.outcome ∷ []) bytes) _
        (Ends-read_message (MessageKind.outcome ∷ []) bytes)
        (λ ((kind, header), rest).
          Ends-then (λ _. Unit) (validated is_allowed (json.read_outcome header)) _
            (Ends-validated is_allowed (json.read_outcome header)) (λ _. tt))

-- What a call has left of the state: where it returns, what its value says; where it raises what is
-- caught, the state as it was. It does not run out of fuel, nor raise what nobody catches.
module _ {S A : Type 0} (P : A → S → Type 0) where
  abbrev pub Post : S → Result A × S → Type 0
  Post s (ok a, s') = P a s'
  Post s (refused, s') = s' ≡ s
  Post s (tree_refused, s') = s' ≡ s
  Post s (os_error, s') = s' ≡ s
  Post s (raised, s') = ⊥
  Post s (stuck, s') = ⊥

  pub Post-value : (m : Result A) (s : S) → Holds (λ a. P a s) m → Post s (lift m s)
  Post-value (ok a) s h = h
  Post-value refused s h = refl
  Post-value tree_refused s h = refl
  Post-value os_error s h = refl
  Post-value raised s h = h
  Post-value stuck s h = h

  -- A call before that leaves the state alone.
  pub Post-lift :
      {B : Type 0} (m : Result B) (next : B → Doing S A) (s : S)
      → Ends m
      → ((b : B) → Post s (next b s))
      → Post s (and_then (lift m) next s)
  Post-lift (ok b) next s h k = k b
  Post-lift refused next s h k = refl
  Post-lift tree_refused next s h k = refl
  Post-lift os_error next s h k = refl
  Post-lift raised next s h k = h
  Post-lift stuck next s h k = h

pub Ends-require_within : (judgement : Judgement) → Ends (require_within judgement)
Ends-require_within Judgement.within = tt
Ends-require_within (Judgement.outside limit written) = tt

Ends-refusal_text :
    (limit : RefusalLimit) (written : Option ℤ) (megabytes : ℕ)
    → Ends (refusal_text limit written megabytes)
unfolding refusal_text
Ends-refusal_text limit written megabytes =
    Ends-then (λ _. Unit) (ensure (same (not (is_none written)) (is_megabytes limit))) _
      (Ends-ensure (same (not (is_none written)) (is_megabytes limit))) (λ _. tt)

pub Ends-failure_text : (outcome : Outcome) (megabytes : ℕ) → Ends (failure_text outcome megabytes)
unfolding failure_text
Ends-failure_text Outcome.built megabytes = tt
Ends-failure_text (Outcome.failed none) megabytes = tt
Ends-failure_text (Outcome.failed (some text)) megabytes = tt
Ends-failure_text (Outcome.refusal limit written) megabytes =
    Ends-then (λ _. Unit) (refusal_text limit written megabytes) _
      (Ends-refusal_text limit written megabytes) (λ _. tt)
