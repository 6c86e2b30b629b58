-- ===== src/Wire/Suffix.antt =====
-- `_longest_fitting_suffix` and `send_failed`: the tail of a failure's text that a header can carry.
use agent_presentator.Base.{
  ℕ, zero, suc, ◌+◌, ◌-◌, ◌/◌, ◌≤◌, ◌<◌, ◌≡◌, refl, Bool, Option, none, some, List, [], ◌∷◌, ◌++◌,
  leb, ltb, if◌then◌else◌, length, drop, arith, Bool-cases, inl, inr,
}
use agent_presentator.Wire.{
  Result, ok, raised, stuck, ◌>>=◌, Bytes, minimum_header_bytes, maximum_header_bytes,
}
use agent_presentator.Wire.Messages.{
  Json, Outcome, is_allowed, failure_text_limit, send_outcome, read_outcome,
}
use agent_presentator.Wire.Answers.{read_outcome-send_outcome}

-- `text[len(text) - n:]`
abbrev pub last : ℕ → List ℕ → List ℕ
last n text = drop (length text - n) text

module _ (json : Json) where
  -- `_failed_header`, whose FailedOutcome validates its text
  unfoldable pub failed_header : Option (List ℕ) → Result Bytes
  failed_header text =
      if is_allowed (Outcome.failed text)
      then ok (json.write_outcome (Outcome.failed text))
      else raised

  abbrev pub fits : Bytes → Bool
  fits header = leb (length header) maximum_header_bytes

  -- The loop of `_longest_fitting_suffix`.
  unfoldable pub bisect : ℕ → List ℕ → ℕ → ℕ → Result ℕ
  unfolding failed_header
  bisect zero text shortest longest = if ltb shortest longest then stuck else ok shortest
  bisect (suc fuel) text shortest longest =
      let middle = (shortest + longest + 1) / 2 in
      let longer = bisect fuel text middle longest in
      let shorter = bisect fuel text shortest (middle - 1) in
      if ltb shortest longest
      then (do
        header ← failed_header (some (last middle text))
        if fits header then longer else shorter)
      else ok shortest

  -- `_longest_fitting_suffix`: each round narrows the range, so as many rounds as characters are enough
  unfoldable pub longest_fitting_suffix : List ℕ → Result (List ℕ)
  unfolding bisect
  longest_fitting_suffix text = do n ← bisect (length text) text 0 (length text); ok (last n text)

  -- `send_failed`
  unfoldable pub send_failed : Option (List ℕ) → Result Bytes
  unfolding longest_fitting_suffix send_outcome
  send_failed none = send_outcome json (Outcome.failed none)
  send_failed (some text) = do
    fitted ← longest_fitting_suffix text
    send_outcome json (Outcome.failed (some fitted))

  -- The length of the header that carries the last `n` characters.
  abbrev pub size : List ℕ → ℕ → ℕ
  size text n = length (json.write_outcome (Outcome.failed (some (last n text))))

  length-last : (n : ℕ) (text : List ℕ) → length (last n text) ≤ length text
  length-last n text = drop-le (length text - n) text
    where
      drop-le : (k : ℕ) (xs : List ℕ) → length (drop k xs) ≤ length xs
      drop-le zero xs = omega arith
      drop-le (suc k) [] = omega arith
      drop-le (suc k) (x ∷ xs) = omega (arith, drop-le k xs)

  module _ (text : List ℕ) (short : length text ≤ failure_text_limit)
      (grows : (m n : ℕ) → m ≤ n → size text m ≤ size text n) where
    header_of_last :
        (n : ℕ)
        → failed_header (some (last n text))
          ≡ ok (json.write_outcome (Outcome.failed (some (last n text))))
    unfolding failed_header
    header_of_last n = ground (arith, length-last n text)

    -- The range of the search: what is at its low end fits, and nothing past its high end does.
    bisect_lem :
        (fuel low high : ℕ)
        → low ≤ high
        → high - low ≤ fuel
        → size text low ≤ maximum_header_bytes
        → ((n : ℕ) → high < n → n ≤ length text → maximum_header_bytes < size text n)
        → (n : ℕ) × (bisect fuel text low high ≡ ok n)
          × (low ≤ n)
          × (n ≤ high)
          × (size text n ≤ maximum_header_bytes)
          × ((m : ℕ) → n < m → m ≤ length text → maximum_header_bytes < size text m)
    unfolding bisect
    bisect_lem zero low high h enough fit past =
        (low, ground arith, omega arith, omega arith, fit, λ m. past' m)
      where
        past' : (m : ℕ) → low < m → m ≤ length text → maximum_header_bytes < size text m
        past' m a b = past m (omega arith) b
    bisect_lem (suc fuel) low high h enough fit past =
        let middle = (low + high + 1) / 2 in
        elim (Bool-cases (ltb low high)) [
          | inr met ↦ (low, rw met refl, omega arith, h, fit, λ m a b. past m (ground arith) b)
          | inl open_range ↦ elim (Bool-cases (leb (size text middle) maximum_header_bytes)) [
            | inl fits_middle ↦
                let (n, found, low_n, n_high, fit_n, past_n) =
                  bisect_lem fuel middle high (ground arith) (ground arith) (ground arith) past in
                (
                  n,
                  rw (open_range, header_of_last middle, fits_middle) found,
                  ground arith,
                  n_high,
                  fit_n,
                  past_n,
                )
            | inr too_long ↦
                let (n, found, low_n, n_high, fit_n, past_n) =
                  bisect_lem fuel low (middle - 1) (ground arith) (ground arith) fit
                    (λ m a b. ground (arith, grows middle m)) in
                (
                  n,
                  rw (open_range, header_of_last middle, too_long) found,
                  low_n,
                  ground arith,
                  fit_n,
                  past_n,
                )
          ]
        ]

    -- A text within the limit of a failure is cut to a tail whose header fits, no longer tail's header
    -- fits, and the search ends: if a longer tail is never written in fewer bytes, and the empty
    -- text fits.
    pub longest_fitting_suffix_lem :
        (empty_fits : size text 0 ≤ maximum_header_bytes)
        → (n : ℕ) × (n ≤ length text)
          × (longest_fitting_suffix text ≡ ok (last n text))
          × (size text n ≤ maximum_header_bytes)
          × ((m : ℕ) → n < m → m ≤ length text → maximum_header_bytes < size text m)
    unfolding longest_fitting_suffix
    longest_fitting_suffix_lem empty_fits =
        let (n, found, low_n, n_high, fit_n, past_n) =
          bisect_lem (length text) 0 (length text) (omega arith) (omega arith) empty_fits
            (λ m a b. absurd (omega arith)) in
        (n, n_high, rw found refl, fit_n, past_n)

    -- A failure's text within the limit is always sent, and read by the other end as the failure with the
    -- longest tail whose header fits: if a longer tail is never written in fewer bytes, the empty text
    -- fits, and pydantic reads what it writes, which is two bytes at least.
    pub read_outcome-send_failed :
        (chunk : ℕ → ℕ → ℕ) (printable : ℕ → Bool) (rest : Bytes)
        → size text 0 ≤ maximum_header_bytes
        → ((n : ℕ) → minimum_header_bytes ≤ size text n)
        → ((answer : Outcome) → json.read_outcome (json.write_outcome answer) ≡ some answer)
        → (sent : Bytes) × (n : ℕ) × (send_failed (some text) ≡ ok sent)
          × (read_outcome chunk json printable (sent ++ rest)
              ≡ ok (Outcome.failed (some (last n text)), rest))
          × ((m : ℕ) → n < m → m ≤ length text → maximum_header_bytes < size text m)
    unfolding send_failed
    read_outcome-send_failed chunk printable rest empty_fits some_bytes kept =
        let (n, in_text, found, fit_n, past_n) = longest_fitting_suffix_lem empty_fits in
        let (sent, is_sent, is_read) =
          read_outcome-send_outcome chunk json printable (Outcome.failed (some (last n text))) rest
            (kept (Outcome.failed (some (last n text)))) (ground (arith, length-last n text))
            (some_bytes n, fit_n) in
        (sent, n, rw found is_sent, is_read, past_n)
