-- ===== src/SourceRuns/Laws.antt =====
-- The bounded history of polls: what `record`, `recent` and `newest` show together.
use agent_presentator.Base.{
  ℕ, zero, suc, ◌≡◌, refl, ap, ◌∙◌, sym, String, false, not, [], ◌∷◌, str_eq, if◌then◌else◌, keep,
  take, arith, eq_iff, Bool-cases, inl, inr,
}
use agent_presentator.Contracts.{recent_source_runs}
use agent_presentator.SourceRuns.{Runs, of_source, prune, record_run, recent, remove_for_source}

keep-prune_self :
    (s : String) (limit : ℕ) (table : Runs)
    → keep (of_source s) (prune s limit table) ≡ take limit (keep (of_source s) table)
unfolding prune
keep-prune_self s zero [] = refl
keep-prune_self s (suc limit) [] = refl
keep-prune_self s zero (run ∷ table) = ground (arith, keep-prune_self s zero table)
keep-prune_self s (suc limit) (run ∷ table) =
    ground (arith, keep-prune_self s limit table, keep-prune_self s (suc limit) table)

keep-prune_other :
    (s j : String) (limit : ℕ) (table : Runs)
    → str_eq s j ≡ false
    → keep (of_source j) (prune s limit table) ≡ keep (of_source j) table
unfolding prune
keep-prune_other s j zero [] h = refl
keep-prune_other s j (suc limit) [] h = refl
keep-prune_other s j zero (run ∷ table) h = ground (
  arith,
  keep-prune_other s j zero table,
  eq_iff run.source_id s,
  eq_iff run.source_id j,
  eq_iff s j,
)
keep-prune_other s j (suc limit) (run ∷ table) h =
    ground (arith, keep-prune_other s j limit table, keep-prune_other s j (suc limit) table)

take-take_more : (n : ℕ) (xs : Runs) → take n (take (suc n) xs) ≡ take n xs
take-take_more zero xs = refl
take-take_more (suc n) [] = refl
take-take_more (suc n) (x ∷ xs) = ap (λ ys. x ∷ ys) (take-take_more n xs)

take-take : (n : ℕ) (xs : Runs) → take n (take n xs) ≡ take n xs
take-take zero xs = refl
take-take (suc n) [] = refl
take-take (suc n) (x ∷ xs) = ap (λ ys. x ∷ ys) (take-take n xs)

-- Every poll that was recorded, newest first, into a table that starts empty.
unfoldable pub record_all : Runs → Runs
unfolding record_run
record_all [] = []
record_all (run ∷ runs) = record_run run (record_all runs)

-- What a table shows of a source is what the whole history would show.
take-keep-record_all :
    (j : String) (runs : Runs)
    → keep (of_source j) (record_all runs) ≡ take recent_source_runs (keep (of_source j) runs)
unfolding record_all record_run
take-keep-record_all j [] = refl
take-keep-record_all j (run ∷ runs) = elim (Bool-cases (str_eq run.source_id j)) [
  | inl same ↦ ground (
    arith,
    eq_iff run.source_id j,
    keep-prune_self run.source_id recent_source_runs (run ∷ record_all runs),
    take-keep-record_all j runs,
    take-take_more 2 (keep (of_source j) runs),
  )
  | inr other ↦ ground (
    arith,
    keep-prune_other run.source_id j recent_source_runs (run ∷ record_all runs) other,
    take-keep-record_all j runs,
  )
]

-- Whatever polls were recorded, of whichever sources, `recent` shows the newest three of the source,
-- newest first, as if the whole history had been kept, and the table holds no more of the source.
pub recent-record_all :
    (j : String) (runs : Runs)
    → (recent j (record_all runs) ≡ take recent_source_runs (keep (of_source j) runs))
      × (keep (of_source j) (record_all runs) ≡ recent j (record_all runs))
unfolding recent
recent-record_all j runs =
    let kept : keep (of_source j) (record_all runs)
        ≡ take recent_source_runs (keep (of_source j) runs) =
      take-keep-record_all j runs in
    let shown : recent j (record_all runs) ≡ take recent_source_runs (keep (of_source j) runs) =
      rw kept (take-take recent_source_runs (keep (of_source j) runs)) in
    (shown, kept ∙ sym shown)

-- Removing the runs of one source leaves none of its own, and every other source's as they were.
pub recent-remove_for_source :
    (s j : String) (table : Runs)
    → recent j (remove_for_source s table) ≡ (if str_eq s j then [] else recent j table)
unfolding recent remove_for_source
recent-remove_for_source s j table = rw (removed table) (ground arith)
  where
    removed :
        (t : Runs)
        → keep (of_source j) (keep (λ run. not (of_source s run)) t)
          ≡ (if str_eq s j then [] else keep (of_source j) t)
    removed [] = ground arith
    removed (run ∷ t) =
        ground (arith, removed t, eq_iff run.source_id s, eq_iff run.source_id j, eq_iff s j)
