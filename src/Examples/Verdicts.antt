-- ===== src/Examples/Verdicts.antt =====
-- Runs of src/parseval/main.py on two queries that agree on every database but the third.
use par_seval.Common.{zero, suc, ◌≡◌, refl, true, false, [], ◌∷◌, ◌↔◌}
use par_seval.Driver.{
  Result, rows, out_of_time, differ, Instance, finished, Generation, eq, neq, timeout, Parsing,
  parsed, disprove,
}
use par_seval.Driver.Compare.{Agree, differ-rows}
use par_seval.Driver.Verdicts.{KeepsDatabase, IsCounterexample, disprove-neq}
use par_seval.Driver.Agreement.{Compatible, Evidence, disprove-eq}

abbrev run_queries : Instance → Result × Result
run_queries zero = (rows [], rows [])
run_queries (suc zero) = (rows (1 ∷ []), rows (1 ∷ []))
run_queries (suc (suc zero)) = (rows (1 ∷ 1 ∷ []), rows (1 ∷ []))
run_queries (suc (suc (suc n))) = (rows (1 ∷ 2 ∷ []), rows (2 ∷ 1 ∷ []))

abbrev finds : Generation
finds = record { versions = 1 ∷ 2 ∷ []; ending = λ b. finished true false }

abbrev misses : Generation
misses = record { versions = 1 ∷ 3 ∷ []; ending = λ b. finished true false }

abbrev unordered : Parsing
unordered = parsed 1 false 1 true

one_generation : KeepsDatabase run_queries false false (finds ∷ [])
one_generation = ((false, refl), tt)

two_generations : KeepsDatabase run_queries false false (misses ∷ misses ∷ [])
two_generations = ((false, refl), ((false, refl), tt))

told_apart : (disprove run_queries false unordered 0 (finds ∷ [])).verdict ≡ neq
unfolding disprove
told_apart = refl

all_agree : (disprove run_queries false unordered 0 (misses ∷ misses ∷ [])).verdict ≡ eq
unfolding disprove
all_agree = refl

disprove-neq_example :
    IsCounterexample run_queries false false (disprove run_queries false unordered 0 (finds ∷ []))
disprove-neq_example =
    disprove-neq run_queries false unordered 0 (finds ∷ []) one_generation told_apart

disprove-eq_example :
    Compatible false false (rows [], rows [])
    × Evidence run_queries false false (rows [], rows []) (misses ∷ misses ∷ [])
disprove-eq_example =
    disprove-eq run_queries false unordered 0 (misses ∷ misses ∷ []) two_generations all_agree

-- The second query runs out of time on the database 1, which is not the last.
abbrev run_late : Instance → Result × Result
run_late zero = (rows [], rows [])
run_late (suc zero) = (rows (1 ∷ []), out_of_time)
run_late (suc (suc n)) = (rows (1 ∷ []), rows (1 ∷ []))

-- A query that runs out of time before the last database raises no doubt.
late_unnoticed : (disprove run_late false unordered 0 (misses ∷ misses ∷ [])).verdict ≡ eq
unfolding disprove
late_unnoticed = refl

abbrev ends_late : Generation
ends_late = record { versions = 3 ∷ 1 ∷ []; ending = λ b. finished true false }

late_noticed : (disprove run_late false unordered 0 (misses ∷ ends_late ∷ [])).verdict ≡ timeout
unfolding disprove
late_noticed = refl

differ-rows_example :
    (differ false false (rows (1 ∷ 2 ∷ [])) (rows (2 ∷ 1 ∷ [])) ≡ false)
    ↔ Agree false false (1 ∷ 2 ∷ []) (2 ∷ 1 ∷ [])
differ-rows_example = differ-rows false false (1 ∷ 2 ∷ []) (2 ∷ 1 ∷ [])
