-- ===== src/Review/Validate/OfCounts.antt =====
-- .opencode/plugins/review-dispatch/index.ts: `validateRunCounts`.
use complytime_providers.Prelude.{
  ℕ, ◌+◌, Text, txt, not, ◌||◌, List, ◌++◌, length, count, nat_eq, decimal,
}
use complytime_providers.Review.Model.{
  Status, success, failed, skipped, budget_skipped, limit_skipped, cancelled, is_status,
  status_text, Run, Payload,
}
use complytime_providers.Review.Validate.Keys.{when}

unfoldable pub with_status : Status → List Run → ℕ
with_status s runs = count (λ (r : Run). is_status s r.status) runs

unfoldable pub count_error : Status → ℕ → ℕ → List Text
unfolding txt status_text decimal
count_error s given actual = when (not (nat_eq given actual)) (
    txt "run_counts."
    ++ status_text s
    ++ txt " is "
    ++ decimal given
    ++ txt "; expected "
    ++ decimal actual)

unfoldable pub validate_run_counts : Payload → List Text
unfolding with_status count_error txt
validate_run_counts payload =
    let c = payload.run_counts in
    let runs = payload.runs in
    let sum = c.success + c.failed + c.skipped + c.budget_skipped + c.limit_skipped + c.cancelled in
    count_error success c.success (with_status success runs)
    ++ count_error failed c.failed (with_status failed runs)
    ++ count_error skipped c.skipped (with_status skipped runs)
    ++ count_error budget_skipped c.budget_skipped (with_status budget_skipped runs)
    ++ count_error limit_skipped c.limit_skipped (with_status limit_skipped runs)
    ++ count_error cancelled c.cancelled (with_status cancelled runs)
    ++ when (not (nat_eq c.total (length runs)) || not (nat_eq c.total sum))
        (txt "run_counts.total must equal runs.length and the terminal count sum")
