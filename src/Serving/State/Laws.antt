-- ===== src/Serving/State/Laws.antt =====
-- server/src/serving/deployments.ts: what each observed state means.
-- server/src/serving/deployments.ts: what each observed state means.
use dgx_control_center.Prelude.{
  ◌≡◌, ◌↔◌, ◌∙◌, sym, inl, inr, Bool, true, false, ◌&&◌, ◌||◌, Option, arith, ℤ, Bool-cases,
}
use dgx_control_center.Serving.State.{
  Texts, ServeStateFactors, join_serve_state, healthy, failed, stopped, is_stopped, job_live,
  job_failed, exit_of, any_rank_running, all_probe_error, id_match, is_mismatch, api_up,
  llm_available, health_is,
}
use dgx_control_center.Serving.State.Reports.{Answers, Live}
use dgx_control_center.Serving.State.Verdict.{
  Verdict, Answers-factors, job_live-Live, Verdict-id_match,
}

module _ (T : Texts) (f : ServeStateFactors) where
  -- The tests on the way to a healthy state.
  healthy-tests :
      (warmup : Bool) (served_id_match : Option Bool)
      → (join_serve_state T f ≡ healthy warmup served_id_match) ↔ (
          (f.orphaned ≡ false)
          × ((llm_available f.llm || health_is 200 f.probe) ≡ true)
          × ((is_stopped f.desired && f.probe_stale) ≡ false)
          × ((job_live f.job && is_stopped f.desired) ≡ false)
          × (warmup ≡ job_live f.job)
          × ((is_mismatch (id_match T f) ≡ false) × (served_id_match ≡ id_match T f)))
  unfolding join_serve_state
  healthy-tests warmup served_id_match = (
    λ e. (
      ground arith,
      ground arith,
      ground arith,
      ground arith,
      ground arith,
      (ground arith, ground arith),
    ),
    λ (a, b, c, d, e, (g, h)). ground arith,
  )

  -- A deployment is healthy exactly when it is not an orphan, the watcher of the model saw it
  -- available or the probe's health request gave 200, it is not wanted stopped with a stale probe
  -- or with a job that is still running, the warm-up flag says whether its job is still running,
  -- and the identity check passes: either it is silent, since no name is given or the engine
  -- reports no id, or it is positive, since a reported id is the given name up to path and case.
  pub healthy_iff :
      (warmup : Bool) (served_id_match : Option Bool)
      → (join_serve_state T f ≡ healthy warmup served_id_match) ↔ (
          (f.orphaned ≡ false)
          × Answers f
          × (¬ ((f.desired ≡ stopped) × (f.probe_stale ≡ true)))
          × (¬ (Live f × (f.desired ≡ stopped)))
          × ((warmup ≡ true) ↔ Live f)
          × Verdict T f served_id_match)
  healthy_iff warmup served_id_match =
      let tests = healthy-tests warmup served_id_match in
      let answers = Answers-factors f in
      let live = job_live-Live f in
      let verdict = Verdict-id_match T f served_id_match in
      (
        λ e.
            let (known, up, stale, stopping, warm, ids) = tests.0 e in
            (
              known,
              answers.0 up,
              λ (off, old). absurd (ground (arith, off)),
              λ (running_job, off). absurd (ground (arith, off, live.1 running_job)),
              (λ w. live.0 (sym warm ∙ w), λ l. warm ∙ live.1 l),
              verdict.0 ids,
            ),
        λ (known, up, stale, stopping, warm, ids). tests.1 (
          known,
          answers.1 up,
          elim (Bool-cases (is_stopped f.desired && f.probe_stale)) [
            | inl old ↦ absurd (stale (ground arith, ground arith))
            | inr fresh ↦ fresh
          ],
          elim (Bool-cases (job_live f.job && is_stopped f.desired)) [
            | inl ending ↦ absurd (stopping (live.0 (ground arith), ground arith))
            | inr goes_on ↦ goes_on
          ],
          elim (Bool-cases warmup) [
            | inl w ↦ w ∙ sym (live.1 (warm.0 w))
            | inr w ↦ elim (Bool-cases (job_live f.job)) [
              | inl l ↦ absurd (ground (arith, warm.1 (live.0 l)))
              | inr l ↦ w ∙ sym l
            ]
          ],
          verdict.1 ids,
        ),
      )

  -- A deployment is failed with an exit code exactly when it is wanted running, its last job failed or
  -- was interrupted with that code, and nothing of it is seen: it is not orphaned, its interface does
  -- not answer, none of its containers runs, and the probe itself did not fail.
  pub failed_iff :
      (exit_code : Option ℤ)
      → (join_serve_state T f ≡ failed exit_code) ↔ (
          (f.orphaned ≡ false)
          × (api_up T f ≡ false)
          × (any_rank_running f.ranks ≡ false)
          × (all_probe_error f.probe ≡ false)
          × (is_stopped f.desired ≡ false)
          × (job_failed f.job ≡ true)
          × (exit_code ≡ exit_of f.job))
  unfolding join_serve_state
  failed_iff exit_code = (
    λ e. (
      ground arith,
      ground arith,
      ground arith,
      ground arith,
      ground arith,
      ground arith,
      ground arith,
    ),
    λ (a, b, c, d, e, g, h). ground arith,
  )
