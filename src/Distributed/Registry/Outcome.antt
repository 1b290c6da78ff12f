-- ===== src/Distributed/Registry/Outcome.antt =====
-- The life of a run: when it starts, what its end records, and that its record then stays.
use text.Mathlib.TextEquality.{eq_iff}
use emm_go_script.Common.{
  Option-cases, length, ok, err, ok-injective, ◌==◌, nat_eq, string_eq, mem, lookup, string_cases,
  String, ◌≡◌, sym, ap, ◌∙◌, ◌≢◌, ◌⊎◌, inl, inr, Bool, true, false, none, some, [], arith,
}
use emm_go_script.Distributed.Request.{RunRequest, validate_run_request}
use emm_go_script.Distributed.Registry.{
  RunStatus, running, cancelled, RunRecord, Registry, RegistryError, StatusResponse, outcome,
  is_live, admit, start, report_run, finish, status_of, request_cancel, cancel,
}
use emm_go_script.Distributed.Registry.Entries.{lookup-update_self, lookup-update_ne, lookup-All}
use emm_go_script.Distributed.Registry.Invariant.{
  Step, starts, cancels, finishes, parent_ends, IsEntry, Inv, start_cases, executing-active,
  finish_lem, cancel_cases, Step-Inv,
}

running-ne-ended : (s : RunStatus) → s ≡ running → is_live s ≡ false → ⊥
unfolding is_live
running-ne-ended s live ended = ground arith

module _ {D : Type 0} where
  -- A valid request whose ID is new is accepted by an agent that has no goroutine left, and becomes the active run.
  pub start_idle :
      (r : Registry D) (q : RunRequest)
      → Inv r
      → validate_run_request q r.capabilities ≡ ok tt
      → lookup q.run_id r.runs ≡ none
      → r.executing ≡ []
      → (start r q).0
        ≡ ok (record { run_id = q.run_id; accepted = length q.jobs; status = running })
  unfolding start admit
  start_idle r q v valid fresh idle =
      let no_run : (r.active == "") ≡ true = ground (arith, v.one_goroutine) in ground arith

  -- While a goroutine has not ended, every request is refused, and the registry stays as it was.
  pub start_busy :
      (r : Registry D) (q : RunRequest)
      → Inv r
      → r.executing ≢ []
      → (e : RegistryError) × (start r q ≡ (err e, r))
  start_busy r q v busy = elim (start_cases r q) [
    | inl h ↦ h
    | inr (_, _, idle, _) ↦ absurd (busy (v.one_goroutine ∙ ground (arith, eq_iff r.active "")))
  ]

  -- The end of a run, in one place: a request to cancel it, or a cancelled context, comes before an error.
  pub finish-lookup :
      (r : Registry D) (id : String) (exec_failed : Bool) (detail : D) (rec : RunRecord D)
      → lookup id r.runs ≡ some rec
      → lookup id (finish r id exec_failed detail).runs
        ≡ some (report_run id r.parent_cancelled exec_failed detail rec)
  unfolding finish
  finish-lookup r id exec_failed detail rec e =
      lookup-update_self id (report_run id r.parent_cancelled exec_failed detail) r.runs e

  cancel_found :
      (r : Registry D) (id : String) (rec : RunRecord D)
      → lookup id r.runs ≡ some rec
      → rec.status ≡ running
      → ((cancel r id).0 ≡ ok (record { run_id = id; status = cancelled }))
        × (lookup id (cancel r id).1.runs
            ≡ some (record rec { cancel_requested = true; ctx_cancelled = true }))
        × ((cancel r id).1.executing ≡ r.executing)
  unfolding cancel request_cancel is_live
  cancel_found r id rec e live = (
    ground arith,
    ground (arith, lookup-update_self id request_cancel r.runs {r = rec}),
    ground arith,
  )

  -- A run that is cancelled while it executes is answered `cancelled`, and whatever its executor then returns, it ends as
  -- `cancelled`, with a report that says so, even if the executor succeeded.
  pub finish-cancel :
      (r : Registry D) (id : String) (rec : RunRecord D) (exec_failed : Bool) (detail : D)
      → lookup id r.runs ≡ some rec
      → rec.status ≡ running
      → ((cancel r id).0 ≡ ok (record { run_id = id; status = cancelled }))
        × (status_of (finish (cancel r id).1 id exec_failed detail) id
            ≡ ok (record {
              run_id = id;
              status = cancelled;
              report = some (record { run_id = id; status = cancelled; detail = detail });
              error_text = rec.error_text;
            }))
  unfolding status_of report_run outcome
  finish-cancel r id rec exec_failed detail e live =
      let (answer, there, _) = cancel_found r id rec e live in
      (answer, ground (arith, finish-lookup (cancel r id).1 id exec_failed detail _ there))

  report_run-frees :
      (r : Registry D) (id : String) (exec_failed : Bool) (detail : D)
      → Inv r
      → mem id r.executing ≡ true
      → (finish r id exec_failed detail).executing ≡ []
  report_run-frees r id exec_failed detail v m = rw (finish_lem r id exec_failed detail v m)

  -- When a run's goroutine ends, the agent accepts any valid request whose ID is new: it never stays blocked.
  pub start-finish :
      (r : Registry D) (id : String) (exec_failed : Bool) (detail : D) (q : RunRequest)
      → Inv r
      → mem id r.executing ≡ true
      → validate_run_request q r.capabilities ≡ ok tt
      → lookup q.run_id (finish r id exec_failed detail).runs ≡ none
      → (start (finish r id exec_failed detail) q).0
        ≡ ok (record { run_id = q.run_id; accepted = length q.jobs; status = running })
  start-finish r id exec_failed detail q v m valid fresh =
      start_idle (finish r id exec_failed detail) q (Step-Inv (finishes id exec_failed detail m) v)
        (rw (finish_lem r id exec_failed detail v m) valid) fresh
        (report_run-frees r id exec_failed detail v m)

  request_cancel_ended : (rec : RunRecord D) → is_live rec.status ≡ false → request_cancel rec ≡ rec
  unfolding request_cancel
  request_cancel_ended rec h = rw h

  cancel-lookup_ended :
      (r : Registry D) (id j : String) (rec : RunRecord D)
      → lookup j r.runs ≡ some rec
      → is_live rec.status ≡ false
      → lookup j (cancel r id).1.runs ≡ some rec
  cancel-lookup_ended r id j rec e h = elim (cancel_cases r id) [
    | inl p ↦ rw p e
    | inr p ↦ elim (string_cases id j) [
      | inl same ↦
          rw (p, same)
            (lookup-update_self j request_cancel r.runs e ∙ ap some (request_cancel_ended rec h))
      | inr other ↦ rw p (lookup-update_ne id j request_cancel r.runs other ∙ e)
    ]
  ]

  start-lookup_old :
      (r : Registry D) (q : RunRequest) (j : String) (rec : RunRecord D)
      → lookup j r.runs ≡ some rec
      → lookup j (start r q).1.runs ≡ some rec
  start-lookup_old r q j rec e = elim (start_cases r q) [
    | inl (_, p) ↦ rw p e
    | inr (_, fresh, _, p) ↦ rw p (unfold lookup in ground (arith, eq_iff q.run_id j))
  ]

  active-running :
      (r : Registry D) (j : String) (rec : RunRecord D)
      → Inv r
      → lookup j r.runs ≡ some rec
      → j ≡ r.active
      → rec.status ≡ running
  active-running r j rec v e a = elim (lookup-All (IsEntry r.active) j r.runs v.entries e).1 [
    | inl (_, x) ↦ x.live
    | inr (n, _) ↦ absurd (n a)
  ]

  -- The record of a run that has ended is never written again: no later step, of this run or another, changes its status or its
  -- report, and its ID is never given to another run.
  pub Step-lookup_ended :
      {r s : Registry D} (j : String) (rec : RunRecord D)
      → Step r s
      → Inv r
      → lookup j r.runs ≡ some rec
      → is_live rec.status ≡ false
      → lookup j s.runs ≡ some rec
  Step-lookup_ended {r} j rec (starts q) v e h = start-lookup_old r q j rec e
  Step-lookup_ended {r} j rec (cancels id) v e h = cancel-lookup_ended r id j rec e h
  Step-lookup_ended {r} j rec (finishes id exec_failed detail m) v e h = elim (string_cases id j) [
    | inl same ↦
        let live = active-running r j rec v e (sym same ∙ (executing-active r id v m).0) in
        absurd (running-ne-ended rec.status live h)
    | inr other ↦ unfold finish in lookup-update_ne id j _ r.runs other ∙ e
  ]
  Step-lookup_ended j rec parent_ends v e h = e

  -- A registered run is either the one that executes or has ended: the answer to `Status` holds a report exactly where the
  -- status is not `running`, and the report then carries the run's ID and this status.
  pub status_of-IsReported :
      (r : Registry D) (id : String) {answer : StatusResponse D}
      → Inv r
      → status_of r id ≡ ok answer
      → (answer.status ≡ running) × (answer.report ≡ none)
        ⊎ (is_live answer.status ≡ false)
          × ((d : D) × (answer.report
                ≡ some (record { run_id = id; status = answer.status; detail = d })))
  unfolding status_of
  status_of-IsReported r id {answer} v e = elim (Option-cases (lookup id r.runs)) [
    | inl n ↦ absurd (ground arith)
    | inr (rec, l) ↦
        let same = ok-injective (rw (l, status_of) at e) in
        elim (lookup-All (IsEntry r.active) id r.runs v.entries l).1 [
          | inl (_, x) ↦ inl (rw (← same) (x.live, x.unreported))
          | inr (_, x) ↦ inr (rw (← same) (x.ended, x.reported))
        ]
  ]
