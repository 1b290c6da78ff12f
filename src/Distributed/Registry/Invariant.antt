-- ===== src/Distributed/Registry/Invariant.antt =====
-- What holds of an agent's registry after any sequence of calls and of goroutines that end.
use text.Mathlib.TextEquality.{eq_iff}
use emm_go_script.Common.{
  if◌then◌else◌, Bool-cases, Option-cases, length, set, All, Distinct, Result, ok, err,
  Result-cases, ◌==◌, nat_eq, string_eq, ==_iff, mem, lookup, lookup-cons_self, string_cases,
  String, ◌≡◌, refl, sym, ap, ◌∙◌, ◌≢◌, ◌⊎◌, inl, inr, Bool, true, false, none, some, List, [], ◌∷◌,
  arith,
}
use emm_go_script.Distributed.Request.{Capabilities, RunRequest, validate_run_request}
use emm_go_script.Distributed.Registry.{
  running, RunRecord, Registry, RegistryError, refused, run_exists, already_running, RunResponse,
  outcome, remove_one, is_live, new_registry, new_record, update, admit, start, report_run, finish,
  request_cancel, cancel,
}
use emm_go_script.Distributed.Request.Valid.{validate-run_id}
use emm_go_script.Distributed.Registry.Entries.{
  keys, keys-update, lookup-update_self, lookup-update_ne, lookup-absent, update-All,
}

-- One call of a method, the end of a run's goroutine, or the end of the parent context.
pub data Step {D : Type 0} (r : Registry D) : Registry D → Type 0 where
  starts : (q : RunRequest) → Step r (start r q).1
  cancels : (id : String) → Step r (cancel r id).1
  finishes :
      (id : String) (exec_failed : Bool) (detail : D)
      → mem id r.executing ≡ true
      → Step r (finish r id exec_failed detail)
  parent_ends : Step r (record r { parent_cancelled = true })

pub data Reach {D : Type 0} (c : Capabilities) : Registry D → Type 0 where
  created : Reach c (new_registry c)
  next : {r s : Registry D} → Reach c r → Step r s → Reach c s

-- A run that has ended: its report carries its ID and its status.
pub record IsReported {D : Type 0} (id : String) (rec : RunRecord D) : Type 0 where
  pub ended : is_live rec.status ≡ false
  pub reported :
      (d : D) × (rec.report ≡ some (record { run_id = id; status = rec.status; detail = d }))

pub record IsExecuting {D : Type 0} (rec : RunRecord D) : Type 0 where
  pub live : rec.status ≡ running
  pub unreported : rec.report ≡ none

module _ {D : Type 0} where
  abbrev pub IsEntry : String → String × RunRecord D → Type 0
  IsEntry active (id, rec) =
      (id ≢ "") × ((id ≡ active) × IsExecuting rec ⊎ (id ≢ active) × IsReported id rec)

-- At most one run executes: the active one. Every other run has ended and has its report.
pub record Inv {D : Type 0} (r : Registry D) : Type 0 where
  pub entries : All (IsEntry r.active) r.runs
  pub distinct : Distinct (keys r.runs)
  pub one_goroutine : r.executing ≡ (if r.active == "" then [] else r.active ∷ [])
  pub active_known : (r.active ≡ "") ⊎ ((rec : RunRecord D) × (lookup r.active r.runs ≡ some rec))

remove_one_only : (id : String) → remove_one id (id ∷ []) ≡ []
unfolding remove_one
remove_one_only id = ground (arith, eq_iff id id)

module _ {D : Type 0} where
  IsEntry-fresh :
      (active : String) (id : String)
      → active ≡ ""
      → id ≢ ""
      → (m : List (String × RunRecord D)) → All (λ k. id ≢ k) (keys m)
      → All (IsEntry active) m
      → All (IsEntry id) m
  IsEntry-fresh active id e h [] a v = tt
  IsEntry-fresh active id e h ((k, r) ∷ m) a v = (
    (
      v.0.0,
      elim v.0.1 [
        | inl (ka, x) ↦ absurd (v.0.0 (ka ∙ e))
        | inr (ka, x) ↦ inr ((λ p. a.0 (sym p)), x)
      ],
    ),
    IsEntry-fresh active id e h m a.1 v.1,
  )

  abbrev StartCases :
      Registry D → RunRequest → Result RegistryError RunResponse × Registry D → Type 0
  StartCases r q out =
      ((e : RegistryError) × (out ≡ (err e, r)))
      ⊎ (q.run_id ≢ "")
        × (lookup q.run_id r.runs ≡ none)
        × (r.active ≡ "")
        × (out ≡ (
          ok (record { run_id = q.run_id; accepted = length q.jobs; status = running }),
          record r {
            runs = (q.run_id, new_record) ∷ r.runs;
            active = q.run_id;
            executing = q.run_id ∷ r.executing;
          },
        ))

  admit_cases : (r : Registry D) (q : RunRequest) → q.run_id ≢ "" → StartCases r q (admit r q)
  unfolding admit
  admit_cases r q h = elim (Option-cases (lookup q.run_id r.runs)) [
    | inr (rec, e) ↦ inl (run_exists, rw (e, admit))
    | inl e ↦ elim (Bool-cases (r.active == "")) [
      | inl t ↦ inr (h, e, (==_iff r.active "").0 t, rw (e, admit) (rw t))
      | inr t ↦ inl (already_running, rw (e, admit) (rw t))
    ]
  ]

  -- What `start` does to the registry: nothing, or the new run becomes the active one.
  pub start_cases : (r : Registry D) (q : RunRequest) → StartCases r q (start r q)
  unfolding start
  start_cases r q = elim (Result-cases (validate_run_request q r.capabilities)) [
    | inr (e, v) ↦ inl (refused e, rw (v, start))
    | inl (tt, v) ↦ rw (v, start) (admit_cases r q (validate-run_id q r.capabilities v))
  ]

  start-Inv : (r : Registry D) (q : RunRequest) → Inv r → Inv (start r q).1
  unfolding new_record
  start-Inv r q v = elim (start_cases r q) [
    | inl (e, p) ↦ rw p v
    | inr (h, fresh, idle, p) ↦ rw p (record {
      entries = (
        (h, inl (refl, record { live = refl; unreported = refl })),
        IsEntry-fresh r.active q.run_id idle h r.runs (lookup-absent q.run_id r.runs fresh)
            v.entries,
      );
      distinct = (lookup-absent q.run_id r.runs fresh, v.distinct);
      one_goroutine = ground (arith, eq_iff q.run_id "", eq_iff r.active "", v.one_goroutine);
      active_known = inr (new_record, lookup-cons_self q.run_id new_record r.runs);
    })
  ]

  -- A goroutine that has not ended belongs to the active run.
  pub executing-active :
      (r : Registry D) (id : String)
      → Inv r
      → mem id r.executing ≡ true
      → (id ≡ r.active) × (r.active ≢ "")
  unfolding mem
  executing-active r id v m =
      let m' : mem id (if r.active == "" then [] else r.active ∷ []) ≡ true =
        rw v.one_goroutine at m in
      ground (arith, m', eq_iff id r.active, eq_iff r.active "")

  report_run-IsReported :
      (id : String) (parent_done exec_failed : Bool) (detail : D) (rec : RunRecord D)
      → IsReported id (report_run id parent_done exec_failed detail rec)
  unfolding report_run is_live outcome
  report_run-IsReported id parent_done exec_failed detail rec = record {
    ended = ground arith;
    reported = (detail, refl);
  }

  -- The end of a run frees the agent.
  pub finish_lem :
      (r : Registry D) (id : String) (exec_failed : Bool) (detail : D)
      → Inv r
      → mem id r.executing ≡ true
      → finish r id exec_failed detail ≡ record r {
        runs = update id (report_run id r.parent_cancelled exec_failed detail) r.runs;
        active = "";
        executing = [];
      }
  unfolding finish
  finish_lem r id exec_failed detail v m =
      let (here, set) = executing-active r id v m in
      let only : r.executing ≡ id ∷ [] = ground (arith, v.one_goroutine, eq_iff r.active "") in
      ground (arith, eq_iff r.active id, remove_one_only id, ap (remove_one id) only)

  finish-Inv :
      (r : Registry D) (id : String) (exec_failed : Bool) (detail : D)
      → mem id r.executing ≡ true
      → Inv r
      → Inv (finish r id exec_failed detail)
  finish-Inv r id exec_failed detail m v =
      let (here, set) = executing-active r id v m in
      rw (finish_lem r id exec_failed detail v m) (record {
        entries =
            update-All (IsEntry r.active) (IsEntry "") id _
              (λ rec h. (h.0, inr (h.0, report_run-IsReported id _ _ _ rec)))
              (λ k rec n h. (
                h.0,
                elim h.1 [ inl (ka, x) ↦ absurd (n (here ∙ sym ka)) | inr (ka, x) ↦ inr (h.0, x) ],
              ))
              r.runs v.distinct v.entries;
        distinct = rw keys-update v.distinct;
        one_goroutine = refl;
        active_known = inl refl;
      })

  request_cancel-same :
      (rec : RunRecord D)
      → ((request_cancel rec).status ≡ rec.status) × ((request_cancel rec).report ≡ rec.report)
  unfolding request_cancel
  request_cancel-same rec = ground arith

  request_cancel-IsEntry :
      (active k : String) (rec : RunRecord D)
      → IsEntry active (k, rec)
      → IsEntry active (k, request_cancel rec)
  request_cancel-IsEntry active k rec (h, c) =
      let (s, p) = request_cancel-same rec in
      (
        h,
        elim c [
          | inl (a, x) ↦ inl (a, record { live = s ∙ x.live; unreported = p ∙ x.unreported })
          | inr (a, x) ↦ inr (a, record { ended = rw s x.ended; reported = rw (s, p) x.reported })
        ],
      )

  -- What `cancel` does to the registry: nothing, or a write to the run's record.
  pub cancel_cases :
      (r : Registry D) (id : String)
      → ((cancel r id).1 ≡ r)
        ⊎ ((cancel r id).1 ≡ record r { runs = update id request_cancel r.runs })
  unfolding cancel
  cancel_cases r id = elim (Option-cases (lookup id r.runs)) [
    | inl e ↦ inl (rw (e, cancel))
    | inr (rec, e) ↦ inr (rw (e, cancel))
  ]

  cancelled-Inv :
      (r : Registry D) (id : String)
      → Inv r
      → Inv (record r { runs = update id request_cancel r.runs })
  cancelled-Inv r id v = record {
    entries =
        update-All (IsEntry r.active) (IsEntry r.active) id request_cancel
          (request_cancel-IsEntry r.active id) (λ k rec n h. h) r.runs v.distinct v.entries;
    distinct = rw keys-update v.distinct;
    one_goroutine = v.one_goroutine;
    active_known = elim v.active_known [
      | inl e ↦ inl e
      | inr (rec, e) ↦ elim (string_cases id r.active) [
        | inl p ↦
            inr (request_cancel rec, rw p (lookup-update_self r.active request_cancel r.runs e))
        | inr n ↦ inr (rec, lookup-update_ne id r.active request_cancel r.runs n ∙ e)
      ]
    ];
  }

  -- Every step keeps the invariant.
  pub Step-Inv : {r s : Registry D} → Step r s → Inv r → Inv s
  Step-Inv {r} (starts q) v = start-Inv r q v
  Step-Inv {r} (cancels id) v = elim (cancel_cases r id) [
    | inl e ↦ rw e v
    | inr e ↦ rw e (cancelled-Inv r id v)
  ]
  Step-Inv {r} (finishes id exec_failed detail m) v = finish-Inv r id exec_failed detail m v
  Step-Inv parent_ends v = record {
    entries = v.entries;
    distinct = v.distinct;
    one_goroutine = v.one_goroutine;
    active_known = v.active_known;
  }

  -- In every registry that calls, cancellations and goroutines that end lead to from a new one: no ID stands twice, the active
  -- run alone is executing and unreported, at most one goroutine has not ended and it is that run's, and every other run has
  -- ended with a report of its ID and status.
  pub Reach-Inv : {c : Capabilities} {r : Registry D} → Reach c r → Inv r
  unfolding new_registry
  Reach-Inv created = record {
    entries = tt;
    distinct = tt;
    one_goroutine = refl;
    active_known = inl refl;
  }
  Reach-Inv (next h s) = Step-Inv s (Reach-Inv h)
