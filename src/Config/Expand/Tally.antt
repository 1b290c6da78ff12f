-- ===== src/Config/Expand/Tally.antt =====
-- How many jobs `Config.Expand` makes for each protocol and mode, against the counts of the scenario.
use text.Mathlib.TextEquality.{eq_iff}
use emm_go_script.Common.{
  if◌then◌else◌, Bool-cases, length, All, Distinct, ok, >>=-eq-ok, guard-eq-ok, get_or, string_eq,
  nat_eq, ◌==◌, ==_iff, mem, lookup, int_mod, lt_int, ℕ, zero, suc, ◌+◌, ◌<◌, ◌≡◌, refl, ◌≢◌, inl,
  inr, true, false, ◌&&◌, List, [], ◌∷◌, ◌++◌, arith,
}
use emm_go_script.Config.{
  Protocol, ExecutionMode, ssh, rdp, vnc, web, mysql, direct, browser, protocol_order, ModeCounts,
  Config, Job,
}
use emm_go_script.Config.Expand.{
  check_counts, count_of, default_modes, modes_of, new_job, add_jobs, add_protocol, add_protocols,
  expand,
}

-- The number of jobs of a protocol in a mode.
unfoldable pub tally : Protocol → ExecutionMode → List Job → ℕ
tally q k [] = 0
tally q k (j ∷ js) = (if j.protocol == q && j.mode == k then 1 else 0) + tally q k js

pub tally-append :
    (q : Protocol) (k : ExecutionMode) (xs ys : List Job)
    → tally q k (xs ++ ys) ≡ tally q k xs + tally q k ys
unfolding tally
tally-append q k [] ys = omega arith
tally-append q k (x ∷ xs) ys = omega (arith, tally-append q k xs ys)

pub tally-one :
    (q : Protocol) (k : ExecutionMode) (n : ℕ) (p : Protocol) (m : ExecutionMode)
    → tally q k (new_job n p m ∷ []) ≡ (if p == q && m == k then 1 else 0)
unfolding tally new_job
tally-one q k n p m = omega arith

pub tally-add_jobs :
    (q : Protocol) (k : ExecutionMode) (n : ℕ) (p : Protocol) (m : ExecutionMode) (jobs : List Job)
    → tally q k (add_jobs n p m jobs) ≡ tally q k jobs + (if p == q && m == k then n else 0)
unfolding add_jobs
tally-add_jobs q k zero p m jobs = ground arith
tally-add_jobs q k (suc n) p m jobs = ground (
  arith,
  tally-add_jobs q k n p m (jobs ++ new_job (length jobs) p m ∷ []),
  tally-append q k jobs (new_job (length jobs) p m ∷ []),
  tally-one q k (length jobs) p m,
)

-- A protocol without mode counts runs direct, if it has a terminal or a database client, and in a browser otherwise.
unfoldable pub usual_modes : Protocol → ℕ → ModeCounts
usual_modes p n =
    if p == mysql
    then record { direct_count = n; browser_count = 0 }
    else if p == ssh
    then record { direct_count = n; browser_count = 0 }
    else record { direct_count = 0; browser_count = n }

default_modes-usual : (p : Protocol) (n : ℕ) → default_modes p n ≡ usual_modes p n
unfolding default_modes usual_modes
default_modes-usual p n = ground arith

-- The number of jobs that the scenario asks for, in each mode of a protocol: none without a count,
-- else the explicit modes, else all in the protocol's usual mode.
unfoldable pub share : Config → Protocol → ModeCounts
share c p =
    if count_of c p == 0
    then record { direct_count = 0; browser_count = 0 }
    else get_or (lookup p c.execution_modes) (usual_modes p (count_of c p))

unfoldable pub share_in : ExecutionMode → ModeCounts → ℕ
share_in k m = if direct == k then m.direct_count else if browser == k then m.browser_count else 0

pub modes_of-share :
    (c : Config) (p : Protocol) {m : ModeCounts}
    → (count_of c p == 0) ≡ false
    → modes_of c p (count_of c p) ≡ ok m
    → m ≡ share c p
unfolding modes_of share
modes_of-share c p z e = ground (arith, default_modes-usual p (count_of c p))

pub modes_of-sum :
    (c : Config) (p : Protocol) {m : ModeCounts}
    → count_of c p < int_mod
    → modes_of c p (count_of c p) ≡ ok m
    → m.direct_count + m.browser_count ≡ count_of c p
unfolding modes_of
modes_of-sum c p lt e = ground arith

pub share_zero :
    (c : Config) (p : Protocol) (k : ExecutionMode)
    → (count_of c p == 0) ≡ true
    → share_in k (share c p) ≡ 0
unfolding share_in share
share_zero c p k z = ground arith

pub tally-add_protocol :
    (c : Config) (p q : Protocol) (k : ExecutionMode) (jobs : List Job) {out : List Job}
    → add_protocol c p jobs ≡ ok out
    → tally q k out ≡ tally q k jobs + (if p == q then share_in k (share c p) else 0)
unfolding add_protocol share_in
tally-add_protocol c p q k jobs {out} e = elim (Bool-cases (count_of c p == 0)) [
  | inl z ↦ ground (arith, share_zero c p k z)
  | inr z ↦
      let (m, e1, e') = >>=-eq-ok (modes_of c p (count_of c p)) _ (rw (z, add_protocol) at e) in
      let s = modes_of-share c p z e1 in
      let with_browser = add_jobs m.browser_count p browser jobs in
      ground (
        arith,
        tally-add_jobs q k m.browser_count p browser jobs,
        tally-add_jobs q k m.direct_count p direct with_browser,
        eq_iff direct k,
        eq_iff browser k,
        eq_iff direct browser,
      )
]

-- The jobs of protocol `q` that a list of protocols brings.
pub sum_shares : Config → Protocol → ExecutionMode → List Protocol → ℕ
sum_shares c q k [] = 0
sum_shares c q k (p ∷ ps) = (if p == q then share_in k (share c p) else 0) + sum_shares c q k ps

pub tally-add_protocols :
    (c : Config) (q : Protocol) (k : ExecutionMode) (ps : List Protocol) (jobs : List Job)
    {out : List Job}
    → add_protocols c ps jobs ≡ ok out
    → tally q k out ≡ tally q k jobs + sum_shares c q k ps
unfolding add_protocols sum_shares
tally-add_protocols c q k [] jobs e = ground arith
tally-add_protocols c q k (p ∷ ps) jobs {out} e =
    let (jobs', e', e2) = >>=-eq-ok (add_protocol c p jobs) _ e in
    omega (arith, tally-add_protocol c p q k jobs e', tally-add_protocols c q k ps jobs' e2)

pub sum_shares-absent :
    (c : Config) (q : Protocol) (k : ExecutionMode) (ps : List Protocol)
    → All (λ p. q ≢ p) ps
    → sum_shares c q k ps ≡ 0
unfolding sum_shares
sum_shares-absent c q k [] h = refl
sum_shares-absent c q k (p ∷ ps) h = ground (arith, eq_iff p q, h.0, sum_shares-absent c q k ps h.1)

pub sum_shares-mem :
    (c : Config) (q : Protocol) (k : ExecutionMode) (ps : List Protocol)
    → mem q ps ≡ true
    → Distinct ps
    → sum_shares c q k ps ≡ share_in k (share c q)
unfolding sum_shares mem
sum_shares-mem c q k [] m d = cc
sum_shares-mem c q k (p ∷ ps) m d = elim (Bool-cases (q == p)) [
  | inl s ↦ let e = (==_iff q p).0 s in ground (arith, eq_iff p q, sum_shares-absent c p k ps d.0)
  | inr n ↦ ground (arith, eq_iff p q, eq_iff q p, sum_shares-mem c q k ps)
]

pub tally_nil : (q : Protocol) (k : ExecutionMode) → tally q k [] ≡ 0
unfolding tally
tally_nil q k = refl

pub protocol_order-Distinct : Distinct protocol_order
protocol_order-Distinct = (
  (
    (λ e. ground (arith, eq_iff ssh rdp)),
    (
      (λ e. ground (arith, eq_iff ssh vnc)),
      ((λ e. ground (arith, eq_iff ssh web)), ((λ e. ground (arith, eq_iff ssh mysql)), tt)),
    ),
  ),
  (
    (
      (λ e. ground (arith, eq_iff rdp vnc)),
      ((λ e. ground (arith, eq_iff rdp web)), ((λ e. ground (arith, eq_iff rdp mysql)), tt)),
    ),
    (
      ((λ e. ground (arith, eq_iff vnc web)), ((λ e. ground (arith, eq_iff vnc mysql)), tt)),
      (((λ e. ground (arith, eq_iff web mysql)), tt), (tt, tt)),
    ),
  ),
)

-- What a successful `expand` has checked and run.
pub expand-parts :
    (c : Config) {jobs : List Job}
    → expand c ≡ ok jobs
    → (check_counts c.protocols 0 ≡ ok c.total) × (add_protocols c protocol_order [] ≡ ok jobs)
unfolding expand
expand-parts c e =
    let (_, e1) = guard-eq-ok (lt_int 0 c.total) _ _ e in
    let (sum, s, e2) = >>=-eq-ok (check_counts c.protocols 0) _ e1 in
    let (t, e3) = guard-eq-ok (sum == c.total) _ _ e2 in (rw ((==_iff sum c.total).0 t) at s, e3)

-- For every protocol and mode, `expand` makes exactly the jobs that the scenario asks for: none for a protocol whose count
-- is 0 or missing, the explicit mode counts where the scenario has them, and otherwise the protocol's count in its usual mode.
pub expand-tally :
    (c : Config) (q : Protocol) (k : ExecutionMode) {jobs : List Job}
    → mem q protocol_order ≡ true
    → expand c ≡ ok jobs
    → tally q k jobs ≡ share_in k (share c q)
expand-tally c q k {jobs} m e = omega (
  arith,
  tally-add_protocols c q k protocol_order [] (expand-parts c e).1,
  sum_shares-mem c q k protocol_order m protocol_order-Distinct,
  tally_nil q k,
)
