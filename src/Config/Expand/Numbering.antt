-- ===== src/Config/Expand/Numbering.antt =====
-- The jobs of `Config.Expand`: their IDs, and that none is bound yet.
use mathlib.Core.List.{map-append}
use emm_go_script.Common.{
  Bool-cases, length, length-append, All, All-append, ok, >>=-eq-ok, guard-eq-ok, ◌==◌, nat_eq,
  string_eq, mem, lt_int, ℕ, zero, suc, ◌+◌, ◌≡◌, refl, subst, ◌⊎◌, inl, inr, true, List, [], ◌∷◌,
  ◌++◌, map, arith,
}
use emm_go_script.Config.Expand.{
  check_counts, count_of, modes_of, new_job, add_jobs, add_protocol, add_protocols, expand,
}
use emm_go_script.Config.{Protocol, ExecutionMode, direct, browser, protocol_order, Config, Job}

-- n, n + 1, …, k numbers.
unfoldable pub count_up : ℕ → ℕ → List ℕ
count_up n zero = []
count_up n (suc k) = n ∷ count_up (n + 1) k

-- What holds of each job that `expand` makes.
pub record IsFresh (j : Job) : Type 0 where
  pub known_protocol : mem j.protocol protocol_order ≡ true
  pub known_mode : (j.mode ≡ direct) ⊎ (j.mode ≡ browser)
  pub no_asset : j.asset_id ≡ ""
  pub no_account : j.account_id ≡ ""

-- The rule for a property of the job list: what each `append` keeps, the whole run keeps.
module _ {ℓ} (P : List Job → Type ℓ)
    (keep : (p : Protocol) (m : ExecutionMode) (jobs : List Job)
      → mem p protocol_order ≡ true
      → (m ≡ direct) ⊎ (m ≡ browser)
      → P jobs
      → P (jobs ++ new_job (length jobs) p m ∷ [])) where
  add_jobs_inv :
      (n : ℕ) (p : Protocol) (m : ExecutionMode) (jobs : List Job)
      → mem p protocol_order ≡ true
      → (m ≡ direct) ⊎ (m ≡ browser)
      → P jobs
      → P (add_jobs n p m jobs)
  unfolding add_jobs
  add_jobs_inv zero p m jobs kp km h = h
  add_jobs_inv (suc n) p m jobs kp km h =
      add_jobs_inv n p m (jobs ++ new_job (length jobs) p m ∷ []) kp km (keep p m jobs kp km h)

  add_protocol_inv :
      (c : Config) (p : Protocol) (jobs : List Job) {out : List Job}
      → mem p protocol_order ≡ true
      → add_protocol c p jobs ≡ ok out
      → P jobs
      → P out
  unfolding add_protocol
  add_protocol_inv c p jobs {out} kp e h = elim (Bool-cases (count_of c p == 0)) [
    | inl z ↦ subst P (ground arith) h
    | inr z ↦
        let (m, _, e') = >>=-eq-ok (modes_of c p (count_of c p)) _ (rw (z, add_protocol) at e) in
        subst P (ground arith) (
          add_jobs_inv m.direct_count p direct _ kp (inl refl)
            (add_jobs_inv m.browser_count p browser jobs kp (inr refl) h))
  ]

  add_protocols_inv :
      (c : Config) (ps : List Protocol) (jobs : List Job) {out : List Job}
      → All (λ p. mem p protocol_order ≡ true) ps
      → add_protocols c ps jobs ≡ ok out
      → P jobs
      → P out
  unfolding add_protocols
  add_protocols_inv c [] jobs kp e h = subst P (ground arith) h
  add_protocols_inv c (p ∷ ps) jobs {out} kp e h =
      let (jobs', e', e2) = >>=-eq-ok (add_protocol c p jobs) _ e in
      add_protocols_inv c ps jobs' kp.1 e2 (add_protocol_inv c p jobs kp.0 e' h)

  expand_inv : (c : Config) {jobs : List Job} → expand c ≡ ok jobs → P [] → P jobs
  unfolding expand
  expand_inv c e h =
      let (_, e') = guard-eq-ok (lt_int 0 c.total) _ _ e in
      let (sum, _, e2) = >>=-eq-ok (check_counts c.protocols 0) _ e' in
      let (_, e3) = guard-eq-ok (sum == c.total) _ _ e2 in
      add_protocols_inv c protocol_order []
        (unfold mem in (refl, (refl, (refl, (refl, (refl, tt)))))) e3 h

abbrev IsNumbered : List Job → Type 0
IsNumbered jobs = map (λ j. j.id) jobs ≡ count_up 1 (length jobs)

count_up-snoc : (n k : ℕ) → count_up n k ++ (n + k) ∷ [] ≡ count_up n (suc k)
unfolding count_up
count_up-snoc n zero = ground arith
count_up-snoc n (suc k) = ground (arith, count_up-snoc (n + 1) k)

IsNumbered-keep :
    (p : Protocol) (m : ExecutionMode) (jobs : List Job)
    → IsNumbered jobs
    → IsNumbered (jobs ++ new_job (length jobs) p m ∷ [])
unfolding new_job
IsNumbered-keep p m jobs h = ground (
  arith,
  count_up-snoc 1 (length jobs),
  map-append (λ (j : Job). j.id) jobs (new_job (length jobs) p m ∷ []),
  length-append jobs (new_job (length jobs) p m ∷ []),
)

-- The jobs of a scenario are numbered 1, 2, …, in the order of the list.
pub expand-numbered :
    (c : Config) {jobs : List Job}
    → expand c ≡ ok jobs
    → map (λ j. j.id) jobs ≡ count_up 1 (length jobs)
unfolding count_up
expand-numbered c e =
    expand_inv IsNumbered (λ p m jobs kp km h. IsNumbered-keep p m jobs h) c e refl

IsFresh-new_job :
    (n : ℕ) (p : Protocol) (m : ExecutionMode)
    → mem p protocol_order ≡ true
    → (m ≡ direct) ⊎ (m ≡ browser)
    → IsFresh (new_job n p m)
unfolding new_job
IsFresh-new_job n p m kp km = record {
  known_protocol = kp;
  known_mode = km;
  no_asset = refl;
  no_account = refl;
}

-- Each has a known protocol and mode, and no asset or account yet.
pub expand-IsFresh : (c : Config) {jobs : List Job} → expand c ≡ ok jobs → All IsFresh jobs
expand-IsFresh c e =
    expand_inv (All IsFresh)
      (λ p m jobs kp km h.
        All-append IsFresh jobs (new_job (length jobs) p m ∷ []) h
          (IsFresh-new_job (length jobs) p m kp km, tt))
      c e tt
