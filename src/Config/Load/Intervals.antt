-- ===== src/Config/Load/Intervals.antt =====
-- What a scenario that `Config.Load` accepts satisfies.
use text.Mathlib.TextEquality.{eq_iff}
use emm_go_script.Common.{
  if◌then◌else◌, Bool-cases, Option-cases, All, ok, >>=-eq-ok, guard-eq-ok, ok-injective, ◌==◌,
  nat_eq, string_eq, lookup, Int64, int_mod, int_min, ◌%◌, ◌≤◌, ◌<◌, String, ◌≡◌, refl, subst, ◌≢◌,
  ◌⊎◌, inl, inr, true, ◌||◌, Option, none, some, List, [], ◌∷◌, arith,
}
use emm_go_script.Config.{Protocol, Config}
use emm_go_script.Config.Load.{
  LoadError, invalid_ramp, invalid_hold, invalid_ssh_interval, invalid_ssh_mode,
  invalid_graphical_protocol, invalid_graphical_interval, invalid_connect_retries, second, minute,
  is_graphical, valid_interval, valid_connect_retries, positive_duration, checked_interval,
  check_pam, ssh_interval, graphical_intervals, load, activity_interval,
}

-- Between a second and a minute, in whole seconds.
pub record IsInterval (i : Int64) : Type 0 where
  pub at_least_second : second ≤ i
  pub at_most_minute : i ≤ minute
  pub whole_seconds : i % second ≡ 0

pub record IsLoaded (c : Config) : Type 0 where
  pub ramp_positive : 0 < c.ramp
  pub ramp_signed : c.ramp < int_min
  pub hold_positive : 0 < c.hold
  pub hold_signed : c.hold < int_min
  pub ssh_every : IsInterval c.ssh_activity_interval
  pub graphical : All (λ e. IsInterval e.1) c.graphical_activity_intervals
  pub ssh_mode : (c.ssh_activity_mode ≡ "output") ⊎ (c.ssh_activity_mode ≡ "keepalive")
  pub retries : c.connect_retries ≤ 3
  pub seed_set : c.seed ≢ 0

valid_interval-IsInterval : (i : Int64) → i < int_mod → valid_interval i ≡ true → IsInterval i
unfolding valid_interval
valid_interval-IsInterval i fits v = ground arith

second-IsInterval : IsInterval second
second-IsInterval = omega arith

mode_cases :
    (m : String) → (m == "output" || m == "keepalive") ≡ true → (m ≡ "output") ⊎ (m ≡ "keepalive")
mode_cases m h = ground (arith, eq_iff m "output", eq_iff m "keepalive")

retries-le : (n : Int64) → n < int_mod → valid_connect_retries n ≡ true → n ≤ 3
unfolding valid_connect_retries
retries-le n fits h = ground arith

module _ (parse_duration : String → Option Int64) (request_scheme : String → Option String)
    (fits : (t : String) (d : Int64) → parse_duration t ≡ some d → d < int_mod) where
  checked_interval-IsInterval :
      (t : String) (e : LoadError) {i : Int64}
      → checked_interval parse_duration request_scheme t e ≡ ok i
      → IsInterval i
  unfolding checked_interval
  checked_interval-IsInterval t e {i} h = elim (Option-cases (parse_duration t)) [
    | inl n ↦ ground arith
    | inr (d, p) ↦ ground (arith, valid_interval-IsInterval d (fits t d p))
  ]

  positive_duration-pos :
      (t : String) (e : LoadError) {d : Int64}
      → positive_duration parse_duration request_scheme t e ≡ ok d
      → (0 < d) × (d < int_min)
  unfolding positive_duration
  positive_duration-pos t e {d} h = elim (Option-cases (parse_duration t)) [
    | inl n ↦ ground arith
    | inr (d', p) ↦ ground (arith, fits t d' p)
  ]

  ssh_interval-IsInterval :
      (t : String) {i : Int64} → ssh_interval parse_duration request_scheme t ≡ ok i → IsInterval i
  unfolding ssh_interval
  ssh_interval-IsInterval t {i} h =
      ground (arith, second-IsInterval, checked_interval-IsInterval t invalid_ssh_interval {i = i})

  graphical_intervals-IsInterval :
      (m : List (Protocol × String)) {is : List (Protocol × Int64)}
      → graphical_intervals parse_duration request_scheme m ≡ ok is
      → All (λ e. IsInterval e.1) is
  unfolding graphical_intervals
  graphical_intervals-IsInterval [] h = subst (All (λ e. IsInterval e.1)) (ok-injective h) tt
  graphical_intervals-IsInterval ((p, t) ∷ m) h =
      let (_, h1) = guard-eq-ok (is_graphical p) (invalid_graphical_protocol p) _ h in
      let (i, ei, h2) =
        >>=-eq-ok (checked_interval parse_duration request_scheme t (invalid_graphical_interval p))
          _ h1 in
      let (is, eis, h3) = >>=-eq-ok (graphical_intervals parse_duration request_scheme m) _ h2 in
      subst (All (λ e. IsInterval e.1)) (ok-injective h3) (
        checked_interval-IsInterval t (invalid_graphical_interval p) ei,
        graphical_intervals-IsInterval m eis,
      )

  seed_default : (s : Int64) → (if s == 0 then 1 else s) ≢ 0
  seed_default s = ground arith

  -- Where durations are 64-bit values, a scenario that `load` accepts has positive ramp and hold times, activity intervals
  -- of whole seconds between a second and a minute, a known SSH activity mode, at most three retries and a seed.
  pub load-IsLoaded :
      (c : Config) {out : Config}
      → c.connect_retries < int_mod
      → load parse_duration request_scheme c ≡ ok out
      → IsLoaded out
  unfolding load
  load-IsLoaded c {out} cr h =
      let (_, _, h1) = >>=-eq-ok (check_pam parse_duration request_scheme c.pam) _ h in
      let (r, er, h2) =
        >>=-eq-ok (positive_duration parse_duration request_scheme c.ramp_text invalid_ramp) _ h1 in
      let (d, ed, h3) =
        >>=-eq-ok (positive_duration parse_duration request_scheme c.hold_text invalid_hold) _ h2 in
      let (i, ei, h4) =
        >>=-eq-ok (ssh_interval parse_duration request_scheme c.ssh_activity_interval_text) _ h3 in
      let m : String = if c.ssh_activity_mode == "" then "output" else c.ssh_activity_mode in
      let (em, h5) = guard-eq-ok (m == "output" || m == "keepalive") invalid_ssh_mode _ h4 in
      let (g, eg, h6) =
        >>=-eq-ok
          (graphical_intervals parse_duration request_scheme c.graphical_activity_interval_text) _
          h5 in
      let (ec, h7) =
        guard-eq-ok (valid_connect_retries c.connect_retries) invalid_connect_retries _ h6 in
      subst IsLoaded (ok-injective h7) (record {
        ramp_positive = (positive_duration-pos c.ramp_text invalid_ramp er).0;
        ramp_signed = (positive_duration-pos c.ramp_text invalid_ramp er).1;
        hold_positive = (positive_duration-pos c.hold_text invalid_hold ed).0;
        hold_signed = (positive_duration-pos c.hold_text invalid_hold ed).1;
        ssh_every = ssh_interval-IsInterval c.ssh_activity_interval_text ei;
        graphical = graphical_intervals-IsInterval c.graphical_activity_interval_text eg;
        ssh_mode = mode_cases m em;
        retries = retries-le c.connect_retries cr ec;
        seed_set = seed_default c.seed;
      })

lookup-IsInterval :
    (p : Protocol) (m : List (Protocol × Int64))
    → All (λ e. IsInterval e.1) m
    → (lookup p m ≡ none) ⊎ ((i : Int64) × (lookup p m ≡ some i) × IsInterval i)
unfolding lookup
lookup-IsInterval p [] h = inl refl
lookup-IsInterval p ((q, i) ∷ m) h = elim (Bool-cases (q == p)) [
  | inl s ↦ rw (s, lookup) (inr (i, refl, h.0))
  | inr n ↦ rw (n, lookup) (lookup-IsInterval p m h.1)
]

-- The activity interval of every protocol, named in the scenario or not, is a number of whole seconds between a second and a
-- minute, in any scenario with the guarantees of `load`.
pub activity_interval-IsInterval :
    (c : Config) (p : Protocol) → IsLoaded c → IsInterval (activity_interval c p)
unfolding activity_interval
activity_interval-IsInterval c p v =
    ground (arith, lookup-IsInterval p c.graphical_activity_intervals v.graphical)
