-- ===== src/Browser/Pool/Reached.antt =====
-- Every pool that the steps of `Run` and `Close`, in any order, lead to.
use mathlib.Core.List.{Perm, perm_middle}
use mathlib.Core.List.Perm
use emm_go_script.Common.{
  Bool-cases, length, length-append, length-set, Distinct, some-injective, string_eq, nat_eq, mem,
  Int64, lt_int, ℕ, zero, suc, ◌+◌, ◌*◌, ◌≤◌, ◌<◌, ◌≡◌, refl, sym, ap, ◌∙◌, subst, inl, inr, Bool,
  true, not, ◌||◌, Option, some, List, [], ◌∷◌, ◌++◌, append-nil, append_assoc, arith,
}
use emm_go_script.Common.Unique.{Distinct-perm, length-perm}
use emm_go_script.Browser.Pool.{
  Pool, at_least_one, slot_tokens, remove_slot, made_clients, new_pool, receive_from, receive,
  restart, release, close,
}
use emm_go_script.Browser.Pool.Tokens.{length-slot_tokens, slot_tokens-Distinct, remove_slot-perm}

Distinct-append_right : (xs ys : List ℕ) → Distinct (xs ++ ys) → Distinct ys
Distinct-append_right [] ys h = h
Distinct-append_right (x ∷ xs) ys h = Distinct-append_right xs ys h.1

mem-length : (a : ℕ) (xs : List ℕ) → mem a xs ≡ true → 1 ≤ length xs
unfolding mem
mem-length a [] h = cc
mem-length a (x ∷ xs) h = omega arith

module _ {K : Type 0} where
  -- A step of a call of `Run`, or a call of `Close` with the closing of the clients.
  pub data Step : Pool K → Pool K → Type 1 where
    received : {p p' : Pool K} (slot : ℕ) → receive p ≡ some (slot, p') → Step p p'
    restarted :
        {p : Pool K} (slot : ℕ) (failed cancelled : Bool) (replacement : Option K)
        → mem slot p.held ≡ true
        → Step p (restart slot failed cancelled replacement p)
    released : {p : Pool K} (slot : ℕ) → mem slot p.held ≡ true → Step p (release slot p)
    closed_by :
        {p : Pool K} {E : Type 0} (close_client : K → Option E) → Step p (close close_client p).1

  pub data Reach (size sessions : Int64) (made : ℕ → Option K) : Pool K → Type 1 where
    created : Reach size sessions made (new_pool size sessions made)
    next : {p p' : Pool K} → Reach size sessions made p → Step p p' → Reach size sessions made p'

  -- The slots in the channel and those received are the constructor's, and there is a client entry for each.
  record Inv (size sessions : Int64) (p : Pool K) : Type 0 where
    tokens :
        Perm (p.available ++ p.held) (slot_tokens (at_least_one sessions) 0 (at_least_one size))
    entries : length p.clients ≡ at_least_one size

  length-made_clients : (made : ℕ → Option K) (i n : ℕ) → length (made_clients made i n) ≡ n
  unfolding made_clients
  length-made_clients made i zero = refl
  length-made_clients made i (suc n) = ap suc (length-made_clients made (i + 1) n)

  receive-perm :
      (available : List ℕ) (p : Pool K) {slot : ℕ} {p' : Pool K}
      → receive_from available p ≡ some (slot, p')
      → Perm (p'.available ++ p'.held) (available ++ p.held) × (p'.clients ≡ p.clients)
  unfolding receive_from
  receive-perm [] p e = absurd (ground arith)
  receive-perm (s ∷ rest) p e =
      subst (λ z. Perm (z.1.available ++ z.1.held) (s ∷ rest ++ p.held) × (z.1.clients ≡ p.clients))
        (some-injective e) (perm_middle rest p.held, refl)

  close-keeps :
      {E : Type 0} (close_client : K → Option E) (p : Pool K)
      → ((close close_client p).1.available ++ (close close_client p).1.held
          ≡ p.available ++ p.held)
        × ((close close_client p).1.clients ≡ p.clients)
  unfolding close
  close-keeps close_client p = elim (Bool-cases p.closed) [
    | inl t ↦ rw (t, close) (refl, refl)
    | inr f ↦ rw (f, close) (refl, refl)
  ]

  receive-from :
      (p : Pool K) {slot : ℕ} {p' : Pool K}
      → receive p ≡ some (slot, p')
      → receive_from p.available p ≡ some (slot, p')
  unfolding receive
  receive-from p e = e

  Step-Inv :
      (size sessions : Int64) {p p' : Pool K}
      → Step p p'
      → Inv size sessions p
      → Inv size sessions p'
  unfolding restart release
  Step-Inv size sessions {p} {p'} (received slot e) i =
      let (same, clients) = receive-perm p.available p (receive-from p e) in
      record { tokens = Perm.trans same i.tokens; entries = ap length clients ∙ i.entries }
  Step-Inv size sessions {p} (restarted slot failed cancelled replacement h) i =
      elim (Bool-cases (not failed || (cancelled || lt_int 1 p.sessions_per_worker))) [
        | inl t ↦ rw (t, restart) i
        | inr f ↦
            rw (f, restart)
              (record {
                tokens = i.tokens;
                entries = length-set p.clients slot replacement ∙ i.entries;
              })
      ]
  Step-Inv size sessions {p} (released slot h) i = record {
    tokens =
        rw (append_assoc p.available (slot ∷ []) (remove_slot slot p.held))
          (Perm.trans (Perm.append_left p.available (remove_slot-perm slot p.held h)) i.tokens);
    entries = i.entries;
  }
  Step-Inv size sessions {p} (closed_by close_client) i =
      let (tokens_kept, clients_kept) = close-keeps close_client p in
      record {
        tokens =
            subst (λ z. Perm z (slot_tokens (at_least_one sessions) 0 (at_least_one size)))
              (sym tokens_kept) i.tokens;
        entries = ap length clients_kept ∙ i.entries;
      }

  Reach-Inv :
      (size sessions : Int64) (made : ℕ → Option K) {p : Pool K}
      → Reach size sessions made p
      → Inv size sessions p
  unfolding new_pool
  Reach-Inv size sessions made created = record {
    tokens =
        rw (append-nil (slot_tokens (at_least_one sessions) 0 (at_least_one size))) (Perm.refl _);
    entries = length-made_clients made 0 (at_least_one size);
  }
  Reach-Inv size sessions made (next r s) =
      Step-Inv size sessions s (Reach-Inv size sessions made r)

  -- Where a worker serves one session, no two calls of `Run` hold the same slot, so that a client serves one at a time.
  pub Reach-exclusive :
      (size sessions : Int64) (made : ℕ → Option K) {p : Pool K}
      → Reach size sessions made p
      → at_least_one sessions ≡ 1
      → Distinct p.held
  Reach-exclusive size sessions made {p} r one =
      let tokens =
        subst (λ s. Perm (p.available ++ p.held) (slot_tokens s 0 (at_least_one size))) one
          (Reach-Inv size sessions made r).tokens in
      Distinct-append_right p.available p.held
        (Distinct-perm tokens (slot_tokens-Distinct 0 (at_least_one size)))

  -- The deferred send of a call that holds a slot never blocks: the channel, which has the capacity of all the slots'
  -- sessions, is not full.
  pub Reach-send :
      (size sessions : Int64) (made : ℕ → Option K) {p : Pool K}
      → Reach size sessions made p
      → (slot : ℕ) → mem slot p.held ≡ true
      → length p.available < at_least_one size * at_least_one sessions
  Reach-send size sessions made {p} r slot h =
      let i = Reach-Inv size sessions made r in
      let total =
        length-perm i.tokens ∙ length-slot_tokens (at_least_one sessions) 0 (at_least_one size) in
      let some_held = mem-length slot p.held h in
      omega (arith, total, some_held, length-append p.available p.held)

  -- Nothing is lost: where no call of `Run` holds a slot, the channel holds the tokens that the constructor sent.
  Reach-idle :
      (size sessions : Int64) (made : ℕ → Option K) {p : Pool K}
      → Reach size sessions made p
      → p.held ≡ []
      → Perm p.available (slot_tokens (at_least_one sessions) 0 (at_least_one size))
  Reach-idle size sessions made {p} r none_held =
      subst (λ z. Perm z (slot_tokens (at_least_one sessions) 0 (at_least_one size)))
        (ap (λ h. p.available ++ h) none_held ∙ append-nil p.available)
        (Reach-Inv size sessions made r).tokens
