-- ===== src/Arms/Stats/Additions.antt =====
-- What additions come to, in any order (stats.go).
use mathlib.Core.List.{Perm, foldr}
use mathlib.Core.List.Perm
use native.Mathlib.Nat.{ℕ_set}
use emm_go_script.Common.{
  if◌then◌else◌, string_eq, nat_eq, ◌==◌, int_mod, ℕ, ◌+◌, ◌%◌, ◌<◌, ◌≡◌, refl, sym, ap, ◌∙◌, List,
  [], ◌∷◌, ◌++◌, arith,
}
use emm_go_script.Arms.Stats.{
  Counter, successful_transactions, failed_transactions, active_connections, connection_attempts,
  reconnects, connect_errors, timeout_errors, short_write_errors, io_errors, Stats, number_of,
  Addition, add, add_all,
}

-- What additions add to a counter, without the wrap-around.
unfoldable pub sum_of : Counter → List Addition → ℕ
unfolding number_of
sum_of c [] = 0
sum_of c (a ∷ rest) =
    let others = sum_of c rest in if number_of a.0 == number_of c then a.1 + others else others

pub add_all-sum_of :
    (c : Counter) (xs : List Addition) (s : Stats)
    → s c < int_mod
    → add_all xs s c ≡ (s c + sum_of c xs) % int_mod
unfolding add_all add sum_of
add_all-sum_of c [] s h = omega arith
add_all-sum_of c (a ∷ rest) s h =
    let later = add_all-sum_of c rest (add a s) (unfold add in ground arith) in
    later ∙ (unfold add sum_of in ground arith)

pub sum_of-append :
    (c : Counter) (xs ys : List Addition) → sum_of c (xs ++ ys) ≡ sum_of c xs + sum_of c ys
unfolding sum_of
sum_of-append c [] ys = omega arith
sum_of-append c (a ∷ xs) ys = ground (arith, sum_of-append c xs ys)

-- A change of a sum by one addition.
abbrev add_to : Counter → Addition → ℕ → ℕ
add_to c a n = if number_of a.0 == number_of c then a.1 + n else n

sum_of-foldr : (c : Counter) (xs : List Addition) → sum_of c xs ≡ foldr (add_to c) 0 xs
unfolding sum_of
sum_of-foldr c [] = refl
sum_of-foldr c (a ∷ xs) = ap (add_to c a) (sum_of-foldr c xs)

add_to_comm :
    (c : Counter) (a b : Addition) (n : ℕ) → add_to c a (add_to c b n) ≡ add_to c b (add_to c a n)
add_to_comm c a b n = ground arith

pub sum_of-perm : (c : Counter) {xs ys : List Addition} → Perm xs ys → sum_of c xs ≡ sum_of c ys
sum_of-perm c {xs} {ys} p =
    sum_of-foldr c xs ∙ Perm.foldr-eq ℕ_set (add_to c) (add_to_comm c) p 0 ∙ sym (sum_of-foldr c ys)

-- What additions come to: the first connections, what is added to the active connections, the transactions, and the heartbeats
-- that were not written.
pub record Sums (xs : List Addition) (first opened sent lost : ℕ) : Type 0 where
  pub dials :
      sum_of connection_attempts xs ≡ sum_of connect_errors xs + sum_of reconnects xs + first
  pub connections : sum_of active_connections xs ≡ opened
  pub ended : sum_of successful_transactions xs + sum_of failed_transactions xs ≡ sent
  pub errors :
      sum_of timeout_errors xs + sum_of short_write_errors xs + sum_of io_errors xs
      ≡ sum_of failed_transactions xs + lost

pub Sums-append :
    (xs ys : List Addition) {first opened sent lost first' opened' sent' lost' : ℕ}
    → Sums xs first opened sent lost
    → Sums ys first' opened' sent' lost'
    → Sums (xs ++ ys) (first + first') (opened + opened') (sent + sent') (lost + lost')
Sums-append xs ys h g = record {
  dials = omega (
    arith,
    h.dials,
    g.dials,
    sum_of-append connection_attempts xs ys,
    sum_of-append connect_errors xs ys,
    sum_of-append reconnects xs ys,
  );
  connections = omega (arith, h.connections, g.connections, sum_of-append active_connections xs ys);
  ended = omega (
    arith,
    h.ended,
    g.ended,
    sum_of-append successful_transactions xs ys,
    sum_of-append failed_transactions xs ys,
  );
  errors = omega (
    arith,
    h.errors,
    g.errors,
    sum_of-append timeout_errors xs ys,
    sum_of-append short_write_errors xs ys,
    sum_of-append io_errors xs ys,
    sum_of-append failed_transactions xs ys,
  );
}

-- The same amounts, written otherwise.
pub Sums-same :
    {xs : List Addition} {first opened sent lost first' opened' sent' lost' : ℕ}
    → Sums xs first opened sent lost
    → first ≡ first'
    → opened ≡ opened'
    → sent ≡ sent'
    → lost ≡ lost'
    → Sums xs first' opened' sent' lost'
Sums-same h a b c d = record {
  dials = omega (arith, h.dials);
  connections = omega (arith, h.connections);
  ended = omega (arith, h.ended);
  errors = omega (arith, h.errors);
}
