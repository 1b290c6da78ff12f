-- ===== src/Arms/Stats/Writes.antt =====
-- The loop of `writePayload` (generator.go).
use emm_go_script.Common.{
  Bool-cases, string_eq, nat_eq, ◌==◌, ℕ, zero, suc, ◌+◌, ◌-◌, ◌≤◌, ◌≢◌, inl, inr, Option, none,
  some, arith,
}
use emm_go_script.Arms.Stats.{
  WriteError, Connection, Written, no_fuel, after_call, write_rest, write_payload,
}

after_call-total :
    (count : ℕ) (failure : Option WriteError) (later : Written)
    → (1 ≤ count → later ≢ no_fuel)
    → after_call count failure later ≢ no_fuel
unfolding after_call
after_call-total count (some e) later h = λ q. cc
after_call-total zero none later h = λ q. cc
after_call-total (suc count) none later h = h (omega arith)

write_rest-total :
    (connection : ℕ → Connection) (call fuel left : ℕ)
    → left ≤ fuel
    → write_rest connection call fuel left ≢ no_fuel
unfolding write_rest
write_rest-total connection call zero left h = ground arith
write_rest-total connection call (suc fuel) left h = elim (Bool-cases (left == 0)) [
  | inl e ↦ rw e (λ q. cc)
  | inr e ↦ rw e (
      after_call-total (connection call left).0 (connection call left).1 _ (λ more.
        write_rest-total connection (call + 1) fuel (left - (connection call left).0)
          (omega arith)))
]

-- `writePayload` ends whatever a connection answers: it does not run out of fuel.
pub write_payload-total :
    (connection : ℕ → Connection) (deadline : Option WriteError) (n : ℕ)
    → write_payload connection deadline n ≢ no_fuel
unfolding write_payload
write_payload-total connection none n = write_rest-total connection 0 n n (omega arith)
write_payload-total connection (some e) n = λ q. cc
