-- ===== src/Arms/Content.antt =====
-- The size of a response's content (protocol.go).
use emm_go_script.Common.{
  ltb, leb, if◌then◌else◌, Bool-cases, length, take, length-append, length-take, string_eq, nat_eq,
  ◌==◌, Int64, int_min, is_neg, ℕ, zero, suc, ◌+◌, ◌-◌, ◌≤◌, ◌<◌, ◌≡◌, refl, ap, ◌∙◌, ◌⊎◌, inl, inr,
  true, false, some, [], ◌∷◌, ◌++◌, arith,
}
use emm_go_script.Arms.{Bytes, fill, default_seed, response_content}

fill-step :
    (fuel size : ℕ) (seed content : Bytes)
    → length content < size
    → (next : Bytes) × (fill (suc fuel) size seed content ≡ fill fuel size seed next)
      × ((next ≡ content ++ seed) × (length content + length seed ≤ size)
          ⊎ (next ≡ content ++ take (size - length content) seed)
            × (size < length content + length seed))
unfolding fill
fill-step fuel size seed content h =
    let open_test : ltb (length content) size ≡ true = ground arith in
    elim (Bool-cases (leb (length seed) (size - length content))) [
      | inl e ↦ (content ++ seed, rw (open_test, e) refl, inl (refl, ground arith))
      | inr e ↦ (
        content ++ take (size - length content) seed,
        rw (open_test, e) refl,
        inr (refl, ground arith),
      )
    ]

length-fill :
    (fuel size : ℕ) (seed content : Bytes)
    → 1 ≤ length seed
    → length content ≤ size
    → size - length content ≤ fuel
    → length (fill fuel size seed content) ≡ size
length-fill zero size seed content s l e = unfold fill in omega arith
length-fill (suc fuel) size seed content s l e = elim (Bool-cases (ltb (length content) size)) [
  | inr t ↦ unfold fill in rw t (ground arith)
  | inl t ↦
      let (next, same, grown) = fill-step fuel size seed content (ground arith) in
      rw same (elim grown [
        | inl (q, fits) ↦
            length-fill fuel size seed next s
              (omega (arith, ap length q, length-append content seed))
              (omega (arith, ap length q, length-append content seed))
        | inr (q, cut) ↦
            let part = take (size - length content) seed in
            let added : length next ≡ length content + length part =
              ap length q ∙ length-append content part in
            let filled : length part ≡ size - length content =
              omega (arith, length-take (size - length content) seed) in
            length-fill fuel size seed next s (omega (arith, added, filled))
              (omega (arith, added, filled))
      ])
]

seed_some : (body : Bytes) → 1 ≤ length (if length body == 0 then default_seed else body)
seed_some [] = omega arith
seed_some (b ∷ bs) = ground arith

-- A content of any positive size is made, and it has exactly the size that is configured, whatever body is repeated for it.
pub length-response_content :
    (body : Bytes) (size : Int64)
    → 1 ≤ size
    → size < int_min
    → (content : Bytes) × (response_content body size ≡ some content) × (length content ≡ size)
unfolding response_content
length-response_content body size h g =
    let seed = if length body == 0 then default_seed else body in
    let sized : (size == 0) ≡ false = ground arith in
    let natural : is_neg size ≡ false = ground arith in
    let some_seed : 1 ≤ length seed = seed_some body in
    (
      fill size size seed [],
      rw (sized, natural) refl,
      length-fill size size seed [] some_seed (omega arith) (omega arith),
    )
