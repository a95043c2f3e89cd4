-- ===== src/Automation/Validation/Cycle/Absent.antt =====
-- Where the nodes have an order, the search (src/lib/automation/graph-validation.ts) finds no cycle.
use provence.Prelude.{
  ℕ, zero, suc, ◌≡◌, sym, subst, String, false, List, [], ◌∷◌, All, arith, eq_iff, Bool-cases, inl,
  inr, str_eq,
}
use provence.Automation.Graph.{AutomationEdge}
use provence.Automation.Validation.{has}
use provence.Automation.Validation.Cycle.{
  Search, cycle, clear, exhausted, ◌>>=◌, targets_of, each, has_cycle,
}
use provence.Automation.Validation.Cycle.Visits.{IsIn, IsOrdered}

module _ (edges : List AutomationEdge) where
  -- The part of an order behind the last occurrence of an identifier.
  later_part :
      (order : List String) (id : String)
      → IsOrdered edges order
      → IsIn order id
      → (rest : List String) × IsOrdered edges rest
        × All (IsIn rest) (targets_of edges id)
        × (has id rest ≡ false)
        × ((i : String) → IsIn rest i → IsIn order i)
  later_part [] id o m = absurd (ground arith)
  later_part (first ∷ order) id (targets, o) m = elim (Bool-cases (has id order)) [
    | inl again ↦
        let (rest, o', t, out, k) = later_part order id o again in
        (rest, o', t, out, λ i v. ground (arith, k i v))
    | inr last ↦
        let same : first ≡ id = ground (arith, m, last, eq_iff first id) in
        (order, o, rw (sym same) targets, last, λ i v. ground (arith, v))
  ]

  abbrev pub NoCycle : Search → Type 0
  NoCycle cycle = ⊥
  NoCycle (clear visited) = Unit
  NoCycle exhausted = Unit

  pub each-NoCycle :
      (search : String → List String → Search) (order ids visited : List String)
      → ((id : String) (visited' : List String) → IsIn order id → NoCycle (search id visited'))
      → All (IsIn order) ids
      → NoCycle (each search ids visited)
  unfolding each
  each-NoCycle search order [] visited step h = tt
  each-NoCycle search order (id ∷ ids) visited step (h, hs) =
      then_rest (search id visited) (step id visited h)
        (λ a. each-NoCycle search order ids a step hs)
    where
      then_rest :
          (r : Search)
          → NoCycle r
          → ((a : List String) → NoCycle (each search ids a))
          → NoCycle (r >>= λ a. each search ids a)
      then_rest cycle p rest = p
      then_rest (clear a) p rest = rest a
      then_rest exhausted p rest = tt

  apart_step :
      (id : String) (visiting order rest : List String)
      → has id rest ≡ false
      → ((i : String) → IsIn rest i → IsIn order i)
      → ((i : String) → IsIn visiting i → has i order ≡ false)
      → (i : String) → IsIn (id ∷ visiting) i
      → has i rest ≡ false
  apart_step id visiting order rest out kept apart i v = elim (Bool-cases (has i rest)) [
    | inr not_there ↦ not_there
    | inl there ↦ elim (Bool-cases (str_eq id i)) [
      | inl here ↦
          let same : id ≡ i = ground (arith, here, eq_iff id i) in
          subst (λ j. has j rest ≡ false) same out
      | inr other ↦
          let far = apart i (ground (arith, v, other)) in
          let near = kept i there in absurd (ground (arith, far, near))
    ]
  ]

  pub has_cycle-NoCycle :
      (fuel : ℕ) (visiting : List String) (id : String) (visited order : List String)
      → IsOrdered edges order
      → IsIn order id
      → ((i : String) → IsIn visiting i → has i order ≡ false)
      → NoCycle (has_cycle edges fuel visiting id visited)
  unfolding has_cycle
  has_cycle-NoCycle zero visiting id visited order o m apart = tt
  has_cycle-NoCycle (suc fuel) visiting id visited order o m apart =
      elim (Bool-cases (has id visiting)) [
        | inl loops ↦ absurd (let out = apart id loops in ground (arith, out, m))
        | inr fresh ↦ elim (Bool-cases (has id visited)) [
          | inl known ↦ rw (fresh, known) tt
          | inr new ↦
              let (rest, o', targets, out, kept) = later_part order id o m in
              rw (fresh, new)
                (finish (each (has_cycle edges fuel (id ∷ visiting)) (targets_of edges id) visited)
                  (each-NoCycle (has_cycle edges fuel (id ∷ visiting)) rest (targets_of edges id)
                    visited
                    (λ next visited' m'.
                      has_cycle-NoCycle fuel (id ∷ visiting) next visited' rest o' m'
                        (apart_step id visiting order rest out kept apart))
                    targets))
        ]
      ]
    where
      finish : (r : Search) → NoCycle r → NoCycle (r >>= λ visited'. clear (id ∷ visited'))
      finish cycle p = p
      finish (clear a) p = tt
      finish exhausted p = tt
