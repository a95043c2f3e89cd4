-- ===== src/Automation/Validation/Cycle/Ends.antt =====
-- The search for cycles (src/lib/automation/graph-validation.ts) ends before its fuel: each level adds
-- the source of an edge to the identifiers that are being visited.
use provence.Prelude.{
  ℕ, zero, suc, ◌+◌, ◌≤◌, ◌<◌, ◌≡◌, refl, sym, subst, String, true, false, not, List, [], ◌∷◌,
  count_if, length, arith, eq_iff, Bool-cases, inl, inr, str_eq,
}
use provence.Automation.Graph.{AutomationEdge}
use provence.Automation.Validation.{has}
use provence.Automation.Validation.Cycle.{
  Search, cycle, clear, exhausted, ◌>>=◌, targets_of, each, has_cycle,
}

module _ (edges : List AutomationEdge) where
  -- The search has ended before its fuel.
  abbrev pub HasEnded : Search → Type 0
  HasEnded cycle = Unit
  HasEnded (clear visited) = Unit
  HasEnded exhausted = ⊥

  pub each-HasEnded :
      (search : String → List String → Search) (ids visited : List String)
      → (1 ≤ length ids → (id : String) (visited' : List String) → HasEnded (search id visited'))
      → HasEnded (each search ids visited)
  unfolding each
  each-HasEnded search [] visited h = tt
  each-HasEnded search (id ∷ ids) visited h =
      then_rest (search id visited) (h (omega arith) id visited)
        (λ a. each-HasEnded search ids a (λ _. h (omega arith)))
    where
      then_rest :
          (r : Search)
          → HasEnded r
          → ((a : List String) → HasEnded (each search ids a))
          → HasEnded (r >>= λ a. each search ids a)
      then_rest cycle p rest = tt
      then_rest (clear a) p rest = rest a
      then_rest exhausted p rest = p

  -- The edges whose source is not being visited.
  abbrev pub left : List String → List AutomationEdge → ℕ
  left visiting es = count_if (λ edge. not (has edge.source visiting)) es

  left-split :
      (id : String) (visiting : List String) (es : List AutomationEdge)
      → has id visiting ≡ false
      → left (id ∷ visiting) es + length (targets_of es id) ≡ left visiting es
  left-split id visiting [] h = refl
  left-split id visiting (edge ∷ es) h = elim (Bool-cases (str_eq edge.source id)) [
    | inl here ↦
        let same : edge.source ≡ id = ground (arith, here, eq_iff edge.source id) in
        let back : str_eq id edge.source ≡ true = ground (arith, same, eq_iff id edge.source) in
        let fresh : has edge.source visiting ≡ false =
          subst (λ i. has i visiting ≡ false) (sym same) h in
        let rest = left-split id visiting es h in rw (here, back, fresh) (omega (arith, rest))
    | inr there ↦
        let back : str_eq id edge.source ≡ false =
          ground (arith, there, eq_iff id edge.source, eq_iff edge.source id) in
        let rest = left-split id visiting es h in
        elim (Bool-cases (has edge.source visiting)) [
          | inl seen ↦ rw (there, back, seen) rest
          | inr fresh ↦ rw (there, back, fresh) (omega (arith, rest))
        ]
  ]

  pub has_cycle-HasEnded :
      (fuel : ℕ) (visiting : List String) (id : String) (visited : List String)
      → left visiting edges < fuel
      → HasEnded (has_cycle edges fuel visiting id visited)
  unfolding has_cycle
  has_cycle-HasEnded zero visiting id visited h = absurd (omega (arith, h))
  has_cycle-HasEnded (suc fuel) visiting id visited h = elim (Bool-cases (has id visiting)) [
    | inl loops ↦ rw loops tt
    | inr fresh ↦ elim (Bool-cases (has id visited)) [
      | inl known ↦ rw (fresh, known) tt
      | inr new ↦
          rw (fresh, new)
            (finish (each (has_cycle edges fuel (id ∷ visiting)) (targets_of edges id) visited) (
              each-HasEnded (has_cycle edges fuel (id ∷ visiting)) (targets_of edges id) visited
                (λ some_target next visited'.
                  has_cycle-HasEnded fuel (id ∷ visiting) next visited'
                    (omega (arith, h, some_target, left-split id visiting edges fresh)))))
    ]
  ]
    where
      finish : (r : Search) → HasEnded r → HasEnded (r >>= λ visited'. clear (id ∷ visited'))
      finish cycle p = tt
      finish (clear a) p = tt
      finish exhausted p = p
