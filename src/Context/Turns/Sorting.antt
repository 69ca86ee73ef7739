-- ===== src/Context/Turns/Sorting.antt =====
-- The order of the turns in router/src/providers/context-provider.ts: by their index, and turns of
-- one index as they were.
use local_llms.Base.{
  ℕ, ◌≤◌, ◌≡◌, ◌==◌, refl, ap, ◌∙◌, false, List, [], ◌∷◌, leb, All, Bool-cases, inl, inr, arith,
  if◌then◌else◌,
}
use local_llms.Context.Turns.{Turn, insert_turn, sorted_history}

module _ {J : Type 0} where
  abbrev IsBefore : Turn J → List (Turn J) → Type 0
  IsBefore t us = All (λ u. t.turn_index ≤ u.turn_index) us

  abbrev pub IsAscending : List (Turn J) → Type 0
  IsAscending [] = Unit
  IsAscending (t ∷ ts) = IsBefore t ts × IsAscending ts

  -- The turns of one index, in their order.
  abbrev pub at_index : ℕ → List (Turn J) → List (Turn J)
  at_index i [] = []
  at_index i (t ∷ ts) = let rest = at_index i ts in if t.turn_index == i then t ∷ rest else rest

  -- The same turns by their index, and those of one index in the order that they had.
  abbrev pub IsSortOf : List (Turn J) → List (Turn J) → Type 0
  IsSortOf history turns = IsAscending turns × ((i : ℕ) → at_index i turns ≡ at_index i history)

  IsBefore-trans :
      (t u : Turn J) (us : List (Turn J))
      → t.turn_index ≤ u.turn_index
      → IsBefore u us
      → IsBefore t us
  IsBefore-trans t u [] l h = tt
  IsBefore-trans t u (v ∷ us) l (k, h) = (omega (arith, l, k), IsBefore-trans t u us l h)

  insert_turn-IsBefore :
      (t u : Turn J) (us : List (Turn J))
      → u.turn_index ≤ t.turn_index
      → IsBefore u us
      → IsBefore u (insert_turn t us)
  insert_turn-IsBefore t u [] l h = (l, tt)
  insert_turn-IsBefore t u (v ∷ us) l (k, h) = elim (Bool-cases (leb t.turn_index v.turn_index)) [
    | inl c ↦ rw c (l, (k, h))
    | inr c ↦ rw c (k, insert_turn-IsBefore t u us l h)
  ]

  insert_turn-IsAscending :
      (t : Turn J) (us : List (Turn J)) → IsAscending us → IsAscending (insert_turn t us)
  insert_turn-IsAscending t [] h = (tt, tt)
  insert_turn-IsAscending t (u ∷ us) (b, h) = elim (Bool-cases (leb t.turn_index u.turn_index)) [
    | inl c ↦
        let l : t.turn_index ≤ u.turn_index = ground arith in
        rw c ((l, IsBefore-trans t u us l b), (b, h))
    | inr c ↦
        let l : u.turn_index ≤ t.turn_index = ground arith in
        rw c (insert_turn-IsBefore t u us l b, insert_turn-IsAscending t us h)
  ]

  at_index-insert_turn :
      (i : ℕ) (t : Turn J) (us : List (Turn J))
      → at_index i (insert_turn t us) ≡ at_index i (t ∷ us)
  at_index-insert_turn i t [] = refl
  at_index-insert_turn i t (u ∷ us) =
      let ih = at_index-insert_turn i t us in
      let rest = at_index i us in
      elim (Bool-cases (leb t.turn_index u.turn_index)) [
        | inl c ↦ rw c refl
        | inr c ↦ elim (Bool-cases (t.turn_index == i)) [
          | inl x ↦
              let y : (u.turn_index == i) ≡ false = ground arith in
              rw (c, x, y) (ih ∙ ap (λ b. if b then t ∷ rest else rest) x)
          | inr x ↦
              rw (c, x)
                (ap (λ l. if u.turn_index == i then u ∷ l else l)
                  (ih ∙ ap (λ b. if b then t ∷ rest else rest) x))
        ]
      ]

  pub sorted_history-IsSortOf :
      (history : List (Turn J)) → IsSortOf history (sorted_history history)
  unfolding sorted_history
  sorted_history-IsSortOf [] = (tt, λ i. refl)
  sorted_history-IsSortOf (t ∷ ts) =
      let (a, e) = sorted_history-IsSortOf ts in
      (
        insert_turn-IsAscending t (sorted_history ts) a,
        λ i.
            at_index-insert_turn i t (sorted_history ts)
            ∙ ap (λ rest. if t.turn_index == i then t ∷ rest else rest) (e i),
      )
