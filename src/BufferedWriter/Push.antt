-- ===== src/BufferedWriter/Push.antt =====
-- Lemmas on pushing a row to the buffer of router/src/db/bufferedWriter.ts.
use local_llms.Base.{
  ◌<◌, ◌≡◌, refl, ap, ◌∙◌, subst, inl, inr, Bool, true, false, List, [], ◌∷◌, ◌++◌, leb,
  if◌then◌else◌, length, arith, length-append, length-drop, append_assoc, append-nil, Bool-cases,
  leb→le,
}
use local_llms.BufferedWriter.{Writer, pushes, make_room, append_row, push, offered}
use local_llms.BufferedWriter.Subsequence.{Subsequence, whole, join, chain, dropped}
use local_llms.BufferedWriter.Flush.{Inv}

module _ {A : Type 0} where
  make_room-Inv :
      (seen : List A) (w : Writer A)
      → 0 < w.capacity
      → Inv seen w
      → Inv seen (make_room w)
        × (length (make_room w).buf < w.capacity)
        × ((make_room w).capacity ≡ w.capacity)
  unfolding make_room
  make_room-Inv seen w pos v = elim (Bool-cases (leb w.capacity (length w.buf))) [
    | inr free ↦ rw free (v, ground arith, refl)
    | inl full ↦ rw full (
      record {
        bounded = omega (arith, v.bounded, length-drop 1 w.buf);
        batch_bounded = v.batch_bounded;
        idle = v.idle;
        in_order =
            chain v.in_order (join (whole w.stored) (join (whole w.batch) (dropped 1 w.buf)));
        counted = omega (arith, v.counted, length-drop 1 w.buf, leb→le _ _ full);
      },
      omega (arith, v.bounded, length-drop 1 w.buf),
      refl,
    )
  ]

  append_row-Inv :
      (seen : List A) (w : Writer A) (row : A)
      → length w.buf < w.capacity
      → Inv seen w
      → Inv (seen ++ row ∷ []) (append_row w row)
  unfolding append_row
  append_row-Inv seen w row room v = record {
    bounded = omega (arith, length-append w.buf (row ∷ []));
    batch_bounded = v.batch_bounded;
    idle = v.idle;
    in_order =
        subst (λ xs. Subsequence xs (seen ++ row ∷ []))
          (append_assoc w.stored (w.batch ++ w.buf) (row ∷ [])
            ∙ ap (◌++◌ w.stored) (append_assoc w.batch w.buf (row ∷ [])))
          (join v.in_order (whole (row ∷ [])));
    counted =
        omega (arith, v.counted, length-append w.buf (row ∷ []), length-append seen (row ∷ []));
  }

  gate-Inv :
      (stopped : Bool) (seen : List A) (w w' : Writer A) (row : A)
      → Inv seen w
      → Inv (seen ++ row ∷ []) w'
      → Inv (seen ++ (if stopped then [] else row ∷ [])) (if stopped then w else w')
  gate-Inv true seen w w' row v v' = rw (append-nil seen) v
  gate-Inv false seen w w' row v v' = v'

  pub push-Inv :
      (seen : List A) (w : Writer A) (row : A)
      → 0 < w.capacity
      → Inv seen w
      → Inv (seen ++ offered w (pushes row)) (push row w)
  unfolding push
  push-Inv seen w row pos v =
      let (r, room, c) = make_room-Inv seen w pos v in
      gate-Inv w.stopped seen w (append_row (make_room w) row) row v
        (append_row-Inv seen (make_room w) row (omega arith) r)
