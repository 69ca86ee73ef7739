-- ===== src/Idempotency/Replay.antt =====
-- What a follower of router/src/resilience/idempotency.ts yields of the leader's stream.
use local_llms.Base.{
  ℕ, zero, suc, ◌+◌, ◌-◌, ◌≤◌, ◌≡◌, refl, sym, ap, ◌∙◌, subst, Bool, true, false, none, some, List,
  [], ◌∷◌, ◌++◌, append_assoc, append-nil, length, drop, ltb, Bool-cases, inl, inr, arith,
  drop-length-append, length-append,
}
use local_llms.Idempotency.{
  TerminalStatus, no_keys, Message, live_event, marker, Keys, publish_stream_event, finalize_stream,
  Item, event, terminal, events, drain_queued, wait_live, after_drain, after_replay,
  await_stream_result,
}

module _ {E : Type 0} where
  -- The leader's events one after the other.
  unfoldable pub publish_all : Keys E → List E → Keys E
  publish_all k [] = k
  publish_all k (e ∷ es) = publish_all (publish_stream_event k e) es

  -- The messages of events whose seqs start with `seq`.
  abbrev numbered : ℕ → List E → List (Message E)
  numbered seq [] = []
  numbered seq (e ∷ es) = live_event e (some seq) ∷ numbered (suc seq) es

  publish_all_lem :
      (k : Keys E) (es : List E)
      → (publish_all k es).published ≡ k.published ++ numbered (length k.chunks) es
  unfolding publish_all publish_stream_event
  publish_all_lem k [] = sym (append-nil k.published)
  publish_all_lem k (e ∷ es) =
      let size : length (k.chunks ++ e ∷ []) ≡ suc (length k.chunks) =
        omega (arith, length-append k.chunks (e ∷ [])) in
      publish_all_lem (publish_stream_event k e) es
      ∙ ap (λ n. (k.published ++ live_event e (some (length k.chunks)) ∷ []) ++ numbered n es) size
      ∙ append_assoc k.published (live_event e (some (length k.chunks)) ∷ [])
          (numbered (suc (length k.chunks)) es)

  publish_all-chunks : (k : Keys E) (es : List E) → (publish_all k es).chunks ≡ k.chunks ++ es
  unfolding publish_all publish_stream_event
  publish_all-chunks k [] = sym (append-nil k.chunks)
  publish_all-chunks k (e ∷ es) =
      publish_all-chunks (publish_stream_event k e) es ∙ append_assoc k.chunks (e ∷ []) es

  drop_nil : (n : ℕ) → drop {A = E} n [] ≡ []
  drop_nil zero = refl
  drop_nil (suc n) = refl

  wait-numbered :
      (replayed seq : ℕ) (es : List E) (status : TerminalStatus)
      → wait_live replayed (numbered seq es ++ (marker status ∷ []))
        ≡ events (drop (replayed - seq) es) ++ terminal status ∷ []
  unfolding wait_live
  wait-numbered replayed seq [] status =
      ap (λ xs. events xs ++ terminal status ∷ []) (sym (drop_nil (replayed - seq)))
  wait-numbered replayed seq (e ∷ es) status = elim (Bool-cases (ltb seq replayed)) [
    | inl old ↦
        let more : replayed - seq ≡ suc (replayed - suc seq) = ground (arith, old) in
        rw (old, more) (wait-numbered replayed (suc seq) es status)
    | inr new ↦
        let none_left : replayed - seq ≡ 0 = ground (arith, new) in
        let still : replayed - suc seq ≡ 0 = ground (arith, new) in
        rw (new, none_left)
          (ap (◌∷◌ (event e)) (
            subst
              (λ n.
                wait_live replayed (numbered (suc seq) es ++ (marker status ∷ []))
                ≡ events (drop n es) ++ terminal status ∷ [])
              still (wait-numbered replayed (suc seq) es status)))
  ]

  drain_event :
      (e : E) (r : List (Item E) × Bool) (replayed : ℕ) (later : List (Message E))
      → after_drain replayed later (event e ∷ r.0, r.1) ≡ event e ∷ after_drain replayed later r
  unfolding after_drain
  drain_event e (items, true) replayed later = refl
  drain_event e (items, false) replayed later = refl

  -- A marker stands only at the end.
  abbrev EndsInMarker : List (Message E) → Type 0
  EndsInMarker [] = Unit
  EndsInMarker (marker status ∷ ms) = ms ≡ []
  EndsInMarker (live_event e seq ∷ ms) = EndsInMarker ms

  numbered-EndsInMarker :
      (seq : ℕ) (es : List E) (status : TerminalStatus)
      → EndsInMarker (numbered seq es ++ (marker status ∷ []))
  numbered-EndsInMarker seq [] status = refl
  numbered-EndsInMarker seq (e ∷ es) status = numbered-EndsInMarker (suc seq) es status

  -- Draining a part of the messages and waiting for the others is waiting for all.
  after_drain-wait_live :
      (replayed : ℕ) (queued later : List (Message E))
      → EndsInMarker (queued ++ later)
      → after_drain replayed later (drain_queued replayed queued)
        ≡ wait_live replayed (queued ++ later)
  unfolding after_drain drain_queued wait_live
  after_drain-wait_live replayed [] later h = refl
  after_drain-wait_live replayed (marker status ∷ []) later h = refl
  after_drain-wait_live replayed (marker status ∷ m ∷ ms) later h = absurd (cc h)
  after_drain-wait_live replayed (live_event e none ∷ ms) later h =
      drain_event e (drain_queued replayed ms) replayed later
      ∙ ap (◌∷◌ (event e)) (after_drain-wait_live replayed ms later h)
  after_drain-wait_live replayed (live_event e (some seq) ∷ ms) later h =
      elim (Bool-cases (ltb seq replayed)) [
        | inl old ↦ rw old (after_drain-wait_live replayed ms later h)
        | inr new ↦ rw new (
            drain_event e (drain_queued replayed ms) replayed later
            ∙ ap (◌∷◌ (event e)) (after_drain-wait_live replayed ms later h))
      ]

  numbered-append :
      (seq : ℕ) (zs bs : List E)
      → numbered seq (zs ++ bs) ≡ numbered seq zs ++ numbered (seq + length zs) bs
  numbered-append seq [] bs = let same : seq ≡ seq + 0 = omega arith in ap (λ n. numbered n bs) same
  numbered-append seq (a ∷ zs) bs =
      let shift : suc seq + length zs ≡ seq + suc (length zs) = omega arith in
      ap (◌∷◌ (live_event a (some seq)))
        (numbered-append (suc seq) zs bs ∙ ap (λ n. numbered (suc seq) zs ++ numbered n bs) shift)

  events-append : (zs bs : List E) → events (zs ++ bs) ≡ events zs ++ events bs
  events-append [] bs = refl
  events-append (a ∷ zs) bs = ap (◌∷◌ (event a)) (events-append zs bs)

  drop-append_right :
      (n : ℕ) (zs bs : List E) → length zs ≤ n → drop n (zs ++ bs) ≡ drop (n - length zs) bs
  drop-append_right n [] bs h = let same : n ≡ n - 0 = omega arith in ap (λ n. drop n bs) same
  drop-append_right zero (a ∷ zs) bs h = absurd (omega (arith, h))
  drop-append_right (suc n) (a ∷ zs) bs h =
      let same : n - length zs ≡ suc n - suc (length zs) = omega arith in
      drop-append_right n zs bs (omega (arith, h)) ∙ ap (λ n. drop n bs) same

  -- What is published after the events `zs`, when `bs` and the marker follow.
  published_later :
      (zs bs : List E) (status : TerminalStatus)
      → drop
          (length (publish_all no_keys zs).published)
          (finalize_stream (publish_all no_keys (zs ++ bs)) status).published
        ≡ numbered (length zs) bs ++ (marker status ∷ [])
  unfolding finalize_stream
  published_later zs bs status =
      let m : List (Message E) = marker status ∷ [] in
      let whole = publish_all_lem no_keys (zs ++ bs) ∙ numbered-append 0 zs bs in
      let start : 0 + length zs ≡ length zs = omega arith in
      ap (λ xs. drop (length (publish_all no_keys zs).published) (xs ++ m)) whole
      ∙ ap (λ xs. drop (length xs) ((numbered 0 zs ++ numbered (0 + length zs) bs) ++ m))
          (publish_all_lem no_keys zs)
      ∙ ap (drop (length (numbered 0 zs)))
          (append_assoc (numbered 0 zs) (numbered (0 + length zs) bs) m)
      ∙ drop-length-append (numbered 0 zs) (numbered (0 + length zs) bs ++ m)
      ∙ ap (λ n. numbered n bs ++ m) start

  -- A follower that subscribes after the leader's events `zs`, replays the cached chunks after the
  -- events `xs`, which are no fewer, and then finds no result, yields all of the leader's events in
  -- their order, each once, and the terminal marker, however many of the messages since the
  -- subscription are queued when the replay is over.
  pub await_stream_result-events :
      (zs bs xs ys : List E) (status : TerminalStatus) (queued later : List (Message E))
      → zs ++ bs ≡ xs ++ ys
      → length zs ≤ length xs
      → queued ++ later
        ≡ drop
            (length (publish_all no_keys zs).published)
            (finalize_stream (publish_all no_keys (zs ++ bs)) status).published
      → await_stream_result (publish_all no_keys xs).chunks none queued later
        ≡ events (zs ++ bs) ++ terminal status ∷ []
  unfolding await_stream_result after_replay
  await_stream_result-events zs bs xs ys status queued later split le sent =
      let msgs = sent ∙ published_later zs bs status in
      let ends : EndsInMarker (queued ++ later) =
        subst EndsInMarker (sym msgs) (numbered-EndsInMarker (length zs) bs status) in
      let live =
        after_drain-wait_live (length xs) queued later ends
        ∙ ap (wait_live (length xs)) msgs
        ∙ wait-numbered (length xs) (length zs) bs status in
      let rest : drop (length xs - length zs) bs ≡ ys =
        sym (drop-append_right (length xs) zs bs le)
        ∙ ap (drop (length xs)) split
        ∙ drop-length-append xs ys in
      ap (λ cs. events cs ++ after_drain (length cs) later (drain_queued (length cs) queued))
        (publish_all-chunks no_keys xs)
      ∙ ap (λ is. events xs ++ is) (live ∙ ap (λ vs. events vs ++ terminal status ∷ []) rest)
      ∙ sym (append_assoc (events xs) (events ys) (terminal status ∷ []))
      ∙ ap (λ is. is ++ terminal status ∷ []) (sym (events-append xs ys) ∙ ap events (sym split))

  -- If the leader publishes the events `ys` and finalizes between a follower's LRANGE, which replies
  -- the events `xs`, and its GET, the follower yields `xs` and the terminal marker and none of `ys`,
  -- although the list of chunks holds them by then and their messages may be in its queue.
  pub await_stream_result_cut :
      (xs ys : List E) (status : TerminalStatus) (queued later : List (Message E))
      → (await_stream_result
            (publish_all no_keys xs).chunks
            (finalize_stream (publish_all no_keys (xs ++ ys)) status).result
            queued
            later
          ≡ events xs ++ terminal status ∷ [])
        × ((finalize_stream (publish_all no_keys (xs ++ ys)) status).chunks ≡ xs ++ ys)
  unfolding await_stream_result after_replay finalize_stream
  await_stream_result_cut xs ys status queued later = (
    ap (λ cs. events cs ++ terminal status ∷ []) (publish_all-chunks no_keys xs),
    publish_all-chunks no_keys (xs ++ ys),
  )
