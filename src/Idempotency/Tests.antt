-- ===== src/Idempotency/Tests.antt =====
-- A follower of a stream of three events, with numbers for the events.
use local_llms.Base.{ℕ, ◌≡◌, refl, none, some, [], ◌∷◌, ◌++◌, arith}
use local_llms.Idempotency.{
  live_event, marker, done, terminal, events, no_keys, publish_stream_event, finalize_stream,
  await_stream_result,
}
use local_llms.Idempotency.Replay.{publish_all, await_stream_result-events, await_stream_result_cut}

-- It subscribes after the event 5, and the event 6 is both cached and in the queue.
await_stream_result-events_example :
    await_stream_result {E = ℕ}
      (publish_all no_keys (5 ∷ 6 ∷ [])).chunks
      none
      (live_event 6 (some 1) ∷ live_event 7 (some 2) ∷ [])
      (marker done ∷ [])
    ≡ events (5 ∷ 6 ∷ 7 ∷ []) ++ terminal done ∷ []
unfolding publish_all publish_stream_event finalize_stream
await_stream_result-events_example =
    await_stream_result-events (5 ∷ []) (6 ∷ 7 ∷ []) (5 ∷ 6 ∷ []) (7 ∷ []) done
      (live_event 6 (some 1) ∷ live_event 7 (some 2) ∷ []) (marker done ∷ []) refl (omega arith)
      refl

await_stream_result_cut_example :
    (await_stream_result {E = ℕ}
        (publish_all no_keys (5 ∷ [])).chunks
        (finalize_stream {E = ℕ} (publish_all no_keys (5 ∷ 6 ∷ [])) done).result
        (live_event 6 (some 1) ∷ marker done ∷ [])
        []
      ≡ events (5 ∷ []) ++ terminal done ∷ [])
    × ((finalize_stream {E = ℕ} (publish_all no_keys (5 ∷ 6 ∷ [])) done).chunks ≡ 5 ∷ 6 ∷ [])
await_stream_result_cut_example =
    await_stream_result_cut (5 ∷ []) (6 ∷ []) done (live_event 6 (some 1) ∷ marker done ∷ []) []
