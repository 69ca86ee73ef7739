-- ===== src/Translation/OpenaiOut/Sse/Client.antt =====
-- What a client of the OpenAI surface puts together from the frames of canonicalToOpenAISse
-- (router/src/translation/openai-out.ts).
use local_llms.Base.{
  ℕ, zero, suc, ◌+◌, ◌==◌, Bool, true, false, Option, none, some, List, [], ◌∷◌, ◌++◌, Text,
  if◌then◌else◌, length, arith, ◌≡◌, refl, ◌∙◌, ap, sym, append_assoc, append-nil, Option-cases,
  Bool-cases, inl, inr, length-append, subst,
}
use local_llms.Canonical.{StopReason, text, image, tool_use, tool_result}
use local_llms.Canonical.Stream.{
  text_delta, input_json_delta, DeltaUsage, CanonicalStreamEvent, message_start,
  content_block_start, content_block_delta, content_block_stop, message_delta, message_stop, ping,
}
use local_llms.Translation.Chunks.{FinishReason}
use local_llms.Translation.Responses.{finished}
use local_llms.Translation.Content.{
  Call, extend, has_key, extend_at, calls, text_of, call_step, calls_of,
}
use local_llms.Translation.OpenaiOut.{Opts, canonical_stop_to_openai_finish}
use local_llms.Translation.OpenaiOut.Sse.{
  ChunkBody, tool_start, tool_arguments, content, SseFrame, chunk, error_line, done, State,
  put_index, index_or_zero, emit_finish, on_block_start, on_delta, on_message_delta,
  on_message_start, on_event, events_loop, canonical_to_openai_sse, on_throw, initial,
}

abbrev pub extend_nth : ℕ → Text → List Call → List Call
extend_nth n p [] = []
extend_nth zero p (c ∷ cs) = extend c p ∷ cs
extend_nth (suc n) p (c ∷ cs) = c ∷ extend_nth n p cs

-- The client keeps the tool calls by their index, which counts up; a start out of turn is dropped.
abbrev pub client_step : ChunkBody → List Call → List Call
client_step (tool_start n id name) cs =
    if n == length cs then cs ++ (record { id = id; name = name; arguments = [] } ∷ []) else cs
client_step (tool_arguments n p) cs = extend_nth n p cs
client_step _ cs = cs

abbrev pub client_calls : List SseFrame → List Call → List Call
client_calls [] cs = cs
client_calls (chunk id created model body ∷ fs) cs = client_calls fs (client_step body cs)
client_calls (_ ∷ fs) cs = client_calls fs cs

abbrev pub body_text : ChunkBody → Text
body_text (content t) = t
body_text _ = []

abbrev pub client_text : List SseFrame → Text
client_text [] = []
client_text (chunk id created model body ∷ fs) = body_text body ++ client_text fs
client_text (_ ∷ fs) = client_text fs

client_calls-append :
    (fs gs : List SseFrame) (cs : List Call)
    → client_calls (fs ++ gs) cs ≡ client_calls gs (client_calls fs cs)
client_calls-append [] gs cs = refl
client_calls-append (chunk id created model body ∷ fs) gs cs =
    client_calls-append fs gs (client_step body cs)
client_calls-append (error_line e ∷ fs) gs cs = client_calls-append fs gs cs
client_calls-append (done ∷ fs) gs cs = client_calls-append fs gs cs

client_text-append :
    (fs gs : List SseFrame) → client_text (fs ++ gs) ≡ client_text fs ++ client_text gs
client_text-append [] gs = refl
client_text-append (chunk id created model body ∷ fs) gs =
    ap (◌++◌ (body_text body)) (client_text-append fs gs)
    ∙ sym (append_assoc (body_text body) (client_text fs) (client_text gs))
client_text-append (error_line e ∷ fs) gs = client_text-append fs gs
client_text-append (done ∷ fs) gs = client_text-append fs gs

-- The n-th tool call has the index n.
abbrev Indexed : ℕ → List (ℕ × Call) → List (ℕ × ℕ) → Type 0
Indexed n [] t = Unit
Indexed n ((b, c) ∷ m) t = (index_or_zero b t ≡ n) × Indexed (suc n) m t

index-put :
    (b i k : ℕ) (t : List (ℕ × ℕ))
    → index_or_zero b (put_index i k t) ≡ (if i == b then k else index_or_zero b t)
index-put b i k [] = ground arith
index-put b i k ((j, n) ∷ t) = ground (arith, index-put b i k t)

put-Indexed :
    (n i k : ℕ) (m : List (ℕ × Call)) (t : List (ℕ × ℕ))
    → has_key i m ≡ false
    → Indexed n m t
    → Indexed n m (put_index i k t)
put-Indexed n i k [] t h x = tt
put-Indexed n i k ((b, c) ∷ m) t h x =
    ground (arith, put-Indexed (suc n) i k m t, index-put b i k t)

snoc-Indexed :
    (n i : ℕ) (m : List (ℕ × Call)) (c : Call) (t : List (ℕ × ℕ))
    → Indexed n m t
    → index_or_zero i t ≡ n + length m
    → Indexed n (m ++ ((i, c) ∷ [])) t
snoc-Indexed n i [] c t x e = (omega arith, tt)
snoc-Indexed n i ((b, d) ∷ m) c t (e', x) e = (e', snoc-Indexed (suc n) i m c t x (omega arith))

extend-Indexed :
    (n i : ℕ) (p : Text) (m : List (ℕ × Call)) (t : List (ℕ × ℕ))
    → Indexed n m t
    → Indexed n (extend_at i p m) t
extend-Indexed n i p [] t x = tt
extend-Indexed n i p ((b, c) ∷ m) t x = ground (arith, extend-Indexed (suc n) i p m t)

length-extend : (i : ℕ) (p : Text) (m : List (ℕ × Call)) → length (extend_at i p m) ≡ length m
length-extend i p [] = refl
length-extend i p ((b, c) ∷ m) = ground (arith, length-extend i p m)

calls-snoc :
    (m : List (ℕ × Call)) (i : ℕ) (c : Call) → calls (m ++ ((i, c) ∷ [])) ≡ calls m ++ (c ∷ [])
calls-snoc [] i c = refl
calls-snoc ((b, d) ∷ m) i c = ap (◌∷◌ d) (calls-snoc m i c)

length-calls : (m : List (ℕ × Call)) → length (calls m) ≡ length m
length-calls [] = refl
length-calls ((b, d) ∷ m) = ap suc (length-calls m)

calls-extend :
    (n i : ℕ) (p : Text) (m : List (ℕ × Call)) (t : List (ℕ × ℕ))
    → Indexed n m t
    → has_key i m ≡ true
    → (k : ℕ) × (index_or_zero i t ≡ n + k) × (calls (extend_at i p m) ≡ extend_nth k p (calls m))
calls-extend n i p [] t x h = absurd (cc h)
calls-extend n i p ((b, c) ∷ m) t (e, x) h = elim (Bool-cases (b == i)) [
  | inl q ↦ (0, ground arith, rw q refl)
  | inr q ↦
      let (k, e', r) = calls-extend (suc n) i p m t x (ground arith) in
      (suc k, omega arith, rw (q, r) refl)
]

record Ready (s : State) (m : List (ℕ × Call)) : Type 0 where
  indexed : Indexed 0 m s.tool_call_index_by_block_index
  counted : s.next_tool_call_index ≡ length m

abbrev Reads : State × List SseFrame → List (ℕ × Call) → List (ℕ × Call) → Type 0
Reads p m m' = Ready p.0 m' × (client_calls p.1 (calls m) ≡ calls m')

start-Reads :
    {J : Type 0} (i : ℕ) (id name : Text) (input : J) (s : State) (m : List (ℕ × Call))
    → has_key i m ≡ false
    → Ready s m
    → Reads
        (on_block_start i (tool_use id name input) s)
        m
        (m ++ ((i, record { id = id; name = name; arguments = [] }) ∷ []))
unfolding on_block_start
start-Reads i id name input s m h r =
    let t = s.tool_call_index_by_block_index in
    let n = s.next_tool_call_index in
    let c : Call = record { id = id; name = name; arguments = [] } in
    let x = put-Indexed 0 i n m t h r.indexed in
    let e : index_or_zero i (put_index i n t) ≡ length m =
      ground (arith, index-put i i n t, r.counted) in
    (
      record {
        indexed = snoc-Indexed 0 i m c (put_index i n t) x (omega (arith, e));
        counted = omega (arith, r.counted, length-append m ((i, c) ∷ []));
      },
      ground (arith, r.counted, length-calls m, calls-snoc m i c),
    )

delta-Reads :
    (i : ℕ) (p : Text) (s : State) (m : List (ℕ × Call))
    → has_key i m ≡ true
    → Ready s m
    → Reads (on_delta i (input_json_delta p) s) m (extend_at i p m)
unfolding on_delta
delta-Reads i p s m h r =
    let t = s.tool_call_index_by_block_index in
    let (k, e, q) = calls-extend 0 i p m t r.indexed h in
    let e' : index_or_zero i t ≡ k = omega arith in
    (
      record {
        indexed = extend-Indexed 0 i p m t r.indexed;
        counted = omega (arith, r.counted, length-extend i p m);
      },
      rw e' (sym q),
    )

finish-Reads :
    (f : Option FinishReason) (s : State) (m : List (ℕ × Call))
    → Ready s m
    → Reads (emit_finish f s) m m
finish-Reads none s m r = (r, refl)
finish-Reads (some f) s m r = (record { indexed = r.indexed; counted = r.counted }, refl)

message_delta-Reads :
    (reason : Option StopReason) (u : DeltaUsage) (s : State) (m : List (ℕ × Call))
    → Ready s m
    → Reads (on_message_delta reason u s) m m
unfolding on_message_delta
message_delta-Reads reason u s m r =
    let f = canonical_stop_to_openai_finish reason in
    let s' : State = record s {
      captured_output_tokens = u.output_tokens;
      captured_finish_reason = f;
      sent = suc s.sent;
    } in
    finish-Reads f s' m (record { indexed = r.indexed; counted = r.counted })

some_inj {ℓ} : {A : Type ℓ} {x y : A} → some x ≡ some y → x ≡ y
some_inj {x = x} {y = y} e = ap (λ o. elim o [ none ↦ x | some z ↦ z ]) e

kept-Reads :
    (p : State × List SseFrame) (m m' : List (ℕ × Call))
    → Ready p.0 m
    → client_calls p.1 (calls m) ≡ calls m
    → some m ≡ some m'
    → Reads p m m'
kept-Reads p m m' r e h = subst (Reads p m) (some_inj h) (r, e)

finish_text : (f : Option FinishReason) (s : State) → client_text (emit_finish f s).1 ≡ []
finish_text none s = refl
finish_text (some f) s = refl

message_delta_text :
    (reason : Option StopReason) (u : DeltaUsage) (s : State)
    → client_text (on_message_delta reason u s).1 ≡ []
unfolding on_message_delta
message_delta_text reason u s = finish_text (canonical_stop_to_openai_finish reason) _

module _ {J : Type 0} (opts : Opts) (now : ℕ → ℕ) where
  event-Reads :
      (e : CanonicalStreamEvent J) (s : State) (m m' : List (ℕ × Call))
      → call_step e m ≡ some m'
      → Ready s m
      → Reads (on_event opts now e s) m m'
  unfolding on_event on_message_start on_block_start on_delta
  event-Reads (content_block_start i (tool_use id name input)) s m m' h r =
      elim (Bool-cases (has_key i m)) [
        | inl k ↦ absurd (grind arith)
        | inr k ↦
            subst (Reads (on_block_start i (tool_use id name input) s) m) (grind arith)
              (start-Reads i id name input s m k r)
      ]
  event-Reads (content_block_delta i (input_json_delta p)) s m m' h r =
      elim (Bool-cases (has_key i m)) [
        | inl k ↦
            subst (Reads (on_delta i (input_json_delta p) s) m) (grind arith)
              (delta-Reads i p s m k r)
        | inr k ↦ absurd (grind arith)
      ]
  event-Reads (content_block_delta i (text_delta p)) s m m' h r =
      kept-Reads (on_event {J = J} opts now (content_block_delta i (text_delta p)) s) m m'
        (record { indexed = r.indexed; counted = r.counted }) refl h
  event-Reads (content_block_start i (text t)) s m m' h r =
      kept-Reads (on_event {J = J} opts now (content_block_start i (text t)) s) m m' r refl h
  event-Reads (content_block_start i (image source)) s m m' h r =
      kept-Reads (on_event {J = J} opts now (content_block_start i (image source)) s) m m' r refl h
  event-Reads (content_block_start i (tool_result id c is_error)) s m m' h r =
      kept-Reads (on_event {J = J} opts now (content_block_start i (tool_result id c is_error)) s) m
        m' r refl h
  event-Reads (message_start upstream_id a) s m m' h r =
      kept-Reads (on_event {J = J} opts now (message_start upstream_id a) s) m m'
        (record { indexed = r.indexed; counted = r.counted }) refl h
  event-Reads (content_block_stop i) s m m' h r =
      kept-Reads (on_event {J = J} opts now (content_block_stop i) s) m m' r refl h
  event-Reads (message_delta reason sequence u) s m m' h r =
      let k = message_delta-Reads reason u s m r in
      kept-Reads (on_event {J = J} opts now (message_delta reason sequence u) s) m m' k.0 k.1 h
  event-Reads message_stop s m m' h r =
      kept-Reads (on_event {J = J} opts now message_stop s) m m'
        (record { indexed = r.indexed; counted = r.counted }) refl h
  event-Reads ping s m m' h r = kept-Reads (on_event {J = J} opts now ping s) m m' r refl h

  loop-Reads :
      (es : List (CanonicalStreamEvent J)) (s : State) (m m' : List (ℕ × Call))
      → calls_of es m ≡ some m'
      → Ready s m
      → client_calls (events_loop opts now es s).1 (calls m) ≡ calls m'
  unfolding events_loop
  loop-Reads [] s m m' h r = ap calls (some_inj h)
  loop-Reads (e ∷ es) s m m' h r = elim (Option-cases (call_step e m)) [
    | inl q ↦ absurd (grind arith)
    | inr (m1, q) ↦
        let p = on_event opts now e s in
        let (r', k) = event-Reads e s m m1 q r in
        let h' : calls_of es m1 ≡ some m' = grind arith in
        client_calls-append p.1 (events_loop opts now es p.0).1 (calls m)
        ∙ ap (client_calls (events_loop opts now es p.0).1) k
        ∙ loop-Reads es p.0 m1 m' h' r'
  ]

  loop_text :
      (es : List (CanonicalStreamEvent J)) (s : State)
      → client_text (events_loop opts now es s).1 ≡ text_of es
  unfolding events_loop on_event on_message_start on_block_start on_delta on_message_delta
  loop_text [] s = refl
  loop_text (content_block_start i (tool_use id name input) ∷ es) s =
      loop_text es (on_block_start i (tool_use id name input) s).0
  loop_text (content_block_delta i (input_json_delta p) ∷ es) s =
      loop_text es (on_delta i (input_json_delta p) s).0
  loop_text (content_block_delta i (text_delta t) ∷ es) s =
      ap (◌++◌ t) (loop_text es (on_delta i (text_delta t) s).0)
  loop_text (content_block_start i (text t) ∷ es) s = loop_text es s
  loop_text (content_block_start i (image source) ∷ es) s = loop_text es s
  loop_text (content_block_start i (tool_result id c is_error) ∷ es) s = loop_text es s
  loop_text (message_start upstream_id a ∷ es) s =
      loop_text es (on_message_start opts now upstream_id a s).0
  loop_text (content_block_stop i ∷ es) s = loop_text es s
  loop_text (message_delta reason sequence u ∷ es) s =
      let p = on_message_delta reason u s in
      let rest = (events_loop opts now es p.0).1 in
      client_text-append p.1 rest
      ∙ ap (λ t. t ++ client_text rest) (message_delta_text reason u s)
      ∙ loop_text es p.0
  loop_text (message_stop ∷ es) s = loop_text es (record s { sent = suc s.sent })
  loop_text (ping ∷ es) s = loop_text es s

  -- A client of a stream that does not fail reads the text of the canonical events, and their tool
  -- calls in the order of their starts, each with all its fragments, where no index starts twice
  -- and each fragment belongs to a call that has started.
  pub client_reads :
      (aborted : Bool) (es : List (CanonicalStreamEvent J)) (m : List (ℕ × Call))
      → calls_of es [] ≡ some m
      → let fs = (canonical_to_openai_sse opts now aborted es finished).0 in
        (client_text fs ≡ text_of es) × (client_calls fs [] ≡ calls m)
  unfolding canonical_to_openai_sse on_throw
  client_reads aborted es m h =
      let fs = (events_loop opts now es (initial (now 0))).1 in
      rw (append-nil fs) (
        loop_text es (initial (now 0)),
        loop-Reads es (initial (now 0)) [] m h (record { indexed = tt; counted = refl }),
      )
