-- ===== src/Translation/ImageGuard/Fetch/Guarded.antt =====
-- Which connections fetchImageAsBase64 of router/src/translation/ollama-native-out.ts makes, and
-- what it returns.
use local_llms.Base.{
  ℕ, ◌==◌, ◌&&◌, ◌||◌, Bool, true, false, Option, none, some, List, [], ◌∷◌, ◌++◌, Text, codes,
  text_eq, text_eq_iff, length, leb, ltb, ◌*◌, ◌≤◌, ◌<◌, ◌≡◌, ◌≢◌, ◌⊎◌, inl, inr, refl, sym, ap,
  subst, ◌∙◌, All, arith, Bool-cases, append_assoc, append-nil,
}
use local_llms.Translation.ImageGuard.{is_denied, lower}
use local_llms.Translation.ImageGuard.Fetch.{
  Url, Address, Body, done, read_fails, bytes, Reply, Reached, replied, fetch_fails, Fetched,
  base64_of, throws, lookup_fails, body_fails, Connect, Net, is_image, starts, any_denied,
  within_cap, read_loop, read_body, after_fetch, checked_reply, pinned_to, after_lookup, after_host,
  after_scheme, after_parse, fetch_image_as_base64,
}

-- The bytes up to the end, if the reader gets there.
abbrev pub whole : Body → Option (List ℕ)
whole done = some []
whole read_fails = none
whole (bytes b rest) = elim (whole rest) [ none ↦ none | some bs ↦ some (b ++ bs) ]

-- The host is an address that may be reached, or every address that it has in the DNS may be.
abbrev IsAllowed : Net → Url → Option (List Address) → Type 0
IsAllowed net u none =
    ((net.is_ip u.hostname ≡ 4) ⊎ (net.is_ip u.hostname ≡ 6))
    × (is_denied u.hostname (net.is_ip u.hostname) ≡ false)
IsAllowed net u (some pinned) =
    (net.lookup u.hostname ≡ some pinned)
    × (pinned ≢ [])
    × All (λ a. is_denied a.address a.family ≡ false) pinned

both_false : (a b : Bool) → (a || b) ≡ false → (a ≡ false) × (b ≡ false)
both_false true b h = absurd (cc h)
both_false false b h = (refl, h)

none_denied :
    (found : List Address)
    → any_denied found ≡ false
    → All (λ a. is_denied a.address a.family ≡ false) found
none_denied [] h = tt
none_denied (a ∷ rest) h =
    let (d, more) = both_false (is_denied a.address a.family) (any_denied rest) h in
    (d, none_denied rest more)

-- A content type that starts with `image/`, but for capitals.
abbrev IsImageType : Option Text → Type 0
IsImageType none = ⊥
IsImageType (some t) = (rest : Text) × (lower t ≡ codes "image/" ++ rest)

starts-append : (p t : Text) → starts p t ≡ true → (rest : Text) × (t ≡ p ++ rest)
starts-append [] t h = (t, refl)
starts-append (c ∷ p) [] h = absurd (cc h)
starts-append (c ∷ p) (d ∷ t) h =
    let (rest, e) = starts-append p t (ground arith) in
    let same : d ≡ c = ground arith in (rest, ap (λ x. x ∷ t) same ∙ ap (◌∷◌ c) e)

image_type : (o : Option Text) → is_image o ≡ true → IsImageType o
image_type none h = absurd (cc h)
image_type (some t) h = starts-append (codes "image/") (lower t) h

abbrev pub IsGuarded : Net → Text → Connect → Type 0
IsGuarded net url c =
    (net.parse_url url ≡ some c.url)
    × (c.url.protocol ≡ codes "https:")
    × IsAllowed net c.url c.pinned

read_loop-IsCapped :
    (max_mb : ℕ) (url : Text) (body : Body) (chunks bs : List ℕ)
    → length chunks ≤ max_mb * 1048576
    → read_loop max_mb url body chunks ≡ base64_of bs
    → (rest : List ℕ) × (whole body ≡ some rest)
      × (bs ≡ chunks ++ rest)
      × (length bs ≤ max_mb * 1048576)
read_loop-IsCapped max_mb url done chunks bs l e =
    let q : chunks ≡ bs = cc e in
    ([], refl, sym q ∙ sym (append-nil chunks), subst (λ x. length x ≤ max_mb * 1048576) q l)
read_loop-IsCapped max_mb url read_fails chunks bs l e = absurd (cc e)
read_loop-IsCapped max_mb url (bytes b rest) chunks bs l e =
    elim (Bool-cases (leb (length (chunks ++ b)) (max_mb * 1048576))) [
      | inl c ↦
          let (more, w, q, k) = read_loop-IsCapped max_mb url rest (chunks ++ b) bs (ground arith) (
            sym (ap (λ t. within_cap max_mb url t (read_loop max_mb url rest (chunks ++ b))) c)
            ∙ e) in
          (b ++ more, rw w refl, q ∙ append_assoc chunks b more, k)
      | inr c ↦ absurd (
          cc (
            sym (ap (λ t. within_cap max_mb url t (read_loop max_mb url rest (chunks ++ b))) c)
            ∙ e))
    ]

is_ip_cases : (n : ℕ) → (n == 4 || n == 6) ≡ true → (n ≡ 4) ⊎ (n ≡ 6)
is_ip_cases n h = ground arith

-- The reply of a connection that gave this picture.
abbrev pub IsPicture : ℕ → Net → List ℕ → Connect → Type 0
IsPicture max_mb net bs c =
    (r : Reply) × (body : Body) × (net.fetch c ≡ replied r)
    × (200 ≤ r.status)
    × (r.status < 300)
    × IsImageType r.content_type
    × (r.body ≡ some body)
    × (whole body ≡ some bs)
    × (length bs ≤ max_mb * 1048576)

module _ (max_mb : ℕ) (url : Text) (net : Net) where
  read_body-IsCapped :
      (b : Option Body) (bs : List ℕ)
      → read_body max_mb url b ≡ base64_of bs
      → (body : Body) × (b ≡ some body) × (whole body ≡ some bs) × (length bs ≤ max_mb * 1048576)
  read_body-IsCapped none bs e = absurd (cc e)
  read_body-IsCapped (some body) bs e =
      let (more, w, q, k) = read_loop-IsCapped max_mb url body [] bs (ground arith) e in
      (body, refl, w ∙ ap some (sym q), k)

  checked_reply-IsPicture :
      (bs : List ℕ) (c : Connect) (r : Reply) (redirect is_ok image : Bool)
      → net.fetch c ≡ replied r
      → (leb 200 r.status && ltb r.status 300) ≡ is_ok
      → is_image r.content_type ≡ image
      → checked_reply max_mb url r redirect is_ok image ≡ base64_of bs
      → IsPicture max_mb net bs c
  checked_reply-IsPicture bs c r true is_ok image n o i e = absurd (cc e)
  checked_reply-IsPicture bs c r false false image n o i e = absurd (cc e)
  checked_reply-IsPicture bs c r false true false n o i e = absurd (cc e)
  checked_reply-IsPicture bs c r false true true n o i e =
      let (body, b, w, k) = read_body-IsCapped r.body bs e in
      (r, body, n, ground arith, ground arith, image_type r.content_type i, b, w, k)

  after_fetch-IsPicture :
      (bs : List ℕ) (c : Connect) (reached : Reached)
      → net.fetch c ≡ reached
      → after_fetch max_mb url reached ≡ base64_of bs
      → IsPicture max_mb net bs c
  after_fetch-IsPicture bs c (fetch_fails m) n e = absurd (cc e)
  after_fetch-IsPicture bs c (replied r) n e =
      checked_reply-IsPicture bs c r (leb 300 r.status && ltb r.status 400)
        (leb 200 r.status && ltb r.status 300) (is_image r.content_type) n refl refl e

  -- What a call may do: nothing on the network, or one guarded connection whose reply is what it
  -- says.
  abbrev IsSafe : List Connect × Fetched → Type 0
  IsSafe ([], base64_of bs) = ⊥
  IsSafe ([], throws x) = Unit
  IsSafe ([], lookup_fails) = Unit
  IsSafe ([], body_fails) = Unit
  IsSafe (c ∷ [], result) = IsGuarded net url c × (result ≡ after_fetch max_mb url (net.fetch c))
  IsSafe (c ∷ d ∷ rest, result) = ⊥

  pinned_to-IsSafe :
      (u : Url) (a : Address) (rest : List Address) (denied : Bool)
      → net.parse_url url ≡ some u
      → u.protocol ≡ codes "https:"
      → net.lookup u.hostname ≡ some (a ∷ rest)
      → any_denied (a ∷ rest) ≡ denied
      → IsSafe (pinned_to max_mb url net u (a ∷ rest) denied)
  pinned_to-IsSafe u a rest true p s l d = tt
  pinned_to-IsSafe u a rest false p s l d =
      ((p, s, (l, (λ e. cc e), none_denied (a ∷ rest) d)), refl)

  after_lookup-IsSafe :
      (u : Url) (found : Option (List Address))
      → net.parse_url url ≡ some u
      → u.protocol ≡ codes "https:"
      → net.lookup u.hostname ≡ found
      → IsSafe (after_lookup max_mb url net u found)
  after_lookup-IsSafe u none p s l = tt
  after_lookup-IsSafe u (some []) p s l = tt
  after_lookup-IsSafe u (some (a ∷ rest)) p s l =
      pinned_to-IsSafe u a rest (any_denied (a ∷ rest)) p s l refl

  after_host-IsSafe :
      (u : Url) (is_address denied : Bool)
      → net.parse_url url ≡ some u
      → u.protocol ≡ codes "https:"
      → (net.is_ip u.hostname == 4 || net.is_ip u.hostname == 6) ≡ is_address
      → is_denied u.hostname (net.is_ip u.hostname) ≡ denied
      → IsSafe (after_host max_mb url net u is_address denied)
  after_host-IsSafe u true true p s i d = tt
  after_host-IsSafe u true false p s i d = ((p, s, (is_ip_cases (net.is_ip u.hostname) i, d)), refl)
  after_host-IsSafe u false denied p s i d = after_lookup-IsSafe u (net.lookup u.hostname) p s refl

  after_scheme-IsSafe :
      (u : Url) (https : Bool)
      → net.parse_url url ≡ some u
      → text_eq u.protocol (codes "https:") ≡ https
      → IsSafe (after_scheme max_mb url net u https)
  after_scheme-IsSafe u false p s = tt
  after_scheme-IsSafe u true p s =
      after_host-IsSafe u (net.is_ip u.hostname == 4 || net.is_ip u.hostname == 6)
        (is_denied u.hostname (net.is_ip u.hostname)) p
        ((text_eq_iff u.protocol (codes "https:")).0 s) refl refl

  after_parse-IsSafe :
      (parsed : Option Url)
      → net.parse_url url ≡ parsed
      → IsSafe (after_parse max_mb url net parsed)
  after_parse-IsSafe none p = tt
  after_parse-IsSafe (some u) p = after_scheme-IsSafe u (text_eq u.protocol (codes "https:")) p refl

  safe-IsGuarded : (x : List Connect × Fetched) → IsSafe x → All (IsGuarded net url) x.0
  safe-IsGuarded ([], result) s = tt
  safe-IsGuarded (c ∷ [], result) (g, e) = (g, tt)
  safe-IsGuarded (c ∷ d ∷ rest, result) s = absurd s

  safe-IsPicture :
      (x : List Connect × Fetched) (bs : List ℕ)
      → IsSafe x
      → x.1 ≡ base64_of bs
      → (c : Connect) × (x.0 ≡ c ∷ []) × IsPicture max_mb net bs c
  safe-IsPicture ([], base64_of b) bs s e = absurd s
  safe-IsPicture ([], throws x) bs s e = absurd (cc e)
  safe-IsPicture ([], lookup_fails) bs s e = absurd (cc e)
  safe-IsPicture ([], body_fails) bs s e = absurd (cc e)
  safe-IsPicture (c ∷ [], result) bs (g, q) e =
      (c, refl, after_fetch-IsPicture bs c (net.fetch c) refl (sym q ∙ e))
  safe-IsPicture (c ∷ d ∷ rest, result) bs s e = absurd s

-- fetchImageAsBase64 makes no connection but to the URL it was given, with `https:`, and only
-- where the host is an address that isDenied lets through, or where the DNS knows addresses for
-- it, isDenied lets all of them through, and the connection is pinned to them.
pub fetch_image_as_base64-IsGuarded :
    (max_mb : ℕ) (url : Text) (net : Net)
    → All (IsGuarded net url) (fetch_image_as_base64 max_mb url net).0
unfolding fetch_image_as_base64
fetch_image_as_base64-IsGuarded max_mb url net =
    safe-IsGuarded max_mb url net (fetch_image_as_base64 max_mb url net)
      (after_parse-IsSafe max_mb url net (net.parse_url url) refl)

-- Where fetchImageAsBase64 returns a picture, it has made one connection, and the picture is all
-- bytes of the body of the reply: a reply with a status of 200 to 299 and an image's content type,
-- whose body comes to its end within the cap of maxBytesMB.
pub fetch_image_as_base64-IsPicture :
    (max_mb : ℕ) (url : Text) (net : Net) (bs : List ℕ)
    → (fetch_image_as_base64 max_mb url net).1 ≡ base64_of bs
    → (c : Connect) × ((fetch_image_as_base64 max_mb url net).0 ≡ c ∷ [])
      × IsPicture max_mb net bs c
unfolding fetch_image_as_base64
fetch_image_as_base64-IsPicture max_mb url net bs e =
    safe-IsPicture max_mb url net (fetch_image_as_base64 max_mb url net) bs
      (after_parse-IsSafe max_mb url net (net.parse_url url) refl) e
