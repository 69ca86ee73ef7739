-- ===== src/Translation/ImageGuard/Fetch.antt =====
-- fetchImageAsBase64 of router/src/translation/ollama-native-out.ts. `new URL`, `isIP`, the DNS,
-- `fetch` and base 64 are parameters; a failure of the DNS or of a read is one constructor.
pub mod Guarded
use local_llms.Base.{
  ℕ, ◌==◌, ◌&&◌, ◌||◌, Bool, true, false, not, Option, none, some, List, [], ◌∷◌, ◌++◌, Text, codes,
  text_eq, length, leb, ltb, decimal, if◌then◌else◌, ◌+◌, ◌*◌, ◌≤◌, ◌≡◌, refl, All, arith,
}
use local_llms.Errors.{
  RouterError, invalid_image_url, image_fetch, malformed_url, http_scheme_blocked,
  private_address_blocked, http_error, image_invalid_content_type, image_too_large,
}
use local_llms.Translation.ImageGuard.{is_denied, lower}

pub record Url : Type 0 where
  pub protocol : Text
  pub hostname : Text

pub record Address : Type 0 where
  pub address : Text
  pub family : ℕ

-- What the reader gives: bytes, the end, or a failure.
pub data Body : Type 0 where
  done read_fails : Body
  bytes : List ℕ → Body → Body

pub record Reply : Type 0 where
  pub status : ℕ
  pub location : Option Text
  pub content_type : Option Text
  pub body : Option Body

pub data Reached : Type 0 where
  replied : Reply → Reached
  fetch_fails : Text → Reached  -- the message

-- How the call ends.
pub data Fetched : Type 0 where
  base64_of : List ℕ → Fetched  -- the bytes, encoded
  throws : RouterError → Fetched
  lookup_fails body_fails : Fetched  -- what the DNS or the reader throws

-- A connection that `fetch` is told to make: the URL and the pinned addresses, if any.
pub record Connect : Type 0 where
  pub url : Url
  pub pinned : Option (List Address)

pub record Net : Type 0 where
  pub parse_url : Text → Option Url
  pub is_ip : Text → ℕ
  pub lookup : Text → Option (List Address)
  pub fetch : Connect → Reached

abbrev pub any_denied : List Address → Bool
any_denied [] = false
any_denied (a ∷ rest) = is_denied a.address a.family || any_denied rest

abbrev pub starts : Text → Text → Bool
starts [] t = true
starts (p ∷ ps) [] = false
starts (p ∷ ps) (c ∷ t) = p == c && starts ps t

-- The content type as the error shows it, in small letters, of which ASCII has all that count here.
abbrev shown : Option Text → Text → Text
shown none default = default
shown (some []) default = default
shown (some (c ∷ t)) default = lower (c ∷ t)

abbrev location_of : Option Text → Text
location_of none = codes "(unknown)"
location_of (some t) = t

abbrev pub is_image : Option Text → Bool
is_image none = false
is_image (some t) = starts (codes "image/") (lower t)

module _ (max_mb : ℕ) (url : Text) where
  -- The rest of the read loop, if the bytes are within the cap.
  abbrev pub within_cap : Bool → Fetched → Fetched
  within_cap true rest = rest
  within_cap false rest =
      throws
        (image_fetch url image_too_large (codes "exceeded " ++ (decimal max_mb ++ codes "MB cap")))

  -- The read loop, with the bytes so far.
  abbrev pub read_loop : Body → List ℕ → Fetched
  read_loop done chunks = base64_of chunks
  read_loop read_fails chunks = body_fails
  read_loop (bytes b rest) chunks =
      within_cap (leb (length (chunks ++ b)) (max_mb * 1048576)) (read_loop rest (chunks ++ b))

  abbrev pub read_body : Option Body → Fetched
  read_body none = throws (image_fetch url http_error (codes "response body missing"))
  read_body (some b) = read_loop b []

  -- By whether the reply is a redirect, whether it is ok, and whether it is an image.
  abbrev pub checked_reply : Reply → Bool → Bool → Bool → Fetched
  checked_reply r true is_ok image = throws (
      image_fetch url http_error
        (codes "redirect to " ++ (location_of r.location ++ codes " blocked")))
  checked_reply r false false image =
      throws (image_fetch url http_error (codes "status " ++ decimal r.status))
  checked_reply r false true false = throws (
      image_fetch url image_invalid_content_type
        (codes "Content-Type: " ++ shown r.content_type (codes "(none)")))
  checked_reply r false true true = read_body r.body

  abbrev pub after_reply : Reply → Fetched
  after_reply r =
      checked_reply r (leb 300 r.status && ltb r.status 400) (leb 200 r.status && ltb r.status 300)
        (is_image r.content_type)

  abbrev pub after_fetch : Reached → Fetched
  after_fetch (replied r) = after_reply r
  after_fetch (fetch_fails m) = throws (image_fetch url http_error (codes "fetch failed: " ++ m))

  abbrev blocked : List Connect × Fetched
  blocked = ([], throws (invalid_image_url url private_address_blocked))

  abbrev connected : Net → Connect → List Connect × Fetched
  connected net c = (c ∷ [], after_fetch (net.fetch c))

  -- By whether one of the addresses is denied.
  abbrev pub pinned_to : Net → Url → List Address → Bool → List Connect × Fetched
  pinned_to net u found true = blocked
  pinned_to net u found false = connected net (record { url = u; pinned = some found })

  abbrev pub after_lookup : Net → Url → Option (List Address) → List Connect × Fetched
  after_lookup net u none = ([], lookup_fails)
  after_lookup net u (some []) = blocked
  after_lookup net u (some (a ∷ rest)) = pinned_to net u (a ∷ rest) (any_denied (a ∷ rest))

  -- By whether the host is an address, and then whether it is denied.
  abbrev pub after_host : Net → Url → Bool → Bool → List Connect × Fetched
  after_host net u true true = blocked
  after_host net u true false = connected net (record { url = u; pinned = none })
  after_host net u false denied = after_lookup net u (net.lookup u.hostname)

  -- By whether the protocol is https.
  abbrev pub after_scheme : Net → Url → Bool → List Connect × Fetched
  after_scheme net u false = ([], throws (invalid_image_url url http_scheme_blocked))
  after_scheme net u true =
      let family = net.is_ip u.hostname in
      after_host net u (family == 4 || family == 6) (is_denied u.hostname family)

  abbrev pub after_url : Net → Url → List Connect × Fetched
  after_url net u = after_scheme net u (text_eq u.protocol (codes "https:"))

  abbrev pub after_parse : Net → Option Url → List Connect × Fetched
  after_parse net none = ([], throws (invalid_image_url url malformed_url))
  after_parse net (some u) = after_url net u

  -- The connections made, and how the call ends.
  unfoldable pub fetch_image_as_base64 : Net → List Connect × Fetched
  fetch_image_as_base64 net = after_parse net (net.parse_url url)

-- The hook `connect.lookup` on the pinned addresses: the addresses it hands over, or an error.
pub connect_lookup : List Address → Bool → Option (List Address)
connect_lookup pinned all = elim (any_denied pinned) [
  | true ↦ none
  | false ↦ elim all [
    | true ↦ some pinned
    | false ↦ elim pinned [ [] ↦ none | a ∷ rest ↦ some (a ∷ []) ]
  ]
]
