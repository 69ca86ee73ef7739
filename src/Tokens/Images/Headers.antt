-- ===== src/Tokens/Images/Headers.antt =====
-- The results of the readers of image headers in router/src/translation/count-tokens.ts.
use local_llms.Base.{
  ltb_false→le, ℕ, zero, suc, ◌+◌, ◌*◌, ◌≤◌, ◌<◌, ◌≡◌, refl, subst, ◌&&◌, Option, none, some, List,
  [], ◌∷◌, codes, length, get_elem?, ltb, leb, ◌==◌, Bool-cases, leb→le, ◌⊎◌, inl, inr, arith,
}
use local_llms.Tokens.Images.{
  read_uint16_be, read_uint32_be, Header, size, null, out_of_range, no_fuel, sized, png_magic,
  byte_is, bytes_are, read_png_dims, standalone, Move, returns, goes, after_segment, frame,
  at_marker, jpeg_move, scan_jpeg, read_jpeg_dims,
}

-- A size or null, not an error.
abbrev pub IsRead : Header → Type 0
IsRead (size d) = Unit
IsRead null = Unit
IsRead out_of_range = ⊥
IsRead no_fuel = ⊥

get_elem?_in_range : (i : ℕ) (buf : List ℕ) → i < length buf → (b : ℕ) × (get_elem? buf i ≡ some b)
get_elem?_in_range i [] h = absurd (omega arith)
get_elem?_in_range zero (b ∷ buf) h = (b, refl)
get_elem?_in_range (suc i) (b ∷ buf) h = get_elem?_in_range i buf (omega arith)

read_uint16_be_in_range :
    (i : ℕ) (buf : List ℕ) → i + 2 ≤ length buf → (n : ℕ) × (read_uint16_be buf i ≡ some n)
read_uint16_be_in_range i buf h =
    let (a, e) = get_elem?_in_range i buf (omega arith) in
    let (b, f) = get_elem?_in_range (i + 1) buf (omega arith) in (a * 256 + b, rw (e, f) refl)

read_uint32_be_in_range :
    (i : ℕ) (buf : List ℕ) → i + 4 ≤ length buf → (n : ℕ) × (read_uint32_be buf i ≡ some n)
read_uint32_be_in_range i buf h =
    let (a, e) = read_uint16_be_in_range i buf (omega arith) in
    let (b, f) = read_uint16_be_in_range (i + 2) buf (omega arith) in
    (a * 65536 + b, rw (e, f) refl)

sized-IsRead : (v w : Option ℕ) (m n : ℕ) → v ≡ some m → w ≡ some n → IsRead (sized v w)
sized-IsRead v w m n e f = rw (e, f) tt

png_size-IsRead :
    (buf : List ℕ)
    → 24 ≤ length buf
    → IsRead (sized (read_uint32_be buf 16) (read_uint32_be buf 20))
png_size-IsRead buf h =
    let (m, e) = read_uint32_be_in_range 16 buf (omega arith) in
    let (n, f) = read_uint32_be_in_range 20 buf (omega arith) in
    sized-IsRead (read_uint32_be buf 16) (read_uint32_be buf 20) m n e f

read_png_dims-IsRead : (buf : List ℕ) → IsRead (read_png_dims buf)
unfolding read_png_dims
read_png_dims-IsRead buf = elim (Bool-cases (ltb (length buf) 24)) [
  | inl short ↦ rw short tt
  | inr long ↦ elim (Bool-cases (bytes_are buf 0 png_magic)) [
    | inr other ↦ rw (long, other) tt
    | inl png ↦ elim (Bool-cases (bytes_are buf 12 (codes "IHDR"))) [
      | inr other ↦ rw (long, png, other) tt
      | inl ihdr ↦ rw (long, png, ihdr) (png_size-IsRead buf (ltb_false→le _ _ long))
    ]
  ]
]

-- A move from `i` returns a size or null, or goes to a later position.
abbrev IsMove : ℕ → Move → Type 0
IsMove i (returns h) = IsRead h
IsMove i (goes j) = i < j

frame-IsRead :
    (buf : List ℕ) (i : ℕ) → i + 4 ≤ length buf → IsRead (frame buf i (read_uint16_be buf (i + 2)))
frame-IsRead buf i h =
    let (n, e) = read_uint16_be_in_range (i + 2) buf (omega arith) in
    elim (Bool-cases (ltb (length buf) (i + 9))) [
      | inl short ↦ rw (e, short) tt
      | inr long ↦
          let fits = ltb_false→le _ _ long in
          let (w, f) = read_uint16_be_in_range (i + 7) buf (omega (arith, fits)) in
          let (v, g) = read_uint16_be_in_range (i + 5) buf (omega (arith, fits)) in
          rw (e, long) (sized-IsRead _ _ w v f g)
    ]

after_segment-IsMove :
    (buf : List ℕ) (i : ℕ)
    → i + 4 ≤ length buf
    → IsMove i (after_segment i (read_uint16_be buf (i + 2)))
after_segment-IsMove buf i h =
    let (n, e) = read_uint16_be_in_range (i + 2) buf (omega arith) in rw e (omega arith)

at_marker-IsMove :
    (buf : List ℕ) (i : ℕ) (o : Option ℕ) → i + 4 ≤ length buf → IsMove i (at_marker buf i o)
at_marker-IsMove buf i none h = tt
at_marker-IsMove buf i (some marker) h = elim (Bool-cases (marker == 255)) [
  | inl fill ↦ rw fill (omega arith)
  | inr e ↦ elim (Bool-cases (standalone marker)) [
    | inl alone ↦ rw (e, alone) (omega arith)
    | inr f ↦ elim (Bool-cases (ltb (length buf) (i + 4))) [
      | inl short ↦ rw (e, f, short) tt
      | inr g ↦ elim (Bool-cases (leb 192 marker && leb marker 195)) [
        | inl sof ↦ rw (e, f, g, sof) (frame-IsRead buf i h)
        | inr other ↦ rw (e, f, g, other) (after_segment-IsMove buf i h)
      ]
    ]
  ]
]

jpeg_move-IsMove : (buf : List ℕ) (i : ℕ) → i + 4 ≤ length buf → IsMove i (jpeg_move buf i)
unfolding jpeg_move
jpeg_move-IsMove buf i h = elim (Bool-cases (byte_is buf i 255)) [
  | inl e ↦ rw e (at_marker-IsMove buf i (get_elem? buf (i + 1)) h)
  | inr e ↦ rw e tt
]

Move-cases : (m : Move) → ((h : Header) × (m ≡ returns h)) ⊎ ((j : ℕ) × (m ≡ goes j))
Move-cases (returns h) = inl (h, refl)
Move-cases (goes j) = inr (j, refl)

scan_jpeg-IsRead :
    (fuel : ℕ) (buf : List ℕ) (i : ℕ) → length buf < fuel + i → IsRead (scan_jpeg fuel buf i)
unfolding scan_jpeg
scan_jpeg-IsRead zero buf i h = elim (Bool-cases (leb (i + 4) (length buf))) [
  | inl inside ↦ absurd (ground (arith, inside, h))
  | inr past ↦ rw past tt
]
scan_jpeg-IsRead (suc fuel) buf i h = elim (Bool-cases (leb (i + 4) (length buf))) [
  | inl inside ↦
      let move = jpeg_move-IsMove buf i (leb→le _ _ inside) in
      elim (Move-cases (jpeg_move buf i)) [
        | inl (r, e) ↦ rw (inside, e) (subst (IsMove i) e move)
        | inr (j, e) ↦
            let on : i < j = subst (IsMove i) e move in
            rw (inside, e) (scan_jpeg-IsRead fuel buf j (omega (arith, h, on)))
      ]
  | inr past ↦ rw past tt
]

read_jpeg_dims-IsRead : (buf : List ℕ) → IsRead (read_jpeg_dims buf)
unfolding read_jpeg_dims
read_jpeg_dims-IsRead buf = elim (Bool-cases (ltb (length buf) 4)) [
  | inl short ↦ rw short tt
  | inr long ↦ elim (Bool-cases (bytes_are buf 0 (255 ∷ 216 ∷ []))) [
    | inl jpeg ↦ rw (long, jpeg) (scan_jpeg-IsRead (length buf) buf 2 (omega arith))
    | inr other ↦ rw (long, other) tt
  ]
]

-- Both readers of image headers end and return a size or null: for no buffer do they read out of
-- its range.
pub image_headers_lem : (buf : List ℕ) → IsRead (read_png_dims buf) × IsRead (read_jpeg_dims buf)
image_headers_lem buf = (read_png_dims-IsRead buf, read_jpeg_dims-IsRead buf)
