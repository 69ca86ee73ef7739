-- ===== src/Tokens/Images.antt =====
-- The tokens of an image in router/src/translation/count-tokens.ts, by the size in the header of a
-- PNG or JPEG. Bytes are numbers, and decoding base 64 is a parameter.
pub mod Headers
use local_llms.Base.{
  ℕ, zero, suc, ◌+◌, ◌*◌, ◌/◌, Bool, true, false, ◌&&◌, ◌||◌, not, Option, none, some, List, [],
  ◌∷◌, Text, codes, length, take, drop, get_elem?, ltb, leb, ◌==◌, if◌then◌else◌, text_eq,
}
use local_llms.Canonical.{ImageSource, base64, url}

-- `buf[i] === b`, false also out of range.
abbrev byte_is : List ℕ → ℕ → ℕ → Bool
byte_is buf i b = elim (get_elem? buf i) [ none ↦ false | some c ↦ c == b ]

abbrev pair_up : Option ℕ → Option ℕ → Option ℕ
pair_up (some a) (some b) = some (a * 256 + b)
pair_up (some a) none = none
pair_up none o = none

-- `readUInt16BE`; `none` is its RangeError.
abbrev pub read_uint16_be : List ℕ → ℕ → Option ℕ
read_uint16_be buf i = pair_up (get_elem? buf i) (get_elem? buf (i + 1))

abbrev join : Option ℕ → Option ℕ → Option ℕ
join (some a) (some b) = some (a * 65536 + b)
join (some a) none = none
join none o = none

-- `readUInt32BE`.
abbrev pub read_uint32_be : List ℕ → ℕ → Option ℕ
read_uint32_be buf i = join (read_uint16_be buf i) (read_uint16_be buf (i + 2))

pub record Dims : Type 0 where
  pub width : ℕ
  pub height : ℕ

-- What a reader of a header returns: the size, null, or a thrown RangeError; `no_fuel` does not
-- occur.
pub data Header : Type 0 where
  size : Dims → Header
  null out_of_range no_fuel : Header

abbrev sized : Option ℕ → Option ℕ → Header
sized (some w) (some h) = size (record { width = w; height = h })
sized (some w) none = out_of_range
sized none o = out_of_range

abbrev png_magic : List ℕ
png_magic = 137 ∷ 80 ∷ 78 ∷ 71 ∷ 13 ∷ 10 ∷ 26 ∷ 10 ∷ []

-- The comparisons of one byte after the other.
abbrev pub bytes_are : List ℕ → ℕ → List ℕ → Bool
bytes_are buf i [] = true
bytes_are buf i (b ∷ bs) = byte_is buf i b && bytes_are buf (i + 1) bs

pub read_png_dims : List ℕ → Header
read_png_dims buf =
    if ltb (length buf) 24
    then null
    else if not (bytes_are buf 0 png_magic)
    then null
    else if not (bytes_are buf 12 (codes "IHDR"))
    then null
    else sized (read_uint32_be buf 16) (read_uint32_be buf 20)

-- Markers without a length.
abbrev standalone : ℕ → Bool
standalone marker = marker == 216 || (marker == 217 || leb 208 marker && leb marker 215)

-- What the loop does at one marker: return, or go on at another position.
pub data Move : Type 0 where
  returns : Header → Move
  goes : ℕ → Move

abbrev after_segment : ℕ → Option ℕ → Move
after_segment i none = returns out_of_range
after_segment i (some seg_len) = goes (i + (2 + seg_len))

-- The SOF segment, below the reading of its length.
abbrev frame : List ℕ → ℕ → Option ℕ → Header
frame buf i none = out_of_range
frame buf i (some seg_len) =
    if ltb (length buf) (i + 9)
    then null
    else sized (read_uint16_be buf (i + 7)) (read_uint16_be buf (i + 5))

abbrev at_marker : List ℕ → ℕ → Option ℕ → Move
at_marker buf i none = returns null
at_marker buf i (some marker) =
    if marker == 255
    then goes (i + 1)
    else if standalone marker
    then goes (i + 2)
    else if ltb (length buf) (i + 4)
    then returns null
    else if leb 192 marker && leb marker 195
    then returns (frame buf i (read_uint16_be buf (i + 2)))
    else after_segment i (read_uint16_be buf (i + 2))

-- One run of the body of the `while`.
pub jpeg_move : List ℕ → ℕ → Move
jpeg_move buf i =
    if not (byte_is buf i 255) then returns null else at_marker buf i (get_elem? buf (i + 1))

pub scan_jpeg : ℕ → List ℕ → ℕ → Header
unfolding jpeg_move
scan_jpeg zero buf i = if leb (i + 4) (length buf) then no_fuel else null
scan_jpeg (suc fuel) buf i =
    if leb (i + 4) (length buf)
    then elim (jpeg_move buf i) [ returns r ↦ r | goes j ↦ scan_jpeg fuel buf j ]
    else null

-- Each run of the body moves on by at least one byte, so the length is fuel enough.
pub read_jpeg_dims : List ℕ → Header
unfolding scan_jpeg
read_jpeg_dims buf =
    if ltb (length buf) 4
    then null
    else if not (bytes_are buf 0 (255 ∷ 216 ∷ []))
    then null
    else scan_jpeg (length buf) buf 2

abbrev pub default_image_tokens : ℕ
default_image_tokens = 1568

-- `dims` after the two readers, and the tests on it.
abbrev pub image_size : Header → ℕ
image_size (size d) =
    if d.width == 0 || d.height == 0 then default_image_tokens else (d.width * d.height + 749) / 750
image_size null = default_image_tokens
image_size out_of_range = default_image_tokens
image_size no_fuel = default_image_tokens

abbrev either_dims : Header → Header → Header
either_dims null h = h
either_dims (size d) h = size d
either_dims out_of_range h = out_of_range
either_dims no_fuel h = no_fuel

-- `readPngDims(buf) ?? readJpegDims(buf)`.
abbrev decoded_tokens : Option (List ℕ) → ℕ
unfolding read_png_dims read_jpeg_dims
decoded_tokens none = default_image_tokens
decoded_tokens (some buf) = image_size (either_dims (read_png_dims buf) (read_jpeg_dims buf))

pub image_tokens : (Text → Option (List ℕ)) → ImageSource → ℕ
image_tokens decode (url u) = default_image_tokens
image_tokens decode (base64 media_type data_text) = decoded_tokens (decode data_text)
