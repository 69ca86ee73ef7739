-- ===== src/ScopedIds.antt =====
-- The headers for tenant, project and workload class (router/src/middleware/scopedIds.ts).
pub mod Laws
mod Tests
use local_llms.Base.{
  ℕ, ◌+◌, Bool, true, false, ◌&&◌, ◌||◌, Option, none, some, List, [], ◌∷◌, Text, codes, length,
  leb, ◌==◌, if◌then◌else◌,
}

abbrev is_alphanumeric : ℕ → Bool
is_alphanumeric c = (leb 65 c && leb c 90) || ((leb 97 c && leb c 122) || (leb 48 c && leb c 57))

-- `[A-Za-z0-9._-]`.
abbrev is_class_char : ℕ → Bool
is_class_char c = is_alphanumeric c || (c == 46 || (c == 95 || c == 45))

-- `[A-Za-z0-9._:-]`.
abbrev is_id_char : ℕ → Bool
is_id_char c = is_class_char c || c == 58

abbrev every : (ℕ → Bool) → Text → Bool
every p [] = true
every p (c ∷ s) = p c && every p s

-- ID_RE.
pub id_re : Text → Bool
id_re s = every is_id_char s && (leb 1 (length s) && leb (length s) 128)

-- WC_RE.
pub wc_re : Text → Bool
wc_re s = every is_class_char s && (leb 1 (length s) && leb (length s) 64)

-- A header is absent, a string or an array of strings.
pub data Header : Type 0 where
  absent : Header
  one : Text → Header
  many : List Text → Header

-- The value that is read of a header, where there is one: the first of an array, if it has one.
abbrev pub first_value : Header → Option (Option Text)
first_value absent = none
first_value (one value) = some (some value)
first_value (many []) = some none
first_value (many (value ∷ values)) = some (some value)

-- The return of undefined or of a value, or the InvalidScopedIdError with its label and value.
pub data Extracted : Type 0 where
  missing : Extracted
  valid : Text → Extracted
  invalid : Text → Text → Extracted

abbrev extracted : Text → Option (Option Text) → Extracted
unfolding id_re
extracted label none = missing
extracted label (some none) = invalid label []
extracted label (some (some value)) = if id_re value then valid value else invalid label value

pub extract_scoped_id : Header → Text → Extracted
extract_scoped_id raw label = extracted label (first_value raw)

-- `toLowerCase` on ASCII, which WC_RE lets through alone.
abbrev lower_char : ℕ → ℕ
lower_char c = if leb 65 c && leb c 90 then c + 32 else c

abbrev pub to_lower_case : Text → Text
to_lower_case [] = []
to_lower_case (c ∷ s) = lower_char c ∷ to_lower_case s

abbrev workload : Option (Option Text) → Option Text
unfolding wc_re
workload none = none
workload (some none) = none
workload (some (some value)) = if wc_re value then some (to_lower_case value) else none

pub record Stamps : Type 0 where
  pub tenant_id : Option Text
  pub project_id : Option Text
  pub workload_class : Option Text

pub data Handled : Type 0 where
  stamped : Stamps → Handled
  rejected : Text → Text → Handled

abbrev with_project : Option Text → Option Text → Extracted → Handled
with_project tenant class missing =
    stamped (record { tenant_id = tenant; project_id = none; workload_class = class })
with_project tenant class (valid value) =
    stamped (record { tenant_id = tenant; project_id = some value; workload_class = class })
with_project tenant class (invalid label value) = rejected label value

abbrev with_tenant : Option Text → Extracted → Extracted → Handled
with_tenant class missing project = with_project none class project
with_tenant class (valid value) project = with_project (some value) class project
with_tenant class (invalid label value) project = rejected label value

-- The handler on the headers x-tenant-id, x-project-id and x-workload-class.
pub scoped_ids_pre_handler : Header → Header → Header → Handled
unfolding extract_scoped_id workload
scoped_ids_pre_handler tenant project class =
    with_tenant (workload (first_value class)) (extract_scoped_id tenant (codes "X-Tenant-ID"))
      (extract_scoped_id project (codes "X-Project-ID"))
