-- ===== src/Manifest/Patterns.antt =====
-- The text shapes of `crates/blobyard-core/src/application_manifest/patterns.rs`. A byte index is
-- only read behind a test that the text is not empty.
use blobyard_core.Base.{
  ℕ, Bool, true, false, not, ◌&&◌, ◌||◌, List, [], ◌∷◌, ltb, leb, ◌==◌, if◌then◌else◌, length,
  is_empty, drop, all, any, Str, lit, str_eq, split, is_digit, is_lower, is_upper, is_alphabetic,
  is_alphanumeric, chars, is_whitespace, first_is, last_is, split_once, rsplit_once, strip_suffix,
  is_some_and, one_of,
}

abbrev dns_byte : ℕ → Bool
dns_byte b = is_lower b || is_digit b || b == b'-'

unfoldable pub edge_alphanumeric : Str → Bool
edge_alphanumeric value = first_is is_alphanumeric value && last_is is_alphanumeric value

unfoldable pub dns_label : Str → Bool
dns_label value =
    not (is_empty value) && leb (length value) 63 && edge_alphanumeric value && all dns_byte value

unfoldable pub role_name : Str → Bool
role_name value =
    not (is_empty value) && leb (length value) 32 && first_is is_lower value && all dns_byte value

unfoldable pub identifier_part : Str → Bool
identifier_part part =
    not (is_empty part)
    && first_is is_lower part
    && all (λ b. is_lower b || is_digit b || b == b'_') part

unfoldable pub dotted_identifier : Str → Bool
dotted_identifier value =
    let parts = split b'.' value in
    leb 2 (length parts) && leb (length parts) 4 && all identifier_part parts

unfoldable pub permission : Str → Bool
permission value = leb (length value) 128 && dotted_identifier value

unfoldable pub secret_name : Str → Bool
secret_name value =
    not (is_empty value)
    && leb (length value) 64
    && first_is is_upper value
    && all (λ b. is_upper b || is_digit b || b == b'_') value

unfoldable pub bucket_grant : Str → Bool
bucket_grant value =
    is_some_and (split_once b':' value)
      (λ p. dns_label p.0 && one_of (lit "read" ∷ lit "write" ∷ lit "read-write" ∷ []) p.1)

unfoldable pub host_label : Str → Bool
host_label value = not (is_empty value) && edge_alphanumeric value && all dns_byte value

-- The last label is a top-level domain.
unfoldable pub tld_last : List Str → Bool
tld_last [] = false
tld_last (tld ∷ []) = leb 2 (length tld) && leb (length tld) 63 && all is_lower tld
tld_last (label ∷ next ∷ labels) = tld_last (next ∷ labels)

unfoldable pub target_host : Str → Bool
target_host host =
    let labels = split b'.' host in
    leb 2 (length labels) && tld_last labels && all host_label labels

unfoldable pub egress_target : Str → Bool
egress_target value =
    if ltb 256 (length value)
    then false
    else is_some_and (rsplit_once b':' value)
        (λ p. one_of (lit "80" ∷ lit "443" ∷ []) p.1 && target_host p.0)

unfoldable pub path_segment : Str → Bool
path_segment value =
    not (is_empty value)
    && not (one_of (lit "." ∷ lit ".." ∷ []) value)
    && all (λ b. is_alphanumeric b || b == b'.' || b == b'_' || b == b'-') value

unfoldable pub relative_path : Str → Bool
relative_path value =
    leb (length value) 256
    && not (is_empty value)
    && not (first_is (λ b. b == b'/') value)
    && all path_segment (split b'/' value)

unfoldable pub module_path : Str → Bool
module_path value =
    if ltb 256 (length value)
    then false
    else any (λ suffix. is_some_and (strip_suffix suffix value) relative_path)
        (lit ".ts" ∷ lit ".js" ∷ lit ".mts" ∷ lit ".mjs" ∷ [])

unfoldable pub route_segment : Str → Bool
route_segment segment =
    not (is_empty segment)
    && all (λ b. is_alphanumeric b || b == b'.' || b == b'_' || b == b'~' || b == b'-') segment

unfoldable pub route_path : Str → Bool
route_path value =
    if ltb 256 (length value) || not (first_is (λ b. b == b'/') value)
    then false
    else let tail = drop 1 value in is_empty tail || all route_segment (split b'/' tail)

abbrev unit_digits : ℕ → Str → Bool
unit_digits maximum_digits number =
    not (is_empty number)
    && leb (length number) maximum_digits
    && first_is is_digit number
    && not (first_is (λ b. b == b'0') number)
    && all is_digit number

unfoldable pub unit_number : Str → List Str → ℕ → Bool
unit_number value units maximum_digits =
    any (λ unit. is_some_and (strip_suffix unit value) (unit_digits maximum_digits)) units

unfoldable pub byte_size : Str → Bool
byte_size value = unit_number value (lit "KiB" ∷ lit "MiB" ∷ lit "GiB" ∷ []) 6

unfoldable pub duration : Str → Bool
duration value = unit_number value (lit "ms" ∷ lit "s" ∷ lit "m" ∷ []) 4

unfoldable pub cron_shape : Str → Bool
cron_shape value =
    if ltb 64 (length value)
    then false
    else let fields = split b' ' value in
      length fields == 5
      && all (λ field. not (is_empty field) && not (any is_whitespace (chars field))) fields

unfoldable pub timezone_part : Str → Bool
timezone_part part =
    not (is_empty part) && all (λ b. is_alphanumeric b || b == b'_' || b == b'+' || b == b'-') part

unfoldable pub timezone_parts : List Str → Bool
timezone_parts [] = false
timezone_parts (area ∷ rest) =
    all (λ b. is_alphabetic b || b == b'_') area && all timezone_part rest

unfoldable pub timezone_shape : Str → Bool
timezone_shape value =
    if str_eq value (lit "UTC")
    then true
    else if ltb 64 (length value)
    then false
    else let parts = split b'/' value in
      leb 2 (length parts) && leb (length parts) 3 && timezone_parts parts
