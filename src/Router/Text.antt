-- ===== src/Router/Text.antt =====
-- src/router.c: the tests of the request's headers and of its path.
use ps5_localsend.Base.{
  ℕ, ◌+◌, Bool, true, false, not, ◌&&◌, ◌||◌, Option, none, some, ◌++◌, ltb, leb, ◌==◌,
  if◌then◌else◌, Bytes, codes, equal, starts_with, length, take, drop, all,
}
use ps5_localsend.Config.State.{trim_start}
use ps5_localsend.Sha256.Shape.{is_lower_hex}

abbrev pub is_host_byte : ℕ → Bool
is_host_byte c = not (leb c 0x20 || c == 0x7f || c == b'/' || c == b'\\' || c == b'@' || c == b'#')

unfoldable pub valid_host : Option Bytes → Bool
valid_host none = false
valid_host (some host) = not (length host == 0) && leb (length host) 255 && all is_host_byte host

-- `expected` of `same_origin`; it has room for any valid host.
abbrev pub origin_of : Bytes → Bytes
origin_of host = codes "http://" ++ host

unfoldable pub same_origin : Option Bytes → Option Bytes → Bool
same_origin (some host) (some origin) =
    valid_host (some host) && ltb (length (origin_of host)) 263 && equal origin (origin_of host)
same_origin _ _ = false

unfoldable pub is_json_content_type : Option Bytes → Bool
is_json_content_type none = false
is_json_content_type (some content_type) =
    let suffix = drop 16 content_type in
    if not (starts_with content_type (codes "application/json"))
    then false
    else if length suffix == 0
    then true
    else equal (trim_start suffix) (codes "; charset=utf-8")
      || equal (trim_start suffix) (codes ";charset=utf-8")

abbrev pub upload_id_hex_bytes : ℕ
upload_id_hex_bytes = 32

abbrev pub uploads_prefix : Bytes
uploads_prefix = codes "/api/v1/uploads/"

-- The id at the end of the path.
unfoldable pub upload_id_from_path : Bytes → Option Bytes
upload_id_from_path path =
    let id = drop 16 path in
    if not (starts_with path uploads_prefix) || not (length id == upload_id_hex_bytes)
    then none
    else if all is_lower_hex id
    then some id
    else none

-- The id before `/complete`.
unfoldable pub upload_complete_from_path : Bytes → Option Bytes
upload_complete_from_path path =
    let id = take upload_id_hex_bytes (drop 16 path) in
    if not (length path == 16 + upload_id_hex_bytes + 9)
      || not (starts_with path uploads_prefix)
      || not (equal (drop (16 + upload_id_hex_bytes) path) (codes "/complete"))
    then none
    else if all is_lower_hex id
    then some id
    else none
