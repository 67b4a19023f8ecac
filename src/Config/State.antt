-- ===== src/Config/State.antt =====
-- src/config.c, src/config.h: the configuration, and which values are accepted. A C string has no
-- zero byte; error messages are left out.
use ps5_localsend.Base.{
  ℕ, ◌+◌, ◌-◌, ◌*◌, ◌^◌, Bool, true, false, not, ◌&&◌, ◌||◌, Option, none, some, List, [], ◌∷◌,
  ◌++◌, ltb, leb, ◌==◌, if◌then◌else◌, Bytes, codes, equal, starts_with, is_digit, length, get_or,
  drop, all,
}

pub record StorageTarget : Type 0 where
  pub id : Bytes
  pub label : Bytes
  pub path : Bytes

pub data AuthMode : Type 0 where
  auth_pin auth_none : AuthMode

pub data Language : Type 0 where
  language_en language_ru : Language

pub record AppConfig : Type 0 where
  pub port : ℕ
  pub auth_mode : AuthMode
  pub language : Language
  pub pin_ttl_seconds : ℕ
  pub session_ttl_seconds : ℕ
  pub destination : Bytes
  pub internal_destination : Bytes
  pub usb_destination : Bytes
  pub storage_targets : List StorageTarget
  pub max_file_bytes : ℕ
  pub max_files_per_session : ℕ

abbrev pub destination_capacity : ℕ
destination_capacity = 1024

abbrev pub storage_targets_max : ℕ
storage_targets_max = 8

abbrev pub storage_id_capacity : ℕ
storage_id_capacity = 32

abbrev pub storage_label_capacity : ℕ
storage_label_capacity = 96

abbrev pub line_capacity : ℕ
line_capacity = 2048

-- `isspace` in the C locale
abbrev pub is_space : ℕ → Bool
is_space c = c == 0x20 || (leb 0x09 c && leb c 0x0d)

unfoldable pub trim_start : Bytes → Bytes
trim_start [] = []
trim_start (c ∷ cs) = if is_space c then trim_start cs else c ∷ cs

-- The rest after the last byte that is no space is cut off.
unfoldable pub trim_end : Bytes → Bytes
trim_end [] = []
trim_end (c ∷ cs) = keep_or_drop (trim_end cs)
  where
    keep_or_drop : Bytes → Bytes
    keep_or_drop [] = if is_space c then [] else c ∷ []
    keep_or_drop (d ∷ ds) = c ∷ d ∷ ds

unfoldable pub trim : Bytes → Bytes
trim text = trim_end (trim_start text)

-- The digits of `strtoull(text, &end, 10)`: whether there is one, the value, and what follows.
unfoldable pub read_digits : Bool → ℕ → Bytes → Bool × ℕ × Bytes
read_digits any value [] = (any, value, [])
read_digits any value (c ∷ cs) =
    let rest = read_digits true (value * 10 + (c - b'0')) cs in
    if is_digit c then rest else (any, value, c ∷ cs)

unfoldable pub number_of : Bool × ℕ × Bytes → ℕ → ℕ → Option ℕ
number_of (any, value, rest) minimum maximum =
    if leb (2 ^ 64) value
      || not any
      || not (length rest == 0)
      || ltb value minimum
      || ltb maximum value
    then none
    else some value

unfoldable pub starts_signed : Bytes → Bool
starts_signed [] = false
starts_signed (c ∷ cs) = c == b'-' || c == b'+'

-- `parse_u64` of a text that does not start with a space; every value of a line is trimmed.
unfoldable pub parse_u64 : Bytes → ℕ → ℕ → Option ℕ
parse_u64 text minimum maximum =
    if length text == 0 || starts_signed text
    then none
    else number_of (read_digits false 0 text) minimum maximum

-- `strncmp(path, root, size) == 0 && (path[size] == '\0' || path[size] == '/')`
unfoldable pub is_under : Bytes → Bytes → Bool
is_under path root =
    starts_with path root
    && (get_or path (length root) 0 == 0 || get_or path (length root) 0 == b'/')

unfoldable pub has_blocked : Bytes → Bool
has_blocked [] = false
has_blocked (c ∷ cs) = (ltb c 0x20 || c == 0x7f || c == b'\\' || c == b'"') || has_blocked cs

abbrev pub is_bad_segment : Bytes → Bool
is_bad_segment segment =
    length segment == 0 || equal segment (codes ".") || equal segment (codes "..")

-- The loop over the segments; `segment` is what was read of the current one.
unfoldable pub has_bad_segment : Bytes → Bytes → Bool
has_bad_segment segment [] = is_bad_segment segment
has_bad_segment segment (c ∷ cs) =
    let after_slash = has_bad_segment [] cs in
    let further = has_bad_segment (segment ++ (c ∷ [])) cs in
    if c == b'/' then is_bad_segment segment || after_slash else further

unfoldable pub destination_syntax_is_safe : Bytes → Bool
destination_syntax_is_safe path =
    get_or path 0 0 == b'/'
    && not (get_or path 1 0 == 0)
    && not (is_under path (codes "/dev"))
    && not (is_under path (codes "/proc"))
    && not (is_under path (codes "/sys"))
    && not (has_blocked path)
    && not (has_bad_segment [] (drop 1 path))

unfoldable pub destination_is_safe_for_root : Bytes → Bytes → Bool
destination_is_safe_for_root path root =
    destination_syntax_is_safe path
    && starts_with path root
    && get_or path (length root) 0 == b'/'
    && not (get_or path (length root + 1) 0 == 0)

unfoldable pub config_storage_by_id : List StorageTarget → Bytes → Option StorageTarget
config_storage_by_id [] id = none
config_storage_by_id (t ∷ ts) id =
    let rest = config_storage_by_id ts id in if equal t.id id then some t else rest

unfoldable pub config_storage_by_path : List StorageTarget → Bytes → Option StorageTarget
config_storage_by_path [] path = none
config_storage_by_path (t ∷ ts) path =
    let rest = config_storage_by_path ts path in if equal t.path path then some t else rest

-- `isalnum` in the C locale, `_` or `-`
abbrev pub is_id_byte : ℕ → Bool
is_id_byte c =
    is_digit c || (leb b'a' c && leb c b'z') || (leb b'A' c && leb c b'Z') || c == b'_' || c == b'-'

unfoldable pub storage_id_is_safe : Bytes → Bool
storage_id_is_safe id =
    not (length id == 0 || leb storage_id_capacity (length id)) && all is_id_byte id

abbrev pub is_label_byte : ℕ → Bool
is_label_byte c = not (ltb c 0x20 || c == 0x7f || c == b'"' || c == b'\\' || c == b'|')

unfoldable pub storage_label_is_safe : Bytes → Bool
storage_label_is_safe label =
    not (length label == 0 || leb storage_label_capacity (length label)) && all is_label_byte label

-- `config_set_defaults`
abbrev pub default_config : AppConfig
default_config = record {
  port = 53317;
  auth_mode = auth_pin;
  language = language_en;
  pin_ttl_seconds = 120;
  session_ttl_seconds = 900;
  destination = codes "/data/ps5localsend/inbox";
  internal_destination = codes "/data/ps5localsend/inbox";
  usb_destination = codes "/mnt/usb0/ps5localsend/inbox";
  storage_targets =
      record {
        id = codes "internal";
        label = codes "Internal storage";
        path = codes "/data/ps5localsend/inbox";
      }
      ∷ record {
        id = codes "usb";
        label = codes "USB drive";
        path = codes "/mnt/usb0/ps5localsend/inbox";
      }
      ∷ [];
  max_file_bytes = 21474836480;
  max_files_per_session = 100;
}
