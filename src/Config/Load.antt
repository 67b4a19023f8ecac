-- ===== src/Config/Load.antt =====
-- src/config.c: how a configuration file changes the defaults.
use ps5_localsend.Base.{
  ℕ, Bool, true, false, not, ◌&&◌, ◌||◌, Option, none, some, List, [], ◌∷◌, ◌++◌, leb, ◌==◌,
  if◌then◌else◌, Bytes, codes, equal, starts_with, ◌>>=◌, length, get_or, set, drop, all,
}
use ps5_localsend.Config.State.{
  destination_capacity, storage_targets_max, line_capacity, trim, parse_u64,
  destination_syntax_is_safe, destination_is_safe_for_root, config_storage_by_id,
  storage_id_is_safe, storage_label_is_safe, StorageTarget, AppConfig, auth_pin, auth_none,
  language_en, language_ru,
}

-- `strchr(text, c)`: what stands before the first `c`, and what follows it.
unfoldable pub split_at : ℕ → Bytes → Option (Bytes × Bytes)
split_at c [] = none
split_at c (x ∷ xs) = if x == c then some ([], xs) else before x (split_at c xs)
  where
    before : ℕ → Option (Bytes × Bytes) → Option (Bytes × Bytes)
    before x none = none
    before x (some (l, r)) = some (x ∷ l, r)

abbrev pub is_some : Option StorageTarget → Bool
is_some none = false
is_some (some t) = true

-- The tests of `add_storage_target` on the three parts, and the new entry.
unfoldable pub add_parts : AppConfig → Bytes → Bytes → Bytes → Option AppConfig
add_parts config id label path =
    if any_bar path
      || not (storage_id_is_safe id)
      || not (storage_label_is_safe label)
      || leb destination_capacity (length path)
      || not (destination_syntax_is_safe path)
    then none
    else if leb storage_targets_max (length config.storage_targets)
    then none
    else if is_some (config_storage_by_id config.storage_targets id)
    then none
    else some (record config {
      storage_targets =
          config.storage_targets ++ (record { id = id; label = label; path = path } ∷ []);
    })
  where
    any_bar : Bytes → Bool
    any_bar [] = false
    any_bar (c ∷ cs) = c == b'|' || any_bar cs

unfoldable pub add_storage_target : AppConfig → Bytes → Option AppConfig
add_storage_target config value = if leb line_capacity (length value) then none else do
  (id, rest) ← split_at b'|' (trim value)
  (label, path) ← split_at b'|' (trim rest)
  add_parts config (trim id) (trim label) (trim path)

-- The entries of `keys`.
pub data Key : Type 0 where
  key_port key_auth_mode key_pin_ttl key_session_ttl key_destination : Key
  key_internal key_usb key_storage key_max_bytes key_max_files key_language : Key

unfoldable pub key_of : Bytes → Option Key
key_of key =
    if equal key (codes "port")
    then some key_port
    else if equal key (codes "auth_mode")
    then some key_auth_mode
    else if equal key (codes "pin_ttl_seconds")
    then some key_pin_ttl
    else if equal key (codes "session_ttl_seconds")
    then some key_session_ttl
    else if equal key (codes "destination")
    then some key_destination
    else if equal key (codes "internal_destination")
    then some key_internal
    else if equal key (codes "usb_destination")
    then some key_usb
    else if equal key (codes "storage_path")
    then some key_storage
    else if equal key (codes "max_file_bytes")
    then some key_max_bytes
    else if equal key (codes "max_files_per_session")
    then some key_max_files
    else if equal key (codes "language")
    then some key_language
    else none

abbrev pub key_index : Key → ℕ
key_index key_port = 0
key_index key_auth_mode = 1
key_index key_pin_ttl = 2
key_index key_session_ttl = 3
key_index key_destination = 4
key_index key_internal = 5
key_index key_usb = 6
key_index key_storage = 7
key_index key_max_bytes = 8
key_index key_max_files = 9
key_index key_language = 10

-- The configuration being read, and the bits of `seen`.
pub record Loading : Type 0 where
  pub config : AppConfig
  pub seen : List Bool

unfoldable pub checked_path : Bool → Bytes → Option Bytes
checked_path safe value =
    if leb destination_capacity (length value) || not safe then none else some value

-- The branch of `apply_value` for a key.
unfoldable pub set_key : Key → AppConfig → Bytes → Option AppConfig
set_key key_port config value =
    parse_u64 value 1024 65535 >>= λ number. some (record config { port = number })
set_key key_auth_mode config value =
    if equal value (codes "pin")
    then some (record config { auth_mode = auth_pin })
    else if equal value (codes "none")
    then some (record config { auth_mode = auth_none })
    else none
set_key key_pin_ttl config value = do
  number ← parse_u64 value 30 600
  some (record config { pin_ttl_seconds = number })
set_key key_session_ttl config value = do
  number ← parse_u64 value 60 86400
  some (record config { session_ttl_seconds = number })
set_key key_destination config value = do
  path ← checked_path (destination_syntax_is_safe value) value
  some (record config { destination = path })
set_key key_internal config value = do
  path ← checked_path (destination_is_safe_for_root value (codes "/data")) value
  some (record config { internal_destination = path })
set_key key_usb config value = do
  path ← checked_path (destination_is_safe_for_root value (codes "/mnt/usb0")) value
  some (record config { usb_destination = path })
set_key key_storage config value = add_storage_target config value
set_key key_max_bytes config value = do
  number ← parse_u64 value 1 1099511627776
  some (record config { max_file_bytes = number })
set_key key_max_files config value = do
  number ← parse_u64 value 1 1000
  some (record config { max_files_per_session = number })
set_key key_language config value =
    if equal value (codes "en")
    then some (record config { language = language_en })
    else if equal value (codes "ru")
    then some (record config { language = language_ru })
    else none

-- The first `storage_path` replaces the default targets.
abbrev pub reset_targets : Key → Bool → AppConfig → AppConfig
reset_targets key_storage false config = record config { storage_targets = [] }
reset_targets _ _ config = config

abbrev pub is_repeatable : Key → Bool
is_repeatable key_storage = true
is_repeatable _ = false

unfoldable pub store : Loading → Option AppConfig → Bool × Loading
store l none = (false, l)
store l (some config) = (true, record l { config = config })

unfoldable pub apply_key : Loading → Option Key → Bytes → Bool × Loading
apply_key l none value = (false, l)
apply_key l (some k) value =
    let was_seen = get_or l.seen (key_index k) false in
    let l' : Loading = record {
      config = reset_targets k was_seen l.config;
      seen = set l.seen (key_index k) true;
    } in
    if not (is_repeatable k) && was_seen then (false, l) else store l' (set_key k l'.config value)

-- `apply_value`: whether the value is accepted, and what is left.
unfoldable pub apply_value : Loading → Bytes → Bytes → Bool × Loading
apply_value l key value = apply_key l (key_of key) value

unfoldable pub apply_pair : Loading → Option (Bytes × Bytes) → Bool × Loading
apply_pair l none = (false, l)
apply_pair l (some (key, value)) =
    if length (trim key) == 0 || length (trim value) == 0
    then (false, l)
    else apply_value l (trim key) (trim value)

-- A line of `config_load_file`, from `trim(line)` on.
unfoldable pub load_line : Loading → Bytes → Bool × Loading
load_line l line =
    let key = trim line in
    if get_or key 0 0 == 0 || get_or key 0 0 == b'#' || get_or key 0 0 == b';'
    then (true, l)
    else apply_pair l (split_at b'=' key)

-- What `fgets` has read, and whether it met the end of the file.
pub record FileLine : Type 0 where
  pub text : Bytes
  pub at_end : Bool

abbrev pub is_utf16 : Bytes → Bool
is_utf16 text =
    (get_or text 0 0 == 0xff && get_or text 1 0 == 0xfe)
    || (get_or text 0 0 == 0xfe && get_or text 1 0 == 0xff)

-- The text without a UTF-8 byte order mark.
abbrev pub without_mark : Bytes → Bytes
without_mark text = if starts_with text (0xef ∷ 0xbb ∷ 0xbf ∷ []) then drop 3 text else text

abbrev pub has_newline : Bytes → Bool
has_newline text = not (all (λ c. not (c == 0x0a)) text)

-- The body of the loop of `config_load_file`.
unfoldable pub load_file_line : Bool → Loading → FileLine → Bool × Loading
load_file_line is_first l line =
    let text = if is_first then without_mark line.text else line.text in
    if is_first && is_utf16 line.text
    then (false, l)
    else if not (has_newline text) && not line.at_end
    then (false, l)
    else load_line l text

-- The loop of `config_load_file` over the lines of the file; it stops at the first line that is
-- refused.
unfoldable pub load_lines : Bool → Loading → List FileLine → Bool × Loading
load_lines is_first l [] = (true, l)
load_lines is_first l (line ∷ lines) =
    let next = load_file_line is_first l line in
    let rest = load_lines false next.1 lines in if next.0 then rest else next
