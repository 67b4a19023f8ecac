-- ===== src/Config/Keys.antt =====
-- src/config.c: each key of `apply_value` keeps the configuration within its bounds.
use ps5_localsend.Base.{◌≡◌, subst, inl, inr, true, some, arith, Bool-cases, Bytes, codes, equal}
use ps5_localsend.Config.Laws.{
  Placed, parse_u64_in, checked_path_ok, some_of, path_of, add_storage_target-ConfigOk, ConfigOk,
}
use ps5_localsend.Config.Load.{
  checked_path, set_key, Key, key_port, key_auth_mode, key_pin_ttl, key_session_ttl,
  key_destination, key_internal, key_usb, key_storage, key_max_bytes, key_max_files, key_language,
}
use ps5_localsend.Config.State.{
  parse_u64, destination_syntax_is_safe, destination_is_safe_for_root, AuthMode, Language,
  AppConfig, auth_pin, auth_none, language_en, language_ru,
}

same_but :
    (config c : AppConfig)
    → ConfigOk config
    → (mode : AuthMode) × (language : Language) × (record config {
      auth_mode = mode;
      language = language;
    }
        ≡ c)
    → ConfigOk c
same_but config c v (mode, language, e) =
    subst ConfigOk e (record { numbers = v.numbers; places = v.places; targets = v.targets })

mode_of :
    (config c : AppConfig) (value : Bytes)
    → set_key key_auth_mode config value ≡ some c
    → (mode : AuthMode) × (language : Language) × (record config {
      auth_mode = mode;
      language = language;
    }
        ≡ c)
unfolding set_key
mode_of config c value h = elim (Bool-cases (equal value (codes "pin"))) [
  | inl t ↦ (auth_pin, config.language, ground arith)
  | inr f ↦ (auth_none, config.language, ground arith)
]

language_of :
    (config c : AppConfig) (value : Bytes)
    → set_key key_language config value ≡ some c
    → (mode : AuthMode) × (language : Language) × (record config {
      auth_mode = mode;
      language = language;
    }
        ≡ c)
unfolding set_key
language_of config c value h = elim (Bool-cases (equal value (codes "en"))) [
  | inl t ↦ (config.auth_mode, language_en, ground arith)
  | inr f ↦ (config.auth_mode, language_ru, ground arith)
]

pub set_key-ConfigOk :
    (k : Key) (config : AppConfig) (value : Bytes) (c : AppConfig)
    → ConfigOk config
    → set_key k config value ≡ some c
    → ConfigOk c
unfolding set_key
set_key-ConfigOk key_port config value c v h =
    let (n, e, same) = some_of (parse_u64 value 1024 65535) (λ n. record config { port = n }) c h in
    subst ConfigOk same (record {
      numbers =
          (parse_u64_in value 1024 65535 n e, v.numbers.1, v.numbers.2, v.numbers.3, v.numbers.4);
      places = v.places;
      targets = v.targets;
    })
set_key-ConfigOk key_auth_mode config value c v h = same_but config c v (mode_of config c value h)
set_key-ConfigOk key_pin_ttl config value c v h =
    let (n, e, same) =
      some_of (parse_u64 value 30 600) (λ n. record config { pin_ttl_seconds = n }) c h in
    subst ConfigOk same (record {
      numbers = (v.numbers.0, parse_u64_in value 30 600 n e, v.numbers.2, v.numbers.3, v.numbers.4);
      places = v.places;
      targets = v.targets;
    })
set_key-ConfigOk key_session_ttl config value c v h =
    let (n, e, same) =
      some_of (parse_u64 value 60 86400) (λ n. record config { session_ttl_seconds = n }) c h in
    subst ConfigOk same (record {
      numbers =
          (v.numbers.0, v.numbers.1, parse_u64_in value 60 86400 n e, v.numbers.3, v.numbers.4);
      places = v.places;
      targets = v.targets;
    })
set_key-ConfigOk key_destination config value c v h =
    let (p, e, same) =
      path_of (checked_path (destination_syntax_is_safe value) value)
        (λ n. record config { destination = n }) c h in
    let (fits, safe, is) = checked_path_ok (destination_syntax_is_safe value) value p e in
    let placed : Placed (destination_syntax_is_safe p) p =
      (fits, subst (λ p. (destination_syntax_is_safe p) ≡ true) is safe) in
    subst ConfigOk same (record {
      numbers = v.numbers;
      places = (placed, v.places.1, v.places.2);
      targets = v.targets;
    })
set_key-ConfigOk key_internal config value c v h =
    let (p, e, same) =
      path_of (checked_path (destination_is_safe_for_root value (codes "/data")) value)
        (λ n. record config { internal_destination = n }) c h in
    let (fits, safe, is) =
      checked_path_ok (destination_is_safe_for_root value (codes "/data")) value p e in
    let placed : Placed (destination_is_safe_for_root p (codes "/data")) p =
      (fits, subst (λ p. (destination_is_safe_for_root p (codes "/data")) ≡ true) is safe) in
    subst ConfigOk same (record {
      numbers = v.numbers;
      places = (v.places.0, placed, v.places.2);
      targets = v.targets;
    })
set_key-ConfigOk key_usb config value c v h =
    let (p, e, same) =
      path_of (checked_path (destination_is_safe_for_root value (codes "/mnt/usb0")) value)
        (λ n. record config { usb_destination = n }) c h in
    let (fits, safe, is) =
      checked_path_ok (destination_is_safe_for_root value (codes "/mnt/usb0")) value p e in
    let placed : Placed (destination_is_safe_for_root p (codes "/mnt/usb0")) p =
      (fits, subst (λ p. (destination_is_safe_for_root p (codes "/mnt/usb0")) ≡ true) is safe) in
    subst ConfigOk same (record {
      numbers = v.numbers;
      places = (v.places.0, v.places.1, placed);
      targets = v.targets;
    })
set_key-ConfigOk key_storage config value c v h = add_storage_target-ConfigOk config value c v h
set_key-ConfigOk key_max_bytes config value c v h =
    let (n, e, same) =
      some_of (parse_u64 value 1 1099511627776) (λ n. record config { max_file_bytes = n }) c h in
    subst ConfigOk same (record {
      numbers = (
        v.numbers.0,
        v.numbers.1,
        v.numbers.2,
        parse_u64_in value 1 1099511627776 n e,
        v.numbers.4,
      );
      places = v.places;
      targets = v.targets;
    })
set_key-ConfigOk key_max_files config value c v h =
    let (n, e, same) =
      some_of (parse_u64 value 1 1000) (λ n. record config { max_files_per_session = n }) c h in
    subst ConfigOk same (record {
      numbers = (v.numbers.0, v.numbers.1, v.numbers.2, v.numbers.3, parse_u64_in value 1 1000 n e);
      places = v.places;
      targets = v.targets;
    })
set_key-ConfigOk key_language config value c v h =
    same_but config c v (language_of config c value h)
