-- ===== src/Config/Laws.antt =====
-- src/config.c: the bounds of a configuration, and what an accepted number, path or storage target
-- does to them.
use ps5_localsend.Base.{
  ℕ, ◌≤◌, ◌<◌, ◌≡◌, refl, sym, subst, ◌≢◌, inl, inr, Bool, true, false, ◌||◌, Option, none, some,
  List, [], ◌∷◌, ◌++◌, arith, leb, ◌==◌, if◌then◌else◌, Bool-cases, Bytes, codes, equal, equal_iff,
  ◌>>=◌, length, All, length-append,
}
use ps5_localsend.Config.Load.{split_at, is_some, add_parts, add_storage_target, checked_path}
use ps5_localsend.Config.State.{
  destination_capacity, storage_targets_max, line_capacity, trim, read_digits, number_of,
  starts_signed, parse_u64, destination_syntax_is_safe, destination_is_safe_for_root,
  config_storage_by_id, storage_id_is_safe, storage_label_is_safe, StorageTarget, AppConfig,
}

pub record TargetOk (t : StorageTarget) : Type 0 where
  pub id_safe : storage_id_is_safe t.id ≡ true
  pub label_safe : storage_label_is_safe t.label ≡ true
  pub path_fits : length t.path < destination_capacity
  pub path_safe : destination_syntax_is_safe t.path ≡ true

-- No two targets have the same id.
abbrev pub Distinct : List StorageTarget → Type 0
Distinct [] = Unit
Distinct (t ∷ ts) = All (λ u. u.id ≢ t.id) ts × Distinct ts

pub record TargetsOk (ts : List StorageTarget) : Type 0 where
  pub each_ok : All TargetOk ts
  pub distinct : Distinct ts
  pub few : length ts ≤ storage_targets_max

abbrev pub Within : ℕ → ℕ → ℕ → Type 0
Within low high n = (low ≤ n) × (n ≤ high)

abbrev pub Placed : Bool → Bytes → Type 0
Placed safe path = (length path < destination_capacity) × (safe ≡ true)

pub record ConfigOk (c : AppConfig) : Type 0 where
  -- the port, the two lifetimes, and the two limits of uploads
  pub numbers :
      Within 1024 65535 c.port
      × Within 30 600 c.pin_ttl_seconds
      × Within 60 86400 c.session_ttl_seconds
      × Within 1 1099511627776 c.max_file_bytes
      × Within 1 1000 c.max_files_per_session
  -- the current, the internal and the USB destination
  pub places :
      Placed (destination_syntax_is_safe c.destination) c.destination
      × Placed
          (destination_is_safe_for_root c.internal_destination (codes "/data"))
          c.internal_destination
      × Placed
          (destination_is_safe_for_root c.usb_destination (codes "/mnt/usb0"))
          c.usb_destination
  pub targets : TargetsOk c.storage_targets

pub number_in :
    (r : Bool × ℕ × Bytes) (low high n : ℕ) → number_of r low high ≡ some n → (low ≤ n) × (n ≤ high)
unfolding number_of
number_in (any, value, rest) low high n h = ground arith

pub parse_u64_in :
    (text : Bytes) (low high n : ℕ) → parse_u64 text low high ≡ some n → (low ≤ n) × (n ≤ high)
unfolding parse_u64
parse_u64_in text low high n h = elim (Bool-cases (length text == 0 || starts_signed text)) [
  | inl t ↦ absurd (ground arith)
  | inr f ↦ number_in (read_digits false 0 text) low high n (ground arith)
]

pub checked_path_ok :
    (safe : Bool) (value path : Bytes)
    → checked_path safe value ≡ some path
    → (length path < destination_capacity) × (safe ≡ true) × (value ≡ path)
unfolding checked_path
checked_path_ok safe value path h = ground arith

-- The accepted value of an option, and what the configuration becomes.
pub some_of :
    (o : Option ℕ) (f : ℕ → AppConfig) (c : AppConfig)
    → (o >>= λ n. some (f n)) ≡ some c
    → (n : ℕ) × (o ≡ some n) × (f n ≡ c)
some_of none f c h = absurd (cc)
some_of (some n) f c h = (n, refl, ground arith)

pub path_of :
    (o : Option Bytes) (f : Bytes → AppConfig) (c : AppConfig)
    → (o >>= λ n. some (f n)) ≡ some c
    → (n : Bytes) × (o ≡ some n) × (f n ≡ c)
path_of none f c h = absurd (cc)
path_of (some n) f c h = (n, refl, ground arith)

not_held :
    (ts : List StorageTarget) (id : Bytes)
    → is_some (config_storage_by_id ts id) ≡ false
    → All (λ u. u.id ≢ id) ts
unfolding config_storage_by_id
not_held [] id h = tt
not_held (t ∷ ts) id h = elim (Bool-cases (equal t.id id)) [
  | inl y ↦ absurd (ground arith)
  | inr n ↦ (
    (λ e. absurd (let y = (equal_iff t.id id).1 e in ground arith)),
    not_held ts id
        (subst (λ b. is_some (if b then some t else config_storage_by_id ts id) ≡ false) n h),
  )
]

Distinct-append :
    (ts : List StorageTarget) (t : StorageTarget)
    → Distinct ts
    → All (λ u. u.id ≢ t.id) ts
    → Distinct (ts ++ (t ∷ []))
Distinct-append [] t d h = (tt, tt)
Distinct-append (u ∷ ts) t d h = (end ts d.0, Distinct-append ts t d.1 h.1)
  where
    end :
        (us : List StorageTarget)
        → All (λ w. w.id ≢ u.id) us
        → All (λ w. w.id ≢ u.id) (us ++ (t ∷ []))
    end [] k = ((λ e. h.0 (sym e)), tt)
    end (w ∷ us) k = (k.0, end us k.1)

targets-append :
    (ts : List StorageTarget) (t : StorageTarget)
    → All TargetOk ts
    → TargetOk t
    → All TargetOk (ts ++ (t ∷ []))
targets-append [] t h k = (k, tt)
targets-append (u ∷ ts) t h k = (h.0, targets-append ts t h.1 k)

part_facts :
    (config : AppConfig) (id label path : Bytes) (c : AppConfig)
    → add_parts config id label path ≡ some c
    → (storage_id_is_safe id ≡ true)
      × (storage_label_is_safe label ≡ true)
      × (length path < destination_capacity)
      × (destination_syntax_is_safe path ≡ true)
      × (length config.storage_targets < storage_targets_max)
      × (is_some (config_storage_by_id config.storage_targets id) ≡ false)
      × (record config {
        storage_targets =
            config.storage_targets ++ (record { id = id; label = label; path = path } ∷ []);
      }
          ≡ c)
unfolding add_parts
part_facts config id label path c h = ground arith

add_parts-ConfigOk :
    (config : AppConfig) (id label path : Bytes) (c : AppConfig)
    → ConfigOk config
    → add_parts config id label path ≡ some c
    → ConfigOk c
add_parts-ConfigOk config id label path c v h =
    let (i, l, fits, safe, few, fresh, same) = part_facts config id label path c h in
    let ts = config.storage_targets in
    let t : StorageTarget = record { id = id; label = label; path = path } in
    subst ConfigOk same (record {
      numbers = v.numbers;
      places = v.places;
      targets = record {
        each_ok =
            targets-append ts t v.targets.each_ok
              (record { id_safe = i; label_safe = l; path_fits = fits; path_safe = safe });
        distinct = Distinct-append ts t v.targets.distinct (not_held ts id fresh);
        few = omega (arith, length-append ts (t ∷ []));
      };
    })

pub add_storage_target-ConfigOk :
    (config : AppConfig) (value : Bytes) (c : AppConfig)
    → ConfigOk config
    → add_storage_target config value ≡ some c
    → ConfigOk c
unfolding add_storage_target
add_storage_target-ConfigOk config value c v h =
    elim (Bool-cases (leb line_capacity (length value))) [
      | inl t ↦ absurd (ground arith)
      | inr f ↦ first (split_at b'|' (trim value)) (ground arith)
    ]
  where
    second :
        (id : Bytes) (o : Option (Bytes × Bytes))
        → (o >>= λ p. add_parts config (trim id) (trim p.0) (trim p.1)) ≡ some c
        → ConfigOk c
    second id none e = absurd (cc)
    second id (some (label, path)) e =
        add_parts-ConfigOk config (trim id) (trim label) (trim path) c v e

    first :
        (o : Option (Bytes × Bytes))
        → (o >>= λ p.
            split_at b'|' (trim p.1) >>= λ q. add_parts config (trim p.0) (trim q.0) (trim q.1))
          ≡ some c
        → ConfigOk c
    first none e = absurd (cc)
    first (some (id, rest)) e = second id (split_at b'|' (trim rest)) e
