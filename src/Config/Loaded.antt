-- ===== src/Config/Loaded.antt =====
-- src/config.c: whatever file `config_load_file` reads, the configuration is within its bounds.
use ps5_localsend.Base.{
  ℕ, zero, suc, ◌≡◌, refl, sym, ap, subst, ◌≢◌, ◌⊎◌, inl, inr, Bool, true, false, ◌||◌, List, [],
  ◌∷◌, arith, Bool-cases, Bytes, codes, equal, equal_iff, length, replicate, All,
}
use ps5_localsend.Config.File.{
  has_seen, placed, with_path, with_targets, settle_destination, after_lines, config_load_file,
  LoadResult, ConfigFile, load_ok, missing, unreadable, opened,
}
use ps5_localsend.Config.Laws.{Distinct, Within, Placed, TargetOk, TargetsOk, ConfigOk}
use ps5_localsend.Config.Lines.{lines-ConfigOk, default-ConfigOk}
use ps5_localsend.Config.Load.{is_some, load_lines, Loading, key_storage}
use ps5_localsend.Config.State.{
  destination_syntax_is_safe, destination_is_safe_for_root, config_storage_by_path, default_config,
  StorageTarget, AppConfig,
}

-- The internal destination is below /data, and the USB one is /mnt/usb0 or below it.
pub record PlacesOk (c : AppConfig) : Type 0 where
  pub current : Placed (destination_syntax_is_safe c.destination) c.destination
  pub internal :
      Placed
        (destination_is_safe_for_root c.internal_destination (codes "/data"))
        c.internal_destination
  pub usb :
      Placed
        (destination_is_safe_for_root c.usb_destination (codes "/mnt/usb0")
          || equal c.usb_destination (codes "/mnt/usb0"))
        c.usb_destination
  pub usb_syntax : destination_syntax_is_safe c.usb_destination ≡ true

-- The bounds of a configuration that was loaded.
pub record LoadedOk (c : AppConfig) : Type 0 where
  pub numbers :
      Within 1024 65535 c.port
      × Within 30 600 c.pin_ttl_seconds
      × Within 60 86400 c.session_ttl_seconds
      × Within 1 1099511627776 c.max_file_bytes
      × Within 1 1000 c.max_files_per_session
  pub places : PlacesOk c
  pub targets : TargetsOk c.storage_targets

root_syntax :
    (path root : Bytes)
    → destination_is_safe_for_root path root ≡ true
    → destination_syntax_is_safe path ≡ true
unfolding destination_is_safe_for_root
root_syntax path root h = ground arith

left_true : (a b : Bool) → a ≡ true → (a || b) ≡ true
left_true a b h = ground arith

ConfigOk-LoadedOk : (c : AppConfig) → ConfigOk c → LoadedOk c
ConfigOk-LoadedOk c v = record {
  numbers = v.numbers;
  places = record {
    current = v.places.0;
    internal = v.places.1;
    usb = (v.places.2.0, left_true _ _ v.places.2.1);
    usb_syntax = root_syntax c.usb_destination (codes "/mnt/usb0") v.places.2.1;
  };
  targets = v.targets;
}

placed_state :
    (l : Loading)
    → (placed l ≡ l.config)
      ⊎ (((destination_is_safe_for_root l.config.destination (codes "/mnt/usb0")
              || equal l.config.destination (codes "/mnt/usb0"))
            ≡ true)
          × (placed l ≡ record l.config { usb_destination = l.config.destination }))
      ⊎ ((destination_is_safe_for_root l.config.destination (codes "/data") ≡ true)
          × (placed l ≡ record l.config { internal_destination = l.config.destination }))
unfolding placed
placed_state l = ground arith

placed-LoadedOk : (l : Loading) → ConfigOk l.config → LoadedOk (placed l)
placed-LoadedOk l v =
    let w = ConfigOk-LoadedOk l.config v in
    elim (placed_state l) [
      | inl e ↦ subst LoadedOk (sym e) w
      | inr (inl (safe, e)) ↦ subst LoadedOk (sym e) (record {
        numbers = w.numbers;
        places = record {
          current = w.places.current;
          internal = w.places.internal;
          usb = (w.places.current.0, safe);
          usb_syntax = w.places.current.1;
        };
        targets = w.targets;
      })
      | inr (inr (safe, e)) ↦ subst LoadedOk (sym e) (record {
        numbers = w.numbers;
        places = record {
          current = w.places.current;
          internal = (w.places.current.0, safe);
          usb = w.places.usb;
          usb_syntax = w.places.usb_syntax;
        };
        targets = w.targets;
      })
    ]

with_path_ids :
    (ts : List StorageTarget) (i : ℕ) (path id : Bytes)
    → All (λ u. u.id ≢ id) ts
    → All (λ u. u.id ≢ id) (with_path ts i path)
unfolding with_path
with_path_ids [] i path id h = tt
with_path_ids (t ∷ ts) zero path id h = h
with_path_ids (t ∷ ts) (suc i) path id h = (h.0, with_path_ids ts i path id h.1)

with_path-Distinct :
    (ts : List StorageTarget) (i : ℕ) (path : Bytes) → Distinct ts → Distinct (with_path ts i path)
unfolding with_path
with_path-Distinct [] i path d = tt
with_path-Distinct (t ∷ ts) zero path d = d
with_path-Distinct (t ∷ ts) (suc i) path d =
    (with_path_ids ts i path t.id d.0, with_path-Distinct ts i path d.1)

with_path_each :
    (ts : List StorageTarget) (i : ℕ) (path : Bytes)
    → Placed (destination_syntax_is_safe path) path
    → All TargetOk ts
    → All TargetOk (with_path ts i path)
unfolding with_path
with_path_each [] i path p h = tt
with_path_each (t ∷ ts) zero path p h = (
  record { id_safe = h.0.id_safe; label_safe = h.0.label_safe; path_fits = p.0; path_safe = p.1 },
  h.1,
)
with_path_each (t ∷ ts) (suc i) path p h = (h.0, with_path_each ts i path p h.1)

length-with_path :
    (ts : List StorageTarget) (i : ℕ) (path : Bytes) → length (with_path ts i path) ≡ length ts
unfolding with_path
length-with_path [] i path = refl
length-with_path (t ∷ ts) zero path = refl
length-with_path (t ∷ ts) (suc i) path = ap suc (length-with_path ts i path)

with_path-TargetsOk :
    (ts : List StorageTarget) (i : ℕ) (path : Bytes)
    → Placed (destination_syntax_is_safe path) path
    → TargetsOk ts
    → TargetsOk (with_path ts i path)
with_path-TargetsOk ts i path p v = record {
  each_ok = with_path_each ts i path p v.each_ok;
  distinct = with_path-Distinct ts i path v.distinct;
  few = omega (arith, length-with_path ts i path, v.few);
}

with_targets-LoadedOk :
    (was_seen : Bool) (c : AppConfig) → LoadedOk c → LoadedOk (with_targets was_seen c)
unfolding with_targets
with_targets-LoadedOk true c v = v
with_targets-LoadedOk false c v = record {
  numbers = v.numbers;
  places = record {
    current = v.places.current;
    internal = v.places.internal;
    usb = v.places.usb;
    usb_syntax = v.places.usb_syntax;
  };
  targets =
      with_path-TargetsOk _ 1 c.usb_destination (v.places.usb.0, v.places.usb_syntax)
        (with_path-TargetsOk c.storage_targets 0 c.internal_destination
          (
            v.places.internal.0,
            root_syntax c.internal_destination (codes "/data") v.places.internal.1,
          )
          v.targets);
}

-- What holds of the result: the bounds, and, when it is a success, that the destination is the path
-- of a storage target.
abbrev pub ResultOk : LoadResult × AppConfig → Type 0
ResultOk (result, c) =
    LoadedOk c
    × (result ≡ load_ok → is_some (config_storage_by_path c.storage_targets c.destination) ≡ true)

own_path :
    (t : StorageTarget) (ts : List StorageTarget)
    → is_some (config_storage_by_path (t ∷ ts) t.path) ≡ true
unfolding config_storage_by_path
own_path t ts = let same = (equal_iff t.path t.path).1 refl in ground arith

settle_destination-ResultOk :
    (ts : List StorageTarget) (c : AppConfig)
    → c.storage_targets ≡ ts
    → LoadedOk c
    → ResultOk (settle_destination ts c)
unfolding settle_destination
settle_destination-ResultOk [] c e v = (v, λ h. absurd (cc))
settle_destination-ResultOk (t ∷ ts) c e v =
    let head = (subst TargetsOk e v.targets).each_ok.0 in
    elim (Bool-cases (is_some (config_storage_by_path (t ∷ ts) c.destination))) [
      | inl known ↦ simp known (
        v,
        λ h. subst (λ us. is_some (config_storage_by_path us c.destination) ≡ true) (sym e) known,
      )
      | inr foreign ↦ simp foreign (
        record {
          numbers = v.numbers;
          places = record {
            current = (head.path_fits, head.path_safe);
            internal = v.places.internal;
            usb = v.places.usb;
            usb_syntax = v.places.usb_syntax;
          };
          targets = v.targets;
        },
        λ h.
            subst (λ us. is_some (config_storage_by_path us t.path) ≡ true) (sym e) (own_path t ts),
      )
    ]

after_lines-ResultOk :
    (read_error : Bool) (r : Bool × Loading)
    → ConfigOk r.1.config
    → ResultOk (after_lines read_error r)
unfolding after_lines
after_lines-ResultOk read_error (false, l) v = (ConfigOk-LoadedOk l.config v, λ h. absurd (cc))
after_lines-ResultOk true (true, l) v = (ConfigOk-LoadedOk l.config v, λ h. absurd (cc))
after_lines-ResultOk false (true, l) v =
    settle_destination-ResultOk _ _ refl
      (with_targets-LoadedOk (has_seen l key_storage) (placed l) (placed-LoadedOk l v))

-- Whatever `config_load_file` finds, no file or any lines and any error, it leaves a configuration
-- within its bounds: the port is 1024 to 65535, the lifetimes and limits are in their ranges, the
-- destinations are safe absolute directories that fit their buffers, the internal one below /data
-- and the USB one /mnt/usb0 or below it, and there are at most eight storage targets, all safe and
-- with distinct ids. When it answers success, the destination is the path of a storage target.
pub config_load_file-ResultOk : (file : ConfigFile) → ResultOk (config_load_file file)
unfolding config_load_file
config_load_file-ResultOk missing =
    (ConfigOk-LoadedOk default_config default-ConfigOk, λ h. absurd (cc))
config_load_file-ResultOk unreadable =
    (ConfigOk-LoadedOk default_config default-ConfigOk, λ h. absurd (cc))
config_load_file-ResultOk (opened lines read_error) =
    after_lines-ResultOk read_error
      (load_lines true (record { config = default_config; seen = replicate 11 false }) lines)
      (lines-ConfigOk true (record { config = default_config; seen = replicate 11 false }) lines
        default-ConfigOk)
