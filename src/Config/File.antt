-- ===== src/Config/File.antt =====
-- src/config.c: `config_load_file`, for arguments that are not null; what the system says about the
-- file is an argument.
use ps5_localsend.Base.{
  ℕ, zero, suc, Bool, true, false, not, ◌&&◌, ◌||◌, List, [], ◌∷◌, if◌then◌else◌, Bytes, codes,
  equal, get_or, replicate,
}
use ps5_localsend.Config.Load.{
  is_some, key_index, load_lines, Key, Loading, FileLine, key_destination, key_internal, key_usb,
  key_storage,
}
use ps5_localsend.Config.State.{
  destination_is_safe_for_root, config_storage_by_path, default_config, StorageTarget, AppConfig,
}

-- `config_load_result_t`
pub data LoadResult : Type 0 where
  load_ok load_not_found load_invalid load_io_error : LoadResult

-- What `fopen` finds; for an open file its lines, and whether reading them ended in an error.
pub data ConfigFile : Type 0 where
  missing unreadable : ConfigFile
  opened : List FileLine → Bool → ConfigFile

abbrev pub has_seen : Loading → Key → Bool
has_seen l k = get_or l.seen (key_index k) false

-- A `destination` without `storage_path` is also the destination of its device.
unfoldable pub placed : Loading → AppConfig
placed l =
    let c = l.config in
    if not (has_seen l key_storage) && has_seen l key_destination
    then (if (destination_is_safe_for_root c.destination (codes "/mnt/usb0")
            || equal c.destination (codes "/mnt/usb0"))
          && not (has_seen l key_usb)
        then record c { usb_destination = c.destination }
        else if destination_is_safe_for_root c.destination (codes "/data")
            && not (has_seen l key_internal)
        then record c { internal_destination = c.destination }
        else c)
    else c

-- `storage_targets[index].path = path`; while no `storage_path` was seen, the two default targets
-- stand, so the index is that of a target.
unfoldable pub with_path : List StorageTarget → ℕ → Bytes → List StorageTarget
with_path [] index path = []
with_path (t ∷ ts) zero path = record t { path = path } ∷ ts
with_path (t ∷ ts) (suc index) path = t ∷ with_path ts index path

unfoldable pub with_targets : Bool → AppConfig → AppConfig
with_targets true c = c
with_targets false c = record c {
  storage_targets =
      with_path (with_path c.storage_targets 0 c.internal_destination) 1 c.usb_destination;
}

-- Without a target the file is refused; else the destination becomes the path of one.
unfoldable pub settle_destination : List StorageTarget → AppConfig → LoadResult × AppConfig
settle_destination [] c = (load_invalid, c)
settle_destination (t ∷ ts) c = (
  load_ok,
  if not (is_some (config_storage_by_path (t ∷ ts) c.destination))
      then record c { destination = t.path }
      else c,
)

-- What `config_load_file` does after the loop.
unfoldable pub after_lines : Bool → Bool × Loading → LoadResult × AppConfig
after_lines read_error (false, l) = (load_invalid, l.config)
after_lines true (true, l) = (load_io_error, l.config)
after_lines false (true, l) =
    let c = with_targets (has_seen l key_storage) (placed l) in
    settle_destination c.storage_targets c

-- `config_load_file`: its result, and the configuration that it leaves.
unfoldable pub config_load_file : ConfigFile → LoadResult × AppConfig
config_load_file missing = (load_not_found, default_config)
config_load_file unreadable = (load_io_error, default_config)
config_load_file (opened lines read_error) =
    after_lines read_error
      (load_lines true (record { config = default_config; seen = replicate 11 false }) lines)
