-- ===== src/Config/Tests.antt =====
-- src/config.c: the theorems at concrete inputs.
use ps5_localsend.Base.{
  ◌≡◌, refl, true, false, List, [], ◌∷◌, map, Bytes, codes, equal, starts_with, drop, all, All,
}
use ps5_localsend.Config.File.{
  placed, with_path, with_targets, settle_destination, after_lines, config_load_file, ConfigFile,
  load_ok, opened,
}
use ps5_localsend.Config.Load.{
  split_at, key_of, checked_path, set_key, store, apply_key, apply_value, apply_pair, load_line,
  load_file_line, load_lines, FileLine,
}
use ps5_localsend.Config.Loaded.{ResultOk, config_load_file-ResultOk}
use ps5_localsend.Config.Segments.{IsEntry, destination_syntax_is_safe-components}
use ps5_localsend.Config.State.{
  trim_start, trim_end, trim, read_digits, number_of, starts_signed, parse_u64, is_under,
  has_blocked, has_bad_segment, destination_syntax_is_safe, destination_is_safe_for_root,
  config_storage_by_path,
}
use ps5_localsend.SafePath.Laws.{components}

abbrev lines_of : List Bytes → List FileLine
lines_of = map (λ text. record { text = text; at_end = false })

abbrev two_lines : ConfigFile
two_lines = opened (lines_of (codes "port = 8080\n" ∷ codes "# a comment\n" ∷ [])) false

abbrev usb_line : ConfigFile
usb_line = opened (lines_of (codes "destination=/mnt/usb0\n" ∷ [])) false

port_test :
    ((config_load_file two_lines).0 ≡ load_ok) × ((config_load_file two_lines).1.port ≡ 8080)
unfolding config_load_file after_lines load_lines load_file_line load_line apply_pair apply_value
    apply_key key_of set_key store trim trim_start trim_end split_at equal parse_u64 read_digits
    number_of starts_signed starts_with all placed with_targets with_path settle_destination
    config_storage_by_path
port_test = (refl, refl)

usb_test :
    ((config_load_file usb_line).0 ≡ load_ok)
    × ((config_load_file usb_line).1.usb_destination ≡ codes "/mnt/usb0")
    × ((config_load_file usb_line).1.destination ≡ codes "/mnt/usb0")
unfolding config_load_file after_lines load_lines load_file_line load_line apply_pair apply_value
    apply_key key_of set_key store trim trim_start trim_end split_at equal checked_path starts_with
    all placed with_targets with_path settle_destination config_storage_by_path
    destination_is_safe_for_root destination_syntax_is_safe is_under has_blocked has_bad_segment
usb_test = (refl, refl, refl)

safe_a : destination_syntax_is_safe (codes "/data/a") ≡ true
unfolding destination_syntax_is_safe is_under has_blocked has_bad_segment starts_with equal
safe_a = refl

config_load_file-ResultOk_example : ResultOk (config_load_file usb_line)
config_load_file-ResultOk_example = config_load_file-ResultOk usb_line

destination_syntax_is_safe-components_example :
    (components (codes "/data/a") ≡ [] ∷ components (drop 1 (codes "/data/a")))
    × All IsEntry (components (drop 1 (codes "/data/a")))
destination_syntax_is_safe-components_example =
    destination_syntax_is_safe-components (codes "/data/a") safe_a
