-- ===== src/Config/Lines.antt =====
-- src/config.c: the loop over the lines of any file keeps the configuration within its bounds.
use ps5_localsend.Base.{
  ◌≡◌, refl, sym, ap, subst, ◌⊎◌, inl, inr, Bool, true, false, not, ◌&&◌, ◌||◌, Option, none, some,
  List, [], ◌∷◌, arith, ◌==◌, if◌then◌else◌, Bool-cases, Bytes, equal, starts_with, length, get_or,
  set, all,
}
use ps5_localsend.Config.Keys.{set_key-ConfigOk}
use ps5_localsend.Config.Laws.{ConfigOk}
use ps5_localsend.Config.Load.{
  split_at, key_of, key_index, set_key, reset_targets, is_repeatable, store, apply_key, apply_value,
  apply_pair, load_line, is_utf16, without_mark, has_newline, load_file_line, load_lines, Key,
  Loading, FileLine, key_port, key_auth_mode, key_pin_ttl, key_session_ttl, key_destination,
  key_internal, key_usb, key_storage, key_max_bytes, key_max_files, key_language,
}
use ps5_localsend.Config.State.{
  trim, is_under, has_blocked, has_bad_segment, destination_syntax_is_safe,
  destination_is_safe_for_root, storage_id_is_safe, storage_label_is_safe, default_config,
  AppConfig,
}

store-ConfigOk :
    (l : Loading) (o : Option AppConfig)
    → ConfigOk l.config
    → ((c : AppConfig) → o ≡ some c → ConfigOk c)
    → ConfigOk (store l o).1.config
unfolding store
store-ConfigOk l none v h = v
store-ConfigOk l (some c) v h = h c refl

reset-ConfigOk : (k : Key) (b : Bool) (c : AppConfig) → ConfigOk c → ConfigOk (reset_targets k b c)
reset-ConfigOk key_storage true c v = v
reset-ConfigOk key_storage false c v = record {
  numbers = v.numbers;
  places = v.places;
  targets = record { each_ok = tt; distinct = tt; few = omega arith };
}
reset-ConfigOk key_port b c v = v
reset-ConfigOk key_auth_mode b c v = v
reset-ConfigOk key_pin_ttl b c v = v
reset-ConfigOk key_session_ttl b c v = v
reset-ConfigOk key_destination b c v = v
reset-ConfigOk key_internal b c v = v
reset-ConfigOk key_usb b c v = v
reset-ConfigOk key_max_bytes b c v = v
reset-ConfigOk key_max_files b c v = v
reset-ConfigOk key_language b c v = v

apply_key-ConfigOk :
    (l : Loading) (o : Option Key) (value : Bytes)
    → ConfigOk l.config
    → ConfigOk (apply_key l o value).1.config
unfolding apply_key
apply_key-ConfigOk l none value v = v
apply_key-ConfigOk l (some k) value v =
    let was_seen = get_or l.seen (key_index k) false in
    let c = reset_targets k was_seen l.config in
    let v' = reset-ConfigOk k was_seen l.config v in
    elim (Bool-cases (not (is_repeatable k) && was_seen)) [
      | inl t ↦ simp t v
      | inr f ↦ simp f (
          store-ConfigOk (record { config = c; seen = set l.seen (key_index k) true })
            (set_key k c value) v' (λ d e. set_key-ConfigOk k c value d v' e))
    ]

apply_pair-ConfigOk :
    (l : Loading) (o : Option (Bytes × Bytes))
    → ConfigOk l.config
    → ConfigOk (apply_pair l o).1.config
unfolding apply_pair apply_value
apply_pair-ConfigOk l none v = v
apply_pair-ConfigOk l (some (key, value)) v =
    elim (Bool-cases (length (trim key) == 0 || length (trim value) == 0)) [
      | inl t ↦ simp t v
      | inr f ↦ simp f (apply_key-ConfigOk l (key_of (trim key)) (trim value) v)
    ]

load_line_state :
    (l : Loading) (line : Bytes)
    → (load_line l line ≡ (true, l)) ⊎ (load_line l line ≡ apply_pair l (split_at b'=' (trim line)))
unfolding load_line
load_line_state l line = ground arith

load_line-ConfigOk :
    (l : Loading) (line : Bytes) → ConfigOk l.config → ConfigOk (load_line l line).1.config
load_line-ConfigOk l line v = elim (load_line_state l line) [
  | inl e ↦ subst (λ (r : Bool × Loading). ConfigOk r.1.config) (sym e) v
  | inr e ↦
      subst (λ (r : Bool × Loading). ConfigOk r.1.config) (sym e)
        (apply_pair-ConfigOk l (split_at b'=' (trim line)) v)
]

file_line_state :
    (is_first : Bool) (l : Loading) (line : FileLine)
    → (load_file_line is_first l line ≡ (false, l))
      ⊎ ((text : Bytes) × (load_file_line is_first l line ≡ load_line l text))
unfolding load_file_line
file_line_state is_first l line = elim (Bool-cases (is_first && is_utf16 line.text)) [
  | inl marked ↦ inl (simp marked refl)
  | inr plain ↦
      elim (Bool-cases (
        not (has_newline (if is_first then without_mark line.text else line.text))
        && not line.at_end)) [
          | inl long ↦ inl (simp (plain, long) refl)
          | inr fits ↦
              inr (if is_first then without_mark line.text else line.text, simp (plain, fits) refl)
        ]
]

pub lines-ConfigOk :
    (is_first : Bool) (l : Loading) (lines : List FileLine)
    → ConfigOk l.config
    → ConfigOk (load_lines is_first l lines).1.config
unfolding load_lines
lines-ConfigOk is_first l [] v = v
lines-ConfigOk is_first l (line ∷ lines) v =
    let v' : ConfigOk (load_file_line is_first l line).1.config =
      elim (file_line_state is_first l line) [
        | inl e ↦ subst (λ (r : Bool × Loading). ConfigOk r.1.config) (sym e) v
        | inr (text, e) ↦
            subst (λ (r : Bool × Loading). ConfigOk r.1.config) (sym e)
              (load_line-ConfigOk l text v)
      ] in
    elim (Bool-cases (load_file_line is_first l line).0) [
      | inl t ↦ simp t (lines-ConfigOk false (load_file_line is_first l line).1 lines v')
      | inr f ↦ simp f v'
    ]

pub default-ConfigOk : ConfigOk default_config
unfolding destination_syntax_is_safe destination_is_safe_for_root is_under has_blocked
    has_bad_segment storage_id_is_safe storage_label_is_safe starts_with equal all
default-ConfigOk = record {
  numbers = (
    (omega arith, omega arith),
    (omega arith, omega arith),
    (omega arith, omega arith),
    (omega arith, omega arith),
    (omega arith, omega arith),
  );
  places = ((omega arith, refl), (omega arith, refl), (omega arith, refl));
  targets = record {
    each_ok = (
      record { id_safe = refl; label_safe = refl; path_fits = omega arith; path_safe = refl },
      (record { id_safe = refl; label_safe = refl; path_fits = omega arith; path_safe = refl }, tt),
    );
    distinct = (((λ e. absurd (omega (arith, ap (λ (x : Bytes). length x) e))), tt), (tt, tt));
    few = omega arith;
  };
}
