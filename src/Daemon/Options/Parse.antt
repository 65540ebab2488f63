-- ===== src/Daemon/Options/Parse.antt =====
-- What the launch options are after any arguments, and the two ways to write an option.
use swbt_daemon.Common.{
  ℕ, ◌≡◌, ◌≢◌, refl, sym, Bool, true, false, Option, none, some, List, [], ◌∷◌, ◌++◌, if◌then◌else◌,
}
use swbt_daemon.Common.Int.{ℤ}
use swbt_daemon.Common.Text.{Bytes}
use swbt_daemon.Bridge.AdapterLocation
use swbt_daemon.Bridge.AdapterLocation.{LocationResult, zero_location}
use swbt_daemon.Bridge.AdapterLocation.Parse.{IsApplied, apply-parse}
use swbt_daemon.Daemon.Options.{
  OptionsResult, ok, LaunchBackend, LaunchOptions, zero_options, OptionKind, config, link_key_db,
  trace, hci_dump, crash_dump, backend, adapter_location, name, kinds, Argument, separate, joined,
  unknown, classify, parse_backend, adapter_location_is_valid, store_value, set_option, continue,
  parse_arguments, parse,
}

separate_lem : (kind : OptionKind) → classify kinds (name kind) ≡ separate kind
unfolding classify
separate_lem config = refl
separate_lem link_key_db = refl
separate_lem trace = refl
separate_lem hci_dump = refl
separate_lem crash_dump = refl
separate_lem backend = refl
separate_lem adapter_location = refl

joined_lem :
    (kind : OptionKind) (value : Bytes)
    → classify kinds (name kind ++ b'=' ∷ value) ≡ joined kind value
unfolding classify
joined_lem config value = refl
joined_lem link_key_db value = refl
joined_lem trace value = refl
joined_lem hci_dump value = refl
joined_lem crash_dump value = refl
joined_lem backend value = refl
joined_lem adapter_location value = refl

continue-end : (r : OptionsResult × LaunchOptions) → continue (λ o. (ok, o)) r ≡ r
continue-end (ok, options) = refl
continue-end (OptionsResult.invalid_argument, options) = refl
continue-end (OptionsResult.missing_value, options) = refl
continue-end (OptionsResult.unknown_option, options) = refl

-- It does not matter whether an option's value stands behind an equals sign or is the next
-- argument: for every option, every value, the empty one included, and whatever follows, the
-- result and the options are the same.
pub joined-separate :
    (kind : OptionKind) (value : Bytes) (options : LaunchOptions) (later : List (Option Bytes))
    → parse_arguments options (some (name kind ++ b'=' ∷ value) ∷ later)
      ≡ parse_arguments options (some (name kind) ∷ some value ∷ later)
unfolding parse_arguments
joined-separate kind value options [] =
    rw (joined_lem kind value, parse_arguments)
      (rw (separate_lem kind, parse_arguments)
        (sym (continue-end (set_option options kind (some value)))))
joined-separate kind value options (next ∷ later) =
    rw (joined_lem kind value, parse_arguments) (rw (separate_lem kind, parse_arguments) refl)

-- A path that is not empty, where there is one.
abbrev pub IsPath : Option Bytes → Type 0
IsPath none = Unit
IsPath (some path) = path ≢ []

-- A location that the parser accepts, so that it can be applied, where there is one.
abbrev pub IsAdapter : Option Bytes → Type 0
IsAdapter none = Unit
IsAdapter (some chars) =
    (set : Bytes → ℤ) → IsApplied set (AdapterLocation.parse (some chars) zero_location).1

pub record IsUsable (options : LaunchOptions) : Type 0 where
  pub config_set : IsPath options.config_path
  pub link_key_db_set : IsPath options.link_key_db_path
  pub trace_set : IsPath options.trace_path
  pub hci_dump_set : IsPath options.hci_dump_path
  pub crash_dump_set : IsPath options.crash_dump_path
  pub adapter_set : IsAdapter options.adapter_location

not_empty : (c : ℕ) (value : Bytes) → (c ∷ value) ≢ []
not_empty c value e = cc

valid-IsAdapter : (chars : Bytes) → adapter_location_is_valid chars ≡ true → IsAdapter (some chars)
unfolding adapter_location_is_valid
valid-IsAdapter chars e set =
    apply-parse chars zero_location set
      (by_result (AdapterLocation.parse (some chars) zero_location).0 e)
  where
    by_result :
        (result : LocationResult)
        → (elim result as (λ _. Bool) [ LocationResult.ok ↦ true | _ ↦ false ]) ≡ true
        → result ≡ LocationResult.ok
    by_result LocationResult.ok e' = refl
    by_result LocationResult.invalid_argument e' = cc
    by_result LocationResult.invalid_format e' = cc
    by_result LocationResult.unsupported_backend e' = cc
    by_result LocationResult.backend_error e' = cc

store_value-IsUsable :
    (options : LaunchOptions) (kind : OptionKind) (c : ℕ) (value : Bytes)
    → IsUsable options
    → IsUsable (store_value options kind (c ∷ value)).1
unfolding store_value
store_value-IsUsable options config c value u = record {
  config_set = not_empty c value;
  link_key_db_set = u.link_key_db_set;
  trace_set = u.trace_set;
  hci_dump_set = u.hci_dump_set;
  crash_dump_set = u.crash_dump_set;
  adapter_set = u.adapter_set;
}
store_value-IsUsable options link_key_db c value u = record {
  config_set = u.config_set;
  link_key_db_set = not_empty c value;
  trace_set = u.trace_set;
  hci_dump_set = u.hci_dump_set;
  crash_dump_set = u.crash_dump_set;
  adapter_set = u.adapter_set;
}
store_value-IsUsable options trace c value u = record {
  config_set = u.config_set;
  link_key_db_set = u.link_key_db_set;
  trace_set = not_empty c value;
  hci_dump_set = u.hci_dump_set;
  crash_dump_set = u.crash_dump_set;
  adapter_set = u.adapter_set;
}
store_value-IsUsable options hci_dump c value u = record {
  config_set = u.config_set;
  link_key_db_set = u.link_key_db_set;
  trace_set = u.trace_set;
  hci_dump_set = not_empty c value;
  crash_dump_set = u.crash_dump_set;
  adapter_set = u.adapter_set;
}
store_value-IsUsable options crash_dump c value u = record {
  config_set = u.config_set;
  link_key_db_set = u.link_key_db_set;
  trace_set = u.trace_set;
  hci_dump_set = u.hci_dump_set;
  crash_dump_set = not_empty c value;
  adapter_set = u.adapter_set;
}
store_value-IsUsable options backend c value u = by_backend (parse_backend (c ∷ value))
  where
    by_backend :
        (read : Option LaunchBackend)
        → IsUsable
            (elim read as (λ _. OptionsResult × LaunchOptions) [
              | none ↦ (OptionsResult.invalid_argument, options)
              | some parsed ↦ (ok, record options { backend = parsed })
            ]).1
    by_backend none = u
    by_backend (some parsed) = record {
      config_set = u.config_set;
      link_key_db_set = u.link_key_db_set;
      trace_set = u.trace_set;
      hci_dump_set = u.hci_dump_set;
      crash_dump_set = u.crash_dump_set;
      adapter_set = u.adapter_set;
    }
store_value-IsUsable options adapter_location c value u =
    by_valid (adapter_location_is_valid (c ∷ value)) refl
  where
    by_valid :
        (valid : Bool)
        → adapter_location_is_valid (c ∷ value) ≡ valid
        → IsUsable
            (if◌then◌else◌ {A = OptionsResult × LaunchOptions} valid
              (ok, record options { adapter_location = some (c ∷ value) })
              (OptionsResult.invalid_argument, options)).1
    by_valid false e = u
    by_valid true e = record {
      config_set = u.config_set;
      link_key_db_set = u.link_key_db_set;
      trace_set = u.trace_set;
      hci_dump_set = u.hci_dump_set;
      crash_dump_set = u.crash_dump_set;
      adapter_set = valid-IsAdapter (c ∷ value) e;
    }

set_option-IsUsable :
    (options : LaunchOptions) (kind : OptionKind) (value : Option Bytes)
    → IsUsable options
    → IsUsable (set_option options kind value).1
set_option-IsUsable options kind none u = u
set_option-IsUsable options kind (some []) u = u
set_option-IsUsable options kind (some (c ∷ value)) u = store_value-IsUsable options kind c value u

continue-IsUsable :
    (rest : LaunchOptions → OptionsResult × LaunchOptions) (stored : OptionsResult × LaunchOptions)
    → ((o : LaunchOptions) → IsUsable o → IsUsable (rest o).1)
    → IsUsable stored.1
    → IsUsable (continue rest stored).1
continue-IsUsable rest (ok, options) later u = later options u
continue-IsUsable rest (OptionsResult.invalid_argument, options) later u = u
continue-IsUsable rest (OptionsResult.missing_value, options) later u = u
continue-IsUsable rest (OptionsResult.unknown_option, options) later u = u

parse_arguments-IsUsable :
    (options : LaunchOptions) (arguments : List (Option Bytes))
    → IsUsable options
    → IsUsable (parse_arguments options arguments).1
unfolding parse_arguments
parse_arguments-IsUsable options [] u = u
parse_arguments-IsUsable options (none ∷ later) u = u
parse_arguments-IsUsable options (some argument ∷ []) u = by_class (classify kinds argument)
  where
    by_class :
        (class : Argument)
        → IsUsable
            (elim class as (λ _. OptionsResult × LaunchOptions) [
              | separate kind ↦ (OptionsResult.missing_value, options)
              | joined kind value ↦ set_option options kind (some value)
              | unknown ↦ (OptionsResult.unknown_option, options)
            ]).1
    by_class (separate kind) = u
    by_class (joined kind value) = set_option-IsUsable options kind (some value) u
    by_class unknown = u
parse_arguments-IsUsable options (some argument ∷ value ∷ later) u =
    by_class (classify kinds argument) (λ o. parse_arguments-IsUsable o later)
      (λ o. parse_arguments-IsUsable o (value ∷ later))
  where
    by_class :
        (class : Argument)
        → ((o : LaunchOptions) → IsUsable o → IsUsable (parse_arguments o later).1)
        → ((o : LaunchOptions) → IsUsable o → IsUsable (parse_arguments o (value ∷ later)).1)
        → IsUsable
            (elim class as (λ _. OptionsResult × LaunchOptions) [
              | separate kind ↦
                  continue (λ o. parse_arguments o later) (set_option options kind value)
              | joined kind chars ↦
                  continue
                    (λ o. parse_arguments o (value ∷ later))
                    (set_option options kind (some chars))
              | unknown ↦ (OptionsResult.unknown_option, options)
            ]).1
    by_class (separate kind) after_value after =
        continue-IsUsable (λ o. parse_arguments o later) (set_option options kind value) after_value
          (set_option-IsUsable options kind value u)
    by_class (joined kind chars) after_value after =
        continue-IsUsable (λ o. parse_arguments o (value ∷ later))
          (set_option options kind (some chars)) after
          (set_option-IsUsable options kind (some chars) u)
    by_class unknown after_value after = u

-- Whatever the arguments are, the options that the parser leaves, also where it stops at an error,
-- can be used: every path that is set is not empty, and the location of the adapter, where it is
-- set, is one that the location parser accepts and that can be applied.
pub parse-IsUsable : (arguments : List (Option Bytes)) → IsUsable (parse arguments).1
unfolding parse
parse-IsUsable arguments = parse_arguments-IsUsable zero_options arguments record {
  config_set = tt;
  link_key_db_set = tt;
  trace_set = tt;
  hci_dump_set = tt;
  crash_dump_set = tt;
  adapter_set = tt;
}
