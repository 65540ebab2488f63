-- ===== src/Daemon/Options.antt =====
-- The launch options: swbt/daemon/launch_options.h and launch_options.c. The arguments are the list
-- of argv from the first option on, `none` for NULL; the guards against a NULL output are left out.
pub mod Parse
use swbt_daemon.Common.{
  ℕ, Bool, true, false, ◌||◌, Option, none, some, List, [], ◌∷◌, ◌++◌, if◌then◌else◌,
}
use swbt_daemon.Common.Text.{Bytes, text, same_text, after_prefix}
use swbt_daemon.Bridge.AdapterLocation
use swbt_daemon.Bridge.AdapterLocation.{LocationResult, zero_location}

-- `swbt_daemon_launch_options_result_t`.
pub data OptionsResult : Type 0 where
  ok invalid_argument missing_value unknown_option : OptionsResult

-- `swbt_daemon_launch_backend_t`.
pub data LaunchBackend : Type 0 where
  production noop : LaunchBackend

-- `swbt_daemon_launch_options_t`.
pub record LaunchOptions : Type 0 where
  pub backend : LaunchBackend
  pub config_path : Option Bytes
  pub link_key_db_path : Option Bytes
  pub trace_path : Option Bytes
  pub hci_dump_path : Option Bytes
  pub crash_dump_path : Option Bytes
  pub adapter_location : Option Bytes

-- `{0}`.
abbrev pub zero_options : LaunchOptions
zero_options = record {
  backend = production;
  config_path = none;
  link_key_db_path = none;
  trace_path = none;
  hci_dump_path = none;
  crash_dump_path = none;
  adapter_location = none;
}

-- The options, in the order in which an argument is compared with them.
pub data OptionKind : Type 0 where
  config link_key_db trace hci_dump crash_dump backend adapter_location : OptionKind

abbrev pub name : OptionKind → Bytes
name config = text "--config"
name link_key_db = text "--link-key-db"
name trace = text "--trace-path"
name hci_dump = text "--hci-dump-path"
name crash_dump = text "--crash-dump-path"
name backend = text "--backend"
name adapter_location = text "--adapter-location"

abbrev pub kinds : List OptionKind
kinds = config ∷ link_key_db ∷ trace ∷ hci_dump ∷ crash_dump ∷ backend ∷ adapter_location ∷ []

-- What an argument is: an option whose value is the next argument, one with its value behind an
-- equals sign, or none.
pub data Argument : Type 0 where
  separate : OptionKind → Argument
  joined : OptionKind → Bytes → Argument
  unknown : Argument

-- The comparisons of an argument with one option after the other.
unfoldable pub classify : List OptionKind → Bytes → Argument
classify [] argument = unknown
classify (kind ∷ later) argument =
    let rest = classify later argument in
    if same_text argument (name kind)
    then separate kind
    else elim (after_prefix argument (name kind ++ b'=' ∷ [])) [
      | some value ↦ joined kind value
      | none ↦ rest
    ]

-- `swbt_daemon_launch_options_parse_backend`.
unfoldable pub parse_backend : Bytes → Option LaunchBackend
parse_backend value =
    if same_text value (text "production")
    then some production
    else if same_text value (text "noop")
    then some noop
    else none

-- `swbt_daemon_launch_options_adapter_location_is_valid`.
unfoldable pub adapter_location_is_valid : Bytes → Bool
adapter_location_is_valid value = elim (AdapterLocation.parse (some value) zero_location).0 [
  | LocationResult.ok ↦ true
  | _ ↦ false
]

-- An option is stored with a value that is not empty.
unfoldable pub store_value : LaunchOptions → OptionKind → Bytes → OptionsResult × LaunchOptions
store_value options config value = (ok, record options { config_path = some value })
store_value options link_key_db value = (ok, record options { link_key_db_path = some value })
store_value options trace value = (ok, record options { trace_path = some value })
store_value options hci_dump value = (ok, record options { hci_dump_path = some value })
store_value options crash_dump value = (ok, record options { crash_dump_path = some value })
store_value options backend value = elim (parse_backend value) [
  | none ↦ (invalid_argument, options)
  | some parsed ↦ (ok, record options { backend = parsed })
]
store_value options adapter_location value =
    if adapter_location_is_valid value
    then (ok, record options { adapter_location = some value })
    else (invalid_argument, options)

abbrev pub set_option : LaunchOptions → OptionKind → Option Bytes → OptionsResult × LaunchOptions
set_option options kind none = (missing_value, options)
set_option options kind (some []) = (missing_value, options)
set_option options kind (some (c ∷ value)) = store_value options kind (c ∷ value)

-- The loop goes on with the later arguments where the option was stored.
abbrev pub continue :
    (LaunchOptions → OptionsResult × LaunchOptions)
    → OptionsResult × LaunchOptions
    → OptionsResult × LaunchOptions
continue rest (ok, options) = rest options
continue rest (other, options) = (other, options)

-- The loop of `swbt_daemon_launch_options_parse`.
unfoldable pub parse_arguments : LaunchOptions → List (Option Bytes) → OptionsResult × LaunchOptions
parse_arguments options [] = (ok, options)
parse_arguments options (none ∷ later) = (invalid_argument, options)
parse_arguments options (some argument ∷ []) = elim (classify kinds argument) [
  | separate kind ↦ (missing_value, options)
  | joined kind value ↦ set_option options kind (some value)
  | unknown ↦ (unknown_option, options)
]
parse_arguments options (some argument ∷ value ∷ later) = elim (classify kinds argument) [
  | separate kind ↦ continue (λ o. parse_arguments o later) (set_option options kind value)
  | joined kind chars ↦
      continue (λ o. parse_arguments o (value ∷ later)) (set_option options kind (some chars))
  | unknown ↦ (unknown_option, options)
]

-- `swbt_daemon_launch_options_parse`.
unfoldable pub parse : List (Option Bytes) → OptionsResult × LaunchOptions
parse arguments = parse_arguments zero_options arguments
