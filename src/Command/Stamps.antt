-- ===== src/Command/Stamps.antt =====
-- cmd/otherlode-collector/main.go: the settings of the two processors that stamp a payload.
pub mod Identity
use yukon_collector.Base.{
  Bool, not, ◌&&◌, ◌||◌, Option, none, some, [], Bytes, codes, bytes_eq, is_empty, if◌then◌else◌,
}
use yukon_collector.Text.Space.{trim_space}
use yukon_collector.Text.Utf8.{valid_string}
use yukon_collector.Processor.Action.{Action, insert, parse_action}
use yukon_collector.Processor.Environment.{EnvironmentConfig}
use yukon_collector.Processor.Namespace.{NamespaceConfig}
use yukon_collector.Command.Settings.{
  not_utf8, unparsable, set_without, out_of_range, Result, ok, err, ◌>>=◌,
}

abbrev pub environment_name : Bytes
environment_name = codes "OTHERLODE_COLLECTOR_ENVIRONMENT"

abbrev pub environment_action : Bytes
environment_action = codes "OTHERLODE_COLLECTOR_ENVIRONMENT_ACTION"

abbrev pub namespace_name : Bytes
namespace_name = codes "OTHERLODE_COLLECTOR_SERVICE_NAMESPACE"

abbrev pub namespace_action : Bytes
namespace_action = codes "OTHERLODE_COLLECTOR_SERVICE_NAMESPACE_ACTION"

abbrev read_action : Bytes → Option Action → Result Action
read_action name none = err (unparsable name)
read_action name (some action) = ok action

-- The zero value turns the processor off.
abbrev pub no_environment : EnvironmentConfig
no_environment = record { value = []; action = insert }

abbrev pub no_namespace : NamespaceConfig
no_namespace = record { value = []; action = insert }

unfoldable pub resolve_environment : (value_raw action_raw : Bytes) → Result EnvironmentConfig
resolve_environment value_raw action_raw =
    let value = trim_space value_raw in
    if not (valid_string value)
    then err (not_utf8 environment_name)
    else read_action environment_action (parse_action action_raw) >>= λ action.
        if is_empty value
        then (if not (is_empty action_raw)
            then err (set_without environment_action environment_name)
            else ok no_environment)
        else ok (record { value = value; action = action })

unfoldable pub resolve_namespace : (value_raw action_raw : Bytes) → Result NamespaceConfig
resolve_namespace value_raw action_raw =
    let value = trim_space value_raw in
    if not (valid_string value)
    then err (not_utf8 namespace_name)
    else read_action namespace_action (parse_action action_raw) >>= λ action.
        if is_empty value
        then (if not (is_empty action_raw)
            then err (set_without namespace_action namespace_name)
            else ok no_namespace)
        else if bytes_eq value (codes ".") || bytes_eq value (codes "..")
        then err (out_of_range namespace_name)
        else ok (record { value = value; action = action })
