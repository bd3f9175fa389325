-- ===== src/Processor/Action.antt =====
-- internal/processor/environment.go: what a processor does with a value that the agent set.
use yukon_collector.Base.{is_empty, Bytes, codes, bytes_eq, Option, none, some, if◌then◌else◌}
use yukon_collector.Text.Fold.{to_lower}

pub data Action : Type 0 where
  insert upsert : Action

unfoldable pub parse_action : Bytes → Option Action
unfolding to_lower
parse_action raw =
    if is_empty (to_lower raw)
    then some insert
    else if bytes_eq (to_lower raw) (codes "insert")
    then some insert
    else if bytes_eq (to_lower raw) (codes "upsert")
    then some upsert
    else none

unfoldable pub action_string : Action → Bytes
action_string upsert = codes "upsert"
action_string insert = codes "insert"
