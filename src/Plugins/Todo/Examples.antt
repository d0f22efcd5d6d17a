-- ===== src/Plugins/Todo/Examples.antt =====
-- Two tasks that are written and listed, and one sent twice.
use personas_agentes.Common.{◌≡◌, refl, true, false, List, [], ◌∷◌, map, none, some, ◌≤◌, ◌⊎◌}
use personas_agentes.Plugins.Todo.Texts.{trim, trim_start, trim_end}
use personas_agentes.Common.{is_space}
use personas_agentes.Plugins.Todo.Validation.{Matches, NoRepeat, progress, validate_todos_iff}
use personas_agentes.Plugins.Todo.Writing.{as_raw, execute_write-list, validate_todos-again}
use personas_agentes.Plugins.Todo.{
  pending, in_progress, RawTodo, TodoItem, accepted, refused, duplicate, validate_item,
  validate_items, validate_todos, compute_counts, execute_write, list_todos,
}

abbrev raws : List RawTodo
raws =
    record { content = some "  write "; status = "pending" }
    ∷ record { content = some "check"; status = "in_progress" }
    ∷ []

abbrev items : List TodoItem
items =
    record { content = "write"; status = pending }
    ∷ record { content = "check"; status = in_progress }
    ∷ []

read_two : validate_todos false (some raws) ≡ accepted items
unfolding validate_todos validate_items validate_item trim trim_start trim_end is_space
read_two = refl

refuses_twice :
    validate_todos true (
      some (
        record { content = some "a "; status = "pending" }
        ∷ record { content = some "a"; status = "completed" }
        ∷ []))
    ≡ refused duplicate
unfolding validate_todos validate_items validate_item trim trim_start trim_end is_space
refuses_twice = refl

validate_todos_iff_example :
    Matches raws items × NoRepeat [] items × ((false ≡ true) ⊎ (progress items ≤ 1))
validate_todos_iff_example = (validate_todos_iff false raws items).0 read_two

validate_todos-again_holds : validate_todos false (some (map as_raw items)) ≡ accepted items
validate_todos-again_holds = validate_todos-again false raws items read_two

written_two : (execute_write false none (some raws) []).1 ≡ accepted items
unfolding execute_write trim is_space
written_two = rw read_two refl

execute_write-list_holds :
    list_todos none (execute_write false none (some raws) []).0 ≡ (items, compute_counts items)
execute_write-list_holds = ((execute_write-list false none (some raws) []).0 items written_two).0
