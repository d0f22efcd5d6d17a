-- ===== src/Plugins/Todo.antt =====
-- src_local/psa/plugins/core/todo_plugin.ts: the list of tasks of an agent.
-- What `executeWrite` adds to the session's log and emits is its result; the message is left out. In
-- an item that the model sends, the content is `none` where it is not a text, and the list is `none`
-- where it is not an array.
pub mod Texts
pub mod Validation
pub mod Writing
mod Examples
use personas_agentes.Common.{
  ℕ, suc, ◌+◌, String, Bool, true, false, not, ◌&&◌, List, [], ◌∷◌, ◌++◌, Option, none, some,
  if◌then◌else◌, str_eq, ltb, contains, get, put, string_eq, keep, length, arith,
}
use Texts.{trim}

pub data TodoStatus : Type 0 where
  pending in_progress completed : TodoStatus

pub record RawTodo : Type 0 where
  pub content : Option String
  pub status : String

pub record TodoItem : Type 0 where
  pub content : String
  pub status : TodoStatus

pub record TodoCounts : Type 0 where
  pub pending : ℕ
  pub in_progress : ℕ
  pub completed : ℕ

pub data TodoError : Type 0 where
  not_array not_text empty_content duplicate bad_status too_many : TodoError

pub data Checked {ℓ} (A : Type ℓ) : Type ℓ where
  refused : TodoError → Checked A
  accepted : A → Checked A

abbrev pub parse_status : String → Option TodoStatus
parse_status s =
    if str_eq s "pending"
    then some pending
    else if str_eq s "in_progress"
    then some in_progress
    else if str_eq s "completed"
    then some completed
    else none

abbrev pub is_in_progress : TodoStatus → Bool
is_in_progress in_progress = true
is_in_progress _ = false

abbrev pub one_if : Bool → ℕ
one_if b = if b then 1 else 0

-- One round of the loop: the item, if none of the texts `seen` is its content.
pub validate_item : RawTodo → List String → Checked TodoItem
validate_item raw seen = elim raw.content [
  | none ↦ refused not_text
  | some text ↦
      let content = trim text in
      if str_eq content ""
      then refused empty_content
      else if contains seen content
      then refused duplicate
      else elim (parse_status raw.status) [
        | none ↦ refused bad_status
        | some status ↦ accepted (record { content = content; status = status })
      ]
]

-- The loop, with the texts seen, the number of items in progress and the items so far.
pub validate_items : List RawTodo → List String → ℕ → List TodoItem → Checked (List TodoItem × ℕ)
validate_items [] seen count todos = accepted (todos, count)
validate_items (r ∷ rs) seen count todos = elim (validate_item r seen) [
  | refused e ↦ refused e
  | accepted t ↦
      validate_items rs (t.content ∷ seen) (count + one_if (is_in_progress t.status))
        (todos ++ t ∷ [])
]

pub validate_todos : Bool → Option (List RawTodo) → Checked (List TodoItem)
unfolding validate_items validate_item
validate_todos allow_parallel none = refused not_array
validate_todos allow_parallel (some raw) = elim (validate_items raw [] 0 []) [
  | refused e ↦ refused e
  | accepted (todos, count) ↦
      if not allow_parallel && ltb 1 count then refused too_many else accepted todos
]

abbrev pub has_status : TodoStatus → TodoStatus → Bool
has_status pending pending = true
has_status in_progress in_progress = true
has_status completed completed = true
has_status _ _ = false

pub compute_counts : List TodoItem → TodoCounts
compute_counts todos = record {
  pending = length (keep (λ t. has_status pending t.status) todos);
  in_progress = length (keep (λ t. has_status in_progress t.status) todos);
  completed = length (keep (λ t. has_status completed t.status) todos);
}

-- `currentTodos`, by the session's id.
abbrev pub Todos : Type 0
Todos = List (String × List TodoItem)

-- `args.sessionId || "default"`.
abbrev pub or_default : Option String → String
or_default none = "default"
or_default (some id) = if str_eq id "" then "default" else id

-- `executeWrite`: the new lists, and the items or the error thrown.
pub execute_write :
    Bool → Option String → Option (List RawTodo) → Todos → Todos × Checked (List TodoItem)
unfolding validate_todos
execute_write allow_parallel session raw lists = elim (validate_todos allow_parallel raw) [
  | refused e ↦ (lists, refused e)
  | accepted todos ↦ (put (or_default session) todos lists, accepted todos)
]

abbrev pub or_no_todos : Option (List TodoItem) → List TodoItem
or_no_todos none = []
or_no_todos (some todos) = todos

-- `todo.list`.
pub list_todos : Option String → Todos → List TodoItem × TodoCounts
unfolding compute_counts
list_todos session lists =
    let todos = or_no_todos (get (or_default session) lists) in (todos, compute_counts todos)
