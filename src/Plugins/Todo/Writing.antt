-- ===== src/Plugins/Todo/Writing.antt =====
-- What a write of a list of tasks does to the lists that are kept, and that a list that was accepted
-- can be written back.
use personas_agentes.Common.{
  ◌≡◌, ◌≢◌, refl, ap, sym, ◌∙◌, inl, inr, String, Bool, List, [], ◌∷◌, map, Option, some, eq_iff,
  get, put, get-put, string_eq, arith,
}
use personas_agentes.Plugins.Todo.Texts.{trim, trim_idem}
use personas_agentes.Plugins.Todo.Validation.{Matches, item_cases, validate_todos_iff}
use personas_agentes.Plugins.Todo.{
  TodoStatus, pending, in_progress, completed, RawTodo, TodoItem, TodoError, refused, accepted,
  parse_status, validate_todos, compute_counts, Todos, or_default, execute_write, list_todos,
  or_no_todos,
}

written :
    (session : Option String) (todos : List TodoItem) (lists : Todos)
    → list_todos session (put (or_default session) todos lists) ≡ (todos, compute_counts todos)
unfolding list_todos
written session todos lists =
    ap (λ o. (or_no_todos o, compute_counts (or_no_todos o)))
      {x = get (or_default session) (put (or_default session) todos lists)} {y = some todos}
      (ground (
        arith,
        get-put (or_default session) (or_default session) todos lists,
        eq_iff (or_default session) (or_default session),
      ))

untouched :
    (session other : Option String) (todos : List TodoItem) (lists : Todos)
    → or_default other ≢ or_default session
    → list_todos other (put (or_default session) todos lists) ≡ list_todos other lists
unfolding list_todos
untouched session other todos lists ne =
    ap (λ o. (or_no_todos o, compute_counts (or_no_todos o)))
      {x = get (or_default other) (put (or_default session) todos lists)}
      {y = get (or_default other) lists}
      (ground (
        arith,
        get-put (or_default session) (or_default other) todos lists,
        eq_iff (or_default session) (or_default other),
      ))

-- An accepted write replaces the whole list of its session, which is then listed with its counts,
-- and leaves the lists of the other sessions; a write that throws leaves all lists.
pub execute_write-list :
    (allow_parallel : Bool) (session : Option String) (raw : Option (List RawTodo)) (lists : Todos)
    → let r = execute_write allow_parallel session raw lists in
      ((todos : List TodoItem)
        → r.1 ≡ accepted todos
        → (list_todos session r.0 ≡ (todos, compute_counts todos))
          × ((other : Option String)
              → or_default other ≢ or_default session
              → list_todos other r.0 ≡ list_todos other lists))
      × ((e : TodoError) → r.1 ≡ refused e → r.0 ≡ lists)
unfolding execute_write
execute_write-list allow_parallel session raw lists =
    elim (item_cases (validate_todos allow_parallel raw)) [
      | inl (e, f) ↦ rw (f, execute_write) ((λ todos h. ground arith), (λ e' h. refl))
      | inr (todos, f) ↦
          rw (f, execute_write)
            (
              λ todos' h. (
                written session todos lists
                    ∙ ap (λ ts. (ts, compute_counts ts)) {x = todos} {y = todos'} (ground arith),
                λ other ne. untouched session other todos lists ne,
              ),
              λ e h. ground arith,
            )
    ]

-- The words of the statuses.
abbrev pub status_name : TodoStatus → String
status_name pending = "pending"
status_name in_progress = "in_progress"
status_name completed = "completed"

abbrev pub as_raw : TodoItem → RawTodo
as_raw t = record { content = some t.content; status = status_name t.status }

as_raw-Matches :
    (raw : List RawTodo) (ts : List TodoItem) → Matches raw ts → Matches (map as_raw ts) ts
as_raw-Matches [] [] m = tt
as_raw-Matches [] (t ∷ ts) m = absurd m
as_raw-Matches (r ∷ rs) [] m = absurd m
as_raw-Matches (r ∷ rs) (t ∷ ts) (((text, e, c), ne, s), m) = (
  ((t.content, refl, c ∙ sym (trim_idem text) ∙ ap trim (sym c)), ne, status_back t.status),
  as_raw-Matches rs ts m,
)
  where
    status_back : (s : TodoStatus) → parse_status (status_name s) ≡ some s
    status_back pending = refl
    status_back in_progress = refl
    status_back completed = refl

-- A list that was accepted is accepted again as it is, when its own items are sent.
pub validate_todos-again :
    (allow_parallel : Bool) (raw : List RawTodo) (todos : List TodoItem)
    → validate_todos allow_parallel (some raw) ≡ accepted todos
    → validate_todos allow_parallel (some (map as_raw todos)) ≡ accepted todos
validate_todos-again allow_parallel raw todos h =
    let s = (validate_todos_iff allow_parallel raw todos).0 h in
    (validate_todos_iff allow_parallel (map as_raw todos) todos).1
      (as_raw-Matches raw todos s.0, s.1, s.2)
