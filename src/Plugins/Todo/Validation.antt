-- ===== src/Plugins/Todo/Validation.antt =====
-- Which lists of tasks are accepted, and what a write of one does.
use personas_agentes.Common.{
  ℕ, ◌+◌, ◌≤◌, ◌≡◌, ◌≢◌, refl, ap, sym, subst, ◌∙◌, ◌⊎◌, inl, inr, ◌↔◌, String, Bool, true, false,
  not, ◌&&◌, List, [], ◌∷◌, ◌++◌, some, if◌then◌else◌, eq_iff, ltb, contains, string_eq, arith,
  append-nil, append_assoc, Option-cases,
}
use personas_agentes.Plugins.Todo.Texts.{trim}
use personas_agentes.Plugins.Todo.{
  RawTodo, TodoItem, TodoError, too_many, Checked, refused, accepted, parse_status, is_in_progress,
  one_if, validate_item, validate_items, validate_todos, compute_counts,
}

-- The item that a raw item stands for: its text without white space around it, which is not empty,
-- and its status, which is one of the three.
abbrev pub IsItem : RawTodo → TodoItem → Type 0
IsItem raw t =
    ((text : String) × (raw.content ≡ some text) × (t.content ≡ trim text))
    × (t.content ≢ "")
    × (parse_status raw.status ≡ some t.status)

abbrev pub Matches : List RawTodo → List TodoItem → Type 0
Matches [] [] = Unit
Matches (r ∷ rs) (t ∷ ts) = IsItem r t × Matches rs ts
Matches _ _ = ⊥

-- No content is among `seen` or is that of an item before.
abbrev pub NoRepeat : List String → List TodoItem → Type 0
NoRepeat seen [] = Unit
NoRepeat seen (t ∷ ts) = (contains seen t.content ≡ false) × NoRepeat (t.content ∷ seen) ts

abbrev pub progress : List TodoItem → ℕ
progress todos = (compute_counts todos).in_progress

progress-nil : progress [] ≡ 0
unfolding compute_counts
progress-nil = refl

progress-cons :
    (t : TodoItem) (ts : List TodoItem)
    → progress (t ∷ ts) ≡ one_if (is_in_progress t.status) + progress ts
unfolding compute_counts
progress-cons t ts = ground arith

pub item_cases :
    {A : Type 0} (c : Checked A)
    → ((e : TodoError) × (c ≡ refused e)) ⊎ ((t : A) × (c ≡ accepted t))
item_cases (refused e) = inl (e, refl)
item_cases (accepted t) = inr (t, refl)

validate_item_sound :
    (r : RawTodo) (seen : List String) (t : TodoItem)
    → validate_item r seen ≡ accepted t
    → IsItem r t × (contains seen t.content ≡ false)
unfolding validate_item
validate_item_sound r seen t h = elim (Option-cases r.content) [
  | inl e ↦ ground arith
  | inr (text, e) ↦ elim (Option-cases (parse_status r.status)) [
    | inl f ↦ ground arith
    | inr (status, f) ↦ (
      ((text, e, ground arith), ground (arith, eq_iff (trim text) ""), ground arith),
      ground arith,
    )
  ]
]

validate_item_complete :
    (r : RawTodo) (seen : List String) (t : TodoItem)
    → IsItem r t
    → contains seen t.content ≡ false
    → validate_item r seen ≡ accepted t
unfolding validate_item
validate_item_complete r seen t ((text, e, c), ne, s) new =
    rw (e, s)
      (ground
        (arith, eq_iff (trim text) "", ap (λ x. contains seen x) {x = trim text} {y = t.content}))

-- What the loop accepts are the items of the raw ones, after those it had; their number in progress
-- is added to the count.
abbrev Extends : List RawTodo → List String → ℕ → List TodoItem → List TodoItem × ℕ → Type 0
Extends rs seen count todos (all, n) =
    (ts : List TodoItem) × (all ≡ todos ++ ts)
    × (n ≡ count + progress ts)
    × Matches rs ts
    × NoRepeat seen ts

validate_items_sound :
    (rs : List RawTodo) (seen : List String) (count : ℕ) (todos : List TodoItem)
    (out : List TodoItem × ℕ)
    → validate_items rs seen count todos ≡ accepted out
    → Extends rs seen count todos out
unfolding validate_items
validate_items_sound [] seen count todos (all, n) h =
    ([], cc (h, append-nil todos), ground (arith, progress-nil), tt, tt)
validate_items_sound (r ∷ rs) seen count todos (all, n) h =
    elim (item_cases (validate_item r seen)) [
      | inl (e, f) ↦ ground (arith, f)
      | inr (t, f) ↦
          let i = validate_item_sound r seen t f in
          let m =
            validate_items_sound rs (t.content ∷ seen) (count + one_if (is_in_progress t.status))
              (todos ++ t ∷ []) (all, n) (ground (arith, f)) in
          (
            t ∷ m.0,
            m.1 ∙ append_assoc todos (t ∷ []) m.0,
            ground (arith, progress-cons t m.0),
            (i.0, m.3),
            (i.1, m.4),
          )
    ]

validate_items_complete :
    (rs : List RawTodo) (ts : List TodoItem) (seen : List String) (count : ℕ)
    (todos : List TodoItem)
    → Matches rs ts
    → NoRepeat seen ts
    → validate_items rs seen count todos ≡ accepted (todos ++ ts, count + progress ts)
unfolding validate_items
validate_items_complete [] [] seen count todos m d =
    rw (append-nil todos, progress-nil)
      (ap accepted (ap (λ c. (todos, c)) {x = count} {y = count + 0} (ground arith)))
validate_items_complete [] (t ∷ ts) seen count todos m d = absurd m
validate_items_complete (r ∷ rs) [] seen count todos m d = absurd m
validate_items_complete (r ∷ rs) (t ∷ ts) seen count todos m d =
    let rest =
      validate_items_complete rs ts (t.content ∷ seen) (count + one_if (is_in_progress t.status))
        (todos ++ t ∷ []) m.1 d.1 in
    rw
      (
        validate_item_complete r seen t m.0 d.0,
        validate_items,
        rest,
        append_assoc todos (t ∷ []) ts,
        progress-cons t ts,
      )
      (ap (λ c. accepted (todos ++ t ∷ ts, c))
        {x = count + one_if (is_in_progress t.status) + progress ts}
        {y = count + (one_if (is_in_progress t.status) + progress ts)} (omega arith))

-- The check after the loop.
abbrev bounded : Bool → List TodoItem → ℕ → Checked (List TodoItem)
bounded allow_parallel all n =
    if not allow_parallel && ltb 1 n then refused too_many else accepted all

bounded-accepted :
    (allow_parallel : Bool) (all : List TodoItem) (n : ℕ) (todos : List TodoItem)
    → bounded allow_parallel all n ≡ accepted todos
    → (all ≡ todos) × ((allow_parallel ≡ true) ⊎ (n ≤ 1))
bounded-accepted allow_parallel all n todos h = ground arith

-- A list of tasks is accepted, as `todos`, exactly if `todos` are its items one by one, no two with
-- one content, and at most one is in progress unless parallel work is allowed.
pub validate_todos_iff :
    (allow_parallel : Bool) (raw : List RawTodo) (todos : List TodoItem)
    → (validate_todos allow_parallel (some raw) ≡ accepted todos)
      ↔ (Matches raw todos × NoRepeat [] todos × ((allow_parallel ≡ true) ⊎ (progress todos ≤ 1)))
unfolding validate_todos
validate_todos_iff allow_parallel raw todos = (sound, complete)
  where
    sound :
        validate_todos allow_parallel (some raw) ≡ accepted todos
        → Matches raw todos × NoRepeat [] todos × ((allow_parallel ≡ true) ⊎ (progress todos ≤ 1))
    sound h = elim (item_cases (validate_items raw [] 0 [])) [
      | inl (e, f) ↦ ground (arith, f)
      | inr ((all, n), f) ↦
          let s = validate_items_sound raw [] 0 [] (all, n) f in
          let e : validate_todos allow_parallel (some raw) ≡ bounded allow_parallel all n =
            rw (f, validate_todos) refl in
          let b = bounded-accepted allow_parallel all n todos (sym e ∙ h) in
          (
            subst (Matches raw) (sym s.1 ∙ b.0) s.3,
            subst (NoRepeat []) (sym s.1 ∙ b.0) s.4,
            elim b.1 [
              | inl a ↦ inl a
              | inr l ↦ inr (subst (λ ts. progress ts ≤ 1) (sym s.1 ∙ b.0) (omega (arith, l, s.2)))
            ],
          )
    ]

    complete :
        Matches raw todos × NoRepeat [] todos × ((allow_parallel ≡ true) ⊎ (progress todos ≤ 1))
        → validate_todos allow_parallel (some raw) ≡ accepted todos
    complete (m, d, p) =
        rw (validate_items_complete raw todos [] 0 [] m d, validate_todos) (ground arith)
