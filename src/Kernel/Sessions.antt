-- ===== src/Kernel/Sessions.antt =====
-- src_local/psa/session/psa_session_service.ts: durable logs of sessions, one file for each.
-- A file is the list of its lines as they parse: JSON text and the choice of the directory are left
-- out, so every line parses, and time stamps are left out too. `P` is the type of payloads. The
-- SHA-256 of the text `sessionId:index:type:payload` is the parameter `digest`. A new id, of which
-- the source draws one from the clock and a random number, is an argument. `restart` is a new
-- service on the same directory, as after the process ends.
pub mod Numbering
pub mod Fork
mod Examples
use personas_agentes.Common.{
  map_option, str_eq, if◌then◌else◌, ℕ, zero, suc, ◌+◌, String, Bool, true, ◌||◌, List, [], ◌∷◌,
  ◌++◌, Option, none, some, if◌then◌else◌, get, has, put, take, string_eq, nat_eq,
}

pub data Kind : Type 0 where
  turn_start reasoning tool_call tool_result verification approval_prompt : Kind
  compaction text turn_end : Kind

pub record Meta : Type 0 where
  pub id : String
  pub persona : String
  pub model : String
  pub parent : Option String
  pub fork_step : Option ℕ

pub record Event (P H : Type 0) : Type 0 where
  pub index : ℕ
  pub session_id : String
  pub turn_index : ℕ
  pub kind : Kind
  pub payload : P
  pub sha256 : H

pub data Line (P H : Type 0) : Type 0 where
  session_init : Meta → Line P H
  logged : Event P H → Line P H

pub record Service (P H : Type 0) : Type 0 where
  pub active : List (String × Meta)
  pub counts : List (String × ℕ)
  pub files : List (String × List (Line P H))

abbrev pub or_zero : Option ℕ → ℕ
or_zero none = 0
or_zero (some n) = n

abbrev pub or_empty {ℓ} : {A : Type ℓ} → Option (List A) → List A
or_empty none = []
or_empty (some l) = l

module _ {P H : Type 0} where
  abbrev pub new_service : Service P H
  new_service = record { active = []; counts = []; files = [] }

  pub restart : Service P H → Service P H
  restart s = record s { active = []; counts = [] }

  pub create : Meta → Service P H → Service P H
  create m s = record {
    active = put m.id m s.active;
    counts = put m.id 0 s.counts;
    files = if has m.id s.files then s.files else put m.id (session_init m ∷ []) s.files;
  }

  -- The method `has`.
  pub has_session : String → Service P H → Bool
  has_session id s = has id s.active || has id s.files

  abbrev pub events_of : List (Line P H) → List (Event P H)
  events_of [] = []
  events_of (session_init m ∷ ls) = events_of ls
  events_of (logged e ∷ ls) = e ∷ events_of ls

  unfoldable pub get_history : String → Service P H → List (Event P H)
  get_history id s = events_of (or_empty (get id s.files))

-- `||` on texts, where an empty one falls through; one that is undefined is taken as empty.
abbrev pub or_text : String → String → String
or_text a b = if str_eq a "" then b else a

abbrev pub text_of : Option String → String
text_of none = ""
text_of (some a) = a

module _ {P H : Type 0} where
  abbrev pub fork_meta : (original forked : String) → ℕ → Option String → Service P H → Meta
  fork_meta original forked step new_persona s = record {
    id = forked;
    persona = or_text (text_of new_persona) (
        or_text (text_of (map_option (λ m. m.persona) (get original s.active)))
          "strategic_cognitive_architect");
    model =
        or_text (text_of (map_option (λ m. m.model) (get original s.active))) "deepseek-v4-flash";
    parent = some original;
    fork_step = some step;
  }

module _ {P H : Type 0} (digest : String → ℕ → Kind → P → H) where
  unfoldable pub new_event : String → ℕ → ℕ → Kind → P → Event P H
  new_event id count turn kind payload = record {
    index = count;
    session_id = id;
    turn_index = turn;
    kind = kind;
    payload = payload;
    sha256 = digest id count kind payload;
  }

  unfoldable pub append : String → ℕ → Kind → P → Service P H → Service P H
  unfolding new_event
  append id turn kind payload s =
      let count = or_zero (get id s.counts) + 1 in
      record s {
        counts = put id count s.counts;
        files =
            put id (or_empty (get id s.files) ++ logged (new_event id count turn kind payload) ∷ [])
              s.files;
      }

  -- `appendEvent`, by whether the type is "todo/write".
  pub append_event : String → (is_todo_write : Bool) → P → Service P H → Service P H
  unfolding append
  append_event id is_todo_write payload =
      append id 0 (if is_todo_write then tool_result else text) payload

  -- The loop of `fork` over the events that are copied.
  pub append_all : String → List (Event P H) → Service P H → Service P H
  unfolding append
  append_all id [] s = s
  append_all id (e ∷ es) s = append_all id es (append id e.turn_index e.kind e.payload s)

  pub fork : (original forked : String) → ℕ → Option String → Service P H → Service P H
  unfolding append_all create get_history
  fork original forked step new_persona s =
      append_all forked (take step (get_history original s))
        (create (fork_meta original forked step new_persona s) s)
