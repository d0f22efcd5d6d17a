-- ===== src/Agents/Runtime/Logic.antt =====
-- The emulated logic of the agents: `runEmulatedWasmLogic` and what it calls.
use personas_agentes.Common.{
  ℕ, String, Bool, true, false, not, ◌&&◌, ◌||◌, List, [], ◌∷◌, ◌++◌, Option, none, some,
  if◌then◌else◌, str_eq, codes, includes,
}

-- A field: missing or false, a text, or another value, a number say, with its conversion to a text.
-- The methods of texts throw on the latter.
pub data Field : Type 0 where
  absent : Field
  text value : List ℕ → Field

pub record Fields : Type 0 where
  pub source : Field
  pub code : Field
  pub sql : Field
  pub commit_message : Field
  pub diff : Field

pub data Payload : Type 0 where
  text_payload : List ℕ → Payload
  object_payload : Fields → Payload

pub record Words : Type 0 where
  pub to_lower : List ℕ → List ℕ
  pub to_upper : List ℕ → List ℕ
  pub has_high_entropy : List ℕ → Bool
  pub is_semantic : List ℕ → Bool
  pub sample : ℕ

pub data Issue : Type 0 where
  silent_exception todo_placeholder dynamic_code high_entropy : Issue
  missing_where destructive_ddl console_print var_declaration : Issue

pub data Output : Type 0 where
  audit_output security_output database_output linter_output : Bool → List Issue → Output
  git_output : (is_semantic has_conflicts : Bool) → Output
  telemetry_output : ℕ → Output
  ok_output : Output

-- `a || b`
abbrev pub or_field : Field → Field → Field
or_field absent other = other
or_field (text []) other = other
or_field (text (c ∷ cs)) other = text (c ∷ cs)
or_field (value t) other = value t

abbrev pub source_code : Payload → Field
source_code (text_payload t) = text t
source_code (object_payload f) = or_field f.source (or_field f.code (text []))

-- What works on a text throws on another value.
abbrev pub on_text : (List ℕ → Output) → Field → Option Output
on_text logic absent = some (logic [])
on_text logic (text t) = some (logic t)
on_text logic (value t) = none

-- `RegExp.test` converts its argument.
abbrev pub as_text : Field → List ℕ
as_text absent = []
as_text (text t) = t
as_text (value t) = t

abbrev pub is_empty_text : List ℕ → Bool
is_empty_text [] = true
is_empty_text (c ∷ cs) = false

abbrev pub one_issue : Bool → Issue → List Issue
one_issue b i = if b then i ∷ [] else []

abbrev pub no_issues : List Issue → Bool
no_issues [] = true
no_issues (i ∷ is) = false

unfoldable pub audit_logic : List ℕ → Output
audit_logic code =
    if is_empty_text code
    then audit_output true []
    else let issues =
        one_issue
          (includes (codes "except:") code
            || includes (codes "except Exception:") code
            || (includes (codes "catch (") code && includes (codes "{}") code))
          silent_exception
        ++ one_issue (includes (codes "TODO") code || includes (codes "todo!") code)
            todo_placeholder in
      audit_output (no_issues issues) issues

unfoldable pub security_logic : Words → List ℕ → Output
security_logic w code =
    if is_empty_text code
    then security_output true []
    else let lower = w.to_lower code in
      let issues =
        one_issue (includes (codes "eval") lower || includes (codes "exec") lower) dynamic_code
        ++ one_issue (w.has_high_entropy code) high_entropy in
      security_output (no_issues issues) issues

unfoldable pub git_logic : Words → Payload → Option Output
git_logic w (text_payload t) = some (git_output (w.is_semantic []) false)
git_logic w (object_payload f) =
    on_text
      (λ diff. git_output (w.is_semantic (as_text (or_field f.commit_message (text [])))) (
        includes (codes "<<<<<<<") diff
        && includes (codes "=======") diff
        && includes (codes ">>>>>>>") diff))
      (or_field f.diff (text []))

abbrev pub sql_of : Payload → Field
sql_of (text_payload t) = text t
sql_of (object_payload f) = or_field f.sql (text [])

unfoldable pub database_logic : Words → List ℕ → Output
database_logic w sql =
    let upper = w.to_upper sql in
    let issues =
      one_issue
        ((includes (codes "DELETE FROM") upper || includes (codes "UPDATE") upper)
          && not (includes (codes "WHERE") upper))
        missing_where
      ++ one_issue (includes (codes "DROP TABLE") upper || includes (codes "TRUNCATE") upper)
          destructive_ddl in
    database_output (no_issues issues) issues

unfoldable pub linter_logic : List ℕ → Output
linter_logic code =
    if is_empty_text code
    then linter_output true []
    else let issues =
        one_issue (includes (codes "console.log(") code || includes (codes "print(") code)
          console_print
        ++ one_issue (includes (codes "var ") code) var_declaration in
      linter_output (no_issues issues) issues

-- `none` where it throws.
unfoldable pub run_emulated_wasm_logic : Words → String → Payload → Option Output
unfolding audit_logic security_logic git_logic database_logic linter_logic
run_emulated_wasm_logic w id payload =
    if str_eq id "agent_audit.wasm"
    then on_text audit_logic (source_code payload)
    else if str_eq id "agent_security.wasm"
    then on_text (security_logic w) (source_code payload)
    else if str_eq id "agent_git.wasm"
    then git_logic w payload
    else if str_eq id "agent_telemetry.wasm"
    then some (telemetry_output w.sample)
    else if str_eq id "agent_database.wasm"
    then on_text (database_logic w) (sql_of payload)
    else if str_eq id "agent_linter.wasm"
    then on_text linter_logic (source_code payload)
    else some ok_output
