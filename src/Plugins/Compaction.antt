-- ===== src/Plugins/Compaction.antt =====
-- src_local/psa/plugins/core/compaction_plugin.ts: the tool `compaction.compact`.
-- A payload is of any type `P`. What the loop reads of it is an argument: the file that a call names,
-- the text of a verification, the content of a reasoning, `none` where it is missing or empty; so are
-- the test for the words of a decision and the cut after 120 characters. The digest of the session's
-- log and the payload that holds a summary are arguments too. The distilled text and the time are
-- left out.
pub mod Contents
mod Examples
use personas_agentes.Common.{
  ℕ, suc, ◌+◌, ◌-◌, ◌*◌, max, String, Bool, true, false, List, [], ◌∷◌, ◌++◌, Option, none, some,
  if◌then◌else◌, contains, string_eq, length, drop, arith,
}
use personas_agentes.Kernel.Sessions.{
  Kind, turn_start, tool_call, verification, reasoning, compaction, Event, Service, get_history,
  append,
}

pub record Reader (P : Type 0) : Type 0 where
  pub file_path : P → Option String
  pub text : P → Option String
  pub content : P → Option String
  pub is_decision : String → Bool
  pub clip : String → String

-- The loop's variables.
pub record Gathered : Type 0 where
  pub total_turns : ℕ
  pub touched_files : List String
  pub verified_contracts : List String
  pub core_decisions : List String

pub record CompactionSummary : Type 0 where
  pub session_id : String
  pub total_turns_compact : ℕ
  pub touched_files : List String
  pub verified_contracts : List String
  pub core_decisions : List String
  pub tokens_saved_estimate : ℕ

abbrev pub nothing_yet : Gathered
nothing_yet = record {
  total_turns = 0;
  touched_files = [];
  verified_contracts = [];
  core_decisions = [];
}

-- `Set.prototype.add` of a text that may be missing.
abbrev pub add : Option String → List String → List String
add none xs = xs
add (some x) xs = if contains xs x then xs else xs ++ x ∷ []

module _ {P : Type 0} (r : Reader P) where
  abbrev pub add_decision : Option String → List String → List String
  add_decision none ds = ds
  add_decision (some c) ds = if r.is_decision c then ds ++ r.clip c ∷ [] else ds

  -- One round of the loop over the history.
  pub gather_event : Kind → P → Gathered → Gathered
  gather_event turn_start p g = record g { total_turns = suc g.total_turns }
  gather_event tool_call p g = record g { touched_files = add (r.file_path p) g.touched_files }
  gather_event verification p g = record g {
    verified_contracts = add (r.text p) g.verified_contracts;
  }
  gather_event reasoning p g = record g {
    core_decisions = add_decision (r.content p) g.core_decisions;
  }
  gather_event _ p g = g

  pub gather : {H : Type 0} → List (Event P H) → Gathered → Gathered
  unfolding gather_event
  gather [] g = g
  gather (e ∷ es) g = gather es (gather_event e.kind e.payload g)

-- `slice(-n)`.
abbrev pub last_of {ℓ} : {A : Type ℓ} → ℕ → List A → List A
last_of n xs = drop (length xs - n) xs

pub summarise : String → Gathered → CompactionSummary
summarise id g = record {
  session_id = id;
  total_turns_compact = g.total_turns;
  touched_files = g.touched_files;
  verified_contracts = g.verified_contracts;
  core_decisions = last_of 5 g.core_decisions;
  tokens_saved_estimate = max 250 (g.total_turns * 180);
}

module _ {P H : Type 0} (r : Reader P) (digest : String → ℕ → Kind → P → H)
    (as_payload : CompactionSummary → P) where
  pub compact : String → Service P H → Service P H × CompactionSummary
  unfolding gather summarise
  compact id s =
      let summary = summarise id (gather r (get_history id s) nothing_yet) in
      (append digest id 1 compaction (as_payload summary) s, summary)
