-- ===== src/Agents/Stream.antt =====
-- src_local/utils/ai/warm_purge_offline_engine.ts: what streamChatCompletion reads and yields,
-- generate and the offline answer. A text is the list of its character codes. The decoded pieces of
-- the body are a list, and the reading of the JSON of a line is the argument `parse`: the parts of
-- its delta, if there is one.
pub mod Reads
mod Examples
use personas_agentes.Common.{
  split_lines, all_lines, codes, codes_eq, starts_with, includes, trim_codes, is_nil, ℕ, zero, suc,
  Bool, true, false, not, ◌&&◌, ◌||◌, List, [], ◌∷◌, ◌++◌, map, Option, none, some, if◌then◌else◌,
  nat_beq, take, drop,
}

pub data StreamChunk : Type 0 where
  reasoning text : List ℕ → StreamChunk

pub record Delta : Type 0 where
  pub reasoning_content : List ℕ
  pub content : List ℕ

abbrev pub chunk_if : (List ℕ → StreamChunk) → List ℕ → List StreamChunk
chunk_if f [] = []
chunk_if f (c ∷ cs) = f (c ∷ cs) ∷ []

abbrev pub of_delta : Option Delta → List StreamChunk
of_delta none = []
of_delta (some d) = chunk_if reasoning d.reasoning_content ++ chunk_if text d.content

abbrev pub is_data : List ℕ → Bool
is_data line = starts_with (codes "data: ") (trim_codes line)

abbrev pub data_of : List ℕ → List ℕ
data_of line = trim_codes (drop 6 (trim_codes line))

abbrev pub is_end : List ℕ → Bool
is_end line = is_data line && codes_eq (data_of line) (codes "[DONE]")

module _ (parse : List ℕ → Option Delta) where
  -- What a line yields.
  pub line_chunks : List ℕ → List StreamChunk
  line_chunks line = if is_data line then of_delta (parse (data_of line)) else []

  -- The loop over the lines of one read, which the end mark leaves.
  pub lines_chunks : List (List ℕ) → List StreamChunk
  unfolding line_chunks
  lines_chunks [] = []
  lines_chunks (line ∷ lines) =
      let later = lines_chunks lines in if is_end line then [] else line_chunks line ++ later

  -- The loop over the reads.
  pub read_chunks : (buffer : List ℕ) → (pieces : List (List ℕ)) → List StreamChunk
  unfolding split_lines lines_chunks
  read_chunks buffer [] = []
  read_chunks buffer (piece ∷ pieces) =
      let (lines, rest) = split_lines (buffer ++ piece) in
      lines_chunks lines ++ read_chunks rest pieces

-- `join`
abbrev pub join_with : List ℕ → List (List ℕ) → List ℕ
join_with sep [] = []
join_with sep (x ∷ []) = x
join_with sep (x ∷ y ∷ ys) = x ++ (sep ++ join_with sep (y ∷ ys))

abbrev pub context_notice : List ℕ → List ℕ
context_notice [] = []
context_notice (c ∷ cs) =
    codes "\n\nContexto Analisado:\n- " ++ join_with (codes "\n- ") (take 3 (all_lines (c ∷ cs)))

-- How the request ends: no server or no good response, or a body, which may break off.
pub data Response : Type 0 where
  no_body : Response
  body : (pieces : List (List ℕ)) → (breaks_off : Bool) → Response

module _ (parse : List ℕ → Option Delta) (upper : List ℕ → List ℕ) where
  pub run_deterministic_fallback : List ℕ → List ℕ → List ℕ
  unfolding split_lines
  run_deterministic_fallback prompt context =
      if includes (codes "CONSCIENTE") (upper prompt) || includes (codes "PING") (upper prompt)
      then codes "ESTOU CONSCIENTE (MOTOR OFFLINE WARM-PURGE ATIVO)."
      else if includes (codes "RESPONDA APENAS 'OK'") (upper prompt)
      then codes "OK"
      else codes "🤖 [Offline Warm-Purge Qwen 0.5B]: Análise realizada offline com sucesso."
        ++ context_notice context

  pub stream_chat_completion : List ℕ → List ℕ → Response → List StreamChunk
  unfolding read_chunks run_deterministic_fallback
  stream_chat_completion prompt system_prompt no_body =
      text (run_deterministic_fallback prompt system_prompt) ∷ []
  stream_chat_completion prompt system_prompt (body pieces breaks_off) =
      read_chunks parse [] pieces
      ++ (if breaks_off then text (run_deterministic_fallback prompt system_prompt) ∷ [] else [])

  abbrev pub full_text : List StreamChunk → List ℕ
  full_text [] = []
  full_text (reasoning t ∷ cs) = full_text cs
  full_text (text t ∷ cs) = t ++ full_text cs

  -- `options.context ? ... : undefined`
  abbrev pub system_prompt_of : List ℕ → List ℕ
  system_prompt_of [] = []
  system_prompt_of (c ∷ cs) = codes "[CONTEXTO DA BASE DE CÓDIGO]:\n" ++ c ∷ cs

  pub generate : List ℕ → List ℕ → Response → List ℕ
  unfolding stream_chat_completion run_deterministic_fallback
  generate prompt context response =
      let full = full_text (stream_chat_completion prompt (system_prompt_of context) response) in
      if is_nil full then run_deterministic_fallback prompt context else full
