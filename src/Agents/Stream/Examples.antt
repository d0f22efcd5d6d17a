-- ===== src/Agents/Stream/Examples.antt =====
-- A body in one read and in several, and an answer without a server.
use personas_agentes.Common.{
  split_lines, codes, is_space, arith, ℕ, ◌≡◌, refl, List, [], ◌∷◌, Option, some,
}
use personas_agentes.Agents.Stream.{
  Delta, text, line_chunks, lines_chunks, read_chunks, stream_chat_completion,
  run_deterministic_fallback, generate, no_body,
}
use personas_agentes.Agents.Stream.Reads.{concat, WellEnded, read_chunks-concat}

-- Every line is the text of its delta.
abbrev plain : List ℕ → Option Delta
plain line = some (record { reasoning_content = []; content = line })

abbrev cut : List (List ℕ)
cut = codes "data: a\nda" ∷ codes "ta: b" ∷ codes "\ndata: [DONE]\n" ∷ []

cut-WellEnded : WellEnded plain (split_lines (concat cut)).0
unfolding WellEnded split_lines is_space
cut-WellEnded = (λ e. ground (arith, e), (λ e. ground (arith, e), (λ e. tt, tt)))

read_chunks-concat_example :
    read_chunks plain [] cut ≡ lines_chunks plain (split_lines (concat cut)).0
read_chunks-concat_example = read_chunks-concat plain cut cut-WellEnded

reads_cut : read_chunks plain [] cut ≡ text (codes "a") ∷ text (codes "b") ∷ []
unfolding read_chunks lines_chunks line_chunks split_lines is_space
reads_cut = refl

-- A last line without its end is lost.
loses_last_line : read_chunks plain [] (codes "data: a" ∷ []) ≡ []
unfolding read_chunks lines_chunks line_chunks split_lines is_space
loses_last_line = refl

answers_ping :
    generate plain (λ t. t) (codes "PING") [] no_body
    ≡ codes "ESTOU CONSCIENTE (MOTOR OFFLINE WARM-PURGE ATIVO)."
unfolding generate stream_chat_completion run_deterministic_fallback
answers_ping = refl
