-- ===== src/Relay/Chunks.antt =====
-- Cutting a file into chunks: the reads of `PushFile` in gateway/internal/relay/relay.go.
use one_click_agent.Prelude.{
  ℕ, zero, suc, ◌*◌, ◌≤◌, ◌<◌, ◌≡◌, refl, ap, ◌∙◌, [], ◌∷◌, ◌++◌, map, take, drop, take_append_drop,
  length, length-drop, arith,
}
use one_click_agent.Model.{Bytes}
use one_click_agent.Relay.Push.{read_chunks, chunk_size, total_chunks}
use one_click_agent.Relay.Outputs.{joined}

pub joined-read_chunks :
    (chunk n i : ℕ) (content : Bytes)
    → 0 < chunk
    → length content ≤ n * chunk
    → joined (map (λ c. c.1) (read_chunks chunk n i content)) ≡ content
unfolding read_chunks
joined-read_chunks chunk zero i [] pos fits = refl
joined-read_chunks chunk zero i (x ∷ rest) pos fits = absurd (omega arith)
joined-read_chunks chunk (suc n) i [] pos fits = refl
joined-read_chunks chunk (suc n) i (x ∷ rest) pos fits =
    ap (λ ys. take chunk (x ∷ rest) ++ ys)
      (joined-read_chunks chunk n (suc i) (drop chunk (x ∷ rest)) pos
        (omega (arith, length-drop chunk (x ∷ rest))))
    ∙ take_append_drop chunk (x ∷ rest)

-- The chunks that a push cuts a file into make the file again when they are put together.
pub read_chunks-joined :
    (content : Bytes)
    → joined (
        map
          (λ c. c.1)
          (read_chunks chunk_size (total_chunks chunk_size (length content)) 0 content))
      ≡ content
read_chunks-joined content =
    joined-read_chunks chunk_size (total_chunks chunk_size (length content)) 0 content (omega arith)
      (omega arith)
