-- ===== src/Relay/Transfer.antt =====
-- A whole transfer of a file from a device: what the handlers of the three frames in
-- gateway/internal/relay/relay.go do one after the other where no call of the environment fails.
use Prim.Native.String.{String}
use one_click_agent.Prelude.{
  ℕ, suc, ◌<◌, ◌≡◌, refl, true, Option, some, lookup, insert, ltb, lt→ltb, List, All, ◌∷◌, [],
  lookup-insert, ◌∙◌, ==_self, subst, sym,
}
use one_click_agent.Model.{Bytes, FilePullChunkPayload, PullStatus}
use one_click_agent.World.{World, PullTransfer, ok}
use one_click_agent.Tunnel.Registry.{in_memory}
use one_click_agent.Tunnel.Hub.{Hub, send_frame}
use one_click_agent.Pool.Sends.{sent_quietly}
use one_click_agent.Pool.Frames.{new_frame, framed, send}
use one_click_agent.Relay.Staging.{RelayConfig}
use one_click_agent.Relay.Reassembly.{store_all}
use one_click_agent.Relay.Acks.{send_pull_ack}
use one_click_agent.Relay.Pull.{on_file_pull_chunk, put_chunk}

-- The state after a reply was sent, and an identifier used.
abbrev pub replied : Hub in_memory → World → World
replied hub w = record w { hub = hub; fresh = suc w.fresh }

-- A reply changes nothing but the hub and the supply of identifiers, and it does not fail.
pub send_pull_ack-quiet :
    (device file : ℕ) (status : PullStatus) (error : String) (index : Option ℕ) (w : World)
    → (hub : Hub in_memory) × (send_pull_ack device file status error index w
        ≡ (ok tt, replied hub w))
unfolding send_pull_ack new_frame framed send
send_pull_ack-quiet device file status error index w =
    sent_quietly (send_frame w.now device _ w.hub) (record w { fresh = suc w.fresh })

-- A chunk as the device sends it.
abbrev pub chunk_payload : RelayConfig → ℕ → ℕ × Bytes → FilePullChunkPayload
chunk_payload config file (i, c) = record {
  file_id = file;
  index = some i;
  data_b64 = config.encode c;
}

-- The parts of the state that a chunk does not change, and the buffer that it does.
pub record IsAfterChunks (file : ℕ) (pt : PullTransfer) (v w : World) : Type 0 where
  pub same_disk : w.disk ≡ v.disk
  pub same_faults : w.faults ≡ v.faults
  pub transfer : lookup file w.pulls ≡ some pt

on_file_pull_chunk-stored :
    (config : RelayConfig) (device file i : ℕ) (c : Bytes) (pt : PullTransfer) (w : World)
    → lookup file w.pulls ≡ some pt
    → config.decode (config.encode c) ≡ some c
    → i < pt.chunks
    → (hub : Hub in_memory) × (on_file_pull_chunk config device (chunk_payload config file (i, c)) w
        ≡ (ok tt, replied hub (record w { pulls = insert file (put_chunk i c pt) w.pulls })))
unfolding on_file_pull_chunk
on_file_pull_chunk-stored config device file i c pt w there decodes less =
    let range : ltb i pt.chunks ≡ true = lt→ltb i pt.chunks less in
    rw (there, decodes, range)
      (send_pull_ack-quiet device file PullStatus.chunk_ok "" (some i)
        (record w { pulls = insert file (put_chunk i c pt) w.pulls }))

-- The frames of chunks, handled one after the other.
abbrev pub receive : RelayConfig → ℕ → ℕ → List (ℕ × Bytes) → World → World
receive config device file [] w = w
receive config device file (c ∷ cs) w =
    receive config device file cs
      (on_file_pull_chunk config device (chunk_payload config file c) w).1

pub receive-IsAfterChunks :
    (config : RelayConfig) (device file : ℕ) (ws : List (ℕ × Bytes)) (pt : PullTransfer) (w : World)
    → ((c : Bytes) → config.decode (config.encode c) ≡ some c)
    → All (λ c. c.0 < pt.chunks) ws
    → lookup file w.pulls ≡ some pt
    → IsAfterChunks file
        (record pt { buf = store_all ws pt.buf })
        w
        (receive config device file ws w)
receive-IsAfterChunks config device file [] pt w decodes h there = record {
  same_disk = refl;
  same_faults = refl;
  transfer = there;
}
receive-IsAfterChunks config device file ((i, c) ∷ ws) pt w decodes h there =
    let (hub, e) = on_file_pull_chunk-stored config device file i c pt w there (decodes c) h.0 in
    let w₁ = replied hub (record w { pulls = insert file (put_chunk i c pt) w.pulls }) in
    let found : lookup file w₁.pulls ≡ some (put_chunk i c pt) =
      lookup-insert file file (put_chunk i c pt) w.pulls ∙ rw (==_self file) refl in
    let rest =
      receive-IsAfterChunks config device file ws (put_chunk i c pt) w₁ decodes h.1 found in
    subst
      (λ r.
        IsAfterChunks file (record pt { buf = store_all ((i, c) ∷ ws) pt.buf }) w
          (receive config device file ws r.1))
      (sym e)
      (record {
        same_disk = rest.same_disk;
        same_faults = rest.same_faults;
        transfer = rest.transfer;
      })
