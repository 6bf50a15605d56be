-- ===== src/Download/Ended.antt =====
-- server.go: DownloadFile by whichever return it ends.
use file_share_p2p.Prelude.{
  ℕ, ◌^◌, ◌≤◌, ◌<◌, ◌*◌, Bool, true, false, not, ◌&&◌, none, some, List, ◌≡◌, ◌↔◌, eqb,
  if◌then◌else◌, length, All, Bool-cases, inl, inr,
}
use file_share_p2p.Prelude.Int.{pos, pos_part}
use file_share_p2p.GoString.{GoString}
use file_share_p2p.Metadata.{Metadata}
use file_share_p2p.Server.State.{Server}
use file_share_p2p.Download.Defs.{
  Download, Event, start_download, run_events, can_abandon, result, ended, output,
}
use file_share_p2p.Download.Answers.{IsHonest}
use file_share_p2p.Download.Complete.{result-output}

some_false : {A : Type 0} → some false ≡ some true → A
some_false h = cc

-- The return without peers is one with an error.
pub ended-result :
    (refreshes : Bool) (d : Download) → ended refreshes d ≡ some true → result d ≡ some true
unfolding ended
ended-result refreshes d e = elim (Bool-cases (can_abandon d && not refreshes)) [
  | inl f ↦ some_false (rw f at e)
  | inr f ↦ rw f at e
]

-- Once DownloadFile returns nil, whichever way it comes to its end, and if all peers send what
-- ReadChunk reads from a content, its output file is that content, and removed if that is empty. The
-- metadata has the chunk size and a chunk for exactly the indices that start in the content, a chunk
-- has a byte at least, and the sizes are below 2^63.
pub ended-output :
    (content : List ℕ) (size : ℕ) (file_id : GoString) (meta : Metadata) (server : Server)
    (events : List Event) (d d' : Download) (refreshes : Bool)
    → 1 ≤ size
    → size < 2 ^ 63
    → length content < 2 ^ 63
    → meta.chunk_size ≡ pos size
    → ((i : ℕ) → (i < pos_part meta.num_chunks) ↔ (i * size < length content))
    → start_download meta server ≡ some d
    → All (IsHonest content size) events
    → run_events file_id meta events d ≡ some d'
    → ended refreshes d' ≡ some true
    → output d' ≡ (if eqb (length content) 0 then none else some content)
ended-output content size file_id meta server events d d' refreshes p s c m exact start honest runs
      e =
    result-output content size file_id meta server events d d' p s c m exact start honest runs
      (ended-result refreshes d' e)
