-- ===== src/Metadata.antt =====
-- shared/types.go: what a server knows of a file. server.go: its making from the tracker's record.
use file_share_p2p.Prelude.{List, []}
use file_share_p2p.Prelude.Int.{ℤ}
use file_share_p2p.GoString.{GoString}
use file_share_p2p.Tracker.State.{FileInfo}

pub record Metadata : Type 0 where
  pub file_id : GoString
  pub num_chunks : ℤ
  pub chunk_size : ℤ
  pub file_extension : GoString
  pub original_path : GoString
  pub chunk_hashes : List GoString
  pub total_hash : GoString
  pub total_size : ℤ

-- The conversion in DownloadFile and getMetadataFromTracker; the path is left empty.
unfoldable pub metadata_of : FileInfo → Metadata
metadata_of info = record {
  file_id = info.file_id;
  num_chunks = info.num_chunks;
  chunk_size = info.chunk_size;
  file_extension = info.extension;
  original_path = [];
  chunk_hashes = info.chunk_hashes;
  total_hash = info.total_hash;
  total_size = info.total_size;
}
