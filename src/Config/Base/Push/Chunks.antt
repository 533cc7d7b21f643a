-- ===== src/Config/Base/Push/Chunks.antt =====
-- The splitting of a large message into chunks in `push` (src/config/base.cpp).
use libsession_util.Prelude.{ℕ, zero, suc, ◌+◌, ◌-◌, ◌/◌, List, [], ◌∷◌, length, take, drop}
use libsession_util.Keys.{Bytes}

-- `ENCODE_OVERHEAD`: the `m`, the list around it, the hash, the two numbers, the length of the chunk.
abbrev pub encode_overhead : ℕ
encode_overhead = 50

-- `MAX_CHUNK_SIZE`, that is `MAX_MESSAGE_SIZE - ENCODE_OVERHEAD - ENCRYPT_DATA_OVERHEAD`.
abbrev pub max_chunk_size : ℕ
max_chunk_size = 76710

-- `num_parts`, before it becomes a `uint8_t`.
unfoldable pub number_of_chunks : ℕ → ℕ
number_of_chunks n = (n + max_chunk_size - 1) / max_chunk_size

-- `remaining.subspan(0, std::min(MAX_CHUNK_SIZE, remaining.size()))` until nothing remains; as
-- each round takes at least one byte, the length of the message is fuel enough.
unfoldable pub chunks_of : ℕ → ℕ → Bytes → List Bytes
chunks_of size fuel [] = []
chunks_of size zero (b ∷ remaining) = []
chunks_of size (suc fuel) (b ∷ remaining) =
    take size (b ∷ remaining) ∷ chunks_of size fuel (drop size (b ∷ remaining))

unfoldable pub chunks : Bytes → List Bytes
unfolding chunks_of
chunks msg = chunks_of max_chunk_size (length msg) msg
