-- ===== src/Http/Body.antt =====
-- `readBodyText` of app/worker/lib/http.ts: a body is refused by its declared length, or while its
-- chunks are counted as they arrive.
use Prim.Native.String.{◌++◌ as append_text}
use ctf_website.Base.{
  ℕ, ◌+◌, ◌≤◌, ◌<◌, ◌≡◌, refl, String, Bool, false, Option, none, some, List, [], ◌∷◌, ltb, arith,
  if◌then◌else◌,
}
use ctf_website.Http.{HttpError, Result, ok, err}

abbrev pub payload_too_large : HttpError
payload_too_large = record {
  status = 413;
  code = "payload_too_large";
  message = "That request is too large.";
  retry_after = none;
}

-- The bytes of a chunk, and the text that the decoder gives for it.
pub record Chunk : Type 0 where
  pub byte_length : ℕ
  pub text : String

pub record Body : Type 0 where
  pub declared : Option ℕ
  pub chunks : List Chunk

abbrev exceeds : Option ℕ → ℕ → Bool
exceeds none max_bytes = false
exceeds (some n) max_bytes = ltb max_bytes n

read_chunks : ℕ → ℕ → String → List Chunk → Result String
read_chunks max_bytes received text [] = ok text
read_chunks max_bytes received text (chunk ∷ chunks) =
    let rest =
      read_chunks max_bytes (received + chunk.byte_length) (append_text text chunk.text) chunks in
    if ltb max_bytes (received + chunk.byte_length) then err payload_too_large else rest

unfoldable pub read_body : ℕ → Body → Result String
unfolding read_chunks
read_body max_bytes body =
    if exceeds body.declared max_bytes
    then err payload_too_large
    else read_chunks max_bytes 0 "" body.chunks

abbrev pub total_bytes : List Chunk → ℕ
total_bytes [] = 0
total_bytes (chunk ∷ chunks) = chunk.byte_length + total_bytes chunks

abbrev pub joined : String → List Chunk → String
joined text [] = text
joined text (chunk ∷ chunks) = joined (append_text text chunk.text) chunks

read_chunks_fits :
    (max_bytes received : ℕ) (text : String) (chunks : List Chunk)
    → received + total_bytes chunks ≤ max_bytes
    → read_chunks max_bytes received text chunks ≡ ok (joined text chunks)
unfolding read_chunks
read_chunks_fits max_bytes received text [] h = refl
read_chunks_fits max_bytes received text (chunk ∷ chunks) h = ground (
  arith,
  read_chunks_fits max_bytes (received + chunk.byte_length) (append_text text chunk.text) chunks,
)

read_chunks_over :
    (max_bytes received : ℕ) (text : String) (chunks : List Chunk)
    → received ≤ max_bytes
    → max_bytes < received + total_bytes chunks
    → read_chunks max_bytes received text chunks ≡ err payload_too_large
unfolding read_chunks
read_chunks_over max_bytes received text [] h over = absurd (omega arith)
read_chunks_over max_bytes received text (chunk ∷ chunks) h over = ground (
  arith,
  read_chunks_over max_bytes (received + chunk.byte_length) (append_text text chunk.text) chunks,
)

-- A body whose declared length and whose bytes are within the limit is read whole.
pub read_body_fits :
    (max_bytes : ℕ) (body : Body)
    → exceeds body.declared max_bytes ≡ false
    → total_bytes body.chunks ≤ max_bytes
    → read_body max_bytes body ≡ ok (joined "" body.chunks)
unfolding read_body
read_body_fits max_bytes body fits h =
    rw fits (read_chunks_fits max_bytes 0 "" body.chunks (omega arith))

-- A body with more bytes than the limit is refused with a 413, whatever length it declares.
pub read_body_over :
    (max_bytes : ℕ) (body : Body)
    → max_bytes < total_bytes body.chunks
    → read_body max_bytes body ≡ err payload_too_large
unfolding read_body
read_body_over max_bytes body over = ground (arith, read_chunks_over max_bytes 0 "" body.chunks)
