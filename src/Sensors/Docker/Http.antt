-- ===== src/Sensors/Docker/Http.antt =====
-- crates/loadbear-sensors-windows/src/docker.rs: `get` and `body`, a response of the engine and its body.
-- What each read of the pipe gives, the decoding of bytes and lower case are parameters.
pub mod Chunks
use loadbear.Prelude.{
  ℕ, zero, suc, ◌*◌, Bool, true, false, Option, none, some, List, [], ◌∷◌, ◌++◌, ltb, ◌==◌,
  if◌then◌else◌, ◌>>=◌, ◌||◌, unwrap_or, length, chars, strip_prefix, before, split_once, contains,
  trim, parse_hex, byte_len, split_at,
}

-- A call returns, or it panics.
pub data Outcome (A : Type 0) : Type 0 where
  returned : A → Outcome A
  panicked : Outcome A

abbrev pub crlf : List ℕ
crlf = b'\r' ∷ b'\n' ∷ []

-- The number on the line of a chunk, and 0 where it has none.
unfoldable pub chunk_size : List ℕ → ℕ
chunk_size size_line = unwrap_or (parse_hex (trim (before (b';' ∷ []) (trim size_line)))) 0

-- The chunk itself, where there is one of this size.
abbrev chunk :
    (List ℕ → List ℕ → Outcome (List ℕ)) → List ℕ → Option (List ℕ × List ℕ) → Outcome (List ℕ)
chunk next out none = panicked
chunk next out (some (front, back)) = next (out ++ front) (unwrap_or (strip_prefix crlf back) [])

abbrev on_line :
    (List ℕ → List ℕ → Outcome (List ℕ)) → List ℕ → Option (List ℕ × List ℕ) → Outcome (List ℕ)
on_line next out none = returned out
on_line next out (some (size_line, after)) =
    let size = chunk_size size_line in
    if size == 0 || ltb (byte_len after) size
    then returned out
    else chunk next out (split_at size after)

-- The loop over the chunks, from what was put out before, with fuel for so many chunks.
pub unchunk : ℕ → List ℕ → List ℕ → Outcome (List ℕ)
unchunk zero out remaining = returned out
unchunk (suc fuel) out remaining = on_line (unchunk fuel) out (split_once crlf remaining)

-- The first line of the head has the status 200.
abbrev pub status_ok : List ℕ → Bool
status_ok head = contains (chars " 200") (before (b'\n' ∷ []) head)

abbrev pub returned_body : Outcome (List ℕ) → Outcome (Option (List ℕ))
returned_body (returned out) = returned (some out)
returned_body panicked = panicked

abbrev head_and_rest : (List ℕ → List ℕ) → Option (List ℕ × List ℕ) → Outcome (Option (List ℕ))
head_and_rest to_lowercase none = returned none
head_and_rest to_lowercase (some (head, rest)) =
    if status_ok head
    then (if contains (chars "transfer-encoding: chunked") (to_lowercase head)
        then returned_body (unchunk (length rest) [] rest)
        else returned (some rest))
    else returned none

pub body : (List ℕ → List ℕ) → List ℕ → Outcome (Option (List ℕ))
body to_lowercase response = head_and_rest to_lowercase (split_once (crlf ++ crlf) response)

abbrev pub max_response_bytes : ℕ
max_response_bytes = 4 * 1024 * 1024

-- The bytes of the reads so far and of these reads, of which one that is empty or fails is the last.
pub receive : List (Option (List ℕ)) → List ℕ → Option (List ℕ)
receive [] raw = some raw
receive (none ∷ reads) raw = some raw
receive (some [] ∷ reads) raw = some raw
receive (some (b ∷ bs) ∷ reads) raw =
    let rest = receive reads (raw ++ b ∷ bs) in
    if ltb max_response_bytes (length (raw ++ b ∷ bs)) then none else rest

-- `get`, where the request could be written to the pipe and its reads are these, or else nothing.
pub get :
    (List ℕ → List ℕ)
    → (List ℕ → List ℕ)
    → Option (List (Option (List ℕ)))
    → Outcome (Option (List ℕ))
unfolding receive body
get from_utf8_lossy to_lowercase none = returned none
get from_utf8_lossy to_lowercase (some reads) = elim (receive reads []) [
  | none ↦ returned none
  | some raw ↦ body to_lowercase (from_utf8_lossy raw)
]
