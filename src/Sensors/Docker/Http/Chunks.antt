-- ===== src/Sensors/Docker/Http/Chunks.antt =====
-- Chunks that an engine sends, and what becomes of them.
use mathlib.Core.List.{append-nil, append_assoc}
use loadbear.Prelude.{
  ℕ, zero, suc, ◌+◌, ◌-◌, ◌≤◌, ◌<◌, ◌≡◌, refl, ap, ◌∙◌, true, false, none, some, List, [], ◌∷◌,
  ◌++◌, arith, ltb, ◌==◌, All, any, length, length-append, chars, from_find, before, split_once,
  contains, len_utf8, byte_len, split_at, ◌>>=◌, ◌||◌,
}
use loadbear.Sensors.Docker.Http.{
  returned, panicked, crlf, chunk_size, unchunk, status_ok, body, head_and_rest,
}

-- A chunk: the line of its size, and its text.
abbrev pub Chunk : Type 0
Chunk = List ℕ × List ℕ

-- The line has no carriage return, and says how many bytes the text has, which is not empty.
abbrev pub IsChunk : Chunk → Type 0
IsChunk c =
    (any (λ x. x == b'\r') c.0 ≡ false) × (chunk_size c.0 ≡ byte_len c.1) × (0 < byte_len c.1)

-- The chunks as they are sent, and after them a line of size zero.
abbrev pub encode : List ℕ → List Chunk → List ℕ
encode last [] = last ++ (crlf ++ crlf)
encode last ((line, text) ∷ cs) = line ++ (crlf ++ (text ++ (crlf ++ encode last cs)))

abbrev pub texts : List Chunk → List ℕ
texts [] = []
texts ((line, text) ∷ cs) = text ++ texts cs

module _ (s : List ℕ) where
  from_find-line :
      (line : List ℕ)
      → any (λ x. x == b'\r') line ≡ false
      → from_find crlf (line ++ (crlf ++ s)) ≡ some (crlf ++ s)
  from_find-line [] h = refl
  from_find-line (c ∷ line) h =
      let e : c == b'\r' ≡ false = ground arith in
      let e' : b'\r' == c ≡ false = ground arith in rw e' (from_find-line line (ground arith))

  before-line :
      (line : List ℕ)
      → any (λ x. x == b'\r') line ≡ false
      → before crlf (line ++ (crlf ++ s)) ≡ line
  before-line [] h = refl
  before-line (c ∷ line) h =
      let e : c == b'\r' ≡ false = ground arith in
      let e' : b'\r' == c ≡ false = ground arith in
      rw e' (ap (◌∷◌ c) (before-line line (ground arith)))

  split_once-line :
      (line : List ℕ)
      → any (λ x. x == b'\r') line ≡ false
      → split_once crlf (line ++ (crlf ++ s)) ≡ some (line, s)
  split_once-line line h = rw (from_find-line line h, before-line line h) refl

split_at-step :
    (n c : ℕ) (s : List ℕ)
    → 0 < n
    → len_utf8 c ≤ n
    → split_at n (c ∷ s) ≡ (do cut ← split_at (n - len_utf8 c) s; some (c ∷ cut.0, cut.1))
split_at-step zero c s pos h = absurd (omega arith)
split_at-step (suc n) c s pos h =
    let e : ltb (suc n) (len_utf8 c) ≡ false = ground arith in rw e refl

len_utf8_pos : (c : ℕ) → 0 < len_utf8 c
len_utf8_pos c = ground arith

split_at-append : (d s : List ℕ) → split_at (byte_len d) (d ++ s) ≡ some (d, s)
split_at-append [] [] = refl
split_at-append [] (c ∷ s) = refl
split_at-append (c ∷ d) s =
    let e : len_utf8 c + byte_len d - len_utf8 c ≡ byte_len d = omega arith in
    split_at-step (len_utf8 c + byte_len d) c (d ++ s) (omega (arith, len_utf8_pos c)) (omega arith)
    ∙ rw (e, split_at-append d s) refl

-- A position inside a character.
split_at-cut :
    (d s : List ℕ) (c n : ℕ)
    → byte_len d < n
    → n < byte_len d + len_utf8 c
    → split_at n (d ++ c ∷ s) ≡ none
split_at-cut [] s c zero low high = absurd (omega arith)
split_at-cut [] s c (suc n) low high =
    let e : ltb (suc n) (len_utf8 c) ≡ true = ground arith in rw e refl
split_at-cut (x ∷ d) s c n low high =
    split_at-step n x (d ++ c ∷ s) (omega arith) (omega arith)
    ∙ rw (split_at-cut d s c (n - len_utf8 x) (omega arith) (omega arith)) refl

byte_len-append : (d s : List ℕ) → byte_len (d ++ s) ≡ byte_len d + byte_len s
byte_len-append [] s = omega arith
byte_len-append (c ∷ d) s = omega (arith, byte_len-append d s)

-- One chunk is put out, and the rest follows.
unchunk_one :
    (fuel : ℕ) (out rest : List ℕ) (c : Chunk)
    → IsChunk c
    → unchunk (suc fuel) out (c.0 ++ (crlf ++ (c.1 ++ (crlf ++ rest))))
      ≡ unchunk fuel (out ++ c.1) rest
unfolding unchunk
unchunk_one fuel out rest (line, text) (plain, size, pos) =
    let fits : (chunk_size line == 0 || ltb (byte_len (text ++ (crlf ++ rest))) (chunk_size line))
        ≡ false =
      ground (arith, byte_len-append text (crlf ++ rest)) in
    let cut : split_at (chunk_size line) (text ++ (crlf ++ rest)) ≡ some (text, crlf ++ rest) =
      rw size (split_at-append text (crlf ++ rest)) in
    rw (split_once-line (text ++ (crlf ++ rest)) line plain, fits, cut) refl

unchunk-encode :
    (last : List ℕ)
    → any (λ x. x == b'\r') last ≡ false
    → chunk_size last ≡ 0
    → (cs : List Chunk) (fuel : ℕ) (out : List ℕ) → length cs < fuel
    → All IsChunk cs
    → unchunk fuel out (encode last cs) ≡ returned (out ++ texts cs)
unfolding unchunk
unchunk-encode last plain end [] zero out h a = absurd (omega arith)
unchunk-encode last plain end [] (suc fuel) out h a =
    rw (split_once-line crlf last plain, end, append-nil out) refl
unchunk-encode last plain end (c ∷ cs) zero out h a = absurd (omega arith)
unchunk-encode last plain end ((line, text) ∷ cs) (suc fuel) out h a =
    unchunk_one fuel out (encode last cs) (line, text) a.0
    ∙ unchunk-encode last plain end cs fuel (out ++ text) (omega arith) a.1
    ∙ ap returned (append_assoc out text (texts cs))

length-encode : (last : List ℕ) (cs : List Chunk) → length cs < length (encode last cs)
length-encode last [] = omega (arith, length-append last (crlf ++ crlf))
length-encode last ((line, text) ∷ cs) = omega (
  arith,
  length-append line (crlf ++ (text ++ (crlf ++ encode last cs))),
  length-append text (crlf ++ encode last cs),
  length-encode last cs,
)

-- A body that is sent in chunks is read back whole: where the head has the status 200 and says that the
-- body is chunked, and each line gives the bytes of its chunk and the last gives zero, `body` returns
-- the texts of all chunks, joined.
pub body-encode :
    (to_lowercase : List ℕ → List ℕ) (head last response : List ℕ) (cs : List Chunk)
    → split_once (crlf ++ crlf) response ≡ some (head, encode last cs)
    → status_ok head ≡ true
    → contains (chars "transfer-encoding: chunked") (to_lowercase head) ≡ true
    → any (λ x. x == b'\r') last ≡ false
    → chunk_size last ≡ 0
    → All IsChunk cs
    → body to_lowercase response ≡ returned (some (texts cs))
unfolding body
body-encode to_lowercase head last response cs split ok chunked plain end a =
    let whole =
      unchunk-encode last plain end cs (length (encode last cs)) [] (length-encode last cs) a in
    ap (head_and_rest to_lowercase) split ∙ rw (ok, chunked, whole) refl

-- Chunks that are sent, and what follows them.
abbrev pub sent : List Chunk → List ℕ → List ℕ
sent [] rest = rest
sent ((line, text) ∷ cs) rest = line ++ (crlf ++ (text ++ (crlf ++ sent cs rest)))

-- A chunk ends inside a character.
unchunk-cut :
    (line front back out : List ℕ) (c fuel : ℕ)
    → 0 < fuel
    → any (λ x. x == b'\r') line ≡ false
    → byte_len front < chunk_size line
    → chunk_size line < byte_len front + len_utf8 c
    → unchunk fuel out (line ++ (crlf ++ (front ++ c ∷ back))) ≡ panicked
unfolding unchunk
unchunk-cut line front back out c zero pos plain low high = absurd (omega arith)
unchunk-cut line front back out c (suc fuel) pos plain low high =
    let fits : (chunk_size line == 0 || ltb (byte_len (front ++ c ∷ back)) (chunk_size line))
        ≡ false =
      ground (arith, byte_len-append front (c ∷ back)) in
    rw
      (
        split_once-line (front ++ c ∷ back) line plain,
        fits,
        split_at-cut front back c (chunk_size line) low high,
      )
      refl

module _ (line front back : List ℕ) (c : ℕ) where
  -- What is sent from the line of the chunk on.
  abbrev cut_chunk : List ℕ
  cut_chunk = line ++ (crlf ++ (front ++ c ∷ back))

  unchunk-sent :
      any (λ x. x == b'\r') line ≡ false
      → byte_len front < chunk_size line
      → chunk_size line < byte_len front + len_utf8 c
      → (cs : List Chunk) (fuel : ℕ) (out : List ℕ) → length cs < fuel
      → All IsChunk cs
      → unchunk fuel out (sent cs cut_chunk) ≡ panicked
  unchunk-sent plain low high [] fuel out h a =
      unchunk-cut line front back out c fuel (omega arith) plain low high
  unchunk-sent plain low high (d ∷ cs) zero out h a = absurd (omega arith)
  unchunk-sent plain low high ((size, text) ∷ cs) (suc fuel) out h a =
      unchunk_one fuel out (sent cs cut_chunk) (size, text) a.0
      ∙ unchunk-sent plain low high cs fuel (out ++ text) (omega arith) a.1

  length-sent : (cs : List Chunk) → length cs < length (sent cs cut_chunk)
  length-sent [] = omega (arith, length-append line (crlf ++ (front ++ c ∷ back)))
  length-sent ((size, text) ∷ cs) = omega (
    arith,
    length-append size (crlf ++ (text ++ (crlf ++ sent cs cut_chunk))),
    length-append text (crlf ++ sent cs cut_chunk),
    length-sent cs,
  )

-- A chunk whose size ends inside a character panics, after any chunks that are well formed: `body` fails with
-- no value, where the head has the status 200 and says that the body is chunked.
pub body-panics :
    (to_lowercase : List ℕ → List ℕ) (head line front back response : List ℕ) (c : ℕ)
    (cs : List Chunk)
    → split_once (crlf ++ crlf) response
      ≡ some (head, sent cs (line ++ (crlf ++ (front ++ c ∷ back))))
    → status_ok head ≡ true
    → contains (chars "transfer-encoding: chunked") (to_lowercase head) ≡ true
    → All IsChunk cs
    → any (λ x. x == b'\r') line ≡ false
    → byte_len front < chunk_size line
    → chunk_size line < byte_len front + len_utf8 c
    → body to_lowercase response ≡ panicked
unfolding body
body-panics to_lowercase head line front back response c cs split ok chunked a plain low high =
    let whole = sent cs (line ++ (crlf ++ (front ++ c ∷ back))) in
    let lost =
      unchunk-sent line front back c plain low high cs (length whole) []
        (length-sent line front back c cs) a in
    ap (head_and_rest to_lowercase) split ∙ rw (ok, chunked, lost) refl
