-- ===== src/Sensors/Installer/Download.antt =====
-- What is downloaded: how many reads there are, and which bytes are taken for the setup program.
use mathlib.Core.List.{append-nil, append_assoc}
use mathlib.Core.Path.{subst}
use loadbear.Prelude.{
  ℕ, ◌+◌, ◌≤◌, ◌<◌, ◌⊎◌, ◌≡◌, refl, sym, ap, ◌∙◌, inl, inr, Bool, true, false, not, Option, none,
  some, List, [], ◌∷◌, ◌++◌, arith, ltb, ltb→lt, ◌>>=◌, Bool-cases, Option-cases, length,
  length-append,
}
use loadbear.Prelude.Calls.{Result, ok, err}
use loadbear.Prelude.Calls
use loadbear.Sensors.Installer.{
  request, Call, read, max_installer_bytes, download, Installing, not_an_installer,
}

-- The bytes that a call reads. A read that fails, or that gives none, has 0.
abbrev pub bytes_of : Call → ℕ
bytes_of (read h (some bs)) = length bs
bytes_of _ = 0

-- From so many bytes on: each read but the last one gives a byte and stays within the limit, and the last one
-- gives none, fails, or passes the limit.
abbrev pub ReadsWell : ℕ → List Call → Type 0
ReadsWell total [] = ⊥
ReadsWell total (c ∷ []) = (bytes_of c ≡ 0) ⊎ (max_installer_bytes < total + bytes_of c)
ReadsWell total (c ∷ d ∷ cs) =
    (0 < bytes_of c)
    × (total + bytes_of c ≤ max_installer_bytes)
    × ReadsWell (total + bytes_of c) (d ∷ cs)

-- The calls are the reads of the request, in their order. After the last of them there is nothing to read.
abbrev pub AreReadsOf : List (Option (List ℕ)) → List Call → Type 0
AreReadsOf reads [] = Unit
AreReadsOf [] (c ∷ cs) = (c ≡ read request (some [])) × (cs ≡ [])
AreReadsOf (r ∷ reads) (c ∷ cs) = (c ≡ read request r) × AreReadsOf reads cs

pub stops :
    {B : Type 0} (t : Bool) (k : Installing B)
    → t ≡ true
    → Calls.◌>>◌ (Calls.guard (not t) not_an_installer) k ≡ ([], err not_an_installer)
stops t k h = rw h refl

pub goes_on :
    {B : Type 0} (t : Bool) (k : Installing B)
    → t ≡ false
    → Calls.◌>>◌ (Calls.guard (not t) not_an_installer) k ≡ k
goes_on t k h = rw h refl

module _ (b : ℕ) (bs : List ℕ) (reads : List (Option (List ℕ))) (body : List ℕ) where
  abbrev longer : List ℕ
  longer = body ++ b ∷ bs

  download-over :
      ltb max_installer_bytes (length longer) ≡ true
      → download (some (b ∷ bs) ∷ reads) body
        ≡ (read request (some (b ∷ bs)) ∷ [], err not_an_installer)
  unfolding download
  download-over h =
      ap (λ (m : Installing (List ℕ)). (read request (some (b ∷ bs)) ∷ m.0, m.1))
        (stops _ (download reads longer) h)

  download-within :
      ltb max_installer_bytes (length longer) ≡ false
      → download (some (b ∷ bs) ∷ reads) body
        ≡ (read request (some (b ∷ bs)) ∷ (download reads longer).0, (download reads longer).1)
  unfolding download
  download-within h =
      ap (λ (m : Installing (List ℕ)). (read request (some (b ∷ bs)) ∷ m.0, m.1))
        (goes_on _ (download reads longer) h)

ReadsWell-cons :
    (total : ℕ) (c : Call) (cs : List Call)
    → 0 < bytes_of c
    → total + bytes_of c ≤ max_installer_bytes
    → ReadsWell (total + bytes_of c) cs
    → ReadsWell total (c ∷ cs)
ReadsWell-cons total c [] some_bytes fits h = absurd h
ReadsWell-cons total c (d ∷ cs) some_bytes fits h = (some_bytes, fits, h)

-- The bound that follows.
length-ReadsWell :
    (total : ℕ) (cs : List Call)
    → total ≤ max_installer_bytes
    → ReadsWell total cs
    → length cs + total ≤ max_installer_bytes + 1
length-ReadsWell total [] fits h = absurd h
length-ReadsWell total (c ∷ []) fits h = omega arith
length-ReadsWell total (c ∷ d ∷ cs) fits h =
    let rest = length-ReadsWell (total + bytes_of c) (d ∷ cs) h.1 h.2 in omega arith

download-ReadsWell :
    (reads : List (Option (List ℕ))) (body : List ℕ)
    → length body ≤ max_installer_bytes
    → ReadsWell (length body) (download reads body).0 × AreReadsOf reads (download reads body).0
download-ReadsWell [] body h = unfold download in (inl refl, (refl, refl))
download-ReadsWell (none ∷ reads) body h = unfold download in (inl refl, (refl, tt))
download-ReadsWell (some [] ∷ reads) body h = unfold download in (inl refl, (refl, tt))
download-ReadsWell (some (b ∷ bs) ∷ reads) body h =
    let len = length-append body (b ∷ bs) in
    elim (Bool-cases (ltb max_installer_bytes (length (body ++ b ∷ bs)))) [
      | inl over ↦
          let big = ltb→lt _ _ over in
          rw (download-over b bs reads body over) (inr (omega arith), (refl, tt))
      | inr within ↦
          let fits : length (body ++ b ∷ bs) ≤ max_installer_bytes = ground arith in
          let rest = download-ReadsWell reads (body ++ b ∷ bs) fits in
          let well = subst (λ n. ReadsWell n (download reads (body ++ b ∷ bs)).0) len rest.0 in
          rw (download-within b bs reads body within) (
            ReadsWell-cons (length body) (read request (some (b ∷ bs)))
                (download reads (body ++ b ∷ bs)).0 (omega arith) (omega arith) well,
            (refl, rest.1),
          )
    ]

-- The calls of a download are reads of the request, in the order of what the network gives. Each read but the
-- last one gives a byte and stays within the limit on the bytes; the last one gives none, fails or passes the
-- limit. So there are at most as many reads as bytes below the limit, and one more.
pub download_reads :
    (reads : List (Option (List ℕ))) (body : List ℕ)
    → length body ≤ max_installer_bytes
    → let calls = (download reads body).0 in
      AreReadsOf reads calls
      × ReadsWell (length body) calls
      × (length calls + length body ≤ max_installer_bytes + 1)
download_reads reads body h =
    let well = download-ReadsWell reads body h in
    (well.1, well.0, length-ReadsWell (length body) (download reads body).0 h well.0)

-- The bytes of the reads up to the end, where none fails.
abbrev pub received : List (Option (List ℕ)) → Option (List ℕ)
received [] = some []
received (none ∷ reads) = none
received (some [] ∷ reads) = some []
received (some (b ∷ bs) ∷ reads) = do rest ← received reads; some ((b ∷ bs) ++ rest)

-- The bytes that are there, and those that are received.
abbrev pub joined : List ℕ → List (Option (List ℕ)) → Option (List ℕ)
joined body reads = do rest ← received reads; some (body ++ rest)

joined-cons :
    (b : ℕ) (bs : List ℕ) (reads : List (Option (List ℕ))) (body : List ℕ)
    → joined (body ++ b ∷ bs) reads ≡ joined body (some (b ∷ bs) ∷ reads)
joined-cons b bs reads body = elim (Option-cases (received reads)) [
  | inl e ↦ rw e refl
  | inr (rest, e) ↦ rw e (ap some (append_assoc body (b ∷ bs) rest))
]

joined-le :
    (acc body : List ℕ) (reads : List (Option (List ℕ)))
    → joined acc reads ≡ some body
    → length acc ≤ length body
joined-le acc body reads e = elim (Option-cases (received reads)) [
  | inl n ↦ let e' = rw n at e in absurd (cc (e'))
  | inr (rest, r) ↦
      let e' : some (acc ++ rest) ≡ some body = rw r at e in
      let same : acc ++ rest ≡ body = cc (e') in
      omega (arith, length-append acc rest, ap (length {A = ℕ}) same)
]

pub download_sound :
    (reads : List (Option (List ℕ))) (acc body : List ℕ)
    → length acc ≤ max_installer_bytes
    → (download reads acc).1 ≡ ok body
    → (joined acc reads ≡ some body) × (length body ≤ max_installer_bytes)
download_sound [] acc body h e =
    unfold download in
    (
      rw (append-nil acc) (cc (e)),
      subst (λ (xs : List ℕ). length xs ≤ max_installer_bytes) (cc (e)) h,
    )
download_sound (none ∷ reads) acc body h e = unfold download in absurd (cc (e))
download_sound (some [] ∷ reads) acc body h e =
    unfold download in
    (
      rw (append-nil acc) (cc (e)),
      subst (λ (xs : List ℕ). length xs ≤ max_installer_bytes) (cc (e)) h,
    )
download_sound (some (b ∷ bs) ∷ reads) acc body h e =
    elim (Bool-cases (ltb max_installer_bytes (length (acc ++ b ∷ bs)))) [
      | inl over ↦
          let stopped = ap (λ (m : Installing (List ℕ)). m.1) (download-over b bs reads acc over) in
          absurd (cc (e, stopped))
      | inr within ↦
          let fits : length (acc ++ b ∷ bs) ≤ max_installer_bytes = ground arith in
          let same =
            ap (λ (m : Installing (List ℕ)). m.1) (download-within b bs reads acc within) in
          let rest = download_sound reads (acc ++ b ∷ bs) body fits (sym same ∙ e) in
          (sym (joined-cons b bs reads acc) ∙ rest.0, rest.1)
    ]

pub download_complete :
    (reads : List (Option (List ℕ))) (acc body : List ℕ)
    → joined acc reads ≡ some body
    → length body ≤ max_installer_bytes
    → (download reads acc).1 ≡ ok body
download_complete [] acc body e h = unfold download in cc (e, append-nil acc)
download_complete (none ∷ reads) acc body e h = absurd (cc (e))
download_complete (some [] ∷ reads) acc body e h = unfold download in cc (e, append-nil acc)
download_complete (some (b ∷ bs) ∷ reads) acc body e h =
    let whole = joined-cons b bs reads acc ∙ e in
    elim (Bool-cases (ltb max_installer_bytes (length (acc ++ b ∷ bs)))) [
      | inl over ↦
          let le = joined-le (acc ++ b ∷ bs) body reads whole in
          let big = ltb→lt _ _ over in absurd (omega arith)
      | inr within ↦
          let same =
            ap (λ (m : Installing (List ℕ)). m.1) (download-within b bs reads acc within) in
          same ∙ download_complete reads (acc ++ b ∷ bs) body whole h
    ]
