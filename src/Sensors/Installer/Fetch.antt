-- ===== src/Sensors/Installer/Fetch.antt =====
-- What is fetched: the request, the bytes of the reads and their shape.
use mathlib.Core.Path.{subst}
use loadbear.Prelude.{
  ℕ, ◌≤◌, ◌≡◌, refl, sym, ap, ◌∙◌, inl, inr, Bool, true, false, not, ◌||◌, ◌&&◌, Option, some, List,
  [], arith, ltb, Bool-cases, Option-cases, length, ◌↔◌,
}
use loadbear.Prelude.Calls.{Result, ok, err}
use loadbear.Prelude.Calls
use loadbear.Sensors.Installer.{
  Handle, session, connection, request, set_timeouts, Network, max_installer_bytes,
  min_installer_bytes, starts_with_mz, is_200, with_handle, download, requested, checked, exchange,
  fetch, Installing,
}
use loadbear.Sensors.Installer.Download.{
  stops, goes_on, joined, received, download_sound, download_complete,
}

requested_iff :
    (n : Network)
    → ((requested n).1 ≡ ok tt)
      ↔ ((n.sends ≡ true) × (n.receives ≡ true) × (is_200 n.status ≡ true))
unfolding requested
requested_iff n = ((λ h. ground arith), (λ h. ground arith))

checked_iff :
    (body body' : List ℕ)
    → ((checked body').1 ≡ ok body)
      ↔ ((body' ≡ body) × (min_installer_bytes ≤ length body) × (starts_with_mz body ≡ true))
unfolding checked
checked_iff body body' =
    let test = ltb (length body') min_installer_bytes || not (starts_with_mz body') in
    let result = λ (m : Installing (List ℕ)). m.1 in
    (
      (λ h. elim (Bool-cases test) [
        | inl t ↦ absurd (cc (h, ap result (stops test (Calls.pure body') t)))
        | inr t ↦
            let same : body' ≡ body = cc (h, ap result (goes_on test (Calls.pure body') t)) in
            (same, ground arith, ground arith)
      ]),
      (λ h.
          let t : test ≡ false = ground arith in
          ap result (goes_on test (Calls.pure body') t) ∙ ap ok h.0),
    )

with_handle_iff :
    {A : Type 0} (n : Network) (h : Handle) (scope : Installing A) (a : A)
    → ((with_handle n h scope).1 ≡ ok a) ↔ ((n.opens h ≡ true) × (scope.1 ≡ ok a))
with_handle_iff n h scope a = ((λ e. ground arith), (λ e. ground arith))

joined_nil : (reads : List (Option (List ℕ))) → joined [] reads ≡ received reads
joined_nil reads = elim (Option-cases (received reads)) [
  | inl e ↦ rw e refl
  | inr (rest, e) ↦ rw e refl
]

abbrev pub is_connected : Network → Bool
is_connected n =
    n.opens session
    && n.opens connection
    && n.opens request
    && n.sends
    && n.receives
    && is_200 n.status

-- A file is fetched exactly where every step of the request succeeds with status 200, no read fails before
-- the end, and the bytes received are from 1 to 32 MiB and begin with MZ; these bytes are the file.
pub fetch_iff :
    (n : Network) (body : List ℕ)
    → ((fetch n).1 ≡ ok body) ↔ (
        (is_connected n ≡ true)
        × (received n.reads ≡ some body)
        × (min_installer_bytes ≤ length body)
        × (length body ≤ max_installer_bytes)
        × (starts_with_mz body ≡ true))
unfolding fetch exchange
fetch_iff n body =
    let inner = with_handle n request (exchange n) in
    let outer = with_handle n connection inner in
    let timed = Calls.◌>>◌ (Calls.call (set_timeouts session)) outer in
    (
      (λ h.
          let s = (with_handle_iff n session timed body).0 h in
          let c = (with_handle_iff n connection inner body).0 s.1 in
          let r = (with_handle_iff n request (exchange n) body).0 c.1 in
          let (u, asked, rest) = Calls.bind-ok (requested n) _ body r.1 in
          let answered = (requested_iff n).0 asked in
          let (raw, loaded, shape) = Calls.bind-ok (download n.reads []) checked body rest in
          let fits = (checked_iff body raw).0 shape in
          let got = download_sound n.reads [] raw (omega arith) loaded in
          (
            rw (s.0, c.0, r.0, answered.0, answered.1, answered.2) refl,
            sym (joined_nil n.reads) ∙ got.0 ∙ ap some fits.0,
            fits.1,
            subst (λ (xs : List ℕ). length xs ≤ max_installer_bytes) fits.0 got.1,
            fits.2,
          )),
      (λ h.
          let opens1 : n.opens session ≡ true = ground arith in
          let opens2 : n.opens connection ≡ true = ground arith in
          let opens3 : n.opens request ≡ true = ground arith in
          let asked = (requested_iff n).1 (ground arith, ground arith, ground arith) in
          let loaded = download_complete n.reads [] body (joined_nil n.reads ∙ h.1) h.3 in
          let shape = (checked_iff body body).1 (refl, h.2, h.4) in
          let rest = Calls.bind_of_ok (download n.reads []) checked body body loaded shape in
          let whole = Calls.bind_of_ok (requested n) _ tt body asked rest in
          let r = (with_handle_iff n request (exchange n) body).1 (opens3, whole) in
          let c = (with_handle_iff n connection inner body).1 (opens2, r) in
          (with_handle_iff n session timed body).1 (opens1, c)),
    )
