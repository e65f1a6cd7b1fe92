-- ===== src/Sensors/Installer/Handles.antt =====
-- The handles of the network: which are open after which calls.
use loadbear.Prelude.{
  ℕ, ◌≡◌, refl, inl, inr, Bool, true, false, not, Option, none, some, List, [], ◌∷◌, ◌++◌, ◌>>=◌,
  Bool-cases, Option-cases, arith, ltb, length, if◌then◌else◌,
}
use loadbear.Prelude.Calls.{Result, ok, err}
use loadbear.Prelude.Calls
use loadbear.Sensors.Installer.{
  Handle, session, connection, request, Call, open_handle, close_handle, set_timeouts, send,
  receive, InstallError, max_installer_bytes, query_status, read, write, verify, close_state,
  launch, wait, close_process, remove, Network, Installing, with_handle, download, requested,
  checked, not_an_installer, exchange, fetch,
}

abbrev same_handle : Handle → Handle → Bool
same_handle session session = true
same_handle connection connection = true
same_handle request request = true
same_handle _ _ = false

-- The handle that was opened last is this one.
abbrev is_top : Handle → List Handle → Bool
is_top h [] = false
is_top h (g ∷ held) = same_handle h g

-- The open handles after a call, where the call is allowed: a handle is used only while it is the last
-- one opened, and closed only then.
abbrev pub after_call : Call → List Handle → Option (List Handle)
after_call (open_handle h true) held = some (h ∷ held)
after_call (open_handle h false) held = some held
after_call (close_handle h) [] = none
after_call (close_handle h) (g ∷ held) = if same_handle h g then some held else none
after_call (set_timeouts h) held = if is_top h held then some held else none
after_call (send h a) held = if is_top h held then some held else none
after_call (receive h a) held = if is_top h held then some held else none
after_call (query_status h a) held = if is_top h held then some held else none
after_call (read h a) held = if is_top h held then some held else none
after_call (write p b a) held = some held
after_call (verify p a) held = some held
after_call (close_state p) held = some held
after_call (launch p a b) held = some held
after_call wait held = some held
after_call close_process held = some held
after_call (remove p) held = some held

pub after_calls : List Call → List Handle → Option (List Handle)
after_calls [] held = some held
after_calls (c ∷ calls) held = do held' ← after_call c held; after_calls calls held'

-- The calls leave the open handles as they were.
abbrev IsNeutral : List Call → List Handle → Type 0
IsNeutral calls held = after_calls calls held ≡ some held

after_calls-append :
    (cs ds : List Call) (held : List Handle)
    → after_calls (cs ++ ds) held ≡ (do held' ← after_calls cs held; after_calls ds held')
unfolding after_calls
after_calls-append [] ds held = refl
after_calls-append (c ∷ cs) ds held = elim (Option-cases (after_call c held)) [
  | inl e ↦ rw e refl
  | inr (held', e) ↦ rw e (after_calls-append cs ds held')
]

append-IsNeutral :
    (cs ds : List Call) (held : List Handle)
    → IsNeutral cs held
    → IsNeutral ds held
    → IsNeutral (cs ++ ds) held
append-IsNeutral cs ds held h k = rw (after_calls-append cs ds held, h) k

bind-IsNeutral :
    {A B : Type 0} (held : List Handle) (m : Installing A) (f : A → Installing B)
    → IsNeutral m.0 held
    → ((a : A) → IsNeutral (f a).0 held)
    → IsNeutral (Calls.◌>>=◌ m f).0 held
bind-IsNeutral held (calls, ok a) f h k = append-IsNeutral calls (f a).0 held h (k a)
bind-IsNeutral held (calls, err e) f h k = h

guard-IsNeutral :
    {B : Type 0} (b : Bool) (e : InstallError) (k : Installing B) (held : List Handle)
    → IsNeutral k.0 held
    → IsNeutral (Calls.◌>>◌ (Calls.guard b e) k).0 held
unfolding after_calls
guard-IsNeutral true e k held h = h
guard-IsNeutral false e k held h = refl

with_handle-IsNeutral :
    {A : Type 0} (n : Network) (h : Handle) (scope : Installing A) (held : List Handle)
    → IsNeutral scope.0 (h ∷ held)
    → IsNeutral (with_handle n h scope).0 held
unfolding after_calls
with_handle-IsNeutral n h scope held k = elim (Bool-cases (n.opens h)) [
  | inl e ↦ rw (e, after_calls-append scope.0 (close_handle h ∷ []) (h ∷ held), k) (closes h)
  | inr e ↦ rw e refl
]
  where
    closes :
        (h : Handle)
        → (do held' ← if same_handle h h then some held else none; some held') ≡ some held
    closes session = refl
    closes connection = refl
    closes request = refl

download-IsNeutral :
    (reads : List (Option (List ℕ))) (body : List ℕ) (held : List Handle)
    → IsNeutral (download reads body).0 (request ∷ held)
unfolding download after_calls
download-IsNeutral [] body held = refl
download-IsNeutral (none ∷ reads) body held = refl
download-IsNeutral (some [] ∷ reads) body held = refl
download-IsNeutral (some (b ∷ bs) ∷ reads) body held =
    guard-IsNeutral (not (ltb max_installer_bytes (length (body ++ b ∷ bs)))) not_an_installer
      (download reads (body ++ b ∷ bs)) (request ∷ held)
      (download-IsNeutral reads (body ++ b ∷ bs) held)

requested-IsNeutral :
    (n : Network) (held : List Handle) → IsNeutral (requested n).0 (request ∷ held)
unfolding requested after_calls
requested-IsNeutral n held = ground arith

checked-IsNeutral : (body : List ℕ) (held : List Handle) → IsNeutral (checked body).0 held
unfolding checked after_calls
checked-IsNeutral body held = guard-IsNeutral _ not_an_installer (Calls.pure body) held refl

exchange-IsNeutral : (n : Network) (held : List Handle) → IsNeutral (exchange n).0 (request ∷ held)
unfolding exchange
exchange-IsNeutral n held =
    bind-IsNeutral (request ∷ held) (requested n) _ (requested-IsNeutral n held) (λ u.
      bind-IsNeutral (request ∷ held) (download n.reads []) checked
        (download-IsNeutral n.reads [] held) (λ body. checked-IsNeutral body (request ∷ held)))

-- Whatever the network answers, each handle that was opened is closed once, the last one opened first, and
-- none is used or closed while it is not the last one opened.
pub fetch-IsNeutral : (n : Network) → after_calls (fetch n).0 [] ≡ some []
unfolding fetch after_calls
fetch-IsNeutral n =
    let inner = with_handle n request (exchange n) in
    let outer = with_handle n connection inner in
    with_handle-IsNeutral n session (Calls.◌>>◌ (Calls.call (set_timeouts session)) outer) [] (
      with_handle-IsNeutral n connection inner (session ∷ []) (
        with_handle-IsNeutral n request (exchange n) (connection ∷ session ∷ [])
          (exchange-IsNeutral n (connection ∷ session ∷ []))))
