-- ===== src/Sensors/Installer/Examples.antt =====
-- A server, a signature and a consent.
use loadbear.Prelude.{
  ℕ, Option, zero, suc, ◌+◌, ◌≤◌, ◌≡◌, refl, true, false, some, List, [], ◌∷◌, arith, length, ◌↔◌,
}
use loadbear.Prelude.Calls.{ok, err}
use loadbear.Sensors.Installer.{
  session, connection, request, exited, open_handle, close_handle, set_timeouts, send, receive,
  Network, Machine, download_failed, max_installer_bytes, min_installer_bytes, starts_with_mz,
  download, requested, exchange, fetch, install,
}
use loadbear.Sensors.Installer.Handles.{after_calls, fetch-IsNeutral}
use loadbear.Sensors.Installer.Download.{AreReadsOf, ReadsWell, received, download_reads}
use loadbear.Sensors.Installer.Fetch.{is_connected, fetch_iff}
use loadbear.Sensors.Installer.Trust.{AreTrusted, install-AreTrusted}

-- So many bytes of nothing.
padding : ℕ → List ℕ
padding zero = []
padding (suc n) = 0 ∷ padding n

abbrev setup_program : List ℕ
setup_program = b'M' ∷ b'Z' ∷ padding 2000000

abbrev server : Network
server = record {
  opens = λ h. true;
  sends = true;
  receives = true;
  status = some 200;
  reads = some setup_program ∷ some [] ∷ [];
}

-- A server that does not answer.
abbrev silent : Network
silent = record server { receives = false }

abbrev machine : Machine
machine = record {
  network = server;
  temp_path = "C:\\Temp\\LoadBear-PawnIO_setup.exe";
  writes = true;
  trust = 0;
  launches = exited 0;
}

fetch-silent : fetch silent ≡ (
  open_handle session true
      ∷ set_timeouts session
      ∷ open_handle connection true
      ∷ open_handle request true
      ∷ send request true
      ∷ receive request false
      ∷ close_handle request
      ∷ close_handle connection
      ∷ close_handle session
      ∷ [],
  err download_failed,
)
unfolding fetch exchange requested
fetch-silent = refl

fetch-IsNeutral_example : after_calls (fetch silent).0 [] ≡ some []
fetch-IsNeutral_example = fetch-IsNeutral silent

fetch_iff_example : ((fetch server).1 ≡ ok setup_program) ↔ (
    (is_connected server ≡ true)
    × (received server.reads ≡ some setup_program)
    × (min_installer_bytes ≤ length setup_program)
    × (length setup_program ≤ max_installer_bytes)
    × (starts_with_mz setup_program ≡ true))
fetch_iff_example = fetch_iff server setup_program

abbrev two_reads : List (Option (List ℕ))
two_reads = some (77 ∷ 90 ∷ []) ∷ some [] ∷ some (1 ∷ []) ∷ []

download_reads_example :
    AreReadsOf two_reads (download two_reads []).0
    × ReadsWell 0 (download two_reads []).0
    × (length (download two_reads []).0 + 0 ≤ max_installer_bytes + 1)
download_reads_example = download_reads two_reads [] (omega arith)

install-AreTrusted_example : AreTrusted (install machine).0
install-AreTrusted_example = install-AreTrusted machine
