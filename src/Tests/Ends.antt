-- ===== src/Tests/Ends.antt =====
-- The life of a server that answers one request.
use g_server.Common.{[], ◌∷◌, refl, true, ◌≡◌, number_key, length, false}
use g_server.Process.Life.{Life, Steps, start, here, next, arrive, waiting, exited, on_database}
use g_server.Process.Life.Ends.{signal_cuts_off}

abbrev asked : Life
asked = record {
  open_requests = on_database ∷ [];
  listening = true;
  signalled = false;
  progress = waiting;
}

asked_lem : Steps start asked
asked_lem = next here (arrive refl refl)

signal_cuts_off_example :
    (t : Life) × Steps start t × (t.progress ≡ exited 0) × (length t.open_requests ≡ 1)
signal_cuts_off_example = signal_cuts_off asked asked_lem refl
