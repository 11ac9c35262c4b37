-- ===== src/Process/Life/Ends.antt =====
-- Backend/main.go: the end of the server's life that a signal brings.
use g_server.Common.{
  append_assoc, suc, true, false, none, List, [], ◌∷◌, ◌++◌, ◌≡◌, refl, sym, ap, subst, length,
  number_key,
}
use g_server.Process.Life.{
  Life, Stage, on_database, off_database, waiting, returned, exited, give_back, signal, shutdown,
  close, exit, Steps, next, start, is_busy, is_alive,
}

-- The end that a signal brings.
abbrev all_given_back : List Stage → List Stage
all_given_back [] = []
all_given_back (stage ∷ rest) = off_database ∷ all_given_back rest

all_given_back-is_busy : (stages : List Stage) → is_busy (all_given_back stages) ≡ false
all_given_back-is_busy [] = refl
all_given_back-is_busy (stage ∷ rest) = all_given_back-is_busy rest

all_given_back-length : (stages : List Stage) → length (all_given_back stages) ≡ length stages
all_given_back-length [] = refl
all_given_back-length (stage ∷ rest) = ap suc (all_given_back-length rest)

-- Each connection is given back; `before` are the requests that are treated already.
Steps-give_back :
    {r : Life} (s : Life) (before after : List Stage)
    → is_alive s.progress ≡ true
    → Steps r (record s { open_requests = before ++ after })
    → Steps r (record s { open_requests = before ++ all_given_back after })
Steps-give_back s before [] a steps = steps
Steps-give_back {r} s before (stage ∷ after) a steps =
    subst (λ l. Steps r (record s { open_requests = l }))
      (append_assoc before (off_database ∷ []) (all_given_back after))
      (Steps-give_back s (before ++ off_database ∷ []) after a (
        subst (λ l. Steps r (record s { open_requests = l }))
          (sym (append_assoc before (off_database ∷ []) after)) (answered stage steps)))
  where
    answered :
        (stage : Stage)
        → Steps r (record s { open_requests = before ++ stage ∷ after })
        → Steps r (record s { open_requests = before ++ off_database ∷ after })
    answered on_database steps = next steps (give_back before after a refl refl)
    answered off_database steps = steps

-- From every moment at which the server waits for its listener, a signal can make the process exit
-- with status 0 while every request that was open is still without its answer.
pub signal_cuts_off :
    (s : Life)
    → Steps start s
    → s.progress ≡ waiting
    → (t : Life) × Steps start t
      × (t.progress ≡ exited 0)
      × (length t.open_requests ≡ length s.open_requests)
signal_cuts_off s steps e =
    let signalled = next steps (signal (rw e refl) refl) in
    let shut = next signalled (shutdown (rw e refl) refl refl) in
    let closed_life = next shut (close e refl refl refl) in
    let free =
      Steps-give_back (record s { listening = false; signalled = true; progress = returned none })
        [] s.open_requests refl closed_life in
    (
      record s {
        open_requests = all_given_back s.open_requests;
        listening = false;
        signalled = true;
        progress = exited 0;
      },
      next free (exit none refl (all_given_back-is_busy s.open_requests) refl),
      refl,
      all_given_back-length s.open_requests,
    )
