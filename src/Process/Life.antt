-- ===== src/Process/Life.antt =====
-- Backend/main.go: the life of the server that run starts, from the listener to the exit of main.
-- Requests are answered while run waits for the listener; a signal makes a second goroutine call
-- Shutdown, which ends the wait at once.
pub mod Ends
use g_server.Common.{
  ℕ, Bool, true, false, ◌||◌, Option, none, some, List, [], ◌∷◌, ◌++◌, String, ◌≡◌,
}

-- What ListenAndServe returns: http.ErrServerClosed, or another error.
pub data ServeError : Type 0 where
  closed other : ServeError

abbrev pub after_serve : ServeError → Option String
after_serve closed = none
after_serve other = some "server failed"

abbrev pub exit_status : Option String → ℕ
exit_status none = 0
exit_status (some message) = 1

-- A request that is being served holds a connection of the pool, or none: between its calls of the
-- database, and while its answer is written.
pub data Stage : Type 0 where
  on_database off_database : Stage

-- run waits for the listener, has its result and runs its deferred calls, or main has exited.
pub data Progress : Type 0 where
  waiting : Progress
  returned : Option String → Progress
  exited : ℕ → Progress

pub record Life : Type 0 where
  pub open_requests : List Stage
  pub listening : Bool
  pub signalled : Bool
  pub progress : Progress

abbrev pub is_alive : Progress → Bool
is_alive (exited n) = false
is_alive _ = true

abbrev pub is_busy : List Stage → Bool
is_busy [] = false
is_busy (on_database ∷ rest) = true
is_busy (off_database ∷ rest) = is_busy rest

abbrev pub start : Life
start = record { open_requests = []; listening = true; signalled = false; progress = waiting }

-- A connection that is open can bring a request when the listener is closed already. `exit` is
-- main's end, after `p.Pool.Close()`, which waits for the connections of the pool.
pub data Step (s t : Life) : Type 0 where
  arrive :
      is_alive s.progress ≡ true
      → t ≡ record s { open_requests = on_database ∷ s.open_requests }
      → Step s t
  give_back :
      (before after : List Stage)
      → is_alive s.progress ≡ true
      → s.open_requests ≡ before ++ on_database ∷ after
      → t ≡ record s { open_requests = before ++ off_database ∷ after }
      → Step s t
  take_again :
      (before after : List Stage)
      → is_alive s.progress ≡ true
      → s.open_requests ≡ before ++ off_database ∷ after
      → t ≡ record s { open_requests = before ++ on_database ∷ after }
      → Step s t
  respond :
      (before after : List Stage)
      → is_alive s.progress ≡ true
      → s.open_requests ≡ before ++ off_database ∷ after
      → t ≡ record s { open_requests = before ++ after }
      → Step s t
  signal : is_alive s.progress ≡ true → t ≡ record s { signalled = true } → Step s t
  shutdown :
      is_alive s.progress ≡ true
      → s.signalled ≡ true
      → t ≡ record s { listening = false }
      → Step s t
  close :
      s.progress ≡ waiting
      → s.signalled ≡ true
      → s.listening ≡ false
      → t ≡ record s { progress = returned (after_serve closed) }
      → Step s t
  break :
      s.progress ≡ waiting
      → s.listening ≡ true
      → t ≡ record s { listening = false; progress = returned (after_serve other) }
      → Step s t
  exit :
      (message : Option String)
      → s.progress ≡ returned message
      → is_busy s.open_requests ≡ false
      → t ≡ record s { progress = exited (exit_status message) }
      → Step s t

pub data Steps (s : Life) : Life → Type 0 where
  here : Steps s s
  next : {t u : Life} → Steps s t → Step t u → Steps s u
