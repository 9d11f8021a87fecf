-- ===== src/Mysql/Sessions/Alone.antt =====
-- mysql/main.go: the server while it has accepted one connection at most.
use mongosql.Mysql.Handler.{new_handler, init_db, handle_stmt_execute}
use mongosql.Prelude.{sym, suc, ◌≡◌, ◌∷◌, zero, arith, [], List, ℕ}
use mongosql.Bytes.{Bytes}
use mongosql.Mysql.Meta.{Driver, Handler, Server}
use mongosql.Mysql.Sessions.{
  Command, com_query, com_stmt_execute, com_init_db, handle_command, serve_at, close_at, Reaches,
  listens, accepts, serves, closes,
}
use mongosql.Mysql.Handler.Frame.{Agrees, handle_query-Agrees}

module _ (sv : Server) where
  -- At most one connection is open, and its current database is the one that the driver works in.
  unfoldable pub AgreesAlone : List Handler → Driver sv → Type 0
  AgreesAlone [] d = Unit
  AgreesAlone (h ∷ []) d = h.current_db ≡ d.db
  AgreesAlone (h ∷ k ∷ hs) d = ⊥

  handle_command-Agrees :
      (c : Command) (h : Handler) (d : Driver sv)
      → Agrees sv h d
      → Agrees sv (handle_command sv c h d).0 (handle_command sv c h d).1
  unfolding handle_command handle_stmt_execute init_db Agrees
  handle_command-Agrees (com_query q) h d a = handle_query-Agrees sv q h d a
  handle_command-Agrees (com_stmt_execute q) h d a = handle_query-Agrees sv q h d a
  handle_command-Agrees (com_init_db name) h d a = ground (arith, a)

  serve_at-AgreesAlone :
      (i : ℕ) (c : Command) (hs : List Handler) (d : Driver sv)
      → AgreesAlone hs d
      → AgreesAlone (serve_at sv i c hs d).0 (serve_at sv i c hs d).1
  unfolding serve_at AgreesAlone Agrees
  serve_at-AgreesAlone i c [] d a = tt
  serve_at-AgreesAlone zero c (h ∷ []) d a = handle_command-Agrees c h d a
  serve_at-AgreesAlone (suc i) c (h ∷ []) d a = a
  serve_at-AgreesAlone i c (h ∷ k ∷ hs) d a = absurd a

  close_at-AgreesAlone :
      (i : ℕ) (hs : List Handler) (d : Driver sv)
      → AgreesAlone hs d
      → AgreesAlone (close_at sv i hs) d
  unfolding close_at AgreesAlone
  close_at-AgreesAlone i [] d a = a
  close_at-AgreesAlone zero (h ∷ []) d a = tt
  close_at-AgreesAlone (suc i) (h ∷ []) d a = a
  close_at-AgreesAlone i (h ∷ k ∷ hs) d a = absurd a

  -- No connection is open, and the driver works in the database of the URI.
  IsFresh : Bytes → List Handler → Driver sv → Type 0
  IsFresh default [] d = d.db ≡ default
  IsFresh default (h ∷ hs) d = ⊥

  -- What holds after n connections were accepted.
  Holds : Bytes → ℕ → List Handler → Driver sv → Type 0
  Holds default zero hs d = IsFresh default hs d
  Holds default (suc zero) hs d = AgreesAlone hs d
  Holds default (suc (suc n)) hs d = Unit

  accepts-Holds :
      (default : Bytes) (n : ℕ) (hs : List Handler) (d : Driver sv)
      → Holds default n hs d
      → Holds default (suc n) (new_handler default ∷ hs) d
  unfolding Holds IsFresh AgreesAlone new_handler
  accepts-Holds default zero [] d h = sym h
  accepts-Holds default zero (k ∷ hs) d h = absurd h
  accepts-Holds default (suc n) hs d h = tt

  serves-Holds :
      (default : Bytes) (n i : ℕ) (c : Command) (hs : List Handler) (d : Driver sv)
      → Holds default n hs d
      → Holds default n (serve_at sv i c hs d).0 (serve_at sv i c hs d).1
  unfolding Holds IsFresh serve_at
  serves-Holds default zero i c [] d h = h
  serves-Holds default zero i c (k ∷ hs) d h = absurd h
  serves-Holds default (suc zero) i c hs d h = serve_at-AgreesAlone i c hs d h
  serves-Holds default (suc (suc n)) i c hs d h = tt

  closes-Holds :
      (default : Bytes) (n i : ℕ) (hs : List Handler) (d : Driver sv)
      → Holds default n hs d
      → Holds default n (close_at sv i hs) d
  unfolding Holds IsFresh close_at
  closes-Holds default zero i [] d h = h
  closes-Holds default zero i (k ∷ hs) d h = absurd h
  closes-Holds default (suc zero) i hs d h = close_at-AgreesAlone i hs d h
  closes-Holds default (suc (suc n)) i hs d h = tt

  Reaches-Holds :
      {default : Bytes} {n : ℕ} {hs : List Handler} {d : Driver sv}
      → Reaches sv default n hs d
      → Holds default n hs d
  unfolding Holds IsFresh
  Reaches-Holds (listens d e) = e
  Reaches-Holds (accepts r) = accepts-Holds _ _ _ _ (Reaches-Holds r)
  Reaches-Holds (serves i c r) = serves-Holds _ _ i c _ _ (Reaches-Holds r)
  Reaches-Holds (closes i r) = closes-Holds _ _ i _ _ (Reaches-Holds r)

  -- As long as the server has accepted one connection only, whatever commands it served: the
  -- current database of the connection, where it is still open, is the one that the driver works
  -- in.
  pub Reaches-AgreesAlone :
      {default : Bytes} {hs : List Handler} {d : Driver sv}
      → Reaches sv default 1 hs d
      → AgreesAlone hs d
  unfolding Holds
  Reaches-AgreesAlone r = Reaches-Holds r
