-- ===== src/Mysql/Sessions.antt =====
-- mysql/main.go: the connections that the server accepts, which share one driver. The statements
-- of different connections are run one after the other, in any order.
pub mod Alone
use mongosql.Prelude.{
  ◌∷◌, arith, ◌≡◌, some, ◌<◌, suc, ◌≤◌, none, not, ◌||◌, ◌==◌, [], ◌&&◌, zero, refl, ◌++◌, true,
  false, ◌-◌, ◌+◌, if◌then◌else◌, List, ℕ,
}
use mongosql.Bytes.{Bytes}
use mongosql.Mysql.Meta.{Server, Handler, Driver}
use mongosql.Mysql.Handler.{new_handler, init_db, handle_query, handle_stmt_execute}

-- The commands of a client that reach the handler.
pub data Command : Type 0 where
  com_query com_stmt_execute com_init_db : Bytes → Command

module _ (sv : Server) where
  unfoldable pub handle_command : Command → Handler → Driver sv → Handler × Driver sv
  handle_command (com_query q) h d = let turn = handle_query sv q h d in (turn.handler, turn.driver)
  handle_command (com_stmt_execute q) h d =
      let turn = handle_stmt_execute sv q h d in (turn.handler, turn.driver)
  handle_command (com_init_db name) h d = init_db sv name h d

  -- The command of the connection at this place.
  unfoldable pub serve_at : ℕ → Command → List Handler → Driver sv → List Handler × Driver sv
  unfolding handle_command
  serve_at i c [] d = ([], d)
  serve_at zero c (h ∷ hs) d = let (h', d') = handle_command c h d in (h' ∷ hs, d')
  serve_at (suc i) c (h ∷ hs) d = let (hs', d') = serve_at i c hs d in (h ∷ hs', d')

  unfoldable pub close_at : ℕ → List Handler → List Handler
  close_at i [] = []
  close_at zero (h ∷ hs) = hs
  close_at (suc i) (h ∷ hs) = h ∷ close_at i hs

  -- The open connections and the driver, after so many connections were accepted. `default` is the
  -- database of the URI, which the driver starts in.
  pub data Reaches (default : Bytes) : ℕ → List Handler → Driver sv → Type 0 where
    listens : (d : Driver sv) → d.db ≡ default → Reaches default 0 [] d
    accepts :
        {n : ℕ} {hs : List Handler} {d : Driver sv}
        → Reaches default n hs d
        → Reaches default (suc n) (new_handler default ∷ hs) d
    serves :
        {n : ℕ} {hs : List Handler} {d : Driver sv} (i : ℕ) (c : Command)
        → Reaches default n hs d
        → Reaches default n (serve_at i c hs d).0 (serve_at i c hs d).1
    closes :
        {n : ℕ} {hs : List Handler} {d : Driver sv} (i : ℕ)
        → Reaches default n hs d
        → Reaches default n (close_at i hs) d
