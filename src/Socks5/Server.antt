-- ===== src/Socks5/Server.antt =====
-- The listener of server/handlers/socks5.go: `Start`, `Stop` and the goroutine of
-- `acceptConnections`, with the calls of the three in any order between each other.
pub mod Started
pub mod Stopped
use goxic.Prelude.{ℕ, ◌≡◌, Bool, true, false, List, [], ◌∷◌, ◌++◌, Option, none, some, Bytes}
use goxic.Prelude.Int.{ℤ}
use goxic.Socks5.Listen.{listen_addr, split_host_port}

pub data Listener : Type 0 where
  absent : Listener
  listening : Listener
  closed : Listener

-- The goroutine: not started, at its `select`, in `Accept`, and returned.
pub data Loop : Type 0 where
  idle : Loop
  selecting : Loop
  accepting : Loop
  ended : Loop

-- The handler, with the connections handed to `handleConnection`, in their order. `cancelled` is none
-- before the context is made.
pub record Server (Conn : Type 0) : Type 0 where
  pub cancelled : Option Bool
  pub listener : Listener
  pub loop : Loop
  pub served : List Conn

-- `net.Listen`: whether the host and port that it reads can be bound.
abbrev pub listens : (Bytes → Bytes → Bool) → Option (Bytes × Bytes) → Bool
listens can_bind none = false
listens can_bind (some (host, port)) = can_bind host port

abbrev cancelled_if_made : Option Bool → Option Bool
cancelled_if_made none = none
cancelled_if_made (some c) = some true

abbrev close_listener : Listener → Listener
close_listener absent = absent
close_listener listening = closed
close_listener closed = closed

module _ {Conn : Type 0} where
  -- `NewSOCKS5HandlerWithCapabilities`.
  abbrev pub new_socks5_handler : Server Conn
  new_socks5_handler = record { cancelled = none; listener = absent; loop = idle; served = [] }

  abbrev pub after_listen : Server Conn → Bool → Server Conn × Bool
  after_listen s true = (record s { listener = listening; loop = selecting }, true)
  after_listen s false = (s, false)

  -- `Start`, with whether it succeeds; the context is made before the listener.
  unfoldable pub start : (Bytes → Bytes → Bool) → Bytes → ℤ → Server Conn → Server Conn × Bool
  start can_bind bind_address port s =
      after_listen (record s { cancelled = some false })
        (listens can_bind (split_host_port (listen_addr bind_address port)))

  -- What the goroutine does, and the two calls of `Stop`. `Accept` may fail at any time, and a closed
  -- listener gives no connection.
  pub data Move (s : Server Conn) : Server Conn → Type 0 where
    selects_done : s.loop ≡ selecting → s.cancelled ≡ some true → Move s (record s { loop = ended })
    selects_default :
        s.loop ≡ selecting → s.cancelled ≡ some false → Move s (record s { loop = accepting })
    accepts :
        (conn : Conn)
        → s.loop ≡ accepting
        → s.listener ≡ listening
        → Move s (record s { loop = selecting; served = s.served ++ (conn ∷ []) })
    gives_up : s.loop ≡ accepting → s.cancelled ≡ some true → Move s (record s { loop = ended })
    retries : s.loop ≡ accepting → s.cancelled ≡ some false → Move s (record s { loop = selecting })
    cancels : Move s (record s { cancelled = cancelled_if_made s.cancelled })
    closes : Move s (record s { listener = close_listener s.listener })

  pub data Reach (s : Server Conn) : Server Conn → Type 0 where
    here : Reach s s
    move : {t u : Server Conn} → Reach s t → Move t u → Reach s u
