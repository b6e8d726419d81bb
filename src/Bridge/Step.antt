-- ===== src/Bridge/Step.antt =====
-- The state of a bridge, and its steps: those of the two peers, of the two goroutines and of the
-- handler, in any order.
use goxic.Prelude.{◌≡◌, ◌≢◌, ◌⊎◌, Bool, true, false, ◌||◌, List, [], ◌∷◌, ◌++◌, Bytes}

-- The two connections, and what `io.Copy` and the handler come to: nil, or an error.
pub data Side : Type 0 where
  near far : Side

pub data Report : Type 0 where
  nil failed : Report

abbrev pub other : Side → Side
other near = far
other far = near

-- A value for each side, and the same with one side changed.
abbrev pub Both : Type 0 → Type 0
Both A = Side → A

abbrev pub set : {A : Type 0} → Both A → Side → A → Both A
set f near a near = a
set f near a far = f far
set f far a near = f near
set f far a far = a

-- One connection: all bytes that have come from its peer, those not read yet, whether the peer has
-- closed its side or has reset the connection; what was written to the peer, and whether this side
-- has called `CloseWrite` and `Close`.
pub record End : Type 0 where
  pub arrived : Bytes
  pub inbox : Bytes
  pub ended : Bool
  pub broken : Bool
  pub outbox : Bytes
  pub shut : Bool
  pub closed : Bool

-- A goroutine: in `io.Copy` before a read, before the write of what it read, before its report,
-- before its deferred `CloseWrite`, and at its end. It keeps the bytes that a failed write left.
pub data Copier : Type 0 where
  copying : Copier
  holding : Bytes → Copier
  copied : Report → Bytes → Copier
  reported : Report → Bytes → Copier
  stopped : Report → Bytes → Copier

-- The handler: at `<-done`, before the first and the second `Close`, and back.
pub data Handler : Type 0 where
  waiting : Handler
  closing : Report → Handler
  closing_second : Report → Handler
  returned : Report → Handler

-- The goroutine of a side copies from this side to the other. `done` holds reports in their order.
pub record State : Type 0 where
  pub ends : Both End
  pub copiers : Both Copier
  pub done : List Report
  pub handler : Handler

-- Which connection is closed first, and which ones have a `CloseWrite`: a stream has, and a net.Conn
-- that is a TCP connection.
pub record Bridge : Type 0 where
  pub closed_first : Side
  has_close_write : Both Bool

-- `bridgeTraffic`: near is the SOCKS5 client, far the stream.
abbrev pub socks5_bridge : Bool → Bridge
socks5_bridge is_tcp = record { closed_first = near; has_close_write = set (λ x. true) near is_tcp }

-- `bridgeExitTraffic`: near is the stream, far the target.
abbrev pub exit_bridge : Bool → Bridge
exit_bridge is_tcp = record { closed_first = far; has_close_write = set (λ x. true) far is_tcp }

-- `forwardToNextPeer`: near is the stream that came in, far the one that goes out.
abbrev forward_bridge : Bridge
forward_bridge = record { closed_first = far; has_close_write = λ x. true }

abbrev pub new_end : End
new_end = record {
  arrived = [];
  inbox = [];
  ended = false;
  broken = false;
  outbox = [];
  shut = false;
  closed = false;
}

-- Before the goroutines have done anything.
abbrev pub new_bridge : State
new_bridge = record { ends = λ x. new_end; copiers = λ x. copying; done = []; handler = waiting }

-- What holds of a side's end, where another is set.
pub set_keeps :
    (P : End → Type 0) (f : Both End) (x : Side) (e : End)
    → (P (f x) → P e)
    → (y : Side) → P (f y)
    → P (set f x e y)
set_keeps P f near e h near = h
set_keeps P f near e h far = λ p. p
set_keeps P f far e h near = λ p. p
set_keeps P f far e h far = h

abbrev pub with_end : State → Side → End → State
with_end s x e = record s { ends = set s.ends x e }

abbrev pub with_copier : State → Side → Copier → State
with_copier s x c = record s { copiers = set s.copiers x c }

-- What `Read` and `Write` do on a connection that is closed or reset.
abbrev pub CannotRead : End → Type 0
CannotRead e = (e.closed ≡ true) ⊎ (e.broken ≡ true)

abbrev pub CannotWrite : End → Type 0
CannotWrite e = (e.closed ≡ true) ⊎ ((e.broken ≡ true) ⊎ (e.shut ≡ true))

pub record CanRead (e : End) : Type 0 where
  pub open_end : e.closed ≡ false
  pub sound : e.broken ≡ false

pub record CanWrite (e : End) : Type 0 where
  pub open_end : e.closed ≡ false
  pub sound : e.broken ≡ false
  pub unshut : e.shut ≡ false

-- What a peer does: it sends bytes, closes its side, or resets the connection.
pub data Peer (s : State) : State → Type 0 where
  sends :
      (x : Side) (bytes : Bytes)
      → (s.ends x).ended ≡ false
      → Peer s (
          with_end s x (record (s.ends x) {
            arrived = (s.ends x).arrived ++ bytes;
            inbox = (s.ends x).inbox ++ bytes;
          }))
  hangs_up : (x : Side) → Peer s (with_end s x (record (s.ends x) { ended = true }))
  resets : (x : Side) → Peer s (with_end s x (record (s.ends x) { broken = true }))

-- What the program does. A read takes any number of the bytes that have come.
pub data Move (b : Bridge) (s : State) : State → Type 0 where
  reads :
      (x : Side) (chunk rest : Bytes)
      → s.copiers x ≡ copying
      → CanRead (s.ends x)
      → chunk ≢ []
      → (s.ends x).inbox ≡ chunk ++ rest
      → Move b s (record s {
        ends = set s.ends x (record (s.ends x) { inbox = rest });
        copiers = set s.copiers x (holding chunk);
      })
  reads_end :
      (x : Side)
      → s.copiers x ≡ copying
      → CanRead (s.ends x)
      → (s.ends x).inbox ≡ []
      → (s.ends x).ended ≡ true
      → Move b s (with_copier s x (copied nil []))
  read_fails :
      (x : Side)
      → s.copiers x ≡ copying
      → CannotRead (s.ends x)
      → Move b s (with_copier s x (copied failed []))
  writes :
      (x : Side) (chunk : Bytes)
      → s.copiers x ≡ holding chunk
      → CanWrite (s.ends (other x))
      → Move b s (record s {
        ends =
            set s.ends
              (other x)
              (record (s.ends (other x)) { outbox = (s.ends (other x)).outbox ++ chunk });
        copiers = set s.copiers x copying;
      })
  write_fails :
      (x : Side) (chunk : Bytes)
      → s.copiers x ≡ holding chunk
      → CannotWrite (s.ends (other x))
      → Move b s (with_copier s x (copied failed chunk))
  reports :
      (x : Side) (r : Report) (lost : Bytes)
      → s.copiers x ≡ copied r lost
      → Move b s
          (record s { copiers = set s.copiers x (reported r lost); done = s.done ++ (r ∷ []) })
  shuts :
      (x : Side) (r : Report) (lost : Bytes)
      → s.copiers x ≡ reported r lost
      → Move b s (record s {
        ends = set s.ends (other x) (record (s.ends (other x)) {
          shut = (s.ends (other x)).shut || b.has_close_write (other x);
        });
        copiers = set s.copiers x (stopped r lost);
      })
  receives :
      (r : Report) (rest : List Report)
      → s.handler ≡ waiting
      → s.done ≡ r ∷ rest
      → Move b s (record s { done = rest; handler = closing r })
  closes :
      (r : Report)
      → s.handler ≡ closing r
      → Move b s (record s {
        ends = set s.ends b.closed_first (record (s.ends b.closed_first) { closed = true });
        handler = closing_second r;
      })
  closes_second :
      (r : Report)
      → s.handler ≡ closing_second r
      → Move b s (record s {
        ends =
            set s.ends
              (other b.closed_first)
              (record (s.ends (other b.closed_first)) { closed = true });
        handler = returned r;
      })

pub data Reach (b : Bridge) (s : State) : State → Type 0 where
  here : Reach b s s
  peer : {t u : State} → Reach b s t → Peer t u → Reach b s u
  move : {t u : State} → Reach b s t → Move b t u → Reach b s u
