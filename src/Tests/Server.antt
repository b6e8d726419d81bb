-- ===== src/Tests/Server.antt =====
-- The listener of the proxy at concrete inputs.
use goxic.Prelude.{
  ℕ, ◌≡◌, ◌↔◌, ◌⊎◌, refl, Bool, true, false, [], ◌∷◌, ◌++◌, some, Bytes, codes, has_byte,
}
use goxic.Prelude.Int.{pos}
use goxic.Socks5.Server.{
  Server, listening, closed, accepting, selecting, new_socks5_handler, start, accepts, closes,
  Reach, here, move,
}
use goxic.Socks5.Server.Started.{start_iff}
use goxic.Socks5.Server.Stopped.{Reach-served}

abbrev loopback : Bytes
loopback = codes "::1"

start_iff_example :
    ((start (λ host port. true) loopback (pos 1080) (new_socks5_handler {Conn = ℕ})).1 ≡ true)
    ↔ ((has_byte b':' loopback ≡ false) × (◌≡◌ {A = Bool} true true))
start_iff_example =
    start_iff (λ host port. true) loopback 1080 new_socks5_handler
      ((λ e. cc e), ((λ e. cc e), ((λ e. cc e), tt)))
      ((λ e. cc e), ((λ e. cc e), ((λ e. cc e), tt)))

-- The proxy waits in `Accept` when `Stop` cancels the context, and a connection comes before the close.
abbrev stopping : Server ℕ
stopping = record { cancelled = some true; listener = listening; loop = accepting; served = 4 ∷ [] }

abbrev one_more : Server ℕ
one_more = record stopping { loop = selecting; served = 4 ∷ 5 ∷ []; listener = closed }

late : Reach stopping one_more
late = move (move here (accepts 5 refl refl)) closes

Reach-served_example :
    ((one_more.served ≡ stopping.served)
      ⊎ ((conn : ℕ) × (one_more.served ≡ stopping.served ++ (conn ∷ []))))
    × (stopping.listener ≡ closed → one_more.served ≡ stopping.served)
Reach-served_example = Reach-served stopping refl late
