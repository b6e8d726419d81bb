-- ===== src/Socks5/Server/Stopped.antt =====
-- What the proxy serves once `Stop` has been called.
use goxic.Prelude.{◌≡◌, ◌≢◌, ◌⊎◌, inl, inr, refl, ap, true, [], ◌∷◌, ◌++◌, some}
use goxic.Socks5.Server.{
  closed, accepting, Server, Move, selects_done, selects_default, accepts, gives_up, retries,
  cancels, closes, Reach, here, move,
}

module _ {Conn : Type 0} where
  -- Since `s`, whose context is cancelled: either nothing was served, or one connection was, and
  -- the goroutine does not go back to `Accept`.
  data Tail (s t : Server Conn) : Type 0 where
    none_since : t.served ≡ s.served → Tail s t
    one_since : (conn : Conn) → t.served ≡ s.served ++ (conn ∷ []) → t.loop ≢ accepting → Tail s t

  abbrev IsStopping : Server Conn → Server Conn → Type 0
  IsStopping s t = (t.cancelled ≡ some true) × Tail s t

  Move-IsStopping :
      (s : Server Conn) {t u : Server Conn} → Move t u → IsStopping s t → IsStopping s u
  Move-IsStopping s (selects_done l c) (d, none_since e) = (d, none_since e)
  Move-IsStopping s (selects_done l c) (d, one_since conn e a) = (d, one_since conn e (λ h. cc h))
  Move-IsStopping s (selects_default l c) (d, x) = cc (c, d)
  Move-IsStopping s (accepts conn l o) (d, none_since e) =
      (d, one_since conn (ap (λ r. r ++ (conn ∷ [])) e) (λ h. cc h))
  Move-IsStopping s (accepts conn l o) (d, one_since old e a) = absurd (a l)
  Move-IsStopping s (gives_up l c) (d, none_since e) = (d, none_since e)
  Move-IsStopping s (gives_up l c) (d, one_since conn e a) = (d, one_since conn e (λ h. cc h))
  Move-IsStopping s (retries l c) (d, x) = cc (c, d)
  Move-IsStopping s cancels (d, none_since e) = (rw d refl, none_since e)
  Move-IsStopping s cancels (d, one_since conn e a) = (rw d refl, one_since conn e a)
  Move-IsStopping s closes (d, none_since e) = (d, none_since e)
  Move-IsStopping s closes (d, one_since conn e a) = (d, one_since conn e a)

  Reach-IsStopping :
      (s : Server Conn) {t : Server Conn} → s.cancelled ≡ some true → Reach s t → IsStopping s t
  Reach-IsStopping s c here = (c, none_since refl)
  Reach-IsStopping s c (move r m) = Move-IsStopping s m (Reach-IsStopping s c r)

  abbrev IsClosed : Server Conn → Server Conn → Type 0
  IsClosed s t = (t.listener ≡ closed) × (t.served ≡ s.served)

  Move-IsClosed : (s : Server Conn) {t u : Server Conn} → Move t u → IsClosed s t → IsClosed s u
  Move-IsClosed s (selects_done l c) k = k
  Move-IsClosed s (selects_default l c) k = k
  Move-IsClosed s (accepts conn l o) k = cc (o, k.0)
  Move-IsClosed s (gives_up l c) k = k
  Move-IsClosed s (retries l c) k = k
  Move-IsClosed s cancels k = k
  Move-IsClosed s closes (c, e) = (rw c refl, e)

  Reach-IsClosed :
      (s : Server Conn) {t : Server Conn} → s.listener ≡ closed → Reach s t → IsClosed s t
  Reach-IsClosed s c here = (c, refl)
  Reach-IsClosed s c (move r m) = Move-IsClosed s m (Reach-IsClosed s c r)

  served_since :
      (s : Server Conn) {t : Server Conn}
      → Tail s t
      → (t.served ≡ s.served) ⊎ ((conn : Conn) × (t.served ≡ s.served ++ (conn ∷ [])))
  served_since s (none_since e) = inl e
  served_since s (one_since conn e a) = inr (conn, e)

  -- From the moment that `Stop` has cancelled the context, whatever the goroutine and `Stop` do and
  -- whoever connects, at most one more connection is served; and none once the listener is closed.
  pub Reach-served :
      (s : Server Conn) {t : Server Conn}
      → s.cancelled ≡ some true
      → Reach s t
      → ((t.served ≡ s.served) ⊎ ((conn : Conn) × (t.served ≡ s.served ++ (conn ∷ []))))
        × (s.listener ≡ closed → t.served ≡ s.served)
  Reach-served s c r = (served_since s (Reach-IsStopping s c r).1, λ k. (Reach-IsClosed s k r).1)
