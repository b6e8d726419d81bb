-- ===== src/Socks5/Server/Started.antt =====
-- When the proxy of a client starts.
use goxic.Prelude.{
  ℕ, ◌≡◌, ◌↔◌, refl, inl, inr, Bool, true, false, some, Bytes, has_byte, Lacks, Bool-cases,
}
use goxic.Prelude.Int.{pos}
use goxic.Socks5.Address.{itoa}
use goxic.Socks5.Listen.{listen_addr, split_host_port, split_host_port-listen_addr}
use goxic.Socks5.Server.{Server, listens, after_listen, start}

after_listen_lem : {Conn : Type 0} (s : Server Conn) (b : Bool) → (after_listen s b).1 ≡ b
after_listen_lem s true = refl
after_listen_lem s false = refl

-- With a bind address without brackets, as every IP address is: `Start` succeeds exactly if the
-- address has no colon, and the network can bind it and the port. So it never succeeds for an IPv6
-- address.
pub start_iff :
    {Conn : Type 0} (can_bind : Bytes → Bytes → Bool) (bind_address : Bytes) (port : ℕ)
    (s : Server Conn)
    → Lacks b'[' bind_address
    → Lacks b']' bind_address
    → ((start can_bind bind_address (pos port) s).1 ≡ true)
      ↔ ((has_byte b':' bind_address ≡ false) × (can_bind bind_address (itoa port) ≡ true))
unfolding start
start_iff can_bind bind_address port s l r =
    let read = split_host_port-listen_addr bind_address port l r in
    rw
      (
        after_listen_lem (record s { cancelled = some false })
            (listens can_bind (split_host_port (listen_addr bind_address (pos port)))),
        read,
      )
      (elim (Bool-cases (has_byte b':' bind_address)) [
        | inl e ↦ rw e ((λ h. cc h), (λ h. cc (h.0)))
        | inr e ↦ rw e ((λ h. (refl, h)), (λ h. h.1))
      ])
