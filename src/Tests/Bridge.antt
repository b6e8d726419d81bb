-- ===== src/Tests/Bridge.antt =====
-- The bridge theorems at concrete inputs.
use goxic.Prelude.{◌≡◌, refl, inl, true, [], ◌++◌, Bytes, codes, some}
use goxic.Bridge.Step.{
  Side, near, nil, other, set, State, socks5_bridge, exit_bridge, new_end, new_bridge, holding,
  with_end, sends, hangs_up, reads, Reach, here, peer, move,
}
use goxic.Bridge.Whole.{pending}
use goxic.Bridge.Reports.{received}
use goxic.Bridge.Delivered.{IsDelivered, Reach-IsDelivered}
use goxic.Bridge.Returns.{Inevitable, Reach-Inevitable}
use goxic.Bridge.HalfClosed.{IsCutOff, Reach-IsCutOff}

abbrev hello : Bytes
hello = codes "hello"

-- The client has sent five bytes, of which two are read and three are not, and has hung up.
abbrev sent : State
sent = with_end new_bridge near (record new_end { arrived = hello; inbox = hello })

abbrev hung_up : State
hung_up = with_end sent near (record (sent.ends near) { ended = true })

abbrev half_read : State
half_read = record hung_up {
  ends = set hung_up.ends near (record (hung_up.ends near) { inbox = codes "llo" });
  copiers = set hung_up.copiers near (holding (codes "he"));
}

half_read_lem : Reach (socks5_bridge true) new_bridge half_read
half_read_lem = move (peer (peer here (sends near hello refl)) (hangs_up near)) (
    reads near (codes "he") (codes "llo") refl (record { open_end = refl; sound = refl })
      (λ e. cc e) refl)

Reach-IsDelivered_example :
    ((x : Side)
      → (half_read.ends x).arrived
        ≡ (half_read.ends (other x)).outbox
          ++ (pending (half_read.copiers x) ++ (half_read.ends x).inbox))
    × (received half_read.handler ≡ some nil → (x : Side) × IsDelivered half_read x)
Reach-IsDelivered_example = Reach-IsDelivered (socks5_bridge true) half_read_lem

Reach-Inevitable_example : Inevitable (socks5_bridge true) half_read
Reach-Inevitable_example = Reach-Inevitable (socks5_bridge true) near half_read_lem (inl refl)

Reach-IsCutOff_example :
    (s : State) × Reach (exit_bridge true) new_bridge s
    × IsCutOff near hello (codes "world") s
    × ((t : State) → Reach (exit_bridge true) s t → (t.ends near).outbox ≡ [])
Reach-IsCutOff_example = Reach-IsCutOff (exit_bridge true) near hello (codes "world") (λ e. cc e)
