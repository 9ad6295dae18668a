-- ===== src/Peer/Sending.antt =====
-- Advertise and Withdraw at concrete inputs: three writes, of which the second is lost.
use xk6_bgp.Base.{ℕ, ◌==◌, not, true, false, Option, some, [], ◌∷◌}
use xk6_bgp.Packet.Route.{new_family}
use xk6_bgp.Packet.Update.Attrs.{UpdateMessage}
use xk6_bgp.Packet.Samples.{lenient, attrs, plain, host}
use xk6_bgp.Peer.Fsm.{Fsm, established, new_fsm}
use xk6_bgp.Peer.Send.{Fate, advertise, withdraw}
use xk6_bgp.Peer.Send.Success.{IsReported, advertise-IsReported, withdraw-IsReported}
use xk6_bgp.Peer.Meeting.{alice}

abbrev up : Fsm
up = record (new_fsm alice) { state = established; has_conn = true; is_open = true }

-- A thousand octets for every body.
abbrev body_len : UpdateMessage ℕ → Option ℕ
body_len m = some 1000

abbrev fate : ℕ → Fate
fate i = record { at = i; is_written = not (i == 1) }

advertise-IsReported_example :
    IsReported up
      (new_family 2 1)
      false
      (host ∷ host ∷ [])
      plain
      (advertise lenient body_len up (new_family 2 1) attrs (host ∷ host ∷ []) plain fate)
advertise-IsReported_example =
    advertise-IsReported lenient body_len up (new_family 2 1) attrs (host ∷ host ∷ []) plain fate

withdraw-IsReported_example :
    IsReported up
      (new_family 2 1)
      true
      (host ∷ host ∷ [])
      plain
      (withdraw lenient body_len up (new_family 2 1) (host ∷ host ∷ []) plain fate)
withdraw-IsReported_example =
    withdraw-IsReported lenient body_len up (new_family 2 1) (host ∷ host ∷ []) plain fate
