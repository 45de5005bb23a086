-- ===== src/Hub75/Tests.antt =====
-- Frames sent at concrete inputs.
use glados_docker.Common.{
  Bool, List, [], arith, false, leb, length, map, refl, suc, zero, ℕ, ◌∷◌, ◌≡◌,
}
use glados_docker.Hub75.Ddp.{DdpSender, build_ddp_packet, send_frame, sent_all}
use glados_docker.Hub75.Ddp.Receiver.{Display, receive_all}
use glados_docker.Hub75.Ddp.Frame.{send_frame-receive}

abbrev dots : ℕ → ℕ → List ℕ
dots zero v = []
dots (suc n) v = v ∷ dots n v

-- A frame of one full packet and one of 60 bytes.
abbrev eye : List ℕ
eye = dots 1500 7

abbrev panel : Display
panel = record { buffer = dots 1500 0; shown = [] }

abbrev fresh_sender : DdpSender
fresh_sender = record { sock = false; consecutive_errors = 0; seq = 14; calls = 0; sent = [] }

abbrev works : ℕ → Bool
works n = false

-- Every call raises from the third on.
abbrev fails_later : ℕ → Bool
fails_later n = leb 2 n

send_frame-receive_example :
    (let result = send_frame works eye fresh_sender in
      (result.0 ≡ sent_all)
      × (receive_all result.1.sent panel
          ≡ record { buffer = eye; shown = eye ∷ (receive_all [] panel).shown }))
unfolding receive_all
send_frame-receive_example =
    send_frame-receive works eye fresh_sender panel (λ n. refl) (omega arith) (omega arith) refl

two_packets : map length (send_frame works eye fresh_sender).1.sent ≡ 1450 ∷ 70 ∷ []
unfolding send_frame build_ddp_packet
two_packets = refl

one_error : (send_frame fails_later eye fresh_sender).1.consecutive_errors ≡ 1
unfolding send_frame build_ddp_packet
one_error = refl
