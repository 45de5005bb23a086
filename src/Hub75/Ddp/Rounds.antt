-- ===== src/Hub75/Ddp/Rounds.antt =====
-- The rounds of the loop of `send_frame`, and what is before the loop.
use glados_docker.Common.{
  Bool, Bool-cases, List, arith, false, inl, inr, leb, length, ltb, refl, some, suc, true, zero, ℕ,
  ◌<◌, ◌≡◌, ◌≤◌, ◌⊎◌,
}
use glados_docker.Hub75.Ddp.{
  DdpSender, build_ddp_packet, chunk, chunk_end, ensure_socket, finish_frame, new_seq, next_call,
  on_os_error, os_error, send_chunks, send_frame, sendto, sent_all,
}

ltb_ge : (a b : ℕ) → b ≤ a → ltb a b ≡ false
ltb_ge a b h = ground arith

ltb_lt : (a b : ℕ) → a < b → ltb a b ≡ true
ltb_lt a b h = ground arith

pub send_chunks-done :
    (os : ℕ → Bool) (fuel : ℕ) (rgb : List ℕ) (offset seq : ℕ) (s : DdpSender)
    → length rgb ≤ offset
    → send_chunks os fuel rgb offset seq s ≡ (sent_all, s)
unfolding send_chunks
send_chunks-done os zero rgb offset seq s h = ground arith
send_chunks-done os (suc fuel) rgb offset seq s h = rw (ltb_ge offset (length rgb) h, send_chunks)

pub send_chunks-one :
    (os : ℕ → Bool) (fuel : ℕ) (rgb : List ℕ) (offset seq : ℕ) (s : DdpSender) (p : List ℕ)
    → offset < length rgb
    → os s.calls ≡ false
    → build_ddp_packet (chunk rgb offset) offset (leb (length rgb) (chunk_end rgb offset)) seq
      ≡ some p
    → send_chunks os (suc fuel) rgb offset seq s
      ≡ send_chunks os fuel rgb (chunk_end rgb offset) seq (sendto p s)
unfolding send_chunks
send_chunks-one os fuel rgb offset seq s p more quiet built =
    rw (ltb_lt offset (length rgb) more, built, quiet, send_chunks)

pub send_chunks-fails :
    (os : ℕ → Bool) (fuel : ℕ) (rgb : List ℕ) (offset seq : ℕ) (s : DdpSender) (p : List ℕ)
    → offset < length rgb
    → os s.calls ≡ true
    → build_ddp_packet (chunk rgb offset) offset (leb (length rgb) (chunk_end rgb offset)) seq
      ≡ some p
    → send_chunks os (suc fuel) rgb offset seq s ≡ (os_error, next_call s)
unfolding send_chunks
send_chunks-fails os fuel rgb offset seq s p more fails built =
    rw (ltb_lt offset (length rgb) more, built, fails, send_chunks)

-- The sender at the start of the loop.
pub record Opened (os : ℕ → Bool) (rgb : List ℕ) (s : DdpSender) : Type 0 where
  pub sender : DdpSender
  pub same_sent : sender.sent ≡ s.sent
  pub same_count : sender.consecutive_errors ≡ s.consecutive_errors
  pub enters :
      send_frame os rgb s ≡ finish_frame (send_chunks os (length rgb) rgb 0 (new_seq s.seq) sender)

pub opened :
    (os : ℕ → Bool) (rgb : List ℕ) (s : DdpSender)
    → (s.sock ≡ true) ⊎ (os s.calls ≡ false)
    → Opened os rgb s
unfolding send_frame ensure_socket
opened os rgb s h = elim (Bool-cases s.sock) [
  | inl there ↦ record {
    sender = record s { seq = new_seq s.seq };
    same_sent = refl;
    same_count = refl;
    enters = rw there;
  }
  | inr absent ↦ record {
    sender = record (next_call s) { sock = true; seq = new_seq s.seq };
    same_sent = refl;
    same_count = refl;
    enters = rw (absent, quiet absent h);
  }
]
  where
    quiet : s.sock ≡ false → (s.sock ≡ true) ⊎ (os s.calls ≡ false) → os s.calls ≡ false
    quiet absent (inl there) = cc (absent, there)
    quiet absent (inr q) = q

-- Where no socket is there and none can be made.
pub not_opened :
    (os : ℕ → Bool) (rgb : List ℕ) (s : DdpSender)
    → s.sock ≡ false
    → os s.calls ≡ true
    → send_frame os rgb s ≡ (os_error, on_os_error (next_call s))
unfolding send_frame ensure_socket
not_opened os rgb s absent fails = rw (absent, fails)
