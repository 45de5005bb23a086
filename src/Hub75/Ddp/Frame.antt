-- ===== src/Hub75/Ddp/Frame.antt =====
-- A frame that is sent arrives as a whole: the display shows it once, and nothing of it before.
use glados_docker.Common.{
  Bool, Bool-cases, List, ap, append-nil, arith, drop, false, inl, inr, leb, length, length-drop,
  refl, subst, suc, sym, take, true, zero, ℕ, ◌++◌, ◌+◌, ◌-◌, ◌<◌, ◌∙◌, ◌∷◌, ◌≡◌, ◌≤◌,
}
use glados_docker.Hub75.Ddp.{
  DdpSender, Sent, chunk, chunk_end, finish_frame, looping, new_seq, os_error, send_chunks,
  send_frame, sendto, sent_all, struct_error,
}
use glados_docker.Hub75.Ddp.Receiver.{Display, receive_all, write_at}
use glados_docker.Hub75.Ddp.Slices.{drop-length, take-length}
use glados_docker.Hub75.Ddp.Rounds.{opened, send_chunks-done, send_chunks-one}
use glados_docker.Hub75.Ddp.Packets.{
  length-chunk, receive-build, receive_all-append, show_if, write_at-frame,
}

-- The display has the frame up to the offset, over the rest of its old buffer.
abbrev filled : List ℕ → ℕ → List ℕ → List (List ℕ) → Display
filled rgb offset rest shown = record { buffer = take offset rgb ++ rest; shown = shown }

-- What one round of the loop does.
record Round (os : ℕ → Bool) (fuel : ℕ) (rgb : List ℕ) (offset seq : ℕ) (s : DdpSender)
    (d : Display) (rest : List ℕ) (shown : List (List ℕ)) : Type 0 where
  sender : DdpSender
  step :
      send_chunks os (suc fuel) rgb offset seq s
      ≡ send_chunks os fuel rgb (chunk_end rgb offset) seq sender
  seen_after :
      receive_all sender.sent d
      ≡ show_if
          (leb (length rgb) (chunk_end rgb offset))
          (take (chunk_end rgb offset) rgb ++ drop (chunk_end rgb offset - offset) rest)
          shown

round :
    (os : ℕ → Bool) (fuel : ℕ) (rgb : List ℕ) (offset seq : ℕ) (s : DdpSender) (d : Display)
    (rest : List ℕ) (shown : List (List ℕ))
    → os s.calls ≡ false
    → length rgb < 4294967296
    → offset < length rgb
    → receive_all s.sent d ≡ filled rgb offset rest shown
    → Round os fuel rgb offset seq s d rest shown
round os fuel rgb offset seq s d rest shown quiet small more seen =
    let stop = chunk_end rgb offset in
    let k = stop - offset in
    let (p, built, shows) =
      receive-build (chunk rgb offset) offset (leb (length rgb) stop) seq (receive_all s.sent d)
        (omega arith) (omega (arith, length-chunk rgb offset k (omega arith))) in
    record {
      sender = sendto p s;
      step = send_chunks-one os fuel rgb offset seq s p more quiet built;
      seen_after =
          receive_all-append s.sent p d
          ∙ shows
          ∙ ap
              (λ e.
                show_if (leb (length rgb) stop) (write_at offset (chunk rgb offset) e.buffer)
                  e.shown)
              seen
          ∙ ap (λ b. show_if (leb (length rgb) stop) b shown)
              (write_at-frame rgb rest offset k (omega arith)
                ∙ ap (λ n. take n rgb ++ drop k rest) (omega arith));
    }

abbrev Arrives : List ℕ → List (List ℕ) → Display → Sent × DdpSender → Type 0
Arrives rgb shown d r =
    (r.0 ≡ sent_all) × (receive_all r.1.sent d ≡ record { buffer = rgb; shown = rgb ∷ shown })

send_chunks-last :
    (os : ℕ → Bool) (fuel : ℕ) (rgb : List ℕ) (stop seq k : ℕ) (s : DdpSender) (d : Display)
    (rest : List ℕ) (shown : List (List ℕ))
    → stop ≡ length rgb
    → length rest ≤ k
    → receive_all s.sent d ≡ show_if true (take stop rgb ++ drop k rest) shown
    → Arrives rgb shown d (send_chunks os fuel rgb stop seq s)
send_chunks-last os fuel rgb stop seq k s d rest shown at_end all_used seen =
    let whole : take stop rgb ++ drop k rest ≡ rgb =
      ap (λ ys. take stop rgb ++ ys) (drop-length k rest all_used)
      ∙ append-nil (take stop rgb)
      ∙ ap (λ n. take n rgb) at_end
      ∙ take-length rgb in
    subst (Arrives rgb shown d)
      (sym (send_chunks-done os fuel rgb stop seq s (omega (arith, at_end))))
      (refl, seen ∙ ap (λ b. show_if true b shown) whole)

send_chunks-receive :
    (os : ℕ → Bool) (fuel : ℕ) (rgb : List ℕ) (offset seq : ℕ) (s : DdpSender) (d : Display)
    (rest : List ℕ) (shown : List (List ℕ))
    → ((n : ℕ) → os n ≡ false)
    → length rgb < 4294967296
    → offset < length rgb
    → length rgb ≤ offset + fuel
    → length rest + offset ≡ length rgb
    → receive_all s.sent d ≡ filled rgb offset rest shown
    → Arrives rgb shown d (send_chunks os fuel rgb offset seq s)
send_chunks-receive os zero rgb offset seq s d rest shown quiet small more fuel_left size seen =
    absurd (omega (arith, more, fuel_left))
send_chunks-receive os (suc fuel) rgb offset seq s d rest shown quiet small more fuel_left size
      seen =
    let stop = chunk_end rgb offset in
    let k = stop - offset in
    let r = round os fuel rgb offset seq s d rest shown (quiet s.calls) small more seen in
    subst (Arrives rgb shown d) (sym r.step) (elim (Bool-cases (leb (length rgb) stop)) [
      | inl last ↦
          send_chunks-last os fuel rgb stop seq k r.sender d rest shown (ground (arith, last))
            (ground (arith, last, size))
            (r.seen_after ∙ ap (λ b. show_if b (take stop rgb ++ drop k rest) shown) last)
      | inr more_left ↦
          send_chunks-receive os fuel rgb stop seq r.sender d (drop k rest) shown quiet small
            (ground (arith, more_left)) (ground (arith, more_left, fuel_left))
            (ground (arith, length-drop k rest, size, more_left))
            (r.seen_after ∙ ap (λ b. show_if b (take stop rgb ++ drop k rest) shown) more_left)
    ])

finish-Arrives :
    (rgb : List ℕ) (shown : List (List ℕ)) (d : Display) (r : Sent × DdpSender)
    → Arrives rgb shown d r
    → Arrives rgb shown d (finish_frame r)
finish-Arrives rgb shown d (sent_all, s) a = (refl, a.1)
finish-Arrives rgb shown d (os_error, s) a = cc (a.0)
finish-Arrives rgb shown d (struct_error, s) a = cc (a.0)
finish-Arrives rgb shown d (looping, s) a = cc (a.0)

-- Where no call of the socket library raises, a frame that is not empty and below 4 GiB, sent to
-- a display with a buffer of its size, is then in the buffer and is what the display shows next,
-- once and as a whole: no part of it is shown before, whatever was sent and shown earlier.
pub send_frame-receive :
    (os : ℕ → Bool) (rgb : List ℕ) (s : DdpSender) (d : Display)
    → ((n : ℕ) → os n ≡ false)
    → 0 < length rgb
    → length rgb < 4294967296
    → length (receive_all s.sent d).buffer ≡ length rgb
    → (let result = send_frame os rgb s in
        (result.0 ≡ sent_all)
        × (receive_all result.1.sent d
            ≡ record { buffer = rgb; shown = rgb ∷ (receive_all s.sent d).shown }))
send_frame-receive os rgb s d quiet more small size =
    let o = opened os rgb s (inr (quiet s.calls)) in
    let before = receive_all s.sent d in
    subst (Arrives rgb before.shown d) (sym o.enters) (
      finish-Arrives rgb before.shown d (send_chunks os (length rgb) rgb 0 (new_seq s.seq) o.sender)
        (send_chunks-receive os (length rgb) rgb 0 (new_seq s.seq) o.sender d before.buffer
          before.shown quiet small more (omega arith) (omega (arith, size))
          (ap (λ ps. receive_all ps d) o.same_sent)))
