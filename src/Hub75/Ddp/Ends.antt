-- ===== src/Hub75/Ddp/Ends.antt =====
-- How the sending of a frame ends, whatever the socket library does.
use glados_docker.Common.{
  Bool, Bool-cases, List, [], arith, drop, false, if◌then◌else◌, inl, inr, leb, length, length-take,
  ltb, ltb→lt, refl, some, subst, suc, sym, true, zero, ℕ, ◌%◌, ◌++◌, ◌+◌, ◌-◌, ◌<◌, ◌∷◌, ◌≡◌, ◌≤◌,
  ◌⊎◌,
}
use glados_docker.Hub75.Ddp.Rounds.{
  not_opened, opened, send_chunks-done, send_chunks-fails, send_chunks-one,
}
use glados_docker.Hub75.Ddp.{
  DdpSender, Sent, build_ddp_packet, chunk, chunk_end, finish_frame, looping, new_seq, os_error,
  pack_u16, pack_u32, send_chunks, send_frame, sendto, sent_all, struct_error,
}

-- The loop ends with the frame or with an `OSError`, and leaves the count of errors.
record Ended (errors : ℕ) (r : Sent × DdpSender) : Type 0 where
  outcome : (r.0 ≡ sent_all) ⊎ (r.0 ≡ os_error)
  same_errors : r.1.consecutive_errors ≡ errors

builds :
    (rgb : List ℕ) (offset : ℕ) (push : Bool) (seq : ℕ)
    → offset < 4294967296
    → length rgb < 65536
    → (p : List ℕ) × (build_ddp_packet rgb offset push seq ≡ some p)
unfolding build_ddp_packet
builds rgb offset push seq h1 h2 = (
  ((0x40 + (if push then 1 else 0)) ∷ seq % 256 ∷ 0 ∷ 1 ∷ [])
      ++ pack_u32 offset
      ++ pack_u16 (length rgb)
      ++ rgb,
  ground (arith, h1, h2),
)

send_chunks-Ended :
    (os : ℕ → Bool) (fuel : ℕ) (rgb : List ℕ) (offset seq : ℕ) (s : DdpSender)
    → length rgb < 4294967296
    → length rgb ≤ offset + fuel
    → Ended s.consecutive_errors (send_chunks os fuel rgb offset seq s)
send_chunks-Ended os zero rgb offset seq s small h =
    subst (Ended s.consecutive_errors) (sym (send_chunks-done os 0 rgb offset seq s (omega arith)))
      (record { outcome = inl refl; same_errors = refl })
send_chunks-Ended os (suc fuel) rgb offset seq s small h =
    elim (Bool-cases (ltb offset (length rgb))) [
      | inl more ↦
          let below = ltb→lt offset (length rgb) more in
          let stop = chunk_end rgb offset in
          let (p, built) =
            builds (chunk rgb offset) offset (leb (length rgb) stop) seq (omega (arith, below))
              (omega (arith, length-take (stop - offset) (drop offset rgb))) in
          elim (Bool-cases (os s.calls)) [
            | inl fails ↦
                subst (Ended s.consecutive_errors)
                  (sym (send_chunks-fails os fuel rgb offset seq s p below fails built))
                  (record { outcome = inr refl; same_errors = refl })
            | inr works ↦
                subst (Ended s.consecutive_errors)
                  (sym (send_chunks-one os fuel rgb offset seq s p below works built))
                  (send_chunks-Ended os fuel rgb stop seq (sendto p s) small (omega (arith, below)))
          ]
      | inr done ↦
          subst (Ended s.consecutive_errors)
            (sym (send_chunks-done os (suc fuel) rgb offset seq s (ground (arith, done))))
            (record { outcome = inl refl; same_errors = refl })
    ]

abbrev Counted : ℕ → Sent × DdpSender → Type 0
Counted errors r =
    ((r.0 ≡ sent_all) × (r.1.consecutive_errors ≡ 0))
    ⊎ ((r.0 ≡ os_error) × (r.1.consecutive_errors ≡ errors + 1))

finish-Counted :
    (errors : ℕ) (r : Sent × DdpSender) → Ended errors r → Counted errors (finish_frame r)
finish-Counted errors (sent_all, s) e = inl (refl, refl)
finish-Counted errors (os_error, s) e = inr (refl, omega (arith, e.same_errors))
finish-Counted errors (struct_error, s) e = absurd (elim e.outcome [ inl q ↦ cc q | inr q ↦ cc q ])
finish-Counted errors (looping, s) e = absurd (elim e.outcome [ inl q ↦ cc q | inr q ↦ cc q ])

-- Whatever calls of the socket library raise, the sending of a frame below 4 GiB ends: either the
-- whole frame was sent and the count of consecutive errors is 0, or an `OSError` was caught and
-- the count is one more. It never loops, and no number overflows its field of the header.
pub send_frame_ends :
    (os : ℕ → Bool) (rgb : List ℕ) (s : DdpSender)
    → length rgb < 4294967296
    → (let result = send_frame os rgb s in
        ((result.0 ≡ sent_all) × (result.1.consecutive_errors ≡ 0))
        ⊎ ((result.0 ≡ os_error) × (result.1.consecutive_errors ≡ s.consecutive_errors + 1)))
send_frame_ends os rgb s small = elim (Bool-cases (os s.calls)) [
  | inr works ↦ goes (inr works)
  | inl fails ↦ elim (Bool-cases s.sock) [
    | inl there ↦ goes (inl there)
    | inr absent ↦
        subst (Counted s.consecutive_errors) (sym (not_opened os rgb s absent fails))
          (inr (refl, refl))
  ]
]
  where
    goes :
        (s.sock ≡ true) ⊎ (os s.calls ≡ false) → Counted s.consecutive_errors (send_frame os rgb s)
    goes h =
        let o = opened os rgb s h in
        subst (Counted s.consecutive_errors) (sym o.enters) (
          finish-Counted s.consecutive_errors
            (send_chunks os (length rgb) rgb 0 (new_seq s.seq) o.sender)
            (subst (λ e. Ended e (send_chunks os (length rgb) rgb 0 (new_seq s.seq) o.sender))
              o.same_count
              (send_chunks-Ended os (length rgb) rgb 0 (new_seq s.seq) o.sender small
                (omega arith))))
