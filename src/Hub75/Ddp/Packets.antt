-- ===== src/Hub75/Ddp/Packets.antt =====
-- What a display makes of one packet.
use glados_docker.Common.{
  ==_iff, Bool, List, [], ap, arith, drop, false, if◌then◌else◌, length, length-drop, length-take,
  refl, some, sym, take, true, ℕ, ◌%◌, ◌*◌, ◌++◌, ◌+◌, ◌/◌, ◌<◌, ◌==◌, ◌∙◌, ◌∷◌, ◌≡◌, ◌≤◌,
}
use glados_docker.Hub75.Ddp.{build_ddp_packet, pack_u16, pack_u32}
use glados_docker.Hub75.Ddp.Receiver.{Display, receive, receive_all, render, u32, write_at}
use glados_docker.Hub75.Ddp.Slices.{drop-take-append, take-add, take-take-append}

pub receive_all-append :
    (packets : List (List ℕ)) (p : List ℕ) (d : Display)
    → receive_all (packets ++ p ∷ []) d ≡ receive p (receive_all packets d)
unfolding receive_all
receive_all-append [] p d = refl
receive_all-append (q ∷ packets) p d = receive_all-append packets p (receive q d)

abbrev pub show_if : Bool → List ℕ → List (List ℕ) → Display
show_if push buffer shown =
    if push
    then record { buffer = buffer; shown = buffer ∷ shown }
    else record { buffer = buffer; shown = shown }

u32-pack :
    (n : ℕ)
    → n < 4294967296
    → u32 (n / 16777216 % 256) (n / 65536 % 256) (n / 256 % 256) (n % 256) ≡ n
u32-pack n h = omega (arith, h)

u16-pack : (n : ℕ) → n < 65536 → n / 256 % 256 * 256 + n % 256 ≡ n
u16-pack n h = omega (arith, h)

==_refl : {m : ℕ} (n : ℕ) → m ≡ n → (m == n) ≡ true
==_refl {m} n e = (==_iff m n).1 e

render-flags :
    (push : Bool) (buffer : List ℕ) (shown : List (List ℕ))
    → render (0x40 + (if push then 1 else 0)) buffer shown ≡ show_if push buffer shown
render-flags true buffer shown = refl
render-flags false buffer shown = refl

-- A display reads from the header what the sender put in it.
pub receive-build :
    (rgb : List ℕ) (offset : ℕ) (push : Bool) (seq : ℕ) (d : Display)
    → offset < 4294967296
    → length rgb < 65536
    → (p : List ℕ) × (build_ddp_packet rgb offset push seq ≡ some p)
      × (receive p d ≡ show_if push (write_at offset rgb d.buffer) d.shown)
unfolding build_ddp_packet receive
receive-build rgb offset push seq d h1 h2 = (
  ((0x40 + (if push then 1 else 0)) ∷ seq % 256 ∷ 0 ∷ 1 ∷ [])
      ++ pack_u32 offset
      ++ pack_u16 (length rgb)
      ++ rgb,
  ground (arith, h1, h2),
  rw (==_refl (length rgb) (u16-pack (length rgb) h2), u32-pack offset h1)
      (render-flags push (write_at offset rgb d.buffer) d.shown),
)

pub length-chunk :
    (rgb : List ℕ) (offset k : ℕ) → offset + k ≤ length rgb → length (take k (drop offset rgb)) ≡ k
length-chunk rgb offset k h = omega (arith, length-take k (drop offset rgb), length-drop offset rgb)

-- The part at a packet's offset, over a buffer that has the frame up to there.
pub write_at-frame :
    (rgb rest : List ℕ) (offset k : ℕ)
    → offset + k ≤ length rgb
    → write_at offset (take k (drop offset rgb)) (take offset rgb ++ rest)
      ≡ take (offset + k) rgb ++ drop k rest
write_at-frame rgb rest offset k h =
    let part = take k (drop offset rgb) in
    ap (λ xs. xs ++ part ++ drop (offset + length part) (take offset rgb ++ rest))
      (take-take-append offset rgb rest (omega arith))
    ∙ ap (λ ys. take offset rgb ++ part ++ ys)
        (drop-take-append offset k (offset + length part) rgb rest (omega arith)
          (ap (λ n. offset + n) (length-chunk rgb offset k h)))
    ∙ ap (λ xs. xs ++ drop k rest) (sym (take-add offset k (offset + k) rgb refl))
