-- ===== src/Hub75/Ddp/Receiver.antt =====
-- What a display makes of the packets, by the DDP protocol: it writes the data at the packet's
-- offset of its buffer, and shows the buffer at a packet with the push flag.
use glados_docker.Common.{
  List, [], drop, if◌then◌else◌, length, take, ℕ, ◌%◌, ◌*◌, ◌++◌, ◌+◌, ◌==◌, ◌∷◌,
}

pub record Display : Type 0 where
  pub buffer : List ℕ
  pub shown : List (List ℕ)

abbrev pub u32 : ℕ → ℕ → ℕ → ℕ → ℕ
u32 a b c d = a * 16777216 + b * 65536 + c * 256 + d

-- `buffer[offset:offset + len(data)] = data`
abbrev pub write_at : ℕ → List ℕ → List ℕ → List ℕ
write_at offset rgb buffer = take offset buffer ++ rgb ++ drop (offset + length rgb) buffer

abbrev pub render : ℕ → List ℕ → List (List ℕ) → Display
render flags buffer shown =
    if flags % 2 == 1
    then record { buffer = buffer; shown = buffer ∷ shown }
    else record { buffer = buffer; shown = shown }

-- A packet with a header that is cut, or whose length is not that of its data, is dropped.
unfoldable pub receive : List ℕ → Display → Display
receive (flags ∷ seq ∷ kind ∷ target ∷ o3 ∷ o2 ∷ o1 ∷ o0 ∷ l1 ∷ l0 ∷ rgb) d =
    if l1 * 256 + l0 == length rgb
    then render flags (write_at (u32 o3 o2 o1 o0) rgb d.buffer) d.shown
    else d
receive _ d = d

unfoldable pub receive_all : List (List ℕ) → Display → Display
unfolding receive
receive_all [] d = d
receive_all (packet ∷ packets) d = receive_all packets (receive packet d)
