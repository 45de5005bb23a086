-- ===== src/Hub75/Ddp.antt =====
-- glados/hub75/ddp.py: the packets and `DdpSender`. A byte is a number below 256. `os` says of each
-- call of the socket library, by its number, whether it raises `OSError`. The pause between packets
-- is not modelled.
pub mod Receiver
mod Slices
mod Packets
mod Rounds
pub mod Frame
pub mod Ends
use glados_docker.Common.{
  Bool, List, Option, [], drop, false, if◌then◌else◌, leb, length, ltb, min, none, some, suc, take,
  true, zero, ℕ, ◌%◌, ◌&&◌, ◌++◌, ◌+◌, ◌-◌, ◌/◌, ◌∷◌,
}

abbrev pub max_chunk_bytes : ℕ
max_chunk_bytes = 1440

-- `struct.pack(">I", n)` and `(">H", n)`
abbrev pub pack_u32 : ℕ → List ℕ
pack_u32 n = n / 16777216 % 256 ∷ n / 65536 % 256 ∷ n / 256 % 256 ∷ n % 256 ∷ []

abbrev pub pack_u16 : ℕ → List ℕ
pack_u16 n = n / 256 % 256 ∷ n % 256 ∷ []

-- `none` is `struct.error`: a number that does not fit its field.
unfoldable pub build_ddp_packet : List ℕ → ℕ → Bool → ℕ → Option (List ℕ)
build_ddp_packet rgb_data offset push seq =
    let flags = 0x40 + (if push then 1 else 0) in
    if ltb offset 4294967296 && ltb (length rgb_data) 65536
    then some (
        (flags ∷ seq % 256 ∷ 0 ∷ 1 ∷ [])
        ++ pack_u32 offset
        ++ pack_u16 (length rgb_data)
        ++ rgb_data)
    else none

pub record DdpSender : Type 0 where
  pub sock : Bool
  pub consecutive_errors : ℕ
  pub seq : ℕ
  pub calls : ℕ
  pub sent : List (List ℕ)

-- How the loop of a frame ends. `looping` is the end of the fuel.
pub data Sent : Type 0 where
  sent_all os_error struct_error looping : Sent

abbrev pub next_call : DdpSender → DdpSender
next_call s = record s { calls = s.calls + 1 }

abbrev pub sendto : List ℕ → DdpSender → DdpSender
sendto packet s = record s { calls = s.calls + 1; sent = s.sent ++ packet ∷ [] }

abbrev pub chunk_end : List ℕ → ℕ → ℕ
chunk_end rgb_bytes offset = min (offset + max_chunk_bytes) (length rgb_bytes)

-- `rgb_bytes[offset:chunk_end]`
abbrev pub chunk : List ℕ → ℕ → List ℕ
chunk rgb_bytes offset = take (chunk_end rgb_bytes offset - offset) (drop offset rgb_bytes)

-- `while offset < total`
unfoldable pub send_chunks : (ℕ → Bool) → ℕ → List ℕ → ℕ → ℕ → DdpSender → Sent × DdpSender
send_chunks os zero rgb_bytes offset seq s =
    if ltb offset (length rgb_bytes) then (looping, s) else (sent_all, s)
send_chunks os (suc fuel) rgb_bytes offset seq s = elim (ltb offset (length rgb_bytes)) [
  | false ↦ (sent_all, s)
  | true ↦
      let stop = chunk_end rgb_bytes offset in
      elim (build_ddp_packet (chunk rgb_bytes offset) offset (leb (length rgb_bytes) stop) seq) [
        | none ↦ (struct_error, s)
        | some packet ↦ elim (os s.calls) [
          | true ↦ (os_error, next_call s)
          | false ↦ send_chunks os fuel rgb_bytes stop seq (sendto packet s)
        ]
      ]
]

-- The handler of `OSError`; an error of `close` itself is ignored there.
abbrev pub on_os_error : DdpSender → DdpSender
on_os_error s =
    let errors = s.consecutive_errors + 1 in
    record s { consecutive_errors = errors; sock = if leb 10 errors then false else s.sock }

abbrev pub finish_frame : Sent × DdpSender → Sent × DdpSender
finish_frame (sent_all, s) = (sent_all, record s { consecutive_errors = 0 })
finish_frame (os_error, s) = (os_error, on_os_error s)
finish_frame (struct_error, s) = (struct_error, s)
finish_frame (looping, s) = (looping, s)

-- `_ensure_socket`: whether it raises, and the sender after it.
unfoldable pub ensure_socket : (ℕ → Bool) → DdpSender → Bool × DdpSender
ensure_socket os s =
    if s.sock
    then (false, s)
    else if os s.calls
    then (true, next_call s)
    else (false, record (next_call s) { sock = true })

abbrev pub new_seq : ℕ → ℕ
new_seq seq = seq % 15 + 1

unfoldable pub send_frame : (ℕ → Bool) → List ℕ → DdpSender → Sent × DdpSender
unfolding send_chunks ensure_socket
send_frame os rgb_bytes s =
    let (raises, s') = ensure_socket os s in
    if raises
    then (os_error, on_os_error s')
    else let seq = new_seq s'.seq in
      finish_frame (send_chunks os (length rgb_bytes) rgb_bytes 0 seq (record s' { seq = seq }))
