-- ===== src/Queue/Wire.antt =====
-- What a server thread writes to a socket: libdsys/queue.c sends an `int` that says whether data
-- follows (to a conditional receiver), and the bytes of the data themselves.
use libdsys.Prelude.{◌≡◌, refl, ◌∙◌, ap, sym, append_assoc, ℕ, List, [], ◌∷◌, ◌++◌}

-- One call of `__bc_write_data`.
pub data Packet : Type 0 where
  available : ℕ → Packet
  data_bytes : List ℕ → Packet

-- `__bc_send_sorry_message`
abbrev pub sorry_message : Packet
sorry_message = available 0

-- `__bc_send_preamble_message`
abbrev pub preamble_message : Packet
preamble_message = available 1

-- The data bytes of a sequence of packets.
unfoldable pub payload : List Packet → List ℕ
payload [] = []
payload (available n ∷ ps) = payload ps
payload (data_bytes bs ∷ ps) = bs ++ payload ps

pub payload-append : (ps rs : List Packet) → payload (ps ++ rs) ≡ payload ps ++ payload rs
unfolding payload
payload-append [] rs = refl
payload-append (available n ∷ ps) rs = payload-append ps rs
payload-append (data_bytes bs ∷ ps) rs =
    ap (λ xs. bs ++ xs) (payload-append ps rs) ∙ sym (append_assoc bs (payload ps) (payload rs))
