-- ===== src/Network/Protocol/Unframe.antt =====
-- What `onRecvMessage` makes of a frame.
use forgotten_land.Base.{
  ℕ, ◌+◌, ◌-◌, ◌*◌, ◌%◌, ◌≤◌, ◌<◌, ◌≡◌, ap, ◌∙◌, Bool, true, false, Option, some, length, arith,
  ◌==◌, if◌then◌else◌, ltb,
}
use forgotten_land.Network.Message.{NetworkMessage, max_body_length, get, advance, set_length}
use forgotten_land.Network.Message.Access.{get-Holds}
use forgotten_land.Network.Message.Bytes.{store, load, le_bytes, length-le_bytes, Holds, load-Holds}
use forgotten_land.Network.Output.{OutputMessage}
use forgotten_land.Network.Protocol.{Protocol, xtea_decrypt, on_recv_message}
use forgotten_land.Network.Protocol.Frame.{IsFrame}
use forgotten_land.Network.Protocol.Memory.{Holds-ext, store-load}
use forgotten_land.Network.Xtea.{decrypt}

-- The message that a parser gets: its length, the position at its first byte, and its bytes.
pub record IsDelivered (m got : NetworkMessage) : Type 0 where
  pub length : got.length ≡ m.length
  pub position : got.position ≡ 8
  pub content : (i : ℕ) → 8 ≤ i → i < 8 + m.length → got.buffer i ≡ m.buffer i

-- The end of `XTEA_decrypt`, after the inner length was read.
checked : ℕ × NetworkMessage → Option (Bool × NetworkMessage)
checked (inner_length, m) =
    if ltb m.length (inner_length + 8)
    then some (false, m)
    else some (true, set_length inner_length m)

module _ (p : Protocol) (m : NetworkMessage) (o : OutputMessage) (f : IsFrame p.key m o)
    (small : m.length + 16 < max_body_length) where
  abbrev pub opened : NetworkMessage → NetworkMessage
  opened r = record r { buffer = store r.buffer 6 (load f.plain 6 (8 * f.q)) }

  abbrev pub delivered : NetworkMessage → NetworkMessage
  delivered r = set_length m.length (advance 2 (opened r))

  module _ (r : NetworkMessage) (at_body : r.position ≡ 6) (whole : r.length ≡ 8 * f.q + 6)
      (body : Holds r.buffer 6 f.cipher) where
    plain-opened : (i : ℕ) → 6 ≤ i → i < 6 + 8 * f.q → (opened r).buffer i ≡ f.plain i
    plain-opened i lo hi = store-load f.plain r.buffer 6 (8 * f.q) i lo hi

    inner_length : get 2 (opened r) ≡ (m.length, advance 2 (opened r))
    inner_length =
        get-Holds 2 m.length (opened r) (omega (arith, f.enough, f.tight)) (omega arith) (
          rw at_body (
            Holds-ext f.plain (opened r).buffer 6 (le_bytes 2 m.length)
              (λ i lo hi. plain-opened i lo (omega (arith, length-le_bytes 2 m.length, f.enough)))
              f.inner))

    pub delivered-IsDelivered : IsDelivered m (delivered r)
    unfolding set_length advance
    delivered-IsDelivered = record {
      length = omega arith;
      position = omega arith;
      content =
          λ i lo hi. plain-opened i (omega arith) (omega (arith, f.enough)) ∙ f.content i lo hi;
    }

    decrypts :
        decrypt p.key (load r.buffer r.position (r.length - 6)) ≡ some (load f.plain 6 (8 * f.q))
    decrypts =
        let e : r.length - 6 ≡ length f.cipher = omega (arith, f.blocks) in
        rw (at_body, e, load-Holds r.buffer 6 f.cipher body) f.opens

    decrypted :
        xtea_decrypt p r
        ≡ checked
            (get 2 (record r { buffer = store r.buffer r.position (load f.plain 6 (8 * f.q)) }))
    unfolding xtea_decrypt checked
    decrypted = let e : ((r.length + 2) % 8 == 0) ≡ true = ground arith in rw (e, decrypts)

    checked-opened : checked (get 2 (opened r)) ≡ some (true, delivered r)
    unfolding checked advance
    checked-opened =
        let e : ltb r.length (m.length + 8) ≡ false = ground (arith, f.enough) in
        rw (inner_length, e)

    -- A frame whose blocks stand in the buffer is accepted.
    pub xtea_decrypt-frame : xtea_decrypt p r ≡ some (true, delivered r)
    xtea_decrypt-frame =
        decrypted
        ∙ ap
            (λ (k : ℕ).
              checked (get 2 (record r { buffer = store r.buffer k (load f.plain 6 (8 * f.q)) })))
            at_body
        ∙ checked-opened

    pub on_recv_message-frame :
        p.encryption_enabled ≡ true → on_recv_message p r ≡ some (true, delivered r)
    unfolding on_recv_message
    on_recv_message-frame enc = simp enc xtea_decrypt-frame
