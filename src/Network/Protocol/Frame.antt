-- ===== src/Network/Protocol/Frame.antt =====
-- The frame that `onSendMessage` builds around an encrypted message.
use forgotten_land.Base.{
  ℕ, ◌+◌, ◌-◌, ◌*◌, ◌/◌, ◌≤◌, ◌<◌, ◌≡◌, refl, ap, ◌∙◌, ◌⊎◌, inl, inr, true, false, List, some,
  length, arith, Bool-cases, if◌then◌else◌, ltb,
}
use mathlib.Core.Path.{subst₂}
use forgotten_land.Base.Words.{u16, u32}
use forgotten_land.Network.Message.{NetworkMessage, max_body_length}
use forgotten_land.Network.Message.Bytes.{
  Buffer, store, load, le_bytes, length-le_bytes, store_outside, store-Holds, Holds, length-load,
}
use forgotten_land.Network.Output.{
  OutputMessage, output, add_header, write_message_length, add_crypto_header,
}
use forgotten_land.Network.Adler.{adler_checksum}
use forgotten_land.Network.Protocol.{Protocol, pad, xtea_encrypt, on_send_message}
use forgotten_land.Network.Protocol.Memory.{
  IsBytes, store-IsBytes, le_bytes-AreBytes, load-IsBlocks, Holds-ext, pad-IsPadded,
}
use forgotten_land.Network.Xtea.{Key, encrypt, decrypt}
use forgotten_land.Network.Xtea.Inverse.{decrypt-encrypt}

-- A message that was only written to: the position is at its end, there is room for the padding,
-- and memory holds bytes.
pub record IsWritten (m : NetworkMessage) : Type 0 where
  pub at_end : m.position ≡ m.length + 8
  pub room : m.length + 16 < max_body_length
  pub bytes : IsBytes m.buffer

-- One header in front.
pub record IsHeaded (size header : ℕ) (o o' : OutputMessage) : Type 0 where
  pub start : o'.output_buffer_start + size ≡ o.output_buffer_start
  pub length : o'.msg.length ≡ u16 (o.msg.length + size)
  pub position : o'.msg.position ≡ o.msg.position
  pub buffer : o'.msg.buffer ≡ store o.msg.buffer o'.output_buffer_start (le_bytes size header)

abbrev headed : ℕ → ℕ → OutputMessage → OutputMessage
headed size header o =
    let start = o.output_buffer_start - size in
    let m = o.msg in
    record {
      msg = record m {
        buffer = store m.buffer start (le_bytes size header);
        length = u16 (m.length + size);
      };
      output_buffer_start = start;
    }

add_header_lem :
    (size header : ℕ) (o : OutputMessage)
    → size ≤ o.output_buffer_start
    → (add_header size header o ≡ some (headed size header o))
      × IsHeaded size header o (headed size header o)
unfolding add_header
add_header_lem size header o h =
    let fits : ltb o.output_buffer_start size ≡ false = ground arith in
    (rw fits, record { start = omega arith; length = refl; position = refl; buffer = refl })

-- The header stands at the new start, and nothing else changed.
IsHeaded-Holds :
    (size header : ℕ) (o o' : OutputMessage)
    → IsHeaded size header o o'
    → Holds o'.msg.buffer o'.output_buffer_start (le_bytes size header)
IsHeaded-Holds size header o o' h = rw h.buffer (store-Holds _ _ _)

IsHeaded-outside :
    (size header : ℕ) (o o' : OutputMessage) (k : ℕ)
    → IsHeaded size header o o'
    → (k < o'.output_buffer_start) ⊎ (o.output_buffer_start ≤ k)
    → o'.msg.buffer k ≡ o.msg.buffer k
IsHeaded-outside size header o o' k h out =
    ap (λ (f : Buffer). f k) h.buffer
    ∙ store_outside o.msg.buffer o'.output_buffer_start (le_bytes size header) k
        (omega (arith, h.start, length-le_bytes size header))

-- The frame on the wire: the size of what follows, four bytes of checksum or sequence number, and
-- `q` encrypted blocks. They decrypt to the length of the message, its bytes and padding.
pub record IsFrame (k : Key) (m : NetworkMessage) (o : OutputMessage) : Type 0 where
  pub q : ℕ
  pub cipher : List ℕ
  pub plain : Buffer
  pub start : o.output_buffer_start ≡ 0
  pub total : o.msg.length ≡ 8 * q + 6
  pub enough : m.length + 2 ≤ 8 * q
  pub tight : 8 * q ≤ m.length + 9
  pub header : Holds o.msg.buffer 0 (le_bytes 2 (8 * q + 4))
  pub body : Holds o.msg.buffer 6 cipher
  pub blocks : length cipher ≡ 8 * q
  pub opens : decrypt k cipher ≡ some (load plain 6 (8 * q))
  pub inner : Holds plain 6 (le_bytes 2 m.length)
  pub content : (i : ℕ) → 8 ≤ i → i < 8 + m.length → plain i ≡ m.buffer i

-- After the inner length and the encryption, before the outer headers.
record IsSealed (k : Key) (m : NetworkMessage) (o : OutputMessage) : Type 0 where
  q : ℕ
  cipher : List ℕ
  plain : Buffer
  start : o.output_buffer_start ≡ 6
  total : o.msg.length ≡ 8 * q
  enough : m.length + 2 ≤ 8 * q
  tight : 8 * q ≤ m.length + 9
  body : Holds o.msg.buffer 6 cipher
  blocks : length cipher ≡ 8 * q
  opens : decrypt k cipher ≡ some (load plain 6 (8 * q))
  inner : Holds plain 6 (le_bytes 2 m.length)
  content : (i : ℕ) → 8 ≤ i → i < 8 + m.length → plain i ≡ m.buffer i

abbrev sealed_as : OutputMessage → List ℕ → OutputMessage
sealed_as o cipher =
    let m = o.msg in
    record o { msg = record m { buffer = store m.buffer o.output_buffer_start cipher } }

module _ (p : Protocol) where
  taken :
      (o : OutputMessage) (q : ℕ) (cipher : List ℕ)
      → (pad o).output_buffer_start ≡ 6
      → (pad o).msg.length ≡ 8 * q
      → encrypt p.key (load (pad o).msg.buffer 6 (8 * q)) ≡ some cipher
      → xtea_encrypt p o ≡ some (sealed_as (pad o) cipher)
  unfolding xtea_encrypt output
  taken o q cipher start total done =
      let o' = pad o in
      let e : encrypt p.key (load o'.msg.buffer o'.output_buffer_start o'.msg.length)
          ≡ some cipher =
        rw (start, total) done in
      rw e

module _ (p : Protocol) (m : NetworkMessage) (w : IsWritten m) where
  abbrev fresh : OutputMessage
  fresh = record { msg = m; output_buffer_start = 8 }

  sealed :
      (o₁ : OutputMessage)
      → IsHeaded 2 m.length fresh o₁
      → (o₂ : OutputMessage) × (xtea_encrypt p o₁ ≡ some o₂) × IsSealed p.key m o₂
  sealed o₁ h =
      let o' = pad o₁ in
      let buf = o'.msg.buffer in
      let q = (m.length + 9) / 8 in
      let start₁ : o₁.output_buffer_start ≡ 6 = omega (arith, h.start) in
      let padded =
        pad-IsPadded o₁ (omega (arith, h.position, w.at_end, w.room))
          (omega (arith, h.length, w.room)) in
      let start : o'.output_buffer_start ≡ 6 = padded.start ∙ start₁ in
      let total : o'.msg.length ≡ 8 * q = omega (arith, padded.length, h.length, w.room) in
      let bytes₁ : IsBytes o₁.msg.buffer =
        rw h.buffer (store-IsBytes m.buffer _ _ w.bytes (le_bytes-AreBytes 2 m.length)) in
      let inner₁ = rw start₁ at (IsHeaded-Holds 2 m.length fresh o₁ h) in
      let kept : (i : ℕ) → i < m.length + 8 → buf i ≡ o₁.msg.buffer i =
        λ i lt. padded.before i (omega (arith, h.position, w.at_end)) in
      let (cipher, done, _, same, undone) =
        decrypt-encrypt p.key (load buf 6 (8 * q)) (load-IsBlocks buf 6 q (padded.bytes bytes₁)) in
      (
        sealed_as o' cipher,
        taken p o₁ q cipher start total done,
        record {
          q = q;
          cipher = cipher;
          plain = buf;
          start = start;
          total = total;
          enough = omega arith;
          tight = omega arith;
          body = rw start (store-Holds buf 6 cipher);
          blocks = same ∙ length-load buf 6 (8 * q);
          opens = undone;
          inner =
              Holds-ext o₁.msg.buffer buf 6 _
                (λ i lo hi. kept i (omega (arith, length-le_bytes 2 m.length))) inner₁;
          content =
              λ i lo hi. kept i (omega arith) ∙ IsHeaded-outside 2 m.length fresh o₁ i h (inr lo);
        },
      )

  -- The checksum or the sequence number, and the outer length.
  framed :
      (o₂ : OutputMessage) (v : ℕ)
      → IsSealed p.key m o₂
      → let o₃ = headed 4 v o₂ in
        let o₄ = headed 2 o₃.msg.length o₃ in
        (add_header 4 v o₂ ≡ some o₃) × (write_message_length o₃ ≡ some o₄) × IsFrame p.key m o₄
  unfolding write_message_length
  framed o₂ v s =
      let o₃ = headed 4 v o₂ in
      let o₄ = headed 2 o₃.msg.length o₃ in
      let (e₃, h₃) = add_header_lem 4 v o₂ (omega (arith, s.start)) in
      let (e₄, h₄) = add_header_lem 2 o₃.msg.length o₃ (omega (arith, s.start)) in
      let start : o₄.output_buffer_start ≡ 0 = omega (arith, s.start) in
      let len₃ : o₃.msg.length ≡ 8 * s.q + 4 = omega (arith, s.total, s.tight, w.room) in
      let same : (i : ℕ) → 6 ≤ i → o₄.msg.buffer i ≡ o₂.msg.buffer i = λ i lo.
        IsHeaded-outside 2 o₃.msg.length o₃ o₄ i h₄ (inr (omega (arith, s.start)))
        ∙ IsHeaded-outside 4 v o₂ o₃ i h₃ (inr (omega (arith, s.start))) in
      let header =
        subst₂ (λ i bs. Holds o₄.msg.buffer i bs) start (ap (le_bytes 2) len₃)
          (IsHeaded-Holds 2 o₃.msg.length o₃ o₄ h₄) in
      (
        e₃,
        e₄,
        record {
          q = s.q;
          cipher = s.cipher;
          plain = s.plain;
          start = start;
          total = omega (arith, len₃, s.tight, w.room);
          enough = s.enough;
          tight = s.tight;
          header = header;
          body = Holds-ext o₂.msg.buffer o₄.msg.buffer 6 s.cipher (λ i lo hi. same i lo) s.body;
          blocks = s.blocks;
          opens = s.opens;
          inner = s.inner;
          content = s.content;
        },
      )

  mode : ℕ
  mode = if p.compact_crypt then 2 else if p.checksum_enabled then 1 else 0

  sent :
      (o₁ o₂ o₃ : OutputMessage) (n : ℕ)
      → p.raw_messages ≡ false
      → p.encryption_enabled ≡ true
      → write_message_length fresh ≡ some o₁
      → xtea_encrypt p o₁ ≡ some o₂
      → add_crypto_header mode p.sequence_number o₂ ≡ some (o₃, n)
      → on_send_message p fresh ≡ some (o₃, record p { sequence_number = n })
  unfolding on_send_message mode
  sent o₁ o₂ o₃ n raw enc e₁ e₂ e₃ = simp (raw, enc, e₁, e₂, e₃)

  abbrev enclosed : ℕ → OutputMessage → OutputMessage
  enclosed v o = let o' = headed 4 v o in headed 2 o'.msg.length o'

  -- Only the compact mode counts.
  abbrev next_sequence : ℕ
  next_sequence = if p.compact_crypt then u32 (p.sequence_number + 1) else p.sequence_number

  crypto_header :
      (o₂ : OutputMessage)
      → IsSealed p.key m o₂
      → (p.compact_crypt ≡ true) ⊎ (p.checksum_enabled ≡ true)
      → (o : OutputMessage) × (add_crypto_header mode p.sequence_number o₂
          ≡ some (o, next_sequence))
        × IsFrame p.key m o
  unfolding add_crypto_header mode
  crypto_header o₂ s numbered = elim (Bool-cases p.compact_crypt) [
    | inl compact ↦
        let (e₃, e₄, frame) = framed o₂ p.sequence_number s in
        (enclosed p.sequence_number o₂, simp (compact, e₃, e₄), frame)
    | inr plain ↦
        let v = adler_checksum (output o₂) in
        let (e₃, e₄, frame) = framed o₂ v s in
        let on : p.checksum_enabled ≡ true = ground arith in
        (enclosed v o₂, simp (plain, on, e₃, e₄), frame)
  ]

  -- An encrypting protocol that numbers or checks its messages frames every written message.
  pub on_send_message-IsFrame :
      p.raw_messages ≡ false
      → p.encryption_enabled ≡ true
      → (p.compact_crypt ≡ true) ⊎ (p.checksum_enabled ≡ true)
      → (o : OutputMessage) × (on_send_message p fresh
          ≡ some (o, record p { sequence_number = next_sequence }))
        × IsFrame p.key m o
  on_send_message-IsFrame raw enc numbered =
      let o₁ = headed 2 m.length fresh in
      let (e₁, h₁) = add_header_lem 2 m.length fresh (omega arith) in
      let e₁' : write_message_length fresh ≡ some o₁ = unfold write_message_length in e₁ in
      let (o₂, e₂, s) = sealed o₁ h₁ in
      let (o₃, e₃, frame) = crypto_header o₂ s numbered in
      (o₃, sent o₁ o₂ o₃ next_sequence raw enc e₁' e₂ e₃, frame)
