-- ===== src/Noise/Transport.antt =====
-- src/noise/transport.rs: a message as frames, each its length in four bytes and then its
-- ciphertext, up to a frame of length 0. Bytes are numbers. The sessions of the two sides are those
-- of the snow crate and are the parameter `Cipher`. A stream is the bytes that still arrive before
-- it fails or goes silent for too long.
use llamesh.Prelude.{
  ℕ, zero, suc, ◌+◌, ◌*◌, ◌/◌, ◌%◌, Option, none, some, List, [], ◌∷◌, ◌++◌, length, ltb, eqb,
  if◌then◌else◌,
}
use llamesh.Prelude.Word.{u32_mod}

abbrev pub Bytes : Type 0
Bytes = List ℕ

abbrev pub max_frame_size : ℕ
max_frame_size = 65519

abbrev pub max_message_size : ℕ
max_message_size = 67108864

-- A session on its sending and on its receiving side: the next state and the result of a call.
pub record Cipher : Type 1 where
  pub Sender : Type 0
  pub Receiver : Type 0
  pub encrypt : Sender → Bytes → Option (Sender × Bytes)
  pub decrypt : Receiver → Bytes → Option (Receiver × Bytes)

pub data TransportError : Type 0 where
  stream_failed frame_too_large message_too_large cipher_failed : TransportError

pub data Received (R : Type 0) : Type 0 where
  received : R → Bytes → Bytes → Received R
  failed : TransportError → Received R

-- `u32::to_be_bytes` and `u32::from_be_bytes`
abbrev pub to_be_bytes : ℕ → Bytes
to_be_bytes n = (n / 16777216) % 256 ∷ (n / 65536) % 256 ∷ (n / 256) % 256 ∷ n % 256 ∷ []

-- The first `n` bytes of a stream and the rest, if that many arrive.
unfoldable pub read_exact : ℕ → Bytes → Option (Bytes × Bytes)
read_exact zero stream = some ([], stream)
read_exact (suc n) [] = none
read_exact (suc n) (b ∷ stream) = elim (read_exact n stream) [
  | none ↦ none
  | some (bytes, rest) ↦ some (b ∷ bytes, rest)
]

-- The rounds of the loop of `recv_data`. Each takes four bytes at least off the stream, so its
-- length and one more are fuel enough.
unfoldable pub recv_loop : (c : Cipher) → ℕ → c.Receiver → Bytes → Bytes → Received c.Receiver
unfolding read_exact
recv_loop c zero session result stream = failed stream_failed
recv_loop c (suc fuel) session result (b3 ∷ b2 ∷ b1 ∷ b0 ∷ stream) =
    let len = b3 * 16777216 + b2 * 65536 + b1 * 256 + b0 in
    if eqb len 0
    then received session result stream
    else if ltb (max_frame_size + 16) len
    then failed frame_too_large
    else elim (read_exact len stream) [
      | none ↦ failed stream_failed
      | some (encrypted, rest) ↦ elim (c.decrypt session encrypted) [
        | none ↦ failed cipher_failed
        | some (session', decrypted) ↦
            let result' = result ++ decrypted in
            let next = recv_loop c fuel session' result' rest in
            if ltb max_message_size (length result') then failed message_too_large else next
      ]
    ]
recv_loop c (suc fuel) session result stream = failed stream_failed

unfoldable pub recv_data : (c : Cipher) → c.Receiver → Bytes → Received c.Receiver
unfolding recv_loop
recv_data c session stream = recv_loop c (suc (length stream)) session [] stream

-- `split_at`: the first bytes, as many as there are up to `n`, and the others.
unfoldable pub split_at : ℕ → Bytes → Bytes × Bytes
split_at zero bytes = ([], bytes)
split_at (suc n) [] = ([], [])
split_at (suc n) (b ∷ bytes) = let (first, rest) = split_at n bytes in (b ∷ first, rest)

-- `chunks(n)`, on fuel for the length of the data.
unfoldable pub chunks : ℕ → ℕ → Bytes → List Bytes
unfolding split_at
chunks zero n bytes = []
chunks (suc fuel) n [] = []
chunks (suc fuel) n (b ∷ bytes) =
    let (first, rest) = split_at n (b ∷ bytes) in first ∷ chunks fuel n rest

-- The bytes written for the chunks, where each could be encrypted.
unfoldable pub send_chunks : (c : Cipher) → c.Sender → List Bytes → Option (c.Sender × Bytes)
send_chunks c session [] = some (session, to_be_bytes 0)
send_chunks c session (chunk ∷ rest) = elim (c.encrypt session chunk) [
  | none ↦ none
  | some (session', encrypted) ↦ elim (send_chunks c session' rest) [
    | none ↦ none
    | some (final, written) ↦
        some (final, to_be_bytes (length encrypted % u32_mod) ++ encrypted ++ written)
  ]
]

unfoldable pub send_data : (c : Cipher) → c.Sender → Bytes → Option (c.Sender × Bytes)
unfolding chunks send_chunks
send_data c session bytes = send_chunks c session (chunks (length bytes) max_frame_size bytes)
