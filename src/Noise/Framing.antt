-- ===== src/Noise/Framing.antt =====
-- src/noise/transport.rs: what is sent is received, whatever follows it on the stream.
use llamesh.Prelude.{
  ℕ, zero, suc, ◌+◌, ◌*◌, ◌/◌, ◌%◌, ◌≤◌, ◌<◌, ◌≡◌, refl, sym, ap, ◌∙◌, false, none, some, List, [],
  ◌∷◌, ◌++◌, All, arith, length, length-append, ltb, eqb, if◌then◌else◌, Bool-cases, Option-cases,
  inl, inr,
}
use mathlib.Core.Path.{subst}
use mathlib.Core.Option.{some-injective}
use llamesh.Prelude.Word.{u32_mod}
use llamesh.Noise.Transport.{
  Bytes, Cipher, Received, received, failed, message_too_large, max_frame_size, max_message_size,
  to_be_bytes, read_exact, recv_loop, recv_data, split_at, chunks, send_chunks, send_data,
}

-- The two sides of a session that has lost no message: a receiver in step with a sender decrypts
-- what it encrypts next, 16 bytes longer than the chunk, and stays in step.
pub record IsSession (c : Cipher) : Type 1 where
  pub InStep : c.Sender → c.Receiver → Type 0
  pub transports :
      (s s' : c.Sender) (r : c.Receiver) (chunk encrypted : Bytes)
      → InStep s r
      → c.encrypt s chunk ≡ some (s', encrypted)
      → (length encrypted ≡ length chunk + 16)
        × (r' : c.Receiver) × (c.decrypt r encrypted ≡ some (r', chunk))
        × InStep s' r'

be_bytes :
    (n : ℕ)
    → n < 65536
    → (n / 16777216) % 256 * 16777216 + (n / 65536) % 256 * 65536 + (n / 256) % 256 * 256 + n % 256
      ≡ n
be_bytes n h = omega arith

read_exact_append : (e rest : Bytes) → read_exact (length e) (e ++ rest) ≡ some (e, rest)
unfolding read_exact
read_exact_append [] rest = refl
read_exact_append (b ∷ e) rest = rw (read_exact_append e rest) refl

append_assoc : (a b c : Bytes) → (a ++ b) ++ c ≡ a ++ (b ++ c)
append_assoc [] b c = refl
append_assoc (x ∷ a) b c = ap (λ t. x ∷ t) (append_assoc a b c)

-- One round of the loop on a frame that decrypts.
recv_frame :
    (c : Cipher) (fuel : ℕ) (r r' : c.Receiver) (result e d rest : Bytes)
    → 0 < length e
    → length e < 65536
    → c.decrypt r e ≡ some (r', d)
    → recv_loop c (suc fuel) r result (to_be_bytes (length e % u32_mod) ++ (e ++ rest)) ≡ (
        if ltb max_message_size (length (result ++ d))
        then failed message_too_large
        else recv_loop c fuel r' (result ++ d) rest)
unfolding recv_loop
recv_frame c fuel r r' result e d rest pos small dec =
    rw (word, be_bytes (length e) small, full, fits, read_exact_append e rest, dec) refl
  where
    word : length e % u32_mod ≡ length e
    word = omega arith

    full : eqb (length e) 0 ≡ false
    full = ground arith

    fits : ltb 65535 (length e) ≡ false
    fits = ground arith

abbrev pub concat : List Bytes → Bytes
concat [] = []
concat (chunk ∷ rest) = chunk ++ concat rest

abbrev IsChunk : ℕ → Bytes → Type 0
IsChunk n chunk = (0 < length chunk) × (length chunk ≤ n)

-- A receiver with `result` so far, before bytes `sent` by a sender that is left in a state.
abbrev Delivers :
    (c : Cipher) (law : IsSession c)
    → ℕ
    → c.Receiver
    → Bytes
    → List Bytes
    → Bytes
    → c.Sender × Bytes
    → Type 0
Delivers c law fuel r result cs rest (s', sent) =
    (r' : c.Receiver) × (recv_loop c fuel r result (sent ++ rest)
      ≡ received r' (result ++ concat cs) rest)
    × law.InStep s' r'

append_nil : (a : Bytes) → a ++ [] ≡ a
append_nil [] = refl
append_nil (x ∷ a) = ap (λ t. x ∷ t) (append_nil a)

sends_end : (c : Cipher) (s : c.Sender) → send_chunks c s [] ≡ some (s, to_be_bytes 0)
unfolding send_chunks
sends_end c s = refl

recv_end :
    (c : Cipher) (fuel : ℕ) (r : c.Receiver) (result rest : Bytes)
    → recv_loop c (suc fuel) r result (to_be_bytes 0 ++ rest) ≡ received r result rest
unfolding recv_loop
recv_end c fuel r result rest = refl

module _ (c : Cipher) (s s1 : c.Sender) (chunk e1 : Bytes) (cs : List Bytes) where
  no_chunk : c.encrypt s chunk ≡ none → send_chunks c s (chunk ∷ cs) ≡ none
  unfolding send_chunks
  no_chunk n = ground arith

  no_rest :
      c.encrypt s chunk ≡ some (s1, e1)
      → send_chunks c s1 cs ≡ none
      → send_chunks c s (chunk ∷ cs) ≡ none
  unfolding send_chunks
  no_rest k n = ground arith

  sends_chunk :
      (q : c.Sender × Bytes)
      → c.encrypt s chunk ≡ some (s1, e1)
      → send_chunks c s1 cs ≡ some q
      → send_chunks c s (chunk ∷ cs) ≡ some (q.0, to_be_bytes (length e1 % u32_mod) ++ (e1 ++ q.1))
  unfolding send_chunks
  sends_chunk q k n = ground arith

-- A part of a message is within the limit where the whole is.
within :
    (a b t : Bytes)
    → length (a ++ (b ++ t)) ≤ max_message_size
    → ltb max_message_size (length (a ++ b)) ≡ false
within a b t m = ground (arith, length-append a (b ++ t), length-append b t, length-append a b)

module _ (c : Cipher) (law : IsSession c) (rest : Bytes) where
  recv_chunks :
      (cs : List Bytes) (fuel : ℕ) (s : c.Sender) (r : c.Receiver) (result : Bytes)
      (p : c.Sender × Bytes)
      → send_chunks c s cs ≡ some p
      → law.InStep s r
      → All (IsChunk max_frame_size) cs
      → length cs < fuel
      → length (result ++ concat cs) ≤ max_message_size
      → Delivers c law fuel r result cs rest p
  recv_chunks cs zero s r result p e i a l m = ground arith
  recv_chunks [] (suc fuel) s r result p e i a l m =
      subst (λ q. Delivers c law (suc fuel) r result [] rest q)
        (some-injective (s, to_be_bytes 0) p (sym (sends_end c s) ∙ e))
        (
          r,
          recv_end c fuel r result rest ∙ ap (λ x. received r x rest) (sym (append_nil result)),
          i,
        )
  recv_chunks (chunk ∷ cs) (suc fuel) s r result p e i (size, a) l m =
      elim (Option-cases (c.encrypt s chunk)) [
        | inl n ↦ ground (arith, sym e ∙ no_chunk c s s chunk [] cs n)
        | inr ((s1, e1), k) ↦ elim (Option-cases (send_chunks c s1 cs)) [
          | inl n ↦ ground (arith, sym e ∙ no_rest c s s1 chunk e1 cs k n)
          | inr (q, k2) ↦
              let (long, r1, dec, i1) = law.transports s s1 r chunk e1 i k in
              let (r', run, i') =
                recv_chunks cs fuel s1 r1 (result ++ chunk) q k2 i1 a (omega arith)
                  (rw (append_assoc result chunk (concat cs)) m) in
              subst (λ x. Delivers c law (suc fuel) r result (chunk ∷ cs) rest x)
                (some-injective (q.0, to_be_bytes (length e1 % u32_mod) ++ (e1 ++ q.1)) p
                  (sym (sends_chunk c s s1 chunk e1 cs q k k2) ∙ e))
                (
                  r',
                  ap (λ t. recv_loop c (suc fuel) r result (to_be_bytes (length e1 % u32_mod) ++ t))
                        (append_assoc e1 q.1 rest)
                      ∙ recv_frame c fuel r r1 result e1 chunk (q.1 ++ rest) (omega arith)
                          (omega arith) dec
                      ∙ rw (within result chunk (concat cs) m) run
                      ∙ ap (λ x. received r' x rest) (append_assoc result chunk (concat cs)),
                  i',
                )
        ]
      ]

-- `split_at` cuts a list in two, and the first part is as long as asked or is everything.
split_at-Splits :
    (n : ℕ) (bytes : Bytes)
    → ((split_at n bytes).0 ++ (split_at n bytes).1 ≡ bytes)
      × (length (split_at n bytes).0 ≤ n)
      × (length (split_at n bytes).0 + length (split_at n bytes).1 ≡ length bytes)
unfolding split_at
split_at-Splits zero bytes = (refl, omega arith, omega arith)
split_at-Splits (suc n) [] = (refl, omega arith, refl)
split_at-Splits (suc n) (b ∷ bytes) =
    let (whole, short, all) = split_at-Splits n bytes in
    (ap (λ t. b ∷ t) whole, omega arith, omega arith)

split_at-full : (n b : ℕ) (bytes : Bytes) → 0 < n → 0 < length (split_at n (b ∷ bytes)).0
unfolding split_at
split_at-full zero b bytes h = h
split_at-full (suc n) b bytes h = omega arith

chunks-Covers :
    (n fuel : ℕ) (bytes : Bytes)
    → 0 < n
    → length bytes ≤ fuel
    → (concat (chunks fuel n bytes) ≡ bytes)
      × All (IsChunk n) (chunks fuel n bytes)
      × (length (chunks fuel n bytes) ≤ length bytes)
unfolding chunks
chunks-Covers n zero [] pos h = (refl, tt, omega arith)
chunks-Covers n zero (b ∷ bytes) pos h = ground arith
chunks-Covers n (suc fuel) [] pos h = (refl, tt, omega arith)
chunks-Covers n (suc fuel) (b ∷ bytes) pos h =
    let (whole, short, all) = split_at-Splits n (b ∷ bytes) in
    let full = split_at-full n b bytes pos in
    let (covers, fit, few) = chunks-Covers n fuel (split_at n (b ∷ bytes)).1 pos (omega arith) in
    (ap (λ t. (split_at n (b ∷ bytes)).0 ++ t) covers ∙ whole, ((full, short), fit), omega arith)

-- Each chunk takes a byte of the stream at least, so the loop has fuel enough.
sent-Covers :
    (c : Cipher) (cs : List Bytes) (s : c.Sender) (p : c.Sender × Bytes)
    → send_chunks c s cs ≡ some p
    → length cs ≤ length p.1
sent-Covers c [] s p e = omega arith
sent-Covers c (chunk ∷ cs) s p e = elim (Option-cases (c.encrypt s chunk)) [
  | inl n ↦ ground (arith, sym e ∙ no_chunk c s s chunk [] cs n)
  | inr ((s1, e1), k) ↦ elim (Option-cases (send_chunks c s1 cs)) [
    | inl n ↦ ground (arith, sym e ∙ no_rest c s s1 chunk e1 cs k n)
    | inr (q, k2) ↦
        subst (λ (x : c.Sender × Bytes). suc (length cs) ≤ length x.1)
          (some-injective (q.0, to_be_bytes (length e1 % u32_mod) ++ (e1 ++ q.1)) p
            (sym (sends_chunk c s s1 chunk e1 cs q k k2) ∙ e))
          (omega (arith, sent-Covers c cs s1 q k2, length-append e1 q.1))
  ]
]

-- What is sent is received: where the sender could encrypt every frame, a receiver in step with it
-- reads exactly the bytes that were sent, of up to 64 MiB, leaves what follows on the stream, and
-- is in step again.
pub recv_data-send_data :
    (c : Cipher) (law : IsSession c) (s s' : c.Sender) (r : c.Receiver) (bytes sent rest : Bytes)
    → law.InStep s r
    → send_data c s bytes ≡ some (s', sent)
    → length bytes ≤ max_message_size
    → (r' : c.Receiver) × (recv_data c r (sent ++ rest) ≡ received r' bytes rest) × law.InStep s' r'
unfolding send_data recv_data
recv_data-send_data c law s s' r bytes sent rest i e m =
    let (covers, fit, few) =
      chunks-Covers max_frame_size (length bytes) bytes (omega arith) (omega arith) in
    let many = sent-Covers c (chunks (length bytes) max_frame_size bytes) s (s', sent) e in
    let (r', run, i') =
      recv_chunks c law rest (chunks (length bytes) max_frame_size bytes)
        (suc (length (sent ++ rest))) s r [] (s', sent) e i fit
        (omega (arith, length-append sent rest, many)) (rw covers m) in
    (r', run ∙ ap (λ x. received r' x rest) covers, i')

abbrev pub IsBounded : {R : Type 0} → Received R → Type 0
IsBounded (received r bytes rest) = length bytes ≤ max_message_size
IsBounded (failed e) = Unit

recv_loop-IsBounded :
    (c : Cipher) (fuel : ℕ) (r : c.Receiver) (result stream : Bytes)
    → length result ≤ max_message_size
    → IsBounded (recv_loop c fuel r result stream)
unfolding recv_loop
recv_loop-IsBounded c zero r result stream m = tt
recv_loop-IsBounded c (suc fuel) r result [] m = tt
recv_loop-IsBounded c (suc fuel) r result (b3 ∷ []) m = tt
recv_loop-IsBounded c (suc fuel) r result (b3 ∷ b2 ∷ []) m = tt
recv_loop-IsBounded c (suc fuel) r result (b3 ∷ b2 ∷ b1 ∷ []) m = tt
recv_loop-IsBounded c (suc fuel) r result (b3 ∷ b2 ∷ b1 ∷ b0 ∷ stream) m =
    let len : ℕ = b3 * 16777216 + b2 * 65536 + b1 * 256 + b0 in
    elim (Bool-cases (eqb len 0)) [
      | inl last ↦ rw last m
      | inr more ↦ elim (Bool-cases (ltb 65535 len)) [
        | inl large ↦ rw (more, large) tt
        | inr small ↦ elim (Option-cases (read_exact len stream)) [
          | inl n ↦ rw (more, small, n) tt
          | inr ((encrypted, rest), k) ↦ elim (Option-cases (c.decrypt r encrypted)) [
            | inl n ↦ rw (more, small, k, n) tt
            | inr ((r', decrypted), k2) ↦
                rw (more, small, k, k2)
                  (elim (Bool-cases (ltb max_message_size (length (result ++ decrypted)))) [
                    | inl t ↦ rw t tt
                    | inr t ↦
                        rw t
                          (recv_loop-IsBounded c fuel r' (result ++ decrypted) rest (ground arith))
                  ])
          ]
        ]
      ]
    ]

-- A message that is received is of 64 MiB at most, whatever the peer sends.
pub recv_data-IsBounded :
    (c : Cipher) (r : c.Receiver) (stream : Bytes) → IsBounded (recv_data c r stream)
unfolding recv_data
recv_data-IsBounded c r stream =
    recv_loop-IsBounded c (suc (length stream)) r [] stream (omega arith)
