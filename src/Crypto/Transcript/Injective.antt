-- ===== src/Crypto/Transcript/Injective.antt =====
-- What is signed determines the bytes that are signed, and these determine it: across the four kinds
-- of transcripts.
use veilroom.Prelude.{
  All, Bytes, IsScalar, List, Text, [], ap, append-nil, append_assoc, arith, as_bytes,
  as_bytes-injective, byte_range, encode_utf8, get_elem?, length, some, sym, to_be_bytes, ℕ, ◌<◌,
  ◌∙◌, ◌∷◌, ◌≡◌,
}
use veilroom.Crypto.Transcript.{
  HostHelloTranscriptInput, JoinRequestTranscriptInput, host_hello_transcript,
  join_request_transcript, room_event_transcript, chat_transcript, host_hello_label,
  join_request_label, room_event_label, chat_message_label,
}
use veilroom.Crypto.Transcript.Fields.{
  Field, byte, number, counted, raw, write, SameShape, write-injective,
}

-- What a signature of the protocol is on.
pub data Statement : Type 0 where
  host_hello : HostHelloTranscriptInput → Statement
  join_request : JoinRequestTranscriptInput → Statement
  -- The version, the room, the sequence, the epoch, the type and the body.
  room_event : ℕ → Bytes → ℕ → ℕ → ℕ → Bytes → Statement
  -- The version, the room, the epoch, the sender, its sequence, the type, the nonce, the ciphertext.
  chat_message : ℕ → Bytes → ℕ → ℕ → ℕ → ℕ → Bytes → Bytes → Statement

abbrev pub transcript : Statement → Bytes
transcript (host_hello i) = host_hello_transcript i
transcript (join_request i) = join_request_transcript i
transcript (room_event v room q e t body) = room_event_transcript v room q e t body
transcript (chat_message v room e s q t nonce c) = chat_transcript v room e s q t nonce c

abbrev label_field : Text → Field
label_field name = counted (as_bytes name)

fields : Statement → List Field
fields (host_hello i) =
    label_field host_hello_label
    ∷ byte i.version
    ∷ counted (as_bytes i.onion_address)
    ∷ number 2 i.virtual_port
    ∷ raw i.room_session_id
    ∷ raw i.host_ed25519_pubkey
    ∷ raw i.host_x25519_pubkey
    ∷ raw i.client_nonce
    ∷ raw i.server_nonce
    ∷ raw i.token_hash
    ∷ byte i.offered_version
    ∷ number 4 i.client_features
    ∷ []
fields (join_request i) =
    label_field join_request_label
    ∷ byte i.version
    ∷ raw i.room_session_id
    ∷ raw i.client_nonce
    ∷ raw i.server_nonce
    ∷ counted (as_bytes i.nickname)
    ∷ raw i.introduction_hash
    ∷ raw i.participant_ed25519_pubkey
    ∷ raw i.participant_x25519_pubkey
    ∷ counted (as_bytes i.onion_address)
    ∷ raw i.token_hash
    ∷ []
fields (room_event v room q e t body) =
    label_field room_event_label
    ∷ byte v
    ∷ raw room
    ∷ number 8 q
    ∷ number 8 e
    ∷ byte t
    ∷ counted body
    ∷ []
fields (chat_message v room e s q t nonce c) =
    label_field chat_message_label
    ∷ byte v
    ∷ raw room
    ∷ number 8 e
    ∷ number 8 s
    ∷ number 8 q
    ∷ byte t
    ∷ raw nonce
    ∷ counted c
    ∷ []

transcript-write : (a : Statement) → transcript a ≡ write (fields a) []
unfolding fields host_hello_transcript join_request_transcript room_event_transcript chat_transcript
transcript-write (host_hello i) = simp (append_assoc, append-nil)
transcript-write (join_request i) = simp (append_assoc, append-nil)
transcript-write (room_event v room q e t body) = simp (append_assoc, append-nil)
transcript-write (chat_message v room e s q t nonce c) = simp (append_assoc, append-nil)

-- The first letter after `VEILROOM-`.
letter : Statement → ℕ
letter (host_hello i) = b'H'
letter (join_request i) = b'J'
letter (room_event v room q e t body) = b'R'
letter (chat_message v room e s q t nonce c) = b'C'

get_elem?-transcript : (a : Statement) → get_elem? (transcript a) 13 ≡ some (letter a)
unfolding letter fields as_bytes encode_utf8 to_be_bytes
get_elem?-transcript (host_hello i) = ap (λ b. get_elem? b 13) (transcript-write (host_hello i))
get_elem?-transcript (join_request i) = ap (λ b. get_elem? b 13) (transcript-write (join_request i))
get_elem?-transcript (room_event v room q e t body) =
    ap (λ b. get_elem? b 13) (transcript-write (room_event v room q e t body))
get_elem?-transcript (chat_message v room e s q t nonce c) =
    ap (λ b. get_elem? b 13) (transcript-write (chat_message v room e s q t nonce c))

-- A text of scalar values whose bytes a `u32` can count.
abbrev pub IsText : Text → Type 0
IsText t = All IsScalar t × (length (as_bytes t) < byte_range 4)

-- The sizes that the types of the program fix: keys and hashes of 32 bytes, nonces of
-- 16 and 24, and machine integers.
abbrev pub IsSized : Statement → Type 0
IsSized (host_hello i) =
    IsText i.onion_address
    × (i.virtual_port < byte_range 2)
    × (length i.room_session_id ≡ 32)
    × (length i.host_ed25519_pubkey ≡ 32)
    × (length i.host_x25519_pubkey ≡ 32)
    × (length i.client_nonce ≡ 16)
    × (length i.server_nonce ≡ 16)
    × (length i.token_hash ≡ 32)
    × (i.client_features < byte_range 4)
IsSized (join_request i) =
    (length i.room_session_id ≡ 32)
    × (length i.client_nonce ≡ 16)
    × (length i.server_nonce ≡ 16)
    × IsText i.nickname
    × (length i.introduction_hash ≡ 32)
    × (length i.participant_ed25519_pubkey ≡ 32)
    × (length i.participant_x25519_pubkey ≡ 32)
    × IsText i.onion_address
    × (length i.token_hash ≡ 32)
IsSized (room_event v room q e t body) =
    (length room ≡ 32) × (q < byte_range 8) × (e < byte_range 8) × (length body < byte_range 4)
IsSized (chat_message v room e s q t nonce c) =
    (length room ≡ 32)
    × (e < byte_range 8)
    × (s < byte_range 8)
    × (q < byte_range 8)
    × (length nonce ≡ 24)
    × (length c < byte_range 4)

same_fields :
    (a b : Statement)
    → SameShape (fields a) (fields b)
    → transcript a ≡ transcript b
    → fields a ≡ fields b
same_fields a b h e =
    (write-injective (fields a) (fields b) [] [] h
      (sym (transcript-write a) ∙ e ∙ transcript-write b)).0

-- The fields of two statements of one kind have the same shapes.
abbrev SameKind : Statement → Statement → Type 0
SameKind a b = IsSized a → IsSized b → SameShape (fields a) (fields b)

host_hello-SameKind : (i j : HostHelloTranscriptInput) → SameKind (host_hello i) (host_hello j)
unfolding fields as_bytes encode_utf8
host_hello-SameKind i j h k = ground arith

join_request-SameKind :
    (i j : JoinRequestTranscriptInput) → SameKind (join_request i) (join_request j)
unfolding fields as_bytes encode_utf8
join_request-SameKind i j h k = ground arith

room_event-SameKind :
    (v : ℕ) (room : Bytes) (q e t : ℕ) (body : Bytes) (v' : ℕ) (room' : Bytes) (q' e' t' : ℕ)
    (body' : Bytes)
    → SameKind (room_event v room q e t body) (room_event v' room' q' e' t' body')
unfolding fields as_bytes encode_utf8
room_event-SameKind v room q e t body v' room' q' e' t' body' h k = ground arith

chat_message-SameKind :
    (v : ℕ) (room : Bytes) (e s q t : ℕ) (nonce c : Bytes) (v' : ℕ) (room' : Bytes)
    (e' s' q' t' : ℕ) (nonce' c' : Bytes)
    → SameKind (chat_message v room e s q t nonce c) (chat_message v' room' e' s' q' t' nonce' c')
unfolding fields as_bytes encode_utf8
chat_message-SameKind v room e s q t nonce c v' room' e' s' q' t' nonce' c' h k = ground arith

host_hello-fields :
    (i j : HostHelloTranscriptInput)
    → IsSized (host_hello i)
    → IsSized (host_hello j)
    → fields (host_hello i) ≡ fields (host_hello j)
    → host_hello i ≡ host_hello j
unfolding fields
host_hello-fields i j h k e =
    let address = as_bytes-injective i.onion_address j.onion_address h.0.0 k.0.0 (cc) in cc

join_request-fields :
    (i j : JoinRequestTranscriptInput)
    → IsSized (join_request i)
    → IsSized (join_request j)
    → fields (join_request i) ≡ fields (join_request j)
    → join_request i ≡ join_request j
unfolding fields
join_request-fields i j h k e =
    let address = as_bytes-injective i.onion_address j.onion_address h.7.0 k.7.0 (cc) in
    let name = as_bytes-injective i.nickname j.nickname h.3.0 k.3.0 (cc) in cc

-- What a signature covers says which kind of statement is signed and every field of it: two statements
-- of the protocol with the same transcript are equal, when their texts hold scalar values and are
-- shorter than 2^32 bytes, and their keys, nonces, hashes and numbers have the sizes of their types.
pub transcript-injective :
    (a b : Statement) → IsSized a → IsSized b → transcript a ≡ transcript b → a ≡ b
unfolding letter fields
transcript-injective (host_hello i) (host_hello j) h k e =
    host_hello-fields i j h k
      (same_fields (host_hello i) (host_hello j) (host_hello-SameKind i j h k) e)
transcript-injective (join_request i) (join_request j) h k e =
    join_request-fields i j h k
      (same_fields (join_request i) (join_request j) (join_request-SameKind i j h k) e)
transcript-injective (room_event v room q p t body) (room_event v' room' q' p' t' body') h k e =
    let same =
      same_fields (room_event v room q p t body) (room_event v' room' q' p' t' body')
        (room_event-SameKind v room q p t body v' room' q' p' t' body' h k) e in
    cc
transcript-injective (chat_message v room p s q t n c) (chat_message v' room' p' s' q' t' n' c') h k
      e =
    let same =
      same_fields (chat_message v room p s q t n c) (chat_message v' room' p' s' q' t' n' c')
        (chat_message-SameKind v room p s q t n c v' room' p' s' q' t' n' c' h k) e in
    cc
transcript-injective a b h k e =
    let letters : some (letter a) ≡ some (letter b) =
      sym (get_elem?-transcript a) ∙ ap (λ x. get_elem? x 13) e ∙ get_elem?-transcript b in
    absurd (ground arith)
