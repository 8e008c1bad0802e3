-- ===== src/Server/Messages.antt =====
-- src/server.rs: what the `match` of the loop keeps is kept by the handling of a whole message.
use herbert.Prelude.{ℕ, ◌≡◌, refl, Option, none, some, [], ◌∷◌, Bytes}
use herbert.Prelude.Int.{ℤ}
use herbert.Arrow.{Arrow}
use herbert.BufWriter.{OsFile}
use herbert.Storage.Record.{RecordStorage}
use herbert.OffsetManager.Operations.{Json, OffsetFile}
use herbert.Server.Dispatch.{
  ApiKey, RequestHeader, Protocol, Served, dispatch, i16_be, handle_header, handle_key,
  handle_message,
}

-- The message has this header, and these bytes are behind it.
abbrev pub HasHeader : Protocol → (message : Bytes) → RequestHeader → (buffer : Bytes) → Type 0
HasHeader protocol message h buffer =
    (version : ℤ) × (protocol.decode_header message version ≡ some (h, buffer))

module _ {Schema Batch Fault S : Type 0} (arrow : Arrow Schema Batch Fault) (os : OsFile)
    (storage : RecordStorage Batch Fault S) (json : Json) (disk : OffsetFile)
    (protocol : Protocol) where
  abbrev pub State : Type 0
  State = Served arrow os storage json disk protocol

  module _ (P : State → Type 0) (message : Bytes)
      (dispatch_keeps : (key : Option ApiKey) (h : RequestHeader) (size : ℕ) (version : ℤ)
          (buffer : Bytes) (s : State)
        → HasHeader protocol message h buffer
        → P s
        → P (dispatch arrow os storage json disk protocol key h size version buffer s).1) where
    header_keeps :
        (d : RequestHeader × Bytes) (version api_version : ℤ) (s : State) (size : Option ℕ)
        → protocol.header_size d.0.correlation_id version ≡ size
        → HasHeader protocol message d.0 d.1
        → P s
        → P (handle_header arrow os storage json disk protocol d version api_version s).1
    unfolding handle_header
    header_keeps d version api_version s none e has p = rw (e, handle_header) p
    header_keeps d version api_version s (some size) e has p =
        rw (e, handle_header) (dispatch_keeps _ d.0 size api_version d.1 s has p)

    key_keeps :
        (key : ApiKey) (api_version : ℤ) (s : State) (decoded : Option (RequestHeader × Bytes))
        → protocol.decode_header message (protocol.request_header_version key api_version) ≡ decoded
        → P s
        → P (handle_key arrow os storage json disk protocol key api_version message s).1
    unfolding handle_key
    key_keeps key api_version s none e p = rw (e, handle_key) p
    key_keeps key api_version s (some d) e p =
        rw (e, handle_key) (header_keeps d _ api_version s _ refl (_, e) p)

  module _ (P : State → Type 0) where
    abbrev KeepsDispatch : Bytes → Type 0
    KeepsDispatch message =
        (key : Option ApiKey) (h : RequestHeader) (size : ℕ) (version : ℤ) (buffer : Bytes)
        (s : State)
        → HasHeader protocol message h buffer
        → P s
        → P (dispatch arrow os storage json disk protocol key h size version buffer s).1

    message_keeps :
        (a b c d : ℕ) (rest : Bytes) (s : State) (key : Option ApiKey)
        → KeepsDispatch (a ∷ b ∷ c ∷ d ∷ rest)
        → protocol.api_key (i16_be a b) ≡ key
        → P s
        → P (handle_message arrow os storage json disk protocol (a ∷ b ∷ c ∷ d ∷ rest) s).1
    unfolding handle_message
    message_keeps a b c d rest s none keeps e p = rw (e, handle_message) p
    message_keeps a b c d rest s (some key) keeps e p =
        rw (e, handle_message)
          (key_keeps P (a ∷ b ∷ c ∷ d ∷ rest) keeps key (i16_be c d) s _ refl p)

    pub handle_message_keeps :
        (message : Bytes)
        → KeepsDispatch message
        → (s : State) → P s
        → P (handle_message arrow os storage json disk protocol message s).1
    unfolding handle_message
    handle_message_keeps [] keeps s p = p
    handle_message_keeps (a ∷ []) keeps s p = p
    handle_message_keeps (a ∷ b ∷ []) keeps s p = p
    handle_message_keeps (a ∷ b ∷ c ∷ []) keeps s p = p
    handle_message_keeps (a ∷ b ∷ c ∷ d ∷ rest) keeps s p =
        message_keeps a b c d rest s _ keeps refl p
