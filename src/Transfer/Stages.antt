-- ===== src/Transfer/Stages.antt =====
-- Where the file transfer of lab3 stands: each stage with what is written, on its way and left to read.
use protocoale.Base.{ℕ, ◌<◌, ◌%◌, ◌^◌, ◌≡◌, ◌≢◌, List, [], ◌∷◌, ◌++◌, length}
use protocoale.Bytes.{read_bytes}
use protocoale.Transfer.{
  Msg, naming, awaiting_name, reading, awaiting, sender_done, receiving_name, looping, Session,
}

-- The receiver has the length of the file, and is in its loop, which it does not leave if the
-- file has a byte and its length fits into an `int`.
pub record InLoop (s : Session) (file : List ℕ) : Type 0 where
  pub stays : file ≢ [] → length file < 2 ^ 31 → s.receiver ≡ looping
  pub started : s.receiver ≢ receiving_name
  pub size : s.file_size ≡ length file % 2 ^ 32
  pub unchanged : s.check ≡ 0

-- The bytes that this message brings.
abbrev pub bytes_of : Msg → List ℕ
bytes_of m = read_bytes m.payload.payload 0 m.len

pub data Phase (s : Session) (file : List ℕ) : Type 0 where
  begins :
      s.sender ≡ naming
      → s.receiver ≡ receiving_name
      → s.size ≡ length file % 2 ^ 32
      → s.check ≡ 0
      → s.rest ≡ file
      → s.written ≡ []
      → s.to_receiver ≡ []
      → s.to_sender ≡ []
      → Phase s file
  named :
      (m : Msg)
      → s.sender ≡ awaiting_name
      → s.receiver ≡ receiving_name
      → m.len ≡ length file % 2 ^ 32
      → s.check ≡ 0
      → s.rest ≡ file
      → s.written ≡ []
      → s.to_receiver ≡ m ∷ []
      → s.to_sender ≡ []
      → Phase s file
  name_answered :
      (m : Msg)
      → s.sender ≡ awaiting_name
      → InLoop s file
      → s.written ++ s.rest ≡ file
      → s.to_receiver ≡ []
      → s.to_sender ≡ m ∷ []
      → Phase s file
  ready :
      s.sender ≡ reading
      → InLoop s file
      → s.written ++ s.rest ≡ file
      → s.to_receiver ≡ []
      → s.to_sender ≡ []
      → Phase s file
  flying :
      (m : Msg)
      → s.sender ≡ awaiting
      → InLoop s file
      → file ≢ []
      → s.written ++ bytes_of m ++ s.rest ≡ file
      → s.to_receiver ≡ m ∷ []
      → s.to_sender ≡ []
      → Phase s file
  answered :
      (m : Msg)
      → s.sender ≡ awaiting
      → InLoop s file
      → s.written ++ s.rest ≡ file
      → s.to_receiver ≡ []
      → s.to_sender ≡ m ∷ []
      → Phase s file
  ended :
      s.sender ≡ sender_done
      → InLoop s file
      → s.written ≡ file
      → s.rest ≡ []
      → s.to_receiver ≡ []
      → s.to_sender ≡ []
      → Phase s file
