-- ===== src/Names/History/Answers.antt =====
-- The answers that the tables of a history give.
use protocoale.Base.{
  ℕ, ◌+◌, ◌<◌, ◌≡◌, refl, ap, ◌∙◌, arith, none, some, List, [], ◌∷◌, ◌++◌, map, length,
  length-append,
}
use protocoale.Text.{starts_with, zero_filled}
use protocoale.Text.Prefix.{Without, Without-append, string_in-Without}
use protocoale.Names.{
  String, buflen, Tables, no_tables, serves, fault, tokenize, command, reply_address, reply_name,
  reply_mail, serve,
}
use protocoale.Names.Split.{IsSplit, split-two, split-three, split-one}
use protocoale.Names.Lookups.{
  extend, addresses-concat, last_of, AllShort, mail_servers-last_of, last_of-short,
}
use protocoale.Http.Text.Strcat.{strcat_fits}
use protocoale.Names.History.{
  Addition, address, name, mail, Question, address_of, name_of, mail_of, addition_text,
  question_text, IsWord, FitsTwo, Fits, AllFit, QuestionFits, mails_of, names_of, all_of, newest_of,
  due_reply, sent_of, dialogue,
}
use protocoale.Names.History.Stored.{
  store, store_all, newest, lookup-store_all, mail_lookup-store_all, rev_lookup-store_all,
}

reply_address-all_of :
    (t : Tables) (s : String) (values : List String)
    → t.lookup s ≡ extend none values
    → sent_of (reply_address t s) ≡ all_of values
unfolding reply_address
reply_address-all_of t s [] e = rw (e, sent_of) refl
reply_address-all_of t s (v ∷ vs) e =
    rw (e, addresses-concat [] (v ∷ vs) (omega arith), sent_of) (ground arith)

reply_name-newest_of :
    (t : Tables) (s : String) (values : List String)
    → t.rev_lookup s ≡ newest none values
    → AllShort values
    → sent_of (reply_name t s) ≡ newest_of values
unfolding reply_name
reply_name-newest_of t s [] e h = rw (e, sent_of) refl
reply_name-newest_of t s (v ∷ vs) e h =
    rw (e, strcat_fits buflen [] (last_of v vs) (omega (arith, last_of-short v vs h)), sent_of) refl

reply_mail-newest_of :
    (t : Tables) (buffer : List ℕ) (s : String) (values : List String)
    → t.mail_lookup s ≡ extend none values
    → AllShort values
    → sent_of (reply_mail t buffer s) ≡ newest_of values
unfolding reply_mail
reply_mail-newest_of t buffer s [] e h = rw (e, sent_of) refl
reply_mail-newest_of t buffer s (v ∷ vs) e h =
    rw (e, mail_servers-last_of buffer v vs h, sent_of) refl

-- What was added is short.
names_of-AllShort :
    (s : String) (history : List Addition) → AllFit history → AllShort (names_of s history)
names_of-AllShort s [] h = tt
names_of-AllShort s (address host ip ∷ more) h = names_of-AllShort s more h.1
names_of-AllShort s (mail host server ∷ more) h = names_of-AllShort s more h.1
names_of-AllShort s (name ip host ∷ more) h = ground (arith, names_of-AllShort s more h.1)

mails_of-AllShort :
    (s : String) (history : List Addition) → AllFit history → AllShort (mails_of s history)
mails_of-AllShort s [] h = tt
mails_of-AllShort s (address host ip ∷ more) h = mails_of-AllShort s more h.1
mails_of-AllShort s (name ip host ∷ more) h = mails_of-AllShort s more h.1
mails_of-AllShort s (mail host server ∷ more) h = ground (arith, mails_of-AllShort s more h.1)

module _ (split : String → List String) (law : IsSplit split) where
  serve-command :
      (t : Tables) (s s1 s2 : String)
      → Without 0 s
      → length s < buflen
      → tokenize (split s) ≡ some (s1, s2)
      → serve split t s ≡ command t (zero_filled buflen s) s s1 s2
  unfolding serve
  serve-command t s s1 s2 nul fits e = rw (string_in-Without buflen s nul fits, e) refl

  -- A command and two words, and a command and one.
  serve_two :
      (t : Tables) (word s1 s2 : String)
      → IsWord word
      → length word < 12
      → FitsTwo s1 s2
      → serve split t (word ++ 32 ∷ (s1 ++ 32 ∷ s2))
        ≡ command t
            (zero_filled buflen (word ++ 32 ∷ (s1 ++ 32 ∷ s2)))
            (word ++ 32 ∷ (s1 ++ 32 ∷ s2))
            s1
            s2
  serve_two t word s1 s2 w short ((p, p0), (q, q0), fits) =
      let words = Without-append 0 s1 (32 ∷ s2) p0 (λ e. omega arith, q0) in
      serve-command t _ s1 s2
        (Without-append 0 word (32 ∷ (s1 ++ 32 ∷ s2)) w.1 (λ e. omega arith, words))
        (omega (arith, length-append word (32 ∷ (s1 ++ 32 ∷ s2)), length-append s1 (32 ∷ s2)))
        (split-three split law word s1 s2 w.0 p q)

  serve_one :
      (t : Tables) (word s1 : String)
      → IsWord word
      → length word < 12
      → IsWord s1
      → length s1 + 12 < buflen
      → serve split t (word ++ 32 ∷ s1)
        ≡ command t (zero_filled buflen (word ++ 32 ∷ s1)) (word ++ 32 ∷ s1) s1 []
  serve_one t word s1 w short (p, p0) fits =
      serve-command t _ s1 [] (Without-append 0 word (32 ∷ s1) w.1 (λ e. omega arith, p0))
        (omega (arith, length-append word (32 ∷ s1))) (split-two split law word s1 w.0 p)

  serve-addition :
      (t : Tables) (a : Addition) → Fits a → serve split t (addition_text a) ≡ serves (store a t) []
  unfolding command starts_with
  serve-addition t (address host ip) h =
      serve_two t (b'a' ∷ b'd' ∷ b'd' ∷ b'_' ∷ b'a' ∷ b'd' ∷ b'd' ∷ b'r' ∷ b'e' ∷ b's' ∷ b's' ∷ [])
        host ip (ground arith) (omega arith) h
  serve-addition t (name ip host) h =
      serve_two t (b'a' ∷ b'd' ∷ b'd' ∷ b'_' ∷ b'n' ∷ b'a' ∷ b'm' ∷ b'e' ∷ []) ip host
        (ground arith) (omega arith) h
  serve-addition t (mail host server) h =
      serve_two t (b'a' ∷ b'd' ∷ b'd' ∷ b'_' ∷ b'm' ∷ b'a' ∷ b'i' ∷ b'l' ∷ []) host server
        (ground arith) (omega arith) h

  dialogue-store_all :
      (t : Tables) (history : List Addition) (last : String)
      → AllFit history
      → dialogue split t (map addition_text history) last
        ≡ sent_of (serve split (store_all history t) last)
  dialogue-store_all t [] last h = refl
  dialogue-store_all t (a ∷ more) last h =
      rw (serve-addition t a h.0, dialogue) (dialogue-store_all (store a t) more last h.1)

  -- On a server that starts with empty tables, whatever was added before, in messages that fit into
  -- the buffer, a question is answered with all addresses of the host one behind the other (or the
  -- buffer overflows), with the last name of the address, or with the last mail server of the host;
  -- and with the text of NO_ENTRY if nothing was added for it.
  pub dialogue-due_reply :
      (history : List Addition) (q : Question)
      → AllFit history
      → QuestionFits q
      → dialogue split no_tables (map addition_text history) (question_text q) ≡ due_reply history q
  unfolding command starts_with
  dialogue-due_reply history (address_of host) h (word, fits) =
      dialogue-store_all no_tables history _ h
      ∙ ap sent_of (
          serve_one (store_all history no_tables)
            (b'g' ∷ b'e' ∷ b't' ∷ b'_' ∷ b'a' ∷ b'd' ∷ b'd' ∷ b'r' ∷ b'e' ∷ b's' ∷ b's' ∷ []) host
            (ground arith) (omega arith) word fits)
      ∙ reply_address-all_of _ host _ (lookup-store_all history no_tables host)
  dialogue-due_reply history (name_of ip) h (word, fits) =
      dialogue-store_all no_tables history _ h
      ∙ ap sent_of (
          serve_one (store_all history no_tables)
            (b'g' ∷ b'e' ∷ b't' ∷ b'_' ∷ b'n' ∷ b'a' ∷ b'm' ∷ b'e' ∷ []) ip (ground arith)
            (omega arith) word fits)
      ∙ reply_name-newest_of _ ip _ (rev_lookup-store_all history no_tables ip)
          (names_of-AllShort ip history h)
  dialogue-due_reply history (mail_of host) h (word, fits) =
      dialogue-store_all no_tables history _ h
      ∙ ap sent_of (
          serve_one (store_all history no_tables)
            (b'g' ∷ b'e' ∷ b't' ∷ b'_' ∷ b'm' ∷ b'a' ∷ b'i' ∷ b'l' ∷ []) host (ground arith)
            (omega arith) word fits)
      ∙ reply_mail-newest_of _ _ host _ (mail_lookup-store_all history no_tables host)
          (mails_of-AllShort host history h)

  -- A message without a space, whatever it says, makes `tokenize` read behind its vector.
  serve_one_word :
      (t : Tables) (s : String)
      → Without 32 s
      → Without 0 s
      → length s < buflen
      → serve split t s ≡ fault
  unfolding serve
  serve_one_word t s p nul fits =
      rw (string_in-Without buflen s nul fits, split-one split law s p) refl
