-- ===== src/Smtp/Server.antt =====
-- server.go: the list of received messages, and the sessions that add to it. The methods hold the
-- server's lock, so each is one step.
pub mod Indexed
use apitest.Base.{
  ℕ, zero, suc, ◌+◌, ◌-◌, Bool, String, Option, none, some, List, [], ◌∷◌, ◌++◌, Outcome, ok, err,
  length, get_elem?, leb, if◌then◌else◌,
}
use apitest.Base.Int.{ℤ, pos, negsuc}
use apitest.Smtp.{ReceivedMessage, Mime}
use apitest.Smtp.Message.{
  Parsed, parsed, failed, panicked, exhausted, MailError, limit, or_default, new_message,
}

pub record Server : Type 0 where
  pub received_messages : List ReceivedMessage
  pub max_message_size : ℤ

pub record Session : Type 0 where
  pub from : String
  pub rcpt_to : List String

unfoldable pub new_server : ℤ → Server
unfolding or_default
new_server max = record { received_messages = []; max_message_size = or_default max }

abbrev pub new_session : Session
new_session = record { from = ""; rcpt_to = [] }

-- AppendMessage: the index of the message is the position that it gets.
unfoldable pub append_message : ReceivedMessage → Server → Server
append_message msg s = record s {
  received_messages = s.received_messages ++ record msg { index = length s.received_messages } ∷ [];
}

pub data Retrieved : Type 0 where
  found : ReceivedMessage → Retrieved
  no_message : ℤ → Retrieved
  panic : Retrieved

unfoldable pub message_at : ℕ → Option ReceivedMessage → Retrieved
message_at n none = panic
message_at n (some m) = found m

-- `idx >= len(s.receivedMessages)` holds for no negative index.
unfoldable pub received_message : Server → ℤ → Retrieved
unfolding message_at
received_message s (pos n) =
    if leb (length s.received_messages) n
    then no_message (pos n)
    else message_at n (get_elem? s.received_messages n)
received_message s (negsuc n) = panic

unfoldable pub mail : String → Session → Session
mail from s = record s { from = from }

unfoldable pub rcpt : String → Session → Session
rcpt to s = record s { rcpt_to = s.rcpt_to ++ to ∷ [] }

unfoldable pub reset : Session → Session
reset s = new_session

unfoldable pub logout : Session → Session
unfolding reset
logout s = reset s

-- What the client of a DATA command is told; `crashed` is a panic in the parser.
pub data Reply : Type 0 where
  accepted : Reply
  rejected : MailError → Reply
  crashed : Reply
  out_of_fuel : Reply

unfoldable pub store_message : Parsed ReceivedMessage → Server → Reply × Server
store_message (parsed m) s =
    (accepted, record s { received_messages = s.received_messages ++ m ∷ [] })
store_message (failed e) s = (rejected e, s)
store_message panicked s = (crashed, s)
store_message exhausted s = (out_of_fuel, s)

module _ (mime : Mime) where
  -- session.Data, at the time `now`.
  unfoldable pub receive : ℕ → ℕ → String → Session → Server → Reply × Server
  unfolding store_message limit
  receive fuel now r sess s =
      store_message
        (new_message mime fuel (length s.received_messages) sess.from sess.rcpt_to
          (limit s.max_message_size r) now s.max_message_size)
        s
