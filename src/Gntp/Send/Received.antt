-- ===== src/Gntp/Send/Received.antt =====
-- What an answer of the server is taken for, whatever bytes come.
use go_notify.Base.{◌≡◌, refl, Bool, Bytes, codes}
use go_notify.Go.Textproto.{Header}
use go_notify.Gntp.Crypto.{Crypto}
use go_notify.Gntp.Send.{Reply, answered, refused, crashed, failure, server, response_of, receive}
use go_notify.Gntp.Send.Answer.{Accepts, receive-answered}
use go_notify.Gntp.Send.Errors.{Reported, receive-server_error}

-- Why the reply is one of the server's.
abbrev pub Received : Crypto → Bytes → Bool → Bytes → Reply → Type 0
Received c pw ends s (answered r rest) =
    (h : Header) × Accepts c pw ends (codes "-OK") s h rest × (r ≡ response_of h)
Received c pw ends s (refused (server x)) = Reported c pw ends s x
Received c pw ends s (refused (failure f)) = Unit
Received c pw ends s crashed = Unit

received :
    (c : Crypto) (pw : Bytes) (ends : Bool) (s : Bytes) (r : Reply)
    → receive c pw ends s ≡ r
    → Received c pw ends s r
received c pw ends s (answered r rest) e = receive-answered c pw ends s r rest e
received c pw ends s (refused (server x)) e = receive-server_error c pw ends s x e
received c pw ends s (refused (failure f)) e = tt
received c pw ends s crashed e = tt

-- Whatever the password and the bytes that come: a response is given only if the first line is an
-- information line of type "-OK" that is accepted under the password, which has no security or is
-- verified by it, and it is the response of the header behind the line, in the clear if the line
-- names no algorithm and else in what its cipher opens; an error is reported as the server's only
-- if the line is one of type "-ERROR" that is accepted likewise and names no encryption, and its code
-- and description are those of the header behind the line.
pub receive-Received :
    (c : Crypto) (pw : Bytes) (ends : Bool) (s : Bytes) → Received c pw ends s (receive c pw ends s)
receive-Received c pw ends s = received c pw ends s (receive c pw ends s) refl
