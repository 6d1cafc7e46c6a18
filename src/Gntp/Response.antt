-- ===== src/Gntp/Response.antt =====
-- What a server's answer becomes: `Response` and `Callback` of gntp/gntp.go, and gntp/error.go.
use go_notify.Base.{[], ◌∷◌, Option, Bytes, codes, ◌==◌, if◌then◌else◌}
use go_notify.Base.Int.{ℤ, pos, negsuc}
use go_notify.Go.Textproto.{Header}

pub record Response : Type 0 where
  pub action : Bytes
  pub id : Bytes
  pub header : Header

-- The code of any number; `ErrorCode` is an `int`.
unfoldable pub description : ℤ → Bytes
description (negsuc n) = []
description (pos n) =
    if n == 200
    then codes "Timed Out"
    else if n == 201
    then codes "Network Failure"
    else if n == 300
    then codes "Invalid Request"
    else if n == 301
    then codes "Unknown Protocol"
    else if n == 302
    then codes "Unknown Protocol Version"
    else if n == 303
    then codes "Required Header Missing"
    else if n == 400
    then codes "Not Authorized"
    else if n == 401
    then codes "Unknown Application"
    else if n == 402
    then codes "Unknown Notification"
    else if n == 403
    then codes "Already Processed"
    else if n == 404
    then codes "Notification Disabled"
    else if n == 500
    then codes "Internal Server Error"
    else []

-- `Error`.
pub record ServerError : Type 0 where
  pub code : ℤ
  pub description : Bytes
  pub header : Header

message_of : Bytes → ℤ → Bytes
unfolding description
message_of [] n = description n
message_of (x ∷ s) n = x ∷ s

-- `Error.Error`.
unfoldable pub message : ServerError → Bytes
unfolding message_of
message e = message_of e.description e.code

-- `Result`; `no_result` is its zero value.
pub data Outcome : Type 0 where
  no_result clicked closed timeout : Outcome

-- `time` is the timestamp; `none` is its zero value.
pub record Callback (Time : Type 0) : Type 0 where
  pub name : Bytes
  pub id : Bytes
  pub outcome : Outcome
  pub timestamp : Option Time
  pub context : Bytes
  pub context_type : Bytes
  pub header : Header
