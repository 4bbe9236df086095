-- ===== src/Tests/Late.antt =====
-- connchecker.go and sock.go: messages on a connection that times out.
use mongonet.Base.{◌≡◌, ◌++◌, [], IoError}
use mongonet.Base.Errors.{Ensures}
use mongonet.Wire.{Message}
use mongonet.Serialize.Layout.{sized, frame}
use mongonet.Serialize.Queries.{get_more_body}
use mongonet.Socket.{send_message}
use mongonet.Checked.{ConnError}
use mongonet.Checked.Connection.{checked_sink, send_message-checked}
use mongonet.Tests.Checks.{late, content, late-IsOutlet, write_late-IsPatient}
use mongonet.Tests.Connections.{sent_get_more}
use mongonet.Tests.Data.{some_header, get_more}

abbrev pub as_io : ConnError → IoError
as_io e = IoError.failed 1

abbrev sent : Message
sent = Message.get_more (record get_more { header = sized some_header (get_more_body get_more) })

send_message-checked_example :
    Ensures
      (λ r.
        (r.0 ≡ sent)
        × (late-IsOutlet.taken r.1
            ≡ late-IsOutlet.taken ([], 3) ++ frame some_header (get_more_body get_more)))
      (send_message
        (checked_sink late content as_io late-IsOutlet write_late-IsPatient)
        (Message.get_more get_more)
        ([], 3))
send_message-checked_example =
    send_message-checked late content as_io late-IsOutlet write_late-IsPatient
      (Message.get_more get_more) sent (frame some_header (get_more_body get_more)) ([], 3)
      sent_get_more
