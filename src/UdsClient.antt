-- ===== src/UdsClient.antt =====
-- The client library (bkk_uds_client/bkk_uds_client.c, bkk_uds/bkk_uds_client.h).
--
-- The system's calls on the socket are a parameter. A packet socket delivers one packet to a receive, cut
-- to the size of the object it goes to; what a receive of another size leaves in the response object
-- is whatever it is.
pub mod Query
use bkk_api.Common.{
  ℕ, ◌+◌, Bytes, Bool, not, ◌==◌, if◌then◌else◌, Option, none, some, Ptr, null, cell,
}
use bkk_api.Protocol.{request_size, Response}

pub data ClientStatus : Type 0 where
  client_ok invalid_arguments socket_error connection_failed send_failed receive_failed :
      ClientStatus

-- What `recv` made of the response object: a response of its full size, or anything else.
pub data Received : Type 0 where
  whole : Response → Received
  other_size : Response → Received

pub record Kernel : Type 0 where
  -- `socket` and `connect` do not return a negative number.
  pub is_open : Bool
  pub is_connected : Bool
  -- The size that `send` returns for a request, `none` for -1.
  pub send : Bytes → Option ℕ
  -- What `recv` delivers after a request, into a response object.
  pub recv : Bytes → Response → Received

-- The status, the response object, and how many descriptors were opened and closed.
pub record Queried : Type 0 where
  pub status : ClientStatus
  pub response : Ptr Response
  pub opened : ℕ
  pub closed : ℕ

-- From the call of `recv` on.
unfoldable pub receive : Received → Queried
receive (whole r) = record { status = client_ok; response = cell r; opened = 1; closed = 1 }
receive (other_size r) = record {
  status = receive_failed;
  response = cell r;
  opened = 1;
  closed = 1;
}

-- A return behind `close(client_fd)`, with the response object as it was.
abbrev pub closed_with : ClientStatus → Response → Queried
closed_with status old = record { status = status; response = cell old; opened = 1; closed = 1 }

unfoldable pub send_bkk_uds_query : Kernel → Ptr Bytes → Ptr Response → Queried
unfolding receive
send_bkk_uds_query k null response = record {
  status = invalid_arguments;
  response = response;
  opened = 0;
  closed = 0;
}
send_bkk_uds_query k (cell request) null = record {
  status = invalid_arguments;
  response = null;
  opened = 0;
  closed = 0;
}
send_bkk_uds_query k (cell request) (cell old) =
    if not k.is_open
    then record { status = socket_error; response = cell old; opened = 0; closed = 0 }
    else if not k.is_connected
    then closed_with connection_failed old
    else elim (k.send request) [
      | none ↦ closed_with send_failed old
      | some sent_size ↦
          if sent_size == request_size
          then receive (k.recv request old)
          else closed_with send_failed old
    ]
