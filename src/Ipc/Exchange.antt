-- ===== src/Ipc/Exchange.antt =====
-- One exchange over the socket, from the wrapper's call to its result.
use dist_build_sys.Base.{
  ℕ, ◌%◌, ◌^◌, ◌<◌, ◌≡◌, refl, [], ◌++◌, Option, none, some, Bytes, length, arith, ◌>>=◌,
  length-append, take-append, drop-append, take_of_length-le, drop_of_length-le,
}
use dist_build_sys.Ipc.{UnixIpcRequest, UnixIpcResponse}
use dist_build_sys.Ipc.Manager
use dist_build_sys.Ipc.Manager.{Served, replied, closed, fault}
use dist_build_sys.Ipc.Wrapper
use dist_build_sys.Ipc.Codec.{Fits, encoded}
use dist_build_sys.Ipc.RoundTrip.{
  IsSendable, IsReplyable, deserialize_request-serialize_request,
  deserialize_response-serialize_response,
}

-- The bytes that come back over the connection.
abbrev pub reply : Served → Option Bytes
reply (replied b) = some b
reply closed = none
reply fault = none

read_exactly-append :
    (xs ys : Bytes) (n : ℕ) → n ≡ length xs → Manager.read_exactly n (xs ++ ys) ≡ some (xs, ys)
unfolding Manager.read_exactly
read_exactly-append xs ys n e =
    rw (e, take-append xs ys, drop-append xs ys) (ground (arith, length-append xs ys))

module _ (p : Bytes) (h : Fits p) where
  abbrev header : Bytes
  header = Manager.append_u32 [] (length p % 2 ^ 32)

  read_header : Manager.read_exactly 4 (encoded p) ≡ some (header, p)
  unfolding Manager.append_u32
  read_header = read_exactly-append header p 4 refl

  read_size : Manager.read_u32 header ≡ some (length p)
  unfolding Manager.read_u32 Manager.append_u32
  read_size = ground arith

  read_body : Manager.read_exactly (length p) p ≡ some (p, [])
  unfolding Manager.read_exactly
  read_body = ground (arith, take_of_length-le (length p) p, drop_of_length-le (length p) p)

  receive_payload-encoded : Manager.receive_payload (encoded p) ≡ some p
  unfolding Manager.receive_payload
  receive_payload-encoded = rw (read_header, ◌>>=◌, read_size, read_body)

  read_response-encoded : Wrapper.read_response (encoded p) ≡ some (Wrapper.deserialize_response p)
  unfolding Wrapper.read_response Wrapper.read_u32 Manager.read_u32
  read_response-encoded = rw (read_header, ◌>>=◌, read_size, read_body)

-- The wrapper frames as the daemon does.
abbrev sent : Bytes → Bytes
unfolding Wrapper.append_u32 Manager.append_u32
sent p = Wrapper.append_u32 [] (length p % 2 ^ 32) ++ p

served :
    (handler : UnixIpcRequest → UnixIpcResponse) (active : ℕ) (req : UnixIpcRequest)
    → IsSendable req
    → Fits (Wrapper.serialize_request req)
    → (Manager.handle_session handler active (sent (Wrapper.serialize_request req))).1
      ≡ replied (encoded (Manager.serialize_response (handler req)))
unfolding Manager.handle_session Manager.respond Manager.answer sent
served handler active req hq fq =
    rw (receive_payload-encoded _ fq, deserialize_request-serialize_request req hq)

-- For every handler of the daemon, the wrapper's call returns what the handler answers to the
-- wrapper's own request, and the count of active connections is as before, if the request and the
-- response fit the 32-bit length fields, each alone and serialized as a whole.
pub send_request_to_distbuild-handle_session :
    (handler : UnixIpcRequest → UnixIpcResponse) (active : ℕ) (what : Bytes) (req : UnixIpcRequest)
    → active < 2 ^ 32
    → IsSendable req
    → Fits (Wrapper.serialize_request req)
    → IsReplyable (handler req)
    → Fits (Manager.serialize_response (handler req))
    → (Wrapper.send_request_to_distbuild
          (λ framed. reply (Manager.handle_session handler active framed).1)
          what
          req
        ≡ some (handler req))
      × ((framed : Bytes) → (Manager.handle_session handler active framed).0 ≡ active)
unfolding Wrapper.send_request_to_distbuild Wrapper.or_failed sent
send_request_to_distbuild-handle_session handler active what req ha hq fq hr fr = (
  rw (
    Wrapper.send_request_to_distbuild,
    served handler active req hq fq,
    reply,
    ◌>>=◌,
    read_response-encoded _ fr,
    deserialize_response-serialize_response (handler req) hr,
  ),
  λ framed. unfold Manager.handle_session in omega arith,
)
