-- ===== src/Wire/Codecs.antt =====
-- Packets as lists of numbers, as an example of what struct_pack does.
use coro_actor.Prelude.{
  ◌≡◌, refl, ap, zero, suc, true, false, Bool, Option, some, none, [], ◌∷◌, ◌++◌, Bytes, length,
  take, drop,
}
use coro_actor.Packet.{Connect, Connack, Request, Response}
use coro_actor.Net.{◌>>=◌}
use coro_actor.Net.Lists.{take-append, drop-append}
use coro_actor.Wire.{Codec, StructPack}

abbrev join : Bytes → Bytes → Bytes
join a l = length a ∷ a ++ l

abbrev split : Bytes → Option (Bytes × Bytes)
split [] = none
split (n ∷ l) = some (take n l, drop n l)

abbrev read_connect : Bytes → Option Connect
read_connect [] = none
read_connect (pid ∷ name) = some (record { pid = pid; name = name })

abbrev connects : Codec Connect
connects = record { serialize = λ c. c.pid ∷ c.name; deserialize = read_connect; round = λ c. refl }

abbrev write_bool : Bool → Bytes
write_bool true = 1 ∷ []
write_bool false = 0 ∷ []

abbrev read_bool : Bytes → Option Connack
read_bool [] = none
read_bool (zero ∷ l) = some (record { result = false })
read_bool (suc n ∷ l) = some (record { result = true })

pub read_bool-write_bool : (b : Bool) → read_bool (write_bool b) ≡ some (record { result = b })
read_bool-write_bool true = refl
read_bool-write_bool false = refl

abbrev connacks : Codec Connack
connacks = record {
  serialize = λ c. write_bool c.result;
  deserialize = read_bool;
  round = λ c. read_bool-write_bool c.result;
}

abbrev read_request : Bytes → Option Request
read_request [] = none
read_request (pid ∷ []) = none
read_request (pid ∷ type ∷ l) = do
  (call_id, l1) ← split l
  (name, value) ← split l1
  some (record {
    pid = pid;
    call_id = call_id;
    service_name = name;
    request_pack = record { type = type; value = value };
  })

abbrev request_bytes : Request → Bytes
request_bytes r =
    r.pid ∷ r.request_pack.type ∷ join r.call_id (join r.service_name r.request_pack.value)

pub read_request-request_bytes : (r : Request) → read_request (request_bytes r) ≡ some r
read_request-request_bytes r =
    let rest = join r.service_name r.request_pack.value in
    rw
      (
        take-append r.call_id rest,
        drop-append r.call_id rest,
        take-append r.service_name r.request_pack.value,
        drop-append r.service_name r.request_pack.value,
      )
      refl

-- A response has the fields of a request.
abbrev as_request : Response → Request
as_request r = record {
  pid = r.pid;
  call_id = r.call_id;
  service_name = r.service_name;
  request_pack = r.response_pack;
}

abbrev as_response : Request → Response
as_response r = record {
  pid = r.pid;
  call_id = r.call_id;
  service_name = r.service_name;
  response_pack = r.request_pack;
}

abbrev read_response : Bytes → Option Response
read_response l = do r ← read_request l; some (as_response r)

abbrev pub lists : StructPack
lists = record {
  connects = connects;
  connacks = connacks;
  requests = record {
    serialize = request_bytes;
    deserialize = read_request;
    round = read_request-request_bytes;
  };
  responses = record {
    serialize = λ r. request_bytes (as_request r);
    deserialize = read_response;
    round =
        λ r. ap (λ o. o >>= λ q. some (as_response q)) (read_request-request_bytes (as_request r));
  };
}
