-- ===== src/Engine/Transport.antt =====
-- internal/titanload/engine/transport.go: the requesters, and the kinds of their errors.
--
-- What errors.Is, errors.As and status.FromError say of an error is a parameter, as is what the
-- transports do. The request counter of the gRPC requester is a uint64, which wraps.
use Prim.Native.String.{◌++◌ as str_append}
use text.Mathlib.Text.{◌==◌ as str_eq}
use handling_50k_requestes_p.Prelude.{
  ℕ, ◌+◌, ◌/◌, ◌%◌, String, Bool, true, false, not, ◌&&◌, List, [], ◌∷◌, Option, none, some, ℤ, pos,
  negsuc, ltb_ℤ, if◌then◌else◌, min, max,
}
use handling_50k_requestes_p.Prelude.Float.{Float}
use handling_50k_requestes_p.Prelude.Maps.{lookup, insert}
use handling_50k_requestes_p.Prelude.Text.{Strings}
use handling_50k_requestes_p.Prelude.Words.{u64}
use handling_50k_requestes_p.Stats.{Sample}
use handling_50k_requestes_p.Engine.{Target, Config, Mode, unset, http1, http2, grpc, other}

-- The code of a gRPC status.
pub data GrpcCode : Type 0 where
  deadline_exceeded unavailable resource_exhausted unknown : GrpcCode
  named : String → GrpcCode

-- An error, by what the tests of Classify say of it.
pub record Failure : Type 0 where
  pub grpc_status : Option GrpcCode
  pub timed_out : Bool
  pub conn_refused : Bool
  pub conn_reset : Bool
  pub addr_not_avail : Bool
  pub too_many_files : Bool
  pub ended_early : Bool
  pub dns_error : Bool
  pub tls_error : Bool
  pub net_op : Option String

abbrev op_kind : Option String → String
op_kind none = "other"
op_kind (some op) = str_append "net_" op

unfoldable pub classify_net : Failure → String
classify_net e =
    if e.timed_out
    then "timeout"
    else if e.conn_refused
    then "conn_refused"
    else if e.conn_reset
    then "conn_reset"
    else if e.addr_not_avail
    then "no_ephemeral_ports"
    else if e.too_many_files
    then "too_many_open_files"
    else if e.ended_early
    then "eof"
    else if e.dns_error
    then "dns"
    else if e.tls_error
    then "tls"
    else op_kind e.net_op

unfoldable pub classify_status : Strings → Failure → Option GrpcCode → String
unfolding classify_net
classify_status st e none = classify_net e
classify_status st e (some unknown) = classify_net e
classify_status st e (some deadline_exceeded) = "timeout"
classify_status st e (some unavailable) = "unavailable"
classify_status st e (some resource_exhausted) = "resource_exhausted"
classify_status st e (some (named code)) = str_append "grpc_" (st.to_lower code)

-- Classify; none is a nil error.
unfoldable pub classify : Strings → Option Failure → String
unfolding classify_status
classify st none = ""
classify st (some e) = classify_status st e e.grpc_status

-- What newHTTPRequester sets of the transport: the limits, 0 for none, and the protocols; `h2c` is HTTP/2
-- without TLS.
pub record HttpTransport : Type 0 where
  pub max_idle_conns : ℤ
  pub max_idle_conns_per_host : ℤ
  pub max_conns_per_host : ℤ
  pub disable_compression : Bool
  pub disable_keepalives : Bool
  pub insecure_skip_verify : Bool
  pub follow_redirects : Bool
  pub http1_on : Bool
  pub http2_on : Bool
  pub h2c_on : Bool

abbrev is_http2 : Mode → Bool
is_http2 unset = false
is_http2 http1 = false
is_http2 http2 = true
is_http2 grpc = false
is_http2 (other m) = false

unfoldable pub new_http_requester : {fl : Float} → Config fl → HttpTransport
new_http_requester cfg = record {
  max_idle_conns = pos 0;
  max_idle_conns_per_host = cfg.concurrency;
  max_conns_per_host = cfg.connections;
  disable_compression = true;
  disable_keepalives = cfg.disable_keepalive;
  insecure_skip_verify = cfg.insecure;
  follow_redirects = false;
  http1_on = not (is_http2 cfg.mode);
  http2_on = is_http2 cfg.mode;
  h2c_on = is_http2 cfg.mode;
}

-- What a requester's Do returns: the status, the bytes and the error.
pub record Answer : Type 0 where
  pub status : ℤ
  pub size : ℤ
  pub failure : Option Failure

-- How an HTTP exchange goes.
pub record Exchange : Type 0 where
  pub bad_request : Option Failure
  pub send_failure : Option Failure
  pub status : ℤ
  pub body_bytes : ℤ
  pub body_failure : Option Failure

abbrev pub copy_headers :
    List (String × List String) → List (String × List String) → List (String × List String)
copy_headers [] req = req
copy_headers ((k, vs) ∷ hs) req = copy_headers hs (insert k vs req)

abbrev has_header : Option (List String) → Bool
has_header none = false
has_header (some []) = false
has_header (some (v ∷ vs)) = not (str_eq v "")

-- The headers that httpRequester.Do sends for a target.
unfoldable pub request_headers : String → Target → List (String × List String)
request_headers ua t =
    let sent = insert "User-Agent" (ua ∷ []) (copy_headers t.headers []) in
    if not (str_eq t.body "") && not (has_header (lookup "Content-Type" sent))
    then insert "Content-Type" ("application/json" ∷ []) sent
    else sent

-- httpRequester.Do
unfoldable pub http_do : Exchange → Answer
http_do x = from x.bad_request x.send_failure
  where
    from : Option Failure → Option Failure → Answer
    from (some e) sent = record { status = pos 0; size = pos 0; failure = some e }
    from none (some e) = record { status = pos 0; size = pos 0; failure = some e }
    from none none = record { status = x.status; size = x.body_bytes; failure = x.body_failure }

-- The gRPC requester: the number of its connections, and its counter.
pub record GrpcRequester : Type 0 where
  pub clients : ℕ
  pub next : ℕ

abbrev natural : ℤ → ℕ
natural (pos n) = n
natural (negsuc n) = 0

-- The number of connections of newGRPCRequester.
unfoldable pub connection_count : ℤ → ℤ → ℕ
connection_count connections concurrency =
    if ltb_ℤ (pos 0) connections
    then natural connections
    else min (max (natural concurrency / 100) 4) 64

-- grpcTarget: the address to dial, and whether with TLS.
unfoldable pub grpc_target : Strings → (String → String → String) → String → String × Bool
grpc_target st trim_prefix u =
    if st.has_prefix u "grpcs://"
    then (trim_prefix u "grpcs://", true)
    else if st.has_prefix u "grpc://"
    then (trim_prefix u "grpc://", false)
    else if st.has_prefix u "https://"
    then (trim_prefix u "https://", true)
    else if st.has_prefix u "http://"
    then (trim_prefix u "http://", false)
    else (u, false)

-- The connections that could be made before one failed are closed again; none is the error.
unfoldable pub new_grpc_requester : ℤ → ℤ → Bool → Option GrpcRequester
unfolding connection_count
new_grpc_requester connections concurrency dials =
    if dials
    then some (record { clients = connection_count connections concurrency; next = 0 })
    else none

-- The answer of the health check: none is an error, and otherwise whether the service is serving, and
-- the length of the printed response.
pub data Checked : Type 0 where
  broken : Failure → Checked
  answered : Bool → ℕ → Checked

abbrev grpc_answer : Checked → Answer
grpc_answer (broken e) = record { status = pos 0; size = pos 0; failure = some e }
grpc_answer (answered true n) = record { status = pos 200; size = pos n; failure = none }
grpc_answer (answered false n) = record { status = pos 503; size = pos 0; failure = none }

-- grpcRequester.Do: the index of the connection that it uses, the answer, and the counter after it.
unfoldable pub grpc_do : Checked → GrpcRequester → (ℕ × Answer) × GrpcRequester
grpc_do c g = let n = u64 (g.next + 1) in ((n % g.clients, grpc_answer c), record g { next = n })

unfoldable pub grpc_do_all : List Checked → GrpcRequester → List ℕ
unfolding grpc_do
grpc_do_all [] g = []
grpc_do_all (c ∷ cs) g = let r = grpc_do c g in r.0.0 ∷ grpc_do_all cs r.1

-- The sample that Engine.worker records for an answer.
unfoldable pub sample_of : Strings → ℤ → Answer → Sample
unfolding classify
sample_of st latency a = record {
  latency = latency;
  status = a.status;
  size = a.size;
  err_kind = classify st a.failure;
}
