-- ===== src/Router/Admits.antt =====
-- src/router.c: what `router_upload_stream_begin_ex` has checked when it lets an upload begin.
use ps5_localsend.Base.{
  ℕ, ◌≡◌, refl, inl, inr, Bool, true, false, Option, none, some, [], ◌∷◌, ◌==◌, Bool-cases, Bytes,
  codes, equal,
}
use ps5_localsend.Router.Begins.{Measured, Measured-begin_body}
use ps5_localsend.Router.Range.{parse_content_range, ContentRange}
use ps5_localsend.Router.State.{is_same_origin, authorized, Router, Request, Env}
use ps5_localsend.Router.Streams.{
  chunk_replied, content_length_or, begin_chunk, stream_replied, begin_stream, begin_body,
  is_octet_stream, begin_authorized, begin_found, router_upload_stream_begin_ex, Begun, refused,
  stream_begun, chunk_begun,
}
use ps5_localsend.Router.Text.{upload_id_from_path}
use ps5_localsend.Upload.State.{UploadResult, UploadManager, size_mismatch}

-- What was checked of the request itself.
pub record Opened (r : Router) (q : Request) (env : Env) (id : Bytes) : Type 0 where
  pub put_method : equal q.method (codes "PUT") ≡ true
  pub names_upload : upload_id_from_path q.path ≡ some id
  pub own_origin : is_same_origin q ≡ true
  pub in_session : (authorized r q env.now).0 ≡ true
  pub octets : is_octet_stream q.content_type ≡ true

abbrev pub Admitted : Router → Request → Env → Begun → Type 0
Admitted r q env (refused response r') = Unit
Admitted r q env (stream_begun id r') = Opened r q env id
Admitted r q env (chunk_begun id range r') = Opened r q env id

Admitted-chunk_replied :
    (r r' : Router) (q : Request) (env : Env) (id : Bytes) (range : ContentRange)
    (replied : UploadResult × UploadManager)
    → Opened r q env id
    → Admitted r q env (chunk_replied r' env id range replied)
unfolding chunk_replied
Admitted-chunk_replied r r' q env id range (UploadResult.ok, m) o = o
Admitted-chunk_replied r r' q env id range (_, m) o = tt

Admitted-stream_replied :
    (r r' : Router) (q : Request) (env : Env) (id : Bytes) (replied : UploadResult × UploadManager)
    → Opened r q env id
    → Admitted r q env (stream_replied r' q env id replied)
unfolding stream_replied
Admitted-stream_replied r r' q env id (UploadResult.ok, m) o = o
Admitted-stream_replied r r' q env id (size_mismatch, m) o = tt
Admitted-stream_replied r r' q env id (_, m) o = tt

Admitted-begin_stream :
    (r r' : Router) (q : Request) (content_length : Option ℕ) (env : Env) (id : Bytes)
    → Opened r q env id
    → Admitted r q env (begin_stream r' q content_length env id)
unfolding begin_stream
Admitted-begin_stream r r' q none env id o = tt
Admitted-begin_stream r r' q (some size) env id o = Admitted-stream_replied r r' q env id _ o

Admitted-begin_chunk :
    (r r' : Router) (q : Request) (content_length : Option ℕ) (env : Env) (id : Bytes)
    (allocated : Bool) (range : Option ContentRange)
    → Opened r q env id
    → Admitted r q env (begin_chunk r' q content_length env id allocated range)
unfolding begin_chunk
Admitted-begin_chunk r r' q content_length env id allocated none o = tt
Admitted-begin_chunk r r' q content_length env id allocated (some range) o =
    elim (Bool-cases (content_length_or content_length range.size == range.size)) [
      | inl same ↦ simp same (Admitted-chunk_replied r r' q env id range _ o)
      | inr other ↦ simp other tt
    ]

Admitted-begin_body :
    (r r' : Router) (q : Request) (content_length : Option ℕ) (env : Env) (id : Bytes)
    (allocated : Bool) (content_range : Option Bytes)
    → Opened r q env id
    → Admitted r q env (begin_body r' q content_length env id allocated content_range)
unfolding begin_body
Admitted-begin_body r r' q content_length env id allocated none o =
    Admitted-begin_stream r r' q content_length env id o
Admitted-begin_body r r' q content_length env id allocated (some []) o =
    Admitted-begin_stream r r' q content_length env id o
Admitted-begin_body r r' q content_length env id allocated (some (c ∷ cs)) o =
    Admitted-begin_chunk r r' q content_length env id allocated (parse_content_range (c ∷ cs)) o

-- Both halves, for a request that has the method, the path and the origin of an upload.
begun_authorized :
    (r r' : Router) (q : Request) (content_length : Option ℕ) (env : Env) (id : Bytes)
    (allocated accepted : Bool)
    → (accepted ≡ true → is_octet_stream q.content_type ≡ true → Opened r q env id)
    → Admitted r q env (begin_authorized (accepted, r') q content_length env id allocated)
      × Measured q content_length
          (begin_authorized (accepted, r') q content_length env id allocated)
unfolding begin_authorized
begun_authorized r r' q content_length env id allocated false f = (tt, tt)
begun_authorized r r' q content_length env id allocated true f =
    elim (Bool-cases (is_octet_stream q.content_type)) [
      | inl octets ↦ simp octets (
        Admitted-begin_body r r' q content_length env id allocated q.content_range (f refl octets),
        Measured-begin_body r' q content_length env id allocated q.content_range,
      )
      | inr other ↦ simp other (tt, tt)
    ]

begun_found :
    (r : Router) (q : Request) (content_length : Option ℕ) (env : Env) (allocated : Bool)
    (client id : Option Bytes)
    → upload_id_from_path q.path ≡ id
    → Admitted r q env (begin_found r q content_length env allocated client id)
      × Measured q content_length (begin_found r q content_length env allocated client id)
unfolding begin_found
begun_found r q content_length env allocated none id p = (tt, tt)
begun_found r q content_length env allocated (some client) none p = (tt, tt)
begun_found r q content_length env allocated (some client) (some id) p =
    elim (Bool-cases (equal q.method (codes "PUT"))) [
      | inr other ↦ simp other (tt, tt)
      | inl put_method ↦ elim (Bool-cases (is_same_origin q)) [
        | inr foreign_origin ↦ simp (put_method, foreign_origin) (tt, tt)
        | inl own_origin ↦
            simp (put_method, own_origin)
              (begun_authorized r (authorized r q env.now).1 q content_length env id allocated
                (authorized r q env.now).0
                (λ a o. record {
                  put_method = put_method;
                  names_upload = p;
                  own_origin = own_origin;
                  in_session = a;
                  octets = o;
                }))
      ]
    ]

-- `router_upload_stream_begin_ex` lets a stream or a chunk begin only for a PUT on the path of the
-- upload, from the server's own page, in an accepted session, with the content type
-- application/octet-stream. The router then holds this upload, bound to the client and its
-- authorization. For a stream, the `Content-Length` is the announced size of the upload; for a
-- chunk, the range is of at least one byte within a file of the announced size, and a
-- `Content-Length`, where there is one, is the length of the range.
pub router_upload_stream_begin_ex-Admitted :
    (r : Router) (q : Request) (content_length : Option ℕ) (env : Env) (allocated : Bool)
    → Admitted r q env (router_upload_stream_begin_ex r q content_length env allocated)
      × Measured q content_length (router_upload_stream_begin_ex r q content_length env allocated)
unfolding router_upload_stream_begin_ex
router_upload_stream_begin_ex-Admitted r q content_length env allocated =
    begun_found r q content_length env allocated q.client_address (upload_id_from_path q.path) refl
