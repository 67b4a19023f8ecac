-- ===== src/Router/Begins.antt =====
-- src/router.c: the lengths and the upload that `router_upload_stream_begin_ex` has compared when it
-- lets an upload begin.
use ps5_localsend.Base.{
  ℕ, ◌≡◌, refl, inl, inr, Bool, true, false, Option, none, some, [], ◌∷◌, arith, ◌==◌, Bool-cases,
  Bytes,
}
use ps5_localsend.Router.Range.{parse_content_range, ContentRange}
use ps5_localsend.Router.RangeLaws.{Within, WithinOr, parse_content_range-Within}
use ps5_localsend.Router.State.{request_authorization, Router, Request, Env}
use ps5_localsend.Router.Streams.{
  chunk_replied, content_length_or, begin_chunk, stream_replied, begin_stream, begin_body, Begun,
  refused, stream_begun, chunk_begun,
}
use ps5_localsend.Upload.Chunks.{take_chunk, begin_index, chunk_begin_locked, upload_chunk_begin}
use ps5_localsend.Upload.Ops.{begin_locked, upload_begin}
use ps5_localsend.Upload.State.{
  reap, binding_matches, is_current, UploadResult, UploadManager, size_mismatch,
}

unfoldable pub has_begun : Begun → Bool
has_begun (refused response r) = false
has_begun (stream_begun id r) = true
has_begun (chunk_begun id range r) = true

-- The slot holds the upload `id`, bound to the client and its token, of `size` bytes.
pub record IsFor (m : UploadManager) (id : Bytes) (client authorization : Option Bytes) (size : ℕ)
    : Type 0 where
  pub current : is_current m.slot id ≡ true
  pub bound : binding_matches m.slot client authorization ≡ true
  pub same_size : size ≡ m.slot.expected_size

-- What was checked of its lengths, and the upload that it is for.
abbrev pub Measured : Request → Option ℕ → Begun → Type 0
Measured q content_length (refused response r) = Unit
Measured q content_length (stream_begun id r) =
    (size : ℕ) × (content_length ≡ some size)
    × IsFor r.uploads id q.client_address (request_authorization r q) size
Measured q content_length (chunk_begun id range r) =
    Within range
    × (content_length_or content_length range.size ≡ range.size)
    × IsFor r.uploads id q.client_address (request_authorization r q) range.total

chunk_IsFor :
    (m : UploadManager) (id client authorization : Bytes) (total offset size now : ℕ)
    (allocated : Bool)
    → (chunk_begin_locked m id client authorization total offset size now allocated).0
      ≡ UploadResult.ok
    → IsFor
        (chunk_begin_locked m id client authorization total offset size now allocated).1
        id
        (some client)
        (some authorization)
        total
unfolding chunk_begin_locked begin_index take_chunk binding_matches
chunk_IsFor m id client authorization total offset size now allocated h = record {
  current = ground arith;
  bound = ground arith;
  same_size = ground arith;
}

upload_chunk_IsFor :
    (m : UploadManager) (id : Bytes) (client authorization : Option Bytes)
    (total offset size now : ℕ) (allocated : Bool)
    → (upload_chunk_begin m (some id) client authorization total offset size now allocated).0
      ≡ UploadResult.ok
    → IsFor
        (upload_chunk_begin m (some id) client authorization total offset size now allocated).1
        id
        client
        authorization
        total
unfolding upload_chunk_begin
upload_chunk_IsFor m id none authorization total offset size now allocated h = absurd (cc)
upload_chunk_IsFor m id (some client) none total offset size now allocated h = absurd (cc)
upload_chunk_IsFor m id (some client) (some authorization) total offset size now allocated h =
    elim (Bool-cases (size == 0)) [
      | inl z ↦ absurd (ground arith)
      | inr p ↦ simp p (
          chunk_IsFor (reap m now) id client authorization total offset size now allocated
            (ground arith))
    ]

upload_begin_IsFor :
    (m : UploadManager) (id : Bytes) (client authorization : Option Bytes) (size now : ℕ)
    → (begin_locked m id client authorization size now).0 ≡ UploadResult.ok
    → IsFor (begin_locked m id client authorization size now).1 id client authorization size
unfolding begin_locked binding_matches
upload_begin_IsFor m id none authorization size now h = absurd (ground arith)
upload_begin_IsFor m id (some client) none size now h = absurd (ground arith)
upload_begin_IsFor m id (some client) (some authorization) size now h = record {
  current = ground arith;
  bound = ground arith;
  same_size = ground arith;
}

Measured-chunk_replied :
    (r : Router) (q : Request) (content_length : Option ℕ) (env : Env) (id : Bytes)
    (range : ContentRange) (result : UploadResult) (m : UploadManager)
    → Within range
    → content_length_or content_length range.size ≡ range.size
    → (result ≡ UploadResult.ok
        → IsFor m id q.client_address (request_authorization r q) range.total)
    → Measured q content_length (chunk_replied r env id range (result, m))
unfolding chunk_replied request_authorization
Measured-chunk_replied r q content_length env id range UploadResult.ok m w e f = (w, e, f refl)
Measured-chunk_replied r q content_length env id range _ m w e f = tt

Measured-begin_chunk :
    (r : Router) (q : Request) (content_length : Option ℕ) (env : Env) (id : Bytes)
    (allocated : Bool) (range : Option ContentRange)
    → WithinOr range
    → Measured q content_length (begin_chunk r q content_length env id allocated range)
unfolding begin_chunk
Measured-begin_chunk r q content_length env id allocated none w = tt
Measured-begin_chunk r q content_length env id allocated (some range) w =
    elim (Bool-cases (content_length_or content_length range.size == range.size)) [
      | inl same ↦
          let e : content_length_or content_length range.size ≡ range.size = ground (arith, same) in
          simp same (
            Measured-chunk_replied r q content_length env id range _ _ w e (
              upload_chunk_IsFor r.uploads id q.client_address (request_authorization r q)
                range.total range.offset range.size env.now allocated))
      | inr other ↦ simp other tt
    ]

Measured-stream_replied :
    (r : Router) (q : Request) (env : Env) (id : Bytes) (size : ℕ) (result : UploadResult)
    (m : UploadManager)
    → (result ≡ UploadResult.ok → IsFor m id q.client_address (request_authorization r q) size)
    → Measured q (some size) (stream_replied r q env id (result, m))
unfolding stream_replied request_authorization
Measured-stream_replied r q env id size UploadResult.ok m f = (size, refl, f refl)
Measured-stream_replied r q env id size size_mismatch m f = tt
Measured-stream_replied r q env id size _ m f = tt

Measured-begin_stream :
    (r : Router) (q : Request) (content_length : Option ℕ) (env : Env) (id : Bytes)
    → Measured q content_length (begin_stream r q content_length env id)
unfolding begin_stream upload_begin
Measured-begin_stream r q none env id = tt
Measured-begin_stream r q (some size) env id = Measured-stream_replied r q env id size _ _ (
    upload_begin_IsFor (reap r.uploads env.now) id q.client_address (request_authorization r q) size
      env.now)

pub Measured-begin_body :
    (r : Router) (q : Request) (content_length : Option ℕ) (env : Env) (id : Bytes)
    (allocated : Bool) (content_range : Option Bytes)
    → Measured q content_length (begin_body r q content_length env id allocated content_range)
unfolding begin_body
Measured-begin_body r q content_length env id allocated none =
    Measured-begin_stream r q content_length env id
Measured-begin_body r q content_length env id allocated (some []) =
    Measured-begin_stream r q content_length env id
Measured-begin_body r q content_length env id allocated (some (c ∷ cs)) =
    Measured-begin_chunk r q content_length env id allocated (parse_content_range (c ∷ cs))
      (parse_content_range-Within (c ∷ cs))
