-- ===== src/Upload/Reach.antt =====
-- src/upload.c: the states that the upload manager can be in. A step is one critical section, with
-- any answers of the system. A write to a stream, and the end of a direct write, is a step only
-- while the slot holds a stream: one that goes on after the slot was cleared is not among them.
use ps5_localsend.Base.{ℕ, ◌≡◌, sym, subst, Bool, true, Option, some, Bytes}
use ps5_localsend.Upload.Chunks.{
  chunk_begin_locked, chunk_write_locked, chunk_finish_locked, upload_chunk_abort,
  writer_chunk_round,
}
use ps5_localsend.Upload.Ops.{
  prepare_locked, begin_locked, finish_chunks_begin, finish_chunks_publish, writer_done,
  cancel_locked, upload_abort, Metadata, PrepareEnv, PublishEnv,
}
use ps5_localsend.Upload.Prepare.{prepare_locked-SlotOk}
use ps5_localsend.Upload.State.{empty_slot, reap, UploadManager}
use ps5_localsend.Upload.Steps.{
  is_streaming, empty_slot-SlotOk, kept_or, cleared-SlotOk, reap-SlotOk, chunk_begin-SlotOk,
  chunk_write-SlotOk, SlotOk,
}
use ps5_localsend.Upload.StepsEnds.{
  begin-SlotOk, finish_begin-SlotOk, finish_publish-SlotOk, cancel_state, abort_state,
}
use ps5_localsend.Upload.StepsFinish.{
  left_by, finish_stream_cleared, finish_direct_cleared, upload_finish_begin-SlotOk,
}
use ps5_localsend.Upload.StepsMore.{chunk_finish-SlotOk, chunk_abort-SlotOk, writer-SlotOk}
use ps5_localsend.Upload.StepsStream.{
  upload_write_begin-SlotOk, write_round-SlotOk, queue_round-SlotOk, enable-SlotOk,
  direct_begin-SlotOk, direct_end-SlotOk,
}
use ps5_localsend.Upload.Stream.{
  upload_write_begin, write_round, writer_queue_round, upload_enable_direct_stream,
  upload_write_direct_begin, write_direct_end, upload_finish_begin, finish_stream, finish_direct,
}

-- One critical section, or one round of the writer thread.
pub data Step (digest : Bytes → Bytes) : UploadManager → UploadManager → Type 0 where
  reaping : {m : UploadManager} (now : ℕ) → Step digest m (reap m now)
  prepare :
      {m : UploadManager} (client authorization : Bytes) (meta : Metadata) (env : PrepareEnv)
      (now : ℕ)
      → Step digest m (prepare_locked m client authorization meta env now).1
  begin :
      {m : UploadManager} (id : Bytes) (client authorization : Option Bytes) (size now : ℕ)
      → Step digest m (begin_locked m id client authorization size now).1
  chunk_begin :
      {m : UploadManager} (id client authorization : Bytes) (total offset size now : ℕ)
      (allocated : Bool)
      → Step digest m
          (chunk_begin_locked m id client authorization total offset size now allocated).1
  chunk_write :
      {m : UploadManager} (id : Bytes) (offset : ℕ) (bytes : Bytes) (now : ℕ)
      → Step digest m (chunk_write_locked m id offset bytes now).1
  chunk_finish :
      {m : UploadManager} (id : Bytes) (offset size now : ℕ)
      → Step digest m (chunk_finish_locked m id offset size now).1
  chunk_abort :
      {m : UploadManager} (id : Bytes) (offset now : ℕ)
      → Step digest m (upload_chunk_abort m (some id) offset now)
  writer_round :
      {m : UploadManager} (error : ℕ) (partial : Bytes)
      → Step digest m (writer_chunk_round m error partial)
  finish_begin :
      {m : UploadManager} (id : Bytes) (client authorization : Option Bytes)
      → Step digest m (finish_chunks_begin m id client authorization).1
  finish_publish :
      {m : UploadManager} (id : Bytes) (env : PublishEnv)
      → m.slot.finalizing_chunks ≡ true
      → writer_done m.slot ≡ true
      → Step digest m (finish_chunks_publish digest m id env).1
  cancel :
      {m : UploadManager} (id : Bytes) (client authorization : Option Bytes) (removable : Bool)
      → Step digest m (cancel_locked m id client authorization removable).1
  abort : {m : UploadManager} (id : Option Bytes) → Step digest m (upload_abort m id)
  stream_write_begin :
      {m : UploadManager} (id : Option Bytes) (size now : ℕ)
      → Step digest m (upload_write_begin m id size now).1
  stream_write :
      {m : UploadManager} (bytes : Bytes) (now : ℕ) (discard : Bool)
      → is_streaming m.slot ≡ true
      → Step digest m (write_round m bytes now discard).1
  queue_round :
      {m : UploadManager} (error : ℕ) (partial : Bytes)
      → is_streaming m.slot ≡ true
      → Step digest m (writer_queue_round m m.slot.write_queue error partial)
  enable_direct :
      {m : UploadManager} (id : Option Bytes) → Step digest m (upload_enable_direct_stream m id).1
  direct_begin :
      {m : UploadManager} (id : Option Bytes) (size now : ℕ)
      → Step digest m (upload_write_direct_begin m id size now).1
  direct_end :
      {m : UploadManager} (bytes : Bytes) (error : ℕ) (partial : Bytes) (now : ℕ)
      → is_streaming m.slot ≡ true
      → Step digest m (write_direct_end m bytes error partial now).1
  stream_finish_begin :
      {m : UploadManager} (id : Option Bytes) (now : ℕ) (discard removable : Bool)
      → Step digest m (left_by (upload_finish_begin m id now discard removable))
  stream_finish :
      {m : UploadManager} (env : PublishEnv) → Step digest m (finish_stream digest m env).1
  direct_finish :
      {m : UploadManager} (id : Bytes) (env : PublishEnv)
      → Step digest m (finish_direct digest m id env).1

-- What a manager with a free slot can become.
pub data Reach (digest : Bytes → Bytes) : UploadManager → Type 0 where
  start : {m : UploadManager} → m.slot ≡ empty_slot → Reach digest m
  then_step : {m n : UploadManager} → Reach digest m → Step digest m n → Reach digest n

Step-SlotOk :
    (digest : Bytes → Bytes) (m n : UploadManager) → Step digest m n → SlotOk m.slot → SlotOk n.slot
Step-SlotOk digest m n (reaping now) v = reap-SlotOk m now v
Step-SlotOk digest m n (prepare client authorization meta env now) v =
    prepare_locked-SlotOk m client authorization meta env now v
Step-SlotOk digest m n (begin id client authorization size now) v =
    begin-SlotOk m id client authorization size now v
Step-SlotOk digest m n (chunk_begin id client authorization total offset size now allocated) v =
    chunk_begin-SlotOk m id client authorization total offset size now allocated v
Step-SlotOk digest m n (chunk_write id offset bytes now) v =
    chunk_write-SlotOk m id offset bytes now v
Step-SlotOk digest m n (chunk_finish id offset size now) v =
    chunk_finish-SlotOk m id offset size now v
Step-SlotOk digest m n (chunk_abort id offset now) v = chunk_abort-SlotOk m id offset now v
Step-SlotOk digest m n (writer_round error partial) v = writer-SlotOk m error partial v
Step-SlotOk digest m n (finish_begin id client authorization) v =
    finish_begin-SlotOk m id client authorization v
Step-SlotOk digest m n (finish_publish id env f w) v = finish_publish-SlotOk digest m id env v
Step-SlotOk digest m n (cancel id client authorization removable) v =
    kept_or m _ v (cancel_state m id client authorization removable) (cleared-SlotOk m _)
Step-SlotOk digest m n (abort id) v = kept_or m _ v (abort_state m id) (cleared-SlotOk m _)
Step-SlotOk digest m n (stream_write_begin id size now) v =
    upload_write_begin-SlotOk m id size now v
Step-SlotOk digest m n (stream_write bytes now discard streams) v =
    write_round-SlotOk m bytes now discard streams v
Step-SlotOk digest m n (queue_round error partial streams) v =
    queue_round-SlotOk m error partial streams v
Step-SlotOk digest m n (enable_direct id) v = enable-SlotOk m id v
Step-SlotOk digest m n (direct_begin id size now) v = direct_begin-SlotOk m id size now v
Step-SlotOk digest m n (direct_end bytes error partial now streams) v =
    direct_end-SlotOk m bytes error partial now streams v
Step-SlotOk digest m n (stream_finish_begin id now discard removable) v =
    upload_finish_begin-SlotOk m id now discard removable v
Step-SlotOk digest m n (stream_finish env) v =
    subst SlotOk (sym (finish_stream_cleared digest m env)) empty_slot-SlotOk
Step-SlotOk digest m n (direct_finish id env) v =
    subst SlotOk (sym (finish_direct_cleared digest m id env)) empty_slot-SlotOk

-- In every state that a manager with a free slot reaches by the steps of `Step`, in any order -
-- reaping, prepare, begin, the chunk operations, the writer, writes to streams and direct writes,
-- both finalizations, cancels and aborts, where a round of a stream's write, the writer's round on
-- its queue and the end of a direct write happen only while the slot holds a stream, never after it
-- was cleared - the slot is right: a free one has no chunks and no writer error; without chunk
-- transport no chunk has any bytes; and, unless it is streamed or a write has failed, the first
-- `next_chunk_to_write` chunks are whole in the part file and nothing else is, every other chunk's
-- buffer holds exactly the bytes counted for it, and `received`, `chunks_completed` and
-- `active_chunk_buffers` are the sums over the chunks, the last at most 12.
pub Reach-SlotOk : (digest : Bytes → Bytes) (m : UploadManager) → Reach digest m → SlotOk m.slot
Reach-SlotOk digest m (start e) = subst SlotOk (sym e) empty_slot-SlotOk
Reach-SlotOk digest n (then_step {m = m} r s) = Step-SlotOk digest m n s (Reach-SlotOk digest m r)
