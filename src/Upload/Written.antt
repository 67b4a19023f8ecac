-- ===== src/Upload/Written.antt =====
-- src/upload.c: where a write of a chunk puts its bytes, and the writer's progress.
use ps5_localsend.Base.{
  ℕ, ◌+◌, ◌-◌, ◌*◌, ◌/◌, ◌≤◌, ◌<◌, ◌≡◌, sym, ap, ◌∙◌, some, [], ◌++◌, arith, Bytes, length, get_or,
  set,
}
use ps5_localsend.Upload.Chunks.{
  chunk_at, copied, fill_chunk, write_index, chunk_write_locked, bytes_of,
}
use ps5_localsend.Upload.Content.{content_of, content, content_set, content_get}
use ps5_localsend.Upload.Preserve.{waiting, receiving_inv, copied_end}
use ps5_localsend.Upload.Reach.{Reach-SlotOk, Reach}
use ps5_localsend.Upload.State.{ok, chunk_bytes, chunk_length_for, UploadManager}
use ps5_localsend.Upload.Steps.{in_transport, not_streaming}

write_facts :
    (m : UploadManager) (i relative : ℕ) (bytes : Bytes) (now : ℕ)
    → (write_index m i relative bytes now).0 ≡ ok
    → (i < length m.slot.chunks)
      × ((chunk_at m.slot i).state ≡ 1)
      × (relative ≡ (chunk_at m.slot i).progress)
      × (relative + length bytes ≤ chunk_length_for m.slot.expected_size i)
      × ((write_index m i relative bytes now).1 ≡ fill_chunk m i relative bytes now)
unfolding write_index
write_facts m i relative bytes now e = ground arith

locked_facts :
    (m : UploadManager) (id : Bytes) (offset : ℕ) (bytes : Bytes) (now : ℕ)
    → (chunk_write_locked m id offset bytes now).0 ≡ ok
    → ((write_index m
          (offset / chunk_bytes)
          (offset - offset / chunk_bytes * chunk_bytes)
          bytes
          now).0
        ≡ ok)
      × ((chunk_write_locked m id offset bytes now).1
          ≡ (write_index m
              (offset / chunk_bytes)
              (offset - offset / chunk_bytes * chunk_bytes)
              bytes
              now).1)
unfolding chunk_write_locked
locked_facts m id offset bytes now e = ground arith

fill_content :
    (m : UploadManager) (i relative : ℕ) (bytes b : Bytes) (now : ℕ)
    → m.slot.next_chunk_to_write ≤ i
    → (chunk_at m.slot i).buffer ≡ some b
    → length b ≡ relative
    → content (fill_chunk m i relative bytes now).slot
      ≡ set (content m.slot) i (get_or (content m.slot) i [] ++ bytes)
unfolding fill_chunk content
fill_content m i relative bytes b now le bf l =
    let s = m.slot in
    let before : get_or (content_of s.part s.next_chunk_to_write s.chunks) i [] ≡ b =
      content_get s.part s.next_chunk_to_write s.chunks i le ∙ ap bytes_of bf in
    let after : bytes_of (copied (chunk_at s i).buffer relative bytes) ≡ b ++ bytes =
      ap (λ x. bytes_of (copied x relative bytes)) bf
      ∙ ap bytes_of (copied_end b relative bytes l) in
    content_set s.part s.next_chunk_to_write s.chunks i _ le
    ∙ ap (λ x. set (content_of s.part s.next_chunk_to_write s.chunks) i x)
        (after ∙ ap (λ x. x ++ bytes) (sym before))

-- In a reachable state where no write to the file has failed, a chunk write that answers `ok`
-- appends its bytes to what was received of the chunk at `offset / 8 MiB`, and only there; its
-- offset is the first one of the chunk that was not received.
pub write_appends :
    (digest : Bytes → Bytes) (m : UploadManager) (id : Bytes) (offset : ℕ) (bytes : Bytes) (now : ℕ)
    → Reach digest m
    → m.slot.writer_error ≡ 0
    → (chunk_write_locked m id offset bytes now).0 ≡ ok
    → let old = get_or (content m.slot) (offset / chunk_bytes) [] in
      (content (chunk_write_locked m id offset bytes now).1.slot
        ≡ set (content m.slot) (offset / chunk_bytes) (old ++ bytes))
      × (offset ≡ offset / chunk_bytes * chunk_bytes + length old)
write_appends digest m id offset bytes now r z e =
    let s = m.slot in
    let i = offset / chunk_bytes in
    let relative = offset - i * chunk_bytes in
    let (e', same) = locked_facts m id offset bytes now e in
    let (h, st, rel, fits, filled) = write_facts m i relative bytes now e' in
    let v = Reach-SlotOk digest m r in
    let k = v.chunked (not_streaming s (in_transport s i v st)) z in
    let w = waiting s i k h (λ x. absurd (omega arith)) in
    let (b, bf, l, p) = receiving_inv _ (chunk_at s i) w.chunk_ok st in
    let before : get_or (content s) i [] ≡ b =
      unfold content in
      content_get s.part s.next_chunk_to_write s.chunks i w.not_written ∙ ap bytes_of bf in
    (
      ap (λ (x : UploadManager). content x.slot) (same ∙ filled)
          ∙ fill_content m i relative bytes b now w.not_written bf (l ∙ sym rel),
      omega (arith, ap (λ (x : Bytes). length x) before, l, rel),
    )
