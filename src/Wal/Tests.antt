-- ===== src/Wal/Tests.antt =====
-- Runs of the log on small inputs, and the theorems at them.
use r_search.Base.{
  TreeMap, ℕ, ◌%◌, ◌^◌, ◌<◌, ◌≡◌, ◌≢◌, refl, true, false, List, [], ◌∷◌, ◌++◌, none, some, arith,
  length, take, lookup, pos, negsuc, le_bytes, from_le, AreBytes,
}
use r_search.Wal.Frame.{
  count_loop, Bytes, External, WalItem, RecordLayout, too_long, len_field, id_len_field,
  payload_len, payload, frame, parse_identity, parse_layout, advance, replay_segment,
}
use r_search.Wal.Frame.RoundTrip.{IsWritable, record_of}
use r_search.Wal.Frame.Soundness.{InBounds, advance_sound}
use r_search.Wal.Frame.Exhaust.{Exhausts, replay_segment-Exhausts}
use r_search.Wal.Frame.Replay.{frames, replay_torn}
use r_search.Wal.Log.{
  SegmentFile, Wal, Ticket, acked, ok, open_append, sync_file, collect_confirmed, rotate,
  maybe_rotate, write_item, append_item, append_items, write_phase, finish, commit, append_batch,
  confirm, recount, next_seq, open_wal, outstanding, total, replay,
}
use r_search.Wal.Log.Counts.{IsSound}
use r_search.Wal.Log.Calls.{Outcome, append_batch_outcome}
use r_search.Wal.Log.Durable.{append_batch_durable}
use r_search.Wal.Log.History.{History, start, append, settle, pending_on_disk}
use r_search.Wal.Log.Open.{IsOpened, open_wal-IsOpened, outstanding-open_wal}
use r_search.Wal.Log.Race.{commit_skips_rotated}

abbrev toy_crc : Bytes → ℕ
toy_crc b = length b % 2 ^ 32

toy_crc-lt : (b : Bytes) → toy_crc b < 2 ^ 32
toy_crc-lt b = omega arith

-- A checksum that fits, and texts that are all UTF-8.
abbrev toy : External
toy = record { crc32 = toy_crc; crc32-lt = toy_crc-lt; lossy = λ b. b }

abbrev note : WalItem
note = record {
  stream = 97 ∷ [];
  id = 49 ∷ 50 ∷ [];
  seq = negsuc 4;
  tombstone = true;
  doc = 123 ∷ 125 ∷ [];
}

abbrev event : WalItem
event = record { stream = 98 ∷ []; id = []; seq = pos 7; tombstone = false; doc = 48 ∷ [] }

note-IsWritable : IsWritable toy note
unfolding payload_len
note-IsWritable = record {
  stream_fits = omega arith;
  id_fits = omega arith;
  seq_fits = omega arith;
  payload_fits = omega arith;
  stream_text = refl;
  id_text = refl;
}

event-IsWritable : IsWritable toy event
unfolding payload_len
event-IsWritable = record {
  stream_fits = omega arith;
  id_fits = omega arith;
  seq_fits = omega arith;
  payload_fits = omega arith;
  stream_text = refl;
  id_text = refl;
}

abbrev no_ids : ℕ → Bytes
no_ids n = []

replay_torn_example :
    replay_segment toy 3 no_ids (frames toy (note ∷ event ∷ []) ++ take 9 (frame toy note))
    ≡ record_of note 3 ∷ record_of event 3 ∷ []
replay_torn_example =
    replay_torn toy 3 no_ids (note ∷ event ∷ []) note 9 (note-IsWritable, (event-IsWritable, tt))
      note-IsWritable
      (unfold frame payload payload_len len_field id_len_field le_bytes in omega arith)

abbrev event_layout : RecordLayout
event_layout = record {
  stream = (2, 3);
  id = some (5, 5);
  seq = pos 7;
  tombstone = false;
  doc_start = 13;
}

event_bytes : AreBytes (frame toy event ++ 9 ∷ [])
unfolding frame payload payload_len len_field id_len_field le_bytes
event_bytes = omega arith

event_accepted :
    advance toy (frame toy event ++ 9 ∷ []) ≡ some (payload event, event_layout, 9 ∷ [])
unfolding advance parse_layout parse_identity frame payload payload_len len_field id_len_field
    le_bytes from_le
event_accepted = refl

advance_sound_example :
    (frame toy event ++ 9 ∷ []
      ≡ le_bytes 4 (length (payload event))
        ++ (le_bytes 4 (toy.crc32 (payload event)) ++ (payload event ++ 9 ∷ [])))
    × InBounds (payload event) event_layout
advance_sound_example =
    advance_sound toy (frame toy event ++ 9 ∷ []) (payload event) (9 ∷ []) event_bytes
      event_accepted

replay_segment-Exhausts_example :
    Exhausts toy 3
      (frame toy event ++ 9 ∷ [])
      (replay_segment toy 3 no_ids (frame toy event ++ 9 ∷ []))
replay_segment-Exhausts_example =
    replay_segment-Exhausts toy 3 no_ids (frame toy event ++ 9 ∷ []) event_bytes

-- A legacy record: no flag on the stream's length, so no id and no sequence number.
legacy :
    advance toy (4 ∷ 0 ∷ 0 ∷ 0 ∷ 4 ∷ 0 ∷ 0 ∷ 0 ∷ 1 ∷ 0 ∷ 97 ∷ 48 ∷ [])
    ≡ some (
      1 ∷ 0 ∷ 97 ∷ 48 ∷ [],
      record { stream = (2, 3); id = none; seq = pos 0; tombstone = false; doc_start = 3 },
      [],
    )
unfolding advance parse_layout from_le
legacy = refl

-- A fresh log whose segments rotate at 20 bytes.
abbrev empty_log : Wal
empty_log = record {
  max_segment_bytes = 20;
  current_seq = 0;
  current_len = 0;
  segments = (0, record { outstanding = 0; sealed = false }) ∷ [];
  written = 0;
  synced = 0;
  disk = (0, record { content = []; durable = 0 }) ∷ [];
}

empty_opened : open_wal toy 20 [] ≡ empty_log
unfolding open_wal recount next_seq open_append
empty_opened = refl

empty_log-IsSound : IsSound empty_log
empty_log-IsSound = record {
  keys = omega arith;
  current = (record { outstanding = 0; sealed = false }, refl, refl);
  stored = λ seg h. ground (arith, h);
}

abbrev two_items : List WalItem
two_items = note ∷ event ∷ []

two_acked : (append_batch toy two_items empty_log).1 ≡ acked (0 ∷ 1 ∷ [])
unfolding append_batch write_phase append_items append_item maybe_rotate rotate write_item too_long
    payload_len collect_confirmed open_append
two_acked = refl

append_batch_outcome_example :
    Outcome toy two_items empty_log empty_log-IsSound
      (append_batch toy two_items empty_log).0
      (append_batch toy two_items empty_log).1
append_batch_outcome_example = append_batch_outcome toy two_items empty_log empty_log-IsSound

append_batch_durable_example :
    (file : SegmentFile) × (lookup 1 (append_batch toy two_items empty_log).0.disk ≡ some file)
    × (file.durable ≡ length file.content)
append_batch_durable_example =
    append_batch_durable toy two_items empty_log empty_log-IsSound (omega arith) (λ e. cc)
      (0 ∷ 1 ∷ []) 1 two_acked refl

-- The first record is confirmed, the second is not.
one_left : History toy (confirm (0 ∷ []) (append_batch toy two_items empty_log).0) (1 ∷ [])
one_left =
    settle (0 ∷ []) (1 ∷ []) (append two_items (start empty_log-IsSound) two_acked)
      (λ seg. ground arith)

pending_on_disk_example :
    lookup 1 (confirm (0 ∷ []) (append_batch toy two_items empty_log).0).disk ≢ none
pending_on_disk_example = pending_on_disk 1 one_left (omega arith)

-- Two files of an earlier run, the second with a torn record at its end.
abbrev old_files : TreeMap SegmentFile
old_files =
    (2, record { content = frames toy (note ∷ event ∷ []); durable = 0 })
    ∷ (4, record { content = frame toy event ++ 9 ∷ []; durable = 0 })
    ∷ []

three_left : outstanding (open_wal toy 20 old_files) ≡ 3
unfolding open_wal total recount next_seq count_loop advance parse_layout parse_identity frame
    payload payload_len len_field id_len_field le_bytes from_le
three_left = refl

open_wal-IsOpened_example : IsOpened toy no_ids old_files (open_wal toy 20 old_files)
open_wal-IsOpened_example =
    open_wal-IsOpened toy 20 old_files
      (5, (omega arith, omega arith, (omega arith, omega arith, tt))) no_ids

outstanding-open_wal_example :
    outstanding (open_wal toy 20 old_files) ≡ length (replay toy (λ seg. no_ids) old_files)
outstanding-open_wal_example =
    outstanding-open_wal toy 20 old_files
      (5, (omega arith, omega arith, (omega arith, omega arith, tt))) (λ seg. no_ids)

-- Appender A wrote `note` to segment 0 and has not committed.
abbrev first_ticket : Ticket
first_ticket = record { fd = 0; gen = 1; sealed = []; victims = []; positions = 0 ∷ [] }

abbrev after_first : Wal
after_first = record empty_log {
  current_len = 25;
  segments = (0, record { outstanding = 1; sealed = false }) ∷ [];
  written = 1;
  disk = (0, record { content = frame toy note; durable = 0 }) ∷ [];
}

first_written : write_phase toy (note ∷ []) empty_log ≡ (after_first, ok first_ticket)
unfolding write_phase append_items append_item maybe_rotate write_item too_long payload_len
first_written = refl

-- Appender B writes `event`, which goes to segment 1.
abbrev second_ticket : Ticket
second_ticket = record { fd = 1; gen = 2; sealed = 0 ∷ []; victims = []; positions = 1 ∷ [] }

abbrev after_second : Wal
after_second = record {
  max_segment_bytes = 20;
  current_seq = 1;
  current_len = 22;
  segments =
      (0, record { outstanding = 1; sealed = true })
      ∷ (1, record { outstanding = 1; sealed = false })
      ∷ [];
  written = 2;
  synced = 0;
  disk =
      (0, record { content = frame toy note; durable = 0 })
      ∷ (1, record { content = frame toy event; durable = 0 })
      ∷ [];
}

second_written : write_phase toy (event ∷ []) after_first ≡ (after_second, ok second_ticket)
unfolding write_phase append_items append_item maybe_rotate rotate write_item too_long payload_len
    collect_confirmed open_append
second_written = refl

commit_skips_rotated_example :
    (commit second_ticket (commit first_ticket (finish second_ticket after_second))
      ≡ commit first_ticket (finish second_ticket after_second))
    × (lookup 1
          (commit second_ticket (commit first_ticket (finish second_ticket after_second))).disk
        ≡ lookup 1 (finish second_ticket after_second).disk)
commit_skips_rotated_example =
    commit_skips_rotated toy (event ∷ []) after_first after_second first_ticket second_ticket
      (omega arith) second_written (omega arith)

-- B's call has returned, and no byte of its segment is synced.
nothing_synced :
    lookup 1 (commit second_ticket (commit first_ticket (finish second_ticket after_second))).disk
    ≡ some (record { content = frame toy event; durable = 0 })
unfolding commit finish sync_file
nothing_synced = refl
